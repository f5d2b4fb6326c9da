-- ===== src/Credit/Tests/Deduction.antt =====
-- The theorems on deductions, refunds and balances at concrete runs.
use genioai_wxmini_server.Base.{
  add64, wrap64, false, List, [], ◌∷◌, ◌≡◌, ◌⊎◌, refl, pos, ◌+ℤ◌, arith, ◌<ℤ◌, IsInt64, ◌++◌,
  where_rows, int_laws,
}
use genioai_wxmini_server.Credit.Model.{UserAmount, purchased, membership_grant, daily_free}
use genioai_wxmini_server.Credit.Store.{Db, ok, err, insufficient_credits}
use genioai_wxmini_server.Credit.Dao.{
  is_type, sum_of, is_available, is_overview_row, get_user_credit_overview, get_user_amounts_by_ids,
  get_user_amounts,
}
use genioai_wxmini_server.Credit.Deduct.{DeductionInfo, perform_deduction, deduct_credits_with_tx}
use genioai_wxmini_server.Credit.Deduct.Charges.{sum_remaining}
use genioai_wxmini_server.Credit.Deduct.Effect.{sum_changes}
use genioai_wxmini_server.Credit.Deduct.Conservation.{
  sum_info, deduct_credits_with_tx-conserves, deduct_credits_with_tx-unmixed,
}
use genioai_wxmini_server.Credit.Deduct.Decision.{deduct_credits_with_tx_decides}
use genioai_wxmini_server.Credit.Deduct.{deduct_credits}
use genioai_wxmini_server.Credit.Deduct.Settled.{IsSettled, deduct_credits-IsSettled}
use genioai_wxmini_server.Credit.Deduct.Affordable.{IsAffordable}
use genioai_wxmini_server.Credit.Deduct.Priority.{perform_deduction_covered}
use genioai_wxmini_server.Credit.Refund.{RefundTask, parsed, refund_map, refund_credits}
use genioai_wxmini_server.Credit.Refund.Restores.{refund_credits-returns}
use genioai_wxmini_server.Credit.Refund.RoundTrip.{refund_credits-deduct_credits_with_tx}
use genioai_wxmini_server.Credit.Balance.{
  UserCreditBalance, detail, count_row, get_user_credit_balance,
}
use genioai_wxmini_server.Credit.Balance.Agreement.{get_user_credit_balance_agrees}
use genioai_wxmini_server.Credit.Balance.Parts.{is_unlisted}
use genioai_wxmini_server.Credit.Invariant.{IsSound}
use genioai_wxmini_server.Credit.Tests.{
  row, bought, gift, membership, three_rows, as_stored, as_stored-IsOrder, three_rows-IsSound,
  request, seven, seven_spent, deduct_seven,
}

deduct_credits_with_tx-conserves_example :
    (sum_remaining seven_spent.amounts +ℤ pos 7 ≡ sum_remaining three_rows.amounts)
    × (sum_info seven ≡ pos 7)
    × (sum_changes seven_spent.transactions +ℤ pos 7 ≡ sum_changes three_rows.transactions)
    × IsSound seven_spent
deduct_credits_with_tx-conserves_example =
    deduct_credits_with_tx-conserves as_stored 10 request (pos 7) false three_rows as_stored-IsOrder
      three_rows-IsSound (omega arith) (omega arith) deduct_seven

deduct_credits_with_tx-unmixed_example :
    ((false ≡ false)
      × (sum_of (is_type daily_free) seven_spent.amounts +ℤ pos 7
          ≡ sum_of (is_type daily_free) three_rows.amounts))
    ⊎ (sum_of (is_type daily_free) seven_spent.amounts
        ≡ sum_of (is_type daily_free) three_rows.amounts)
deduct_credits_with_tx-unmixed_example =
    deduct_credits_with_tx-unmixed as_stored 10 request (pos 7) false three_rows as_stored-IsOrder
      three_rows-IsSound (omega arith) (omega arith) deduct_seven

abbrev usable_rows : List UserAmount
usable_rows = where_rows (is_available "p" "u" 10) three_rows.amounts

deduct_credits_with_tx_decides_example :
    (IsAffordable false (pos 7) usable_rows
      × ((info : DeductionInfo) × (db' : Db) × (deduct_credits_with_tx as_stored 10 request
              (pos 7)
              false
              three_rows
            ≡ (ok info, db'))))
    ⊎ ((¬ IsAffordable false (pos 7) usable_rows)
        × (deduct_credits_with_tx as_stored 10 request (pos 7) false three_rows
            ≡ (err insufficient_credits, three_rows)))
deduct_credits_with_tx_decides_example =
    deduct_credits_with_tx_decides as_stored 10 request (pos 7) false three_rows as_stored-IsOrder
      three_rows-IsSound refl

bought_funded : (pos 0 <ℤ bought.remaining_amount) × IsInt64 bought.remaining_amount
bought_funded = (omega arith, omega arith)

perform_deduction_covered_example :
    perform_deduction request (pos 4) ((bought ∷ []) ++ membership ∷ []) []
    ≡ perform_deduction request (pos 4) (bought ∷ []) []
perform_deduction_covered_example =
    perform_deduction_covered request (membership ∷ []) (pos 4) (bought ∷ []) [] (bought_funded, tt)
      (omega arith) (omega arith) (omega int_laws)

-- The refund of the deduction of seven.
abbrev failed_task : RefundTask
failed_task = record {
  project_id = "p";
  user_id = "u";
  task_id = "task";
  deduction_info = parsed seven;
}

abbrev refunded_seven : Db
refunded_seven = (refund_credits failed_task "" seven_spent).1

refund_seven : refund_credits failed_task "" seven_spent ≡ (ok tt, refunded_seven)
unfolding refund_credits refund_map get_user_amounts_by_ids
refund_seven = refl

refund_credits-returns_example :
    (sum_remaining refunded_seven.amounts ≡ sum_remaining seven_spent.amounts +ℤ sum_info seven)
    × (sum_changes refunded_seven.transactions
        ≡ sum_changes seven_spent.transactions +ℤ sum_info seven)
unfolding ◌+ℤ◌
refund_credits-returns_example =
    refund_credits-returns failed_task "" seven seven_spent refl
      (((λ h. ground arith), tt), (tt, tt))
      (
        (row 1 "order" purchased 0 100, refl, omega arith),
        ((row 3 "member" membership_grant 2 20, refl, omega arith), tt),
      )
      refund_seven

refund_credits-deduct_credits_with_tx_example :
    (sum_remaining refunded_seven.amounts ≡ sum_remaining three_rows.amounts)
    × (sum_changes refunded_seven.transactions ≡ sum_changes three_rows.transactions)
refund_credits-deduct_credits_with_tx_example =
    refund_credits-deduct_credits_with_tx as_stored 10 request (pos 7) false three_rows failed_task
      "" as_stored-IsOrder three_rows-IsSound (omega arith) (omega arith) deduct_seven refl
      refund_seven

abbrev three_counted : UserCreditBalance
three_counted = record {
  user_id = "u";
  project_id = "p";
  purchased_credits = pos 5;
  subscription_credits = pos 4;
  system_grant_credits = pos 3;
  total_credits = pos 12;
  credit_details = detail bought ∷ detail gift ∷ detail membership ∷ [];
}

count_three :
    get_user_credit_balance as_stored 10 "p" "u" three_rows ≡ (ok three_counted, three_rows)
unfolding get_user_credit_balance get_user_amounts count_row add64 wrap64 ◌+ℤ◌
count_three = refl

sum_three :
    get_user_credit_overview 10 "p" "u" three_rows ≡ (ok (pos 12, pos 4, pos 5, pos 3), three_rows)
unfolding get_user_credit_overview add64 wrap64 ◌+ℤ◌
sum_three = refl

get_user_credit_balance_agrees_example :
    let rows = where_rows (is_overview_row "p" "u" 10) three_rows.amounts in
    (three_counted.purchased_credits ≡ pos 5)
    × (three_counted.subscription_credits ≡ pos 4)
    × (three_counted.system_grant_credits ≡ pos 3)
    × (three_counted.total_credits ≡ pos 12 +ℤ sum_of (λ r. is_unlisted r.amount_iden) rows)
get_user_credit_balance_agrees_example =
    get_user_credit_balance_agrees as_stored 10 "p" "u" three_rows as_stored-IsOrder
      three_rows-IsSound count_three sum_three

-- The whole deduction in its transaction.
deduct_credits-IsSettled_example :
    IsSettled (pos 7) three_rows (deduct_credits as_stored 10 request (pos 7) false three_rows)
deduct_credits-IsSettled_example =
    deduct_credits-IsSettled as_stored 10 request (pos 7) false three_rows as_stored-IsOrder
      three_rows-IsSound (omega arith) (omega arith)
