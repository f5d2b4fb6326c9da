-- ===== src/Credit/Deduct.antt =====
-- Deducting credits: DeductCreditsWithTx, deductCreditsForMember, deductCreditsForNonMember and
-- performDeduction of internal/service/credit/service.go. Go's map from amount ids to deductions is
-- an association list.
pub mod Charges
pub mod Loop
pub mod Effect
pub mod Pool
pub mod Draw
pub mod Conservation
pub mod Affordable
pub mod Decision
pub mod Settled
pub mod Priority
use genioai_wxmini_server.Base.{
  ℕ, ℤ, String, suc, ◌+◌, Bool, true, false, Option, none, some, List, [], ◌∷◌, ◌++◌, ◌==◌, leb_ℤ,
  ltb_ℤ, pos, is_zero, add64, sub64, neg64, min64, if◌then◌else◌, where_rows, not,
}
use genioai_wxmini_server.Credit.Model.{
  CreditType, purchased, membership_grant, daily_free, event_grant, TransactionType, UserAmount,
  CreditTransaction, type_eq,
}
use genioai_wxmini_server.Credit.Store.{
  Error, Result, ok, err, Db, M, pure, raise, ◌>>=◌, ◌>>◌, modify, statement, insufficient_credits,
  transaction,
}
use genioai_wxmini_server.Credit.Dao.{
  OrderBy, is_type, get_user_amounts, update_user_amount, create_transaction,
}

-- The arguments that the deduction passes on unchanged.
pub record Request : Type 0 where
  pub project_id : String
  pub user_id : String
  pub source_id : String
  pub transaction_type : TransactionType
  pub description : String

abbrev pub DeductionInfo : Type 0
DeductionInfo = List (ℕ × ℤ)

-- `m[k] = v`
abbrev pub put : ℕ → ℤ → DeductionInfo → DeductionInfo
put k v [] = (k, v) ∷ []
put k v ((j, w) ∷ m) = if j == k then (k, v) ∷ m else (j, w) ∷ put k v m

-- `uuid.NewString()`
abbrev pub draw : M ℕ
draw db = (ok db.drawn, record db { drawn = db.drawn + 1 })

abbrev pub reduced : UserAmount → ℤ → UserAmount
reduced ua deduction = record ua { remaining_amount = sub64 ua.remaining_amount deduction }

abbrev pub usage_row : Request → UserAmount → ℤ → ℕ → CreditTransaction
usage_row r ua deduction number = record {
  project_id = r.project_id;
  user_id = r.user_id;
  transaction_id = number;
  transaction_type = r.transaction_type;
  amount_change = neg64 deduction;
  credit_type = ua.amount_iden;
  balance_after = sub64 ua.remaining_amount deduction;
  source_id = r.source_id;
  description = r.description;
}

-- The body of the loop once the deduction is known to be non-zero.
unfoldable pub charge : Request → UserAmount → ℤ → M (Unit {0})
unfolding update_user_amount create_transaction
charge r ua deduction = do
  update_user_amount (reduced ua deduction)
  number ← draw
  create_transaction (usage_row r ua deduction number)

unfoldable pub perform_deduction : Request → ℤ → List UserAmount → DeductionInfo → M DeductionInfo
perform_deduction r left [] info = pure info
perform_deduction r left (ua ∷ uas) info =
    let deduction = min64 left ua.remaining_amount in
    let skip = perform_deduction r left uas info in
    let spend =
      charge r ua deduction
      >> perform_deduction r (sub64 left deduction) uas (put ua.id deduction info) in
    if is_zero left then pure info else if is_zero deduction then skip else spend

-- `total += ua.RemainingAmount` over a list.
abbrev pub total64 : ℤ → List UserAmount → ℤ
total64 acc [] = acc
total64 acc (ua ∷ uas) = total64 (add64 acc ua.remaining_amount) uas

-- The rows of one type, and the rows that a member may use.
abbrev pub of_type : CreditType → List UserAmount → List UserAmount
of_type t = where_rows (is_type t)

abbrev pub not_daily_free : List UserAmount → List UserAmount
not_daily_free = where_rows (λ ua. not (is_type daily_free ua))

unfoldable pub deduct_credits_for_member : Request → ℤ → List UserAmount → M DeductionInfo
deduct_credits_for_member r amount user_amounts =
    let available_amounts = not_daily_free user_amounts in
    let total_balance = total64 (pos 0) available_amounts in
    if ltb_ℤ total_balance amount
    then raise insufficient_credits
    else perform_deduction r amount available_amounts []

-- The rows of the three types that may be mixed, in the order in which they are used up.
abbrev pub combined_amounts : List UserAmount → List UserAmount
combined_amounts uas =
    (of_type purchased uas ++ of_type membership_grant uas) ++ of_type event_grant uas

abbrev pub paid_total : List UserAmount → ℤ
paid_total uas =
    add64
      (add64 (total64 (pos 0) (of_type purchased uas))
        (total64 (pos 0) (of_type membership_grant uas)))
      (total64 (pos 0) (of_type event_grant uas))

unfoldable pub deduct_credits_for_non_member : Request → ℤ → List UserAmount → M DeductionInfo
deduct_credits_for_non_member r amount user_amounts =
    if leb_ℤ amount (total64 (pos 0) (of_type daily_free user_amounts))
    then perform_deduction r amount (of_type daily_free user_amounts) []
    else if leb_ℤ amount (paid_total user_amounts)
    then perform_deduction r amount (combined_amounts user_amounts) []
    else raise insufficient_credits

unfoldable pub deduct_credits_with_tx : OrderBy → ℕ → Request → ℤ → Bool → M DeductionInfo
unfolding deduct_credits_for_member deduct_credits_for_non_member
deduct_credits_with_tx order now r amount is_member = do
  user_amounts ← get_user_amounts order now r.project_id r.user_id
  if is_member
      then deduct_credits_for_member r amount user_amounts
      else deduct_credits_for_non_member r amount user_amounts

unfoldable pub deduct_credits : OrderBy → ℕ → Request → ℤ → Bool → M DeductionInfo
unfolding deduct_credits_with_tx transaction
deduct_credits order now r amount is_member =
    transaction (deduct_credits_with_tx order now r amount is_member)
