-- ===== src/Credit/Deduct/Settled.antt =====
-- DeductCredits in its own transaction.
use genioai_wxmini_server.Base.{
  ℕ, ℤ, Bool, ◌≡◌, refl, sym, ap, subst, ◌∙◌, All, IsInt64, pos, ◌+ℤ◌, ◌≤ℤ◌,
}
use genioai_wxmini_server.Credit.Store.{Db, Result, ok, err, transaction_ok, transaction_err}
use genioai_wxmini_server.Credit.Dao.{OrderBy}
use genioai_wxmini_server.Credit.Table.{Distinct}
use genioai_wxmini_server.Credit.Selection.{IsBalance}
use genioai_wxmini_server.Credit.Deduct.{
  Request, DeductionInfo, deduct_credits, deduct_credits_with_tx,
}
use genioai_wxmini_server.Credit.Deduct.Charges.{sum_remaining}
use genioai_wxmini_server.Credit.Deduct.Effect.{sum_changes}
use genioai_wxmini_server.Credit.Deduct.Conservation.{sum_info, deduct_credits_with_tx-conserves}
use genioai_wxmini_server.Credit.Invariant.{IsSound, IsOrder}

-- All of the deduction, or nothing of it.
abbrev pub IsSettled : ℤ → Db → Result DeductionInfo × Db → Type 0
IsSettled amount db (ok info, db') =
    (sum_remaining db'.amounts +ℤ amount ≡ sum_remaining db.amounts)
    × (sum_info info ≡ amount)
    × (sum_changes db'.transactions +ℤ amount ≡ sum_changes db.transactions)
    × IsSound db'
IsSettled amount db (err e, db') = (db'.amounts ≡ db.amounts) × (db'.transactions ≡ db.transactions)

-- Soundness is a property of the amounts table alone.
IsSound-amounts : (a b : Db) → b.amounts ≡ a.amounts → IsSound a → IsSound b
IsSound-amounts a b e s = record {
  distinct = subst Distinct (sym e) s.distinct;
  balances = subst (All IsBalance) (sym e) s.balances;
  bounded = subst (λ rows. IsInt64 (sum_remaining rows)) (sym e) s.bounded;
}

settled :
    (order : OrderBy) (now : ℕ) (r : Request) (amount : ℤ) (is_member : Bool) (db : Db)
    → IsOrder order
    → IsSound db
    → pos 0 ≤ℤ amount
    → IsInt64 amount
    → (x : Result DeductionInfo × Db) → deduct_credits order now r amount is_member db ≡ x
    → IsSettled amount db x
unfolding deduct_credits
settled order now r amount is_member db o s p i (ok info, db') run =
    let body = deduct_credits_with_tx order now r amount is_member in
    let (s1, s2, inner, a1, t1, a2, t2) = transaction_ok body db run in
    let (balance, of_info, ledger, sound) =
      deduct_credits_with_tx-conserves order now r amount is_member s1 o
        (IsSound-amounts db s1 a1 s) p i inner in
    (
      ap (λ rows. sum_remaining rows +ℤ amount) a2 ∙ (balance ∙ ap sum_remaining a1),
      of_info,
      ap (λ rows. sum_changes rows +ℤ amount) t2 ∙ (ledger ∙ ap sum_changes t1),
      IsSound-amounts s2 db' a2 sound,
    )
settled order now r amount is_member db o s p i (err e, db') run =
    transaction_err (deduct_credits_with_tx order now r amount is_member) db run

-- `DeductCredits` is all or nothing: on success the balances fall by the amount, the returned map and
-- the new ledger entries sum to it, and the table stays sound; on any error, also one of the commit,
-- both tables are as before. Assumed: a sound table, an amount from 0 to the largest int64, and an
-- ORDER BY that returns the selected rows in some order.
pub deduct_credits-IsSettled :
    (order : OrderBy) (now : ℕ) (r : Request) (amount : ℤ) (is_member : Bool) (db : Db)
    → IsOrder order
    → IsSound db
    → pos 0 ≤ℤ amount
    → IsInt64 amount
    → IsSettled amount db (deduct_credits order now r amount is_member db)
deduct_credits-IsSettled order now r amount is_member db o s p i =
    settled order now r amount is_member db o s p i _ refl
