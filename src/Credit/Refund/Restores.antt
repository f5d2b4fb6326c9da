-- ===== src/Credit/Refund/Restores.antt =====
-- A refund gives back what its map says.
use genioai_wxmini_server.Base.{
  ℕ, ℤ, String, Bool, true, some, List, [], ◌∷◌, ◌==◌, ==_iff, ◌≡◌, refl, sym, ap, subst, ◌∙◌, All,
  any, where_rows, ◌+ℤ◌, arith, IsInt64, ◌||◌,
}
use genioai_wxmini_server.Credit.Model.{UserAmount}
use genioai_wxmini_server.Credit.Store.{Db, ok, find_row, continue-eq-ok, transaction_ok, statement}
use genioai_wxmini_server.Credit.Dao.{has_id, get_user_amounts_by_ids}
use genioai_wxmini_server.Credit.Deduct.{DeductionInfo}
use genioai_wxmini_server.Credit.Deduct.Charges.{sum_remaining}
use genioai_wxmini_server.Credit.Deduct.Effect.{sum_changes}
use genioai_wxmini_server.Credit.Deduct.Conservation.{sum_info}
use genioai_wxmini_server.Credit.Refund.{
  RefundTask, parsed, keys, refund_map, refund_stored, refund_credits, refund_loop,
}
use genioai_wxmini_server.Credit.Refund.Returned.{
  IsDue, DistinctKeys, Returned, refund_loop-Returned, find_row-where_rows, nothing-Returned,
}

-- The row of an entry is there, with room for the amount.
abbrev pub IsRefundable : List UserAmount → ℕ × ℤ → Type 0
IsRefundable rows (k, d) =
    (u : UserAmount) × (find_row k rows ≡ some u) × IsInt64 (u.remaining_amount +ℤ d)

get_user_amounts_by_ids_ok :
    (i : ℕ) (ids : List ℕ) (db : Db) {found : List UserAmount} {db' : Db}
    → get_user_amounts_by_ids (i ∷ ids) db ≡ (ok found, db')
    → (found ≡ where_rows (has_id (i ∷ ids)) db.amounts)
      × (db'.amounts ≡ db.amounts)
      × (db'.transactions ≡ db.transactions)
unfolding get_user_amounts_by_ids statement
get_user_amounts_by_ids_ok i ids db h = ground arith

All-keys : (m : DeductionInfo) → All (λ e. any (λ j. e.0 == j) (keys m) ≡ true) m
All-keys m = within m m (λ k h. h)
  where
    within :
        (whole part : DeductionInfo)
        → ((k : ℕ) → any (λ j. k == j) (keys part) ≡ true → any (λ j. k == j) (keys whole) ≡ true)
        → All (λ e. any (λ j. e.0 == j) (keys whole) ≡ true) part
    within whole [] f = tt
    within whole ((k, d) ∷ part) f = (
      f k (rw ((==_iff k k).1 refl) refl),
      within whole part (λ i h. f i (or_right (i == k) (any (λ j. i == j) (keys part)) h)),
    )
      where
        or_right : (a b : Bool) → b ≡ true → (a || b) ≡ true
        or_right a b h = ground arith

All-IsDue :
    (ids : List ℕ) (rows : List UserAmount) (m : DeductionInfo)
    → All (λ e. any (λ j. e.0 == j) ids ≡ true) m
    → All (IsRefundable rows) m
    → All (IsDue (where_rows (has_id ids) rows) rows) m
All-IsDue ids rows [] a h = tt
All-IsDue ids rows ((k, d) ∷ m) a h =
    let (u, f, i) = h.0 in
    ((u, find_row-where_rows k ids rows a.0 ∙ f, f, i), All-IsDue ids rows m a.1 h.1)

refund_map-Returned :
    (t : RefundTask) (description : String) (k : ℕ) (d : ℤ) (m : DeductionInfo) (db : Db)
    {y : Unit {0}} {db' : Db}
    → DistinctKeys ((k, d) ∷ m)
    → All (IsRefundable db.amounts) ((k, d) ∷ m)
    → refund_map t description ((k, d) ∷ m) db ≡ (ok y, db')
    → Returned ((k, d) ∷ m) db db'
unfolding refund_map
refund_map-Returned t description k d m db {y} {db'} dist due run =
    let whole = (k, d) ∷ m in
    let (found, mid, first, rest) =
      continue-eq-ok (λ found. refund_loop t description found whole)
        (get_user_amounts_by_ids (keys whole) db) run in
    let (f, a, b) = get_user_amounts_by_ids_ok k (keys m) db first in
    let at_start = All-IsDue (keys whole) db.amounts whole (All-keys whole) due in
    let due' =
      subst (λ rows. All (IsDue found rows) whole) (sym a)
        (subst (λ fs. All (IsDue fs db.amounts) whole) (sym f) at_start) in
    let (x, z) = refund_loop-Returned t description found whole mid dist due' rest in
    (
      subst (λ rows. sum_remaining db'.amounts ≡ sum_remaining rows +ℤ sum_info whole) a x,
      subst (λ rows. sum_changes db'.transactions ≡ sum_changes rows +ℤ sum_info whole) b z,
    )

Returned-across :
    (m : DeductionInfo) (db s1 s2 db' : Db)
    → s1.amounts ≡ db.amounts
    → s1.transactions ≡ db.transactions
    → db'.amounts ≡ s2.amounts
    → db'.transactions ≡ s2.transactions
    → Returned m s1 s2
    → Returned m db db'
Returned-across m db s1 s2 db' a t a' t' r = (
  ap sum_remaining a' ∙ (r.0 ∙ ap (λ rows. sum_remaining rows +ℤ sum_info m) a),
  ap sum_changes t' ∙ (r.1 ∙ ap (λ rows. sum_changes rows +ℤ sum_info m) t),
)

refund_stored-Returned :
    (t : RefundTask) (description : String) (m : DeductionInfo) (db : Db) {y : Unit {0}} {db' : Db}
    → DistinctKeys m
    → All (IsRefundable db.amounts) m
    → refund_stored t description (parsed m) db ≡ (ok y, db')
    → Returned m db db'
unfolding refund_stored refund_loop
refund_stored-Returned t description [] db {y} {db'} dist due run =
    nothing-Returned t description [] db run
refund_stored-Returned t description ((k, d) ∷ m) db {y} {db'} dist due run =
    let (s1, s2, body, a, tr, a', tr') =
      transaction_ok (refund_map t description ((k, d) ∷ m)) db run in
    Returned-across ((k, d) ∷ m) db s1 s2 db' a tr a' tr' (
      refund_map-Returned t description k d m s1 dist
        (subst (λ rows. All (IsRefundable rows) ((k, d) ∷ m)) (sym a) due) body)

-- A successful refund adds to the balances, and to the ledger, exactly the sum of the deductions in
-- the map of the task. Assumed: the map decodes, with distinct keys, and each of its rows is in the
-- table with a balance that the refund keeps in an int64.
pub refund_credits-returns :
    (t : RefundTask) (description : String) (m : DeductionInfo) (db : Db) {y : Unit {0}} {db' : Db}
    → t.deduction_info ≡ parsed m
    → DistinctKeys m
    → All (IsRefundable db.amounts) m
    → refund_credits t description db ≡ (ok y, db')
    → (sum_remaining db'.amounts ≡ sum_remaining db.amounts +ℤ sum_info m)
      × (sum_changes db'.transactions ≡ sum_changes db.transactions +ℤ sum_info m)
unfolding refund_credits
refund_credits-returns t description m db {y} {db'} e dist due run =
    refund_stored-Returned t description m db dist due
      (subst (λ i. refund_stored t description i db ≡ (ok y, db')) e run)
