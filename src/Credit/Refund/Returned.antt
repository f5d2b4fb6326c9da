-- ===== src/Credit/Refund/Returned.antt =====
-- What a successful refund does to the balances and to the ledger.
use genioai_wxmini_server.Base.{
  ℕ, ℤ, String, true, Option, some, List, [], ◌∷◌, ◌==◌, ==_iff, ◌≡◌, ◌≢◌, refl, sym, ap, subst,
  ◌∙◌, All, any, where_rows, ◌+ℤ◌, int_laws, parts_of_eq, arith, IsInt64, add_zero_ℤ, add64_exact,
  Bool-cases, inl, inr,
}
use genioai_wxmini_server.Credit.Model.{UserAmount}
use genioai_wxmini_server.Credit.Store.{Db, Result, ok, find_row, save_row, continue-eq-ok, ◌>>◌}
use genioai_wxmini_server.Credit.Dao.{has_id}
use genioai_wxmini_server.Credit.Table.{find_row-save_row_ne, find_row_id, sum_of-save_row}
use genioai_wxmini_server.Credit.Deduct.{DeductionInfo}
use genioai_wxmini_server.Credit.Deduct.Charges.{sum_remaining}
use genioai_wxmini_server.Credit.Deduct.Effect.{sum_changes}
use genioai_wxmini_server.Credit.Deduct.Conservation.{sum_info}
use genioai_wxmini_server.Credit.Selection.{sum_of-true}
use genioai_wxmini_server.Credit.Refund.{
  RefundTask, refunded, refund_row, refund_one, refund_entry, refund_loop,
}

refund_one_ok :
    (t : RefundTask) (description : String) (u : UserAmount) (x : ℤ) (db : Db) {y : Unit {0}}
    {db' : Db}
    → refund_one t description u x db ≡ (ok y, db')
    → (db'.amounts ≡ save_row (refunded u x) db.amounts)
      × (db'.transactions ≡ refund_row t description u x db.drawn ∷ db.transactions)
unfolding refund_one
refund_one_ok t description u x db h = ground arith

-- The row of an entry, as it was fetched and as it is, has room for the amount.
abbrev pub IsDue : List UserAmount → List UserAmount → ℕ × ℤ → Type 0
IsDue found rows (k, d) =
    (u : UserAmount) × (find_row k found ≡ some u)
    × (find_row k rows ≡ some u)
    × IsInt64 (u.remaining_amount +ℤ d)

-- No key stands twice, as in any map.
abbrev pub DistinctKeys : DeductionInfo → Type 0
DistinctKeys [] = Unit
DistinctKeys ((k, d) ∷ m) = All (λ e. e.0 ≢ k) m × DistinctKeys m

-- A refund of one row leaves the other entries due.
others-IsDue :
    (found rows : List UserAmount) (u : UserAmount) (m : DeductionInfo)
    → All (λ e. e.0 ≢ u.id) m
    → All (IsDue found rows) m
    → All (IsDue found (save_row u rows)) m
others-IsDue found rows u [] a h = tt
others-IsDue found rows u ((k, d) ∷ m) a h =
    let (v, f, g, i) = h.0 in
    ((v, f, find_row-save_row_ne k u rows a.0 ∙ g, i), others-IsDue found rows u m a.1 h.1)

-- What a refund of `m` adds to both sums.
abbrev pub Returned : DeductionInfo → Db → Db → Type 0
Returned m db db' =
    (sum_remaining db'.amounts ≡ sum_remaining db.amounts +ℤ sum_info m)
    × (sum_changes db'.transactions ≡ sum_changes db.transactions +ℤ sum_info m)

one_returned :
    (t : RefundTask) (description : String) (k : ℕ) (d : ℤ) (u : UserAmount) (db mid : Db)
    → find_row u.id db.amounts ≡ some u
    → IsInt64 (u.remaining_amount +ℤ d)
    → mid.amounts ≡ save_row (refunded u d) db.amounts
    → mid.transactions ≡ refund_row t description u d db.drawn ∷ db.transactions
    → (sum_remaining mid.amounts ≡ sum_remaining db.amounts +ℤ d)
      × (sum_changes mid.transactions ≡ sum_changes db.transactions +ℤ d)
unfolding sum_changes
one_returned t description k d u db mid f i a b =
    let saved = parts_of_eq _ _ (sum_of-save_row (λ _. true) (refunded u d) u db.amounts f) in
    let exact = parts_of_eq _ _ (add64_exact u.remaining_amount d i) in
    (
      rw (a, ← sum_of-true (save_row (refunded u d) db.amounts), ← sum_of-true db.amounts)
          (omega int_laws),
      rw b (omega int_laws),
    )

Returned-step :
    (k : ℕ) (d : ℤ) (m : DeductionInfo) (db mid db' : Db)
    → (sum_remaining mid.amounts ≡ sum_remaining db.amounts +ℤ d)
      × (sum_changes mid.transactions ≡ sum_changes db.transactions +ℤ d)
    → Returned m mid db'
    → Returned ((k, d) ∷ m) db db'
Returned-step k d m db mid db' one rest =
    let a = parts_of_eq _ _ one.0 in
    let b = parts_of_eq _ _ one.1 in
    let a' = parts_of_eq _ _ rest.0 in
    let b' = parts_of_eq _ _ rest.1 in (omega int_laws, omega int_laws)

entry_one :
    (t : RefundTask) (description : String) (u : UserAmount) (d : ℤ) (o : Option UserAmount)
    → o ≡ some u
    → refund_entry t description o d ≡ refund_one t description u d
unfolding refund_entry
entry_one t description u d o h = rw h refl

refund_loop_step :
    (t : RefundTask) (description : String) (found : List UserAmount) (k : ℕ) (d : ℤ)
    (m : DeductionInfo) (u : UserAmount)
    → find_row k found ≡ some u
    → refund_loop t description found ((k, d) ∷ m)
      ≡ (refund_one t description u d >> refund_loop t description found m)
unfolding refund_loop
refund_loop_step t description found k d m u f =
    ap (λ e. e >> refund_loop t description found m)
      (entry_one t description u d (find_row k found) f)

pub nothing-Returned :
    (t : RefundTask) (description : String) (found : List UserAmount) (db : Db) {y : Unit {0}}
    {db' : Db}
    → refund_loop t description found [] db ≡ (ok y, db')
    → Returned [] db db'
unfolding refund_loop
nothing-Returned t description found db {y} {db'} run =
    let same : db' ≡ db = unchanged run in
    rw same
      (sym (add_zero_ℤ (sum_remaining db.amounts)), sym (add_zero_ℤ (sum_changes db.transactions)))
  where
    unchanged : ◌≡◌ {A = Result (Unit {0}) × Db} (ok tt, db) (ok y, db') → db' ≡ db
    unchanged e = ground arith

pub refund_loop-Returned :
    (t : RefundTask) (description : String) (found : List UserAmount) (m : DeductionInfo) (db : Db)
    {y : Unit {0}} {db' : Db}
    → DistinctKeys m
    → All (IsDue found db.amounts) m
    → refund_loop t description found m db ≡ (ok y, db')
    → Returned m db db'
refund_loop-Returned t description found [] db dist due run =
    nothing-Returned t description found db run
refund_loop-Returned t description found ((k, d) ∷ m) db {y} {db'} dist due run =
    let (u, f, g, i) = due.0 in
    let same : u.id ≡ k = find_row_id k u db.amounts g in
    let (_, mid, first, rest) =
      continue-eq-ok (λ _. refund_loop t description found m) (refund_one t description u d db)
        (rw (refund_loop_step t description found k d m u f) at run) in
    let (a, b) = refund_one_ok t description u d db first in
    let one =
      one_returned t description k d u db mid
        (subst (λ j. find_row j db.amounts ≡ some u) (sym same) g) i a b in
    let still =
      others-IsDue found db.amounts (refunded u d) m
        (subst (λ j. All (λ e. e.0 ≢ j) m) (sym same) dist.0) due.1 in
    Returned-step k d m db mid db' one
      (refund_loop-Returned t description found m mid dist.1 (rw a still) rest)

any_same :
    (k : ℕ) (ids : List ℕ) (i : ℕ)
    → k ≡ i
    → any (λ j. k == j) ids ≡ true
    → any (λ j. i == j) ids ≡ true
any_same k ids i e h = rw (← e) h

-- The rows of the given ids are found among the fetched ones.
pub find_row-where_rows :
    (k : ℕ) (ids : List ℕ) (rows : List UserAmount)
    → any (λ j. k == j) ids ≡ true
    → find_row k (where_rows (has_id ids) rows) ≡ find_row k rows
find_row-where_rows k ids [] h = refl
find_row-where_rows k ids (r ∷ rows) h = elim (Bool-cases (r.id == k)) [
  | inl e ↦ let kept = any_same k ids r.id (sym ((==_iff r.id k).0 e)) h in simp (kept, e) refl
  | inr e ↦ elim (Bool-cases (has_id ids r)) [
    | inl f ↦ simp (f, e) (find_row-where_rows k ids rows h)
    | inr f ↦ simp (f, e) (find_row-where_rows k ids rows h)
  ]
]
