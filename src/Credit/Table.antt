-- ===== src/Credit/Table.antt =====
-- Lemmas on the table of `UserAmount` rows: finding, saving and summing.
use genioai_wxmini_server.Base.{
  ℕ, ℤ, Bool, some, List, [], ◌∷◌, ◌==◌, ==_iff, pos, ◌+ℤ◌, int_laws, parts_of_eq, if◌then◌else◌,
  ◌≡◌, ◌≢◌, subst, All, arith, Bool-cases, inl, inr,
}
use genioai_wxmini_server.Credit.Model.{UserAmount}
use genioai_wxmini_server.Credit.Store.{find_row, save_row}
use genioai_wxmini_server.Credit.Dao.{sum_of}

-- No two rows have one primary key.
abbrev pub Distinct : List UserAmount → Type 0
Distinct [] = Unit
Distinct (r ∷ rows) = All (λ v. v.id ≢ r.id) rows × Distinct rows

-- The row is in the table as it stands.
abbrev pub IsStored : List UserAmount → UserAmount → Type 0
IsStored rows u = find_row u.id rows ≡ some u

-- A condition that does not look at the balance.
abbrev pub IsStable : (UserAmount → Bool) → Type 0
IsStable p = (u : UserAmount) (x : ℤ) → p (record u { remaining_amount = x }) ≡ p u

abbrev pub weight : (UserAmount → Bool) → UserAmount → ℤ
weight p r = if p r then r.remaining_amount else pos 0

pub find_row-save_row_self :
    (u : UserAmount) (rows : List UserAmount) → find_row u.id (save_row u rows) ≡ some u
find_row-save_row_self u [] = ground arith
find_row-save_row_self u (r ∷ rows) = ground (arith, find_row-save_row_self u rows)

pub find_row-save_row_ne :
    (i : ℕ) (u : UserAmount) (rows : List UserAmount)
    → i ≢ u.id
    → find_row i (save_row u rows) ≡ find_row i rows
find_row-save_row_ne i u [] h = ground arith
find_row-save_row_ne i u (r ∷ rows) h = ground (arith, find_row-save_row_ne i u rows h)

pub find_row_id :
    (i : ℕ) (u : UserAmount) (rows : List UserAmount) → find_row i rows ≡ some u → u.id ≡ i
find_row_id i u [] h = cc
find_row_id i u (r ∷ rows) h = ground (arith, find_row_id i u rows)

-- A save moves the sum by the difference of the two versions of the row.
pub sum_of-save_row :
    (p : UserAmount → Bool) (u old : UserAmount) (rows : List UserAmount)
    → find_row u.id rows ≡ some old
    → sum_of p (save_row u rows) +ℤ weight p old ≡ sum_of p rows +ℤ weight p u
sum_of-save_row p u old [] h = cc
sum_of-save_row p u old (r ∷ rows) h = elim (Bool-cases (r.id == u.id)) [
  | inl e ↦ let q : r ≡ old = ground arith in rw (e, ← q) (omega int_laws)
  | inr e ↦
      let ih = parts_of_eq _ _ (sum_of-save_row p u old rows (rw e at h)) in rw e (omega int_laws)
]

-- Saving keeps the rows that satisfy a property of stored rows.
pub All-save_row {κ} :
    (P : UserAmount → Type κ) (u : UserAmount) (rows : List UserAmount)
    → P u
    → All P rows
    → All P (save_row u rows)
All-save_row P u [] h k = (h, tt)
All-save_row P u (r ∷ rows) h k = elim (Bool-cases (r.id == u.id)) [
  | inl e ↦ rw e (h, k.1)
  | inr e ↦ rw e (k.0, All-save_row P u rows h k.1)
]

-- Every row of a table with distinct keys is found under its key.
pub find_row-extend :
    (u r : UserAmount) (rows : List UserAmount)
    → r.id ≢ u.id
    → find_row u.id (r ∷ rows) ≡ find_row u.id rows
find_row-extend u r rows h = ground arith

-- Saving a row keeps the keys distinct.
pub Distinct-save_row :
    (u : UserAmount) (rows : List UserAmount) → Distinct rows → Distinct (save_row u rows)
Distinct-save_row u [] h = (tt, tt)
Distinct-save_row u (r ∷ rows) h = elim (Bool-cases (r.id == u.id)) [
  | inl e ↦ rw e (subst (λ i. All (λ v. v.id ≢ i) rows) ((==_iff r.id u.id).0 e) h.0, h.1)
  | inr e ↦
      let other : u.id ≢ r.id = ground arith in
      rw e (All-save_row (λ v. v.id ≢ r.id) u rows other h.0, Distinct-save_row u rows h.1)
]
