-- ===== src/Credit/Deduct/Charges.antt =====
-- What a deduction is meant to do: use the rows up one after another, each as far as it goes.
use genioai_wxmini_server.Base.{
  ℕ, ℤ, ◌+◌, List, [], ◌∷◌, pos, ◌+ℤ◌, ◌-ℤ◌, ◌≤ℤ◌, ◌<ℤ◌, is_zero, min64, min64-zero, min64_bounds,
  min64_rest, min64-nonneg, int_laws, IsInt64, if◌then◌else◌, ◌≡◌, refl, All, arith, Bool-cases,
  inl, inr,
}
use genioai_wxmini_server.Credit.Model.{UserAmount, CreditTransaction}
use genioai_wxmini_server.Credit.Store.{save_row}
use genioai_wxmini_server.Credit.Deduct.{Request, DeductionInfo, put, reduced, usage_row}

-- A charged row with its deduction, in the order of the charges.
abbrev pub Charges : Type 0
Charges = List (UserAmount × ℤ)

abbrev pub cons_charge : UserAmount → ℤ → Charges → Charges
cons_charge u d cs = if is_zero d then cs else (u, d) ∷ cs

pub charges : ℤ → List UserAmount → Charges
charges left [] = []
charges left (u ∷ uas) =
    let d = min64 left u.remaining_amount in cons_charge u d (charges (left -ℤ d) uas)

pub charges-nil : (left : ℤ) → charges left [] ≡ []
unfolding charges
charges-nil left = refl

pub charges-cons :
    (left : ℤ) (u : UserAmount) (uas : List UserAmount)
    → charges left (u ∷ uas)
      ≡ cons_charge u
          (min64 left u.remaining_amount)
          (charges (left -ℤ min64 left u.remaining_amount) uas)
unfolding charges
charges-cons left u uas = refl

-- A row that a deduction may draw on.
abbrev pub IsFunded : UserAmount → Type 0
IsFunded u = (pos 0 <ℤ u.remaining_amount) × IsInt64 u.remaining_amount

abbrev pub sum_charges : Charges → ℤ
sum_charges [] = pos 0
sum_charges ((u, d) ∷ cs) = d +ℤ sum_charges cs

abbrev pub sum_remaining : List UserAmount → ℤ
sum_remaining [] = pos 0
sum_remaining (u ∷ uas) = u.remaining_amount +ℤ sum_remaining uas

-- The table, the ledger and the map after the charges.
abbrev pub charge_amounts : Charges → List UserAmount → List UserAmount
charge_amounts [] rows = rows
charge_amounts ((u, d) ∷ cs) rows = charge_amounts cs (save_row (reduced u d) rows)

abbrev pub charge_ledger : Request → Charges → ℕ → List CreditTransaction → List CreditTransaction
charge_ledger r [] n rows = rows
charge_ledger r ((u, d) ∷ cs) n rows = charge_ledger r cs (n + 1) (usage_row r u d n ∷ rows)

abbrev pub charge_info : Charges → DeductionInfo → DeductionInfo
charge_info [] info = info
charge_info ((u, d) ∷ cs) info = charge_info cs (put u.id d info)

pub charges_nothing : (uas : List UserAmount) → All IsFunded uas → charges (pos 0) uas ≡ []
unfolding charges ◌-ℤ◌
charges_nothing [] h = refl
charges_nothing (u ∷ uas) h =
    rw (min64-zero u.remaining_amount (omega (arith, h.0.0))) (charges_nothing uas h.1)

sum_charges-cons_charge :
    (u : UserAmount) (d : ℤ) (cs : Charges) → sum_charges (cons_charge u d cs) ≡ d +ℤ sum_charges cs
unfolding ◌+ℤ◌
sum_charges-cons_charge u d cs = ground arith

pub sum_remaining-nonneg : (uas : List UserAmount) → All IsFunded uas → pos 0 ≤ℤ sum_remaining uas
sum_remaining-nonneg [] h = omega arith
sum_remaining-nonneg (u ∷ uas) h = omega (int_laws, sum_remaining-nonneg uas h.1)

-- What is charged is the amount, when the rows hold it.
pub sum_charges-charges :
    (left : ℤ) (uas : List UserAmount)
    → All IsFunded uas
    → pos 0 ≤ℤ left
    → left ≤ℤ sum_remaining uas
    → sum_charges (charges left uas) ≡ left
unfolding charges
sum_charges-charges left [] h p q = omega int_laws
sum_charges-charges left (u ∷ uas) h p q =
    let d = min64 left u.remaining_amount in
    let (le, ge) =
      min64_rest left u.remaining_amount (sum_remaining uas) q (sum_remaining-nonneg uas h.1) in
    rw sum_charges-cons_charge (rw (sum_charges-charges (left -ℤ d) uas h.1 ge le) (omega int_laws))

-- Every charge is positive, at most the balance of its row, and its row is one of the given ones.
abbrev pub IsCharge : UserAmount × ℤ → Type 0
IsCharge (u, d) = (pos 0 <ℤ d) × (d ≤ℤ u.remaining_amount) × IsFunded u

All-cons_charge :
    (u : UserAmount) (d : ℤ) (cs : Charges)
    → (pos 0 <ℤ d → IsCharge (u, d))
    → pos 0 ≤ℤ d
    → All IsCharge cs
    → All IsCharge (cons_charge u d cs)
All-cons_charge u d cs f p h = elim (Bool-cases (is_zero d)) [
  | inl e ↦ rw e h
  | inr e ↦ rw e (f (ground arith), h)
]

pub charges-IsCharge :
    (left : ℤ) (uas : List UserAmount)
    → All IsFunded uas
    → pos 0 ≤ℤ left
    → All IsCharge (charges left uas)
unfolding charges
charges-IsCharge left [] h p = tt
charges-IsCharge left (u ∷ uas) h p =
    let d = min64 left u.remaining_amount in
    let (le, ge) = min64_bounds left u.remaining_amount in
    let ih = charges-IsCharge (left -ℤ d) uas h.1 (omega int_laws) in
    All-cons_charge u d _ (λ ne. (ne, ge, h.0))
      (min64-nonneg left u.remaining_amount p (omega (arith, h.0.0))) ih
