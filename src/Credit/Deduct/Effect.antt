-- ===== src/Credit/Deduct/Effect.antt =====
-- What a list of charges does to the sums over the table and over the ledger.
use genioai_wxmini_server.Base.{
  ℕ, ℤ, ◌+◌, Bool, true, false, List, [], ◌∷◌, pos, ◌+ℤ◌, ◌-ℤ◌, is_zero, min64, int_laws,
  if◌then◌else◌, ◌≡◌, ◌≢◌, refl, All, arith, Bool-cases, inl, inr, sub64, neg64_exact,
  IsInt64-between, sub64_within, parts_of_eq,
}
use genioai_wxmini_server.Credit.Model.{UserAmount, CreditTransaction}
use genioai_wxmini_server.Credit.Store.{save_row}
use genioai_wxmini_server.Credit.Dao.{sum_of}
use genioai_wxmini_server.Credit.Table.{
  Distinct, IsStored, IsStable, weight, sum_of-save_row, find_row-save_row_ne,
}
use genioai_wxmini_server.Credit.Deduct.{Request, reduced, usage_row}
use genioai_wxmini_server.Credit.Deduct.Charges.{
  Charges, charges, charges-cons, charges-nil, cons_charge, IsCharge, sum_charges, charge_amounts,
  charge_ledger,
}

-- No two charges are on one row.
abbrev pub DistinctCharges : Charges → Type 0
DistinctCharges [] = Unit
DistinctCharges ((u, d) ∷ cs) = All (λ c. c.0.id ≢ u.id) cs × DistinctCharges cs

-- What the charges take from the rows that satisfy a condition.
abbrev pub taken : (UserAmount → Bool) → Charges → ℤ
taken p [] = pos 0
taken p ((u, d) ∷ cs) = (if p u then d else pos 0) +ℤ taken p cs

unfoldable pub sum_changes : List CreditTransaction → ℤ
sum_changes [] = pos 0
sum_changes (t ∷ ts) = t.amount_change +ℤ sum_changes ts

-- A property of the given rows is one of the charged rows.
pub All-charges {κ} :
    (P : UserAmount → Type κ) (left : ℤ) (uas : List UserAmount)
    → All P uas
    → All (λ c. P c.0) (charges left uas)
All-charges P left [] h = rw charges-nil tt
All-charges P left (u ∷ uas) h =
    let d = min64 left u.remaining_amount in
    rw charges-cons (keep d (charges (left -ℤ d) uas) (All-charges P (left -ℤ d) uas h.1))
  where
    keep : (d : ℤ) (cs : Charges) → All (λ c. P c.0) cs → All (λ c. P c.0) (cons_charge u d cs)
    keep d cs k = elim (Bool-cases (is_zero d)) [ inl e ↦ rw e k | inr e ↦ rw e (h.0, k) ]

pub charges-Distinct :
    (left : ℤ) (uas : List UserAmount) → Distinct uas → DistinctCharges (charges left uas)
charges-Distinct left [] h = rw charges-nil tt
charges-Distinct left (u ∷ uas) h =
    let d = min64 left u.remaining_amount in
    rw charges-cons (
      keep d (charges (left -ℤ d) uas) (All-charges (λ v. v.id ≢ u.id) (left -ℤ d) uas h.0)
        (charges-Distinct (left -ℤ d) uas h.1))
  where
    keep :
        (d : ℤ) (cs : Charges)
        → All (λ c. c.0.id ≢ u.id) cs
        → DistinctCharges cs
        → DistinctCharges (cons_charge u d cs)
    keep d cs a k = elim (Bool-cases (is_zero d)) [ inl e ↦ rw e k | inr e ↦ rw e (a, k) ]

-- Rows that are in the table stay there when another row is saved.
IsStored-after_save :
    (u : UserAmount) (rows : List UserAmount) (cs : Charges)
    → All (λ c. c.0.id ≢ u.id) cs
    → All (λ c. IsStored rows c.0) cs
    → All (λ c. IsStored (save_row u rows) c.0) cs
IsStored-after_save u rows [] a h = tt
IsStored-after_save u rows ((v, d) ∷ cs) a h =
    (rw (find_row-save_row_ne v.id u rows a.0) h.0, IsStored-after_save u rows cs a.1 h.1)

-- A charge lowers the weight of its row by the deduction.
weight-reduced :
    (p : UserAmount → Bool) (u : UserAmount) (d : ℤ)
    → IsStable p
    → IsCharge (u, d)
    → weight p (reduced u d) +ℤ (if p u then d else pos 0) ≡ weight p u
weight-reduced p u d st c =
    let (exact, _) = sub64_within u.remaining_amount d c.2.1 (omega (arith, c.0)) c.1 in
    rw (st u (sub64 u.remaining_amount d), exact)
      (elim (Bool-cases (p u)) [ inl e ↦ rw e (omega int_laws) | inr e ↦ rw e (omega int_laws) ])

-- The sum over any group of rows falls by what the charges take from that group.
pub sum_of-charge_amounts :
    (p : UserAmount → Bool) (cs : Charges) (rows : List UserAmount)
    → IsStable p
    → All IsCharge cs
    → DistinctCharges cs
    → All (λ c. IsStored rows c.0) cs
    → sum_of p (charge_amounts cs rows) +ℤ taken p cs ≡ sum_of p rows
sum_of-charge_amounts p [] rows st c dist s = omega int_laws
sum_of-charge_amounts p ((u, d) ∷ cs) rows st c dist s =
    let ih = parts_of_eq _ _ (
      sum_of-charge_amounts p cs (save_row (reduced u d) rows) st c.1 dist.1
        (IsStored-after_save (reduced u d) rows cs dist.0 s.1)) in
    let saved = parts_of_eq _ _ (sum_of-save_row p (reduced u d) u rows s.0) in
    let less = parts_of_eq _ _ (weight-reduced p u d st c.0) in omega int_laws

-- The ledger falls by the sum of the charges.
pub sum_changes-charge_ledger :
    (r : Request) (cs : Charges) (n : ℕ) (rows : List CreditTransaction)
    → All IsCharge cs
    → sum_changes (charge_ledger r cs n rows) +ℤ sum_charges cs ≡ sum_changes rows
unfolding sum_changes
sum_changes-charge_ledger r [] n rows c = omega int_laws
sum_changes-charge_ledger r ((u, d) ∷ cs) n rows c =
    let ih =
      parts_of_eq _ _ (sum_changes-charge_ledger r cs (n + 1) (usage_row r u d n ∷ rows) c.1) in
    let (pos_d, le, funded) = c.0 in
    let in_range = IsInt64-between d u.remaining_amount funded.1 (omega (arith, pos_d)) le in
    let neg = parts_of_eq _ _ (neg64_exact d in_range (omega (arith, pos_d))) in omega int_laws

-- A group that holds all charged rows gives the whole amount; a group that holds none gives nothing.
pub taken-All :
    (p : UserAmount → Bool) (cs : Charges)
    → All (λ c. p c.0 ≡ true) cs
    → taken p cs ≡ sum_charges cs
taken-All p [] h = refl
taken-All p ((u, d) ∷ cs) h = rw (h.0, taken-All p cs h.1) refl

pub taken_none :
    (p : UserAmount → Bool) (cs : Charges) → All (λ c. p c.0 ≡ false) cs → taken p cs ≡ pos 0
taken_none p [] h = refl
taken_none p ((u, d) ∷ cs) h = rw (h.0, taken_none p cs h.1) (omega int_laws)
