-- ===== src/Chain/Partial/Bounded.antt =====
-- A partial refund gives back parts of the entries that were deducted.
use genioai_wxmini_server.Base.{
  ℕ, ℤ, true, [], ◌∷◌, pos, ltb_ℤ, ◌≤ℤ◌, ◌<ℤ◌, int_laws, All, Bool-cases, inl, inr, ◌≡◌, refl,
  arith, ◌^◌,
}
use genioai_wxmini_server.Credit.Deduct.{DeductionInfo}
use genioai_wxmini_server.Credit.Deduct.Conservation.{sum_info}
use genioai_wxmini_server.Credit.Refund.{parsed}
use genioai_wxmini_server.Chain.World.{World, ok}
use genioai_wxmini_server.Chain.Partial.{
  Float64, partial_refund_amount, partial_deduction, calculate_partial_deduction_info,
}

-- A deduction that a float64 holds exactly.
abbrev pub IsExact : ℤ → Type 0
IsExact d = (pos 0 ≤ℤ d) × (d ≤ℤ pos (2 ^ 53))

-- What IEEE 754 and the Go specification say of these operations on numbers between 0 and 2^53, where
-- float64 holds every integer exactly and int64(x) drops the fraction; nothing is said of other
-- numbers. The order is the one of float64.
pub record IsIeee {F : Type 0} (fl : Float64 F) : Type 1 where
  pub le : F → F → Type 0
  -- A quotient of at most 1 is rounded to at most 1.
  pub div_between :
      (a b : ℤ)
      → IsExact a
      → IsExact b
      → a ≤ℤ b
      → pos 0 <ℤ b
      → le (fl.of_int (pos 0)) (fl.div (fl.of_int a) (fl.of_int b))
        × le (fl.div (fl.of_int a) (fl.of_int b)) (fl.of_int (pos 1))
  -- A product with a factor of at most 1 is rounded to at most the other one.
  pub mul_between :
      (d : ℤ) (x : F)
      → IsExact d
      → le (fl.of_int (pos 0)) x
      → le x (fl.of_int (pos 1))
      → le (fl.of_int (pos 0)) (fl.mul (fl.of_int d) x) × le (fl.mul (fl.of_int d) x) (fl.of_int d)
  -- A number between 0 and an integer is truncated to an integer between them.
  pub to_int_between :
      (d : ℤ) (x : F)
      → IsExact d
      → le (fl.of_int (pos 0)) x
      → le x (fl.of_int d)
      → (pos 0 ≤ℤ fl.to_int x) × (fl.to_int x ≤ℤ d)

-- Entries of the second map, in its order, each with a positive part of its amount.
pub data IsPart : DeductionInfo → DeductionInfo → Type 0 where
  nothing : IsPart [] []
  left_out : {k : ℕ} {d : ℤ} {m' m : DeductionInfo} → IsPart m' m → IsPart m' ((k, d) ∷ m)
  part :
      {k : ℕ} {p d : ℤ} {m' m : DeductionInfo}
      → pos 0 <ℤ p
      → p ≤ℤ d
      → IsPart m' m
      → IsPart ((k, p) ∷ m') ((k, d) ∷ m)

sum_info-IsPart :
    {m' m : DeductionInfo} → IsPart m' m → All (λ e. IsExact e.1) m → sum_info m' ≤ℤ sum_info m
sum_info-IsPart nothing h = omega int_laws
sum_info-IsPart (left_out {k} {d} {m'} {m} p) h =
    let rest = sum_info-IsPart p h.1 in let (a, b) = h.0 in omega int_laws
sum_info-IsPart (part {k} {p} {d} {m'} {m} a b r) h =
    let rest = sum_info-IsPart r h.1 in omega int_laws

module _ {F : Type 0} (fl : Float64 F) (law : IsIeee fl) where
  partial_refund_amount-le :
      (ratio : F) (d : ℤ)
      → law.le (fl.of_int (pos 0)) ratio
      → law.le ratio (fl.of_int (pos 1))
      → IsExact d
      → partial_refund_amount fl ratio d ≤ℤ d
  partial_refund_amount-le ratio d l r h =
      let (low, high) = law.mul_between d ratio h l r in
      (law.to_int_between d (fl.mul (fl.of_int d) ratio) h low high).1

  partial_deduction-IsPart :
      (ratio : F) (m : DeductionInfo)
      → law.le (fl.of_int (pos 0)) ratio
      → law.le ratio (fl.of_int (pos 1))
      → All (λ e. IsExact e.1) m
      → IsPart (partial_deduction fl ratio m) m
  partial_deduction-IsPart ratio [] l r h = nothing
  partial_deduction-IsPart ratio ((k, d) ∷ m) l r h =
      let rest = partial_deduction-IsPart ratio m l r h.1 in
      let below = partial_refund_amount-le ratio d l r h.0 in
      elim (Bool-cases (ltb_ℤ (pos 0) (partial_refund_amount fl ratio d))) [
        | inl e ↦ simp e (part (positive (partial_refund_amount fl ratio d) e) below rest)
        | inr e ↦ simp e (left_out rest)
      ]
    where
      positive : (p : ℤ) → ltb_ℤ (pos 0) p ≡ true → pos 0 <ℤ p
      positive p e = ground arith

-- The map of a partial refund of at most the cost of the chain has entries of the original map only,
-- each with a positive part of what was deducted, and a sum of at most the original sum. Assumed: the
-- refund is at most the cost, which this code does not check, the cost is positive, refund, cost and
-- deductions are between 0 and 2^53, and arithmetic is as IEEE 754 has it on numbers in this range.
pub calculate_partial_deduction_info-bounded :
    {F : Type 0} (fl : Float64 F) (law : IsIeee fl) (m : DeductionInfo)
    (refund_amount total_cost : ℤ) (w : World)
    → IsExact refund_amount
    → IsExact total_cost
    → refund_amount ≤ℤ total_cost
    → pos 0 <ℤ total_cost
    → All (λ e. IsExact e.1) m
    → (m' : DeductionInfo) × (calculate_partial_deduction_info fl
          (parsed m)
          refund_amount
          total_cost
          w
        ≡ (ok (parsed m'), w))
      × IsPart m' m
      × (sum_info m' ≤ℤ sum_info m)
unfolding calculate_partial_deduction_info
calculate_partial_deduction_info-bounded fl law m refund_amount total_cost w a e b c h =
    let ratio = fl.div (fl.of_int refund_amount) (fl.of_int total_cost) in
    let m' = partial_deduction fl ratio m in
    let (low, high) = law.div_between refund_amount total_cost a e b c in
    let p = partial_deduction-IsPart fl law ratio m low high h in (m', refl, p, sum_info-IsPart p h)
