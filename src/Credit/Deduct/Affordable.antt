-- ===== src/Credit/Deduct/Affordable.antt =====
-- Which amounts one deduction may take, from the available rows.
use genioai_wxmini_server.Base.{
  ℤ, Bool, true, false, not, List, ◌||◌, ◌≤ℤ◌, leb_ℤ, ◌≡◌, ◌⊎◌, arith, Bool-cases, inl, inr,
}
use genioai_wxmini_server.Credit.Model.{
  UserAmount, purchased, membership_grant, daily_free, event_grant,
}
use genioai_wxmini_server.Credit.Dao.{is_type, sum_of}

-- The credits that one deduction may use, over the available rows.
abbrev pub IsAffordable : Bool → ℤ → List UserAmount → Type 0
IsAffordable true amount rows = amount ≤ℤ sum_of (λ u. not (is_type daily_free u)) rows
IsAffordable false amount rows =
    (amount ≤ℤ sum_of (is_type daily_free) rows)
    ⊎ (amount
        ≤ℤ sum_of
            (λ u. (is_type purchased u || is_type membership_grant u) || is_type event_grant u)
            rows)

leb_ℤ-iff : (a b : ℤ) → leb_ℤ a b ≡ true → a ≤ℤ b
leb_ℤ-iff a b h = ground arith

not_le_of_test : (a b : ℤ) → leb_ℤ a b ≡ false → ¬ (a ≤ℤ b)
not_le_of_test a b h = ground arith

pub Affordable-cases :
    (m : Bool) (amount : ℤ) (rows : List UserAmount)
    → IsAffordable m amount rows ⊎ (¬ IsAffordable m amount rows)
Affordable-cases true amount rows = le_cases amount (sum_of (λ u. not (is_type daily_free u)) rows)
  where
    le_cases : (a b : ℤ) → (a ≤ℤ b) ⊎ (¬ (a ≤ℤ b))
    le_cases a b = elim (Bool-cases (leb_ℤ a b)) [
      | inl e ↦ inl (leb_ℤ-iff a b e)
      | inr e ↦ inr (not_le_of_test a b e)
    ]
Affordable-cases false amount rows =
    let daily = sum_of (is_type daily_free) rows in
    let others =
      sum_of (λ u. (is_type purchased u || is_type membership_grant u) || is_type event_grant u)
        rows in
    elim (Bool-cases (leb_ℤ amount daily)) [
      | inl e ↦ inl (inl (leb_ℤ-iff amount daily e))
      | inr e ↦ elim (Bool-cases (leb_ℤ amount others)) [
        | inl f ↦ inl (inr (leb_ℤ-iff amount others f))
        | inr f ↦ inr (λ c. elim c [
          | inl x ↦ not_le_of_test amount daily e x
          | inr x ↦ not_le_of_test amount others f x
        ])
      ]
    ]
