-- ===== src/Base/Lists.antt =====
-- Lists over the native numbers: predicates by recursion, Boolean quantifiers, filters.
use Prim.Native.Nat.{ℕ, suc}
use mathlib.Core.Path.{◌≡◌}
use mathlib.Core.Bool.{Bool, true, false, ◌||◌}
use mathlib.Core.List.{List, [], ◌∷◌, ◌++◌}
use mathlib.Core.Logic.{inl, inr}
use genioai_wxmini_server.Base.Tests.{if◌then◌else◌, Bool-cases}

abbrev pub All {ℓ κ} : {A : Type ℓ} → (A → Type κ) → List A → Type κ
All P [] = Unit
All P (x ∷ xs) = P x × All P xs

module _ {ℓ} {A : Type ℓ} where
  abbrev pub length : List A → ℕ
  length [] = 0
  length (x ∷ xs) = suc (length xs)

  -- The rows that a WHERE clause selects.
  abbrev pub where_rows : (A → Bool) → List A → List A
  where_rows p [] = []
  where_rows p (x ∷ xs) = if p x then x ∷ where_rows p xs else where_rows p xs

  abbrev pub any : (A → Bool) → List A → Bool
  any p [] = false
  any p (x ∷ xs) = p x || any p xs

  pub All-append {κ} : (P : A → Type κ) (xs ys : List A) → All P xs → All P ys → All P (xs ++ ys)
  All-append P [] ys h k = k
  All-append P (x ∷ xs) ys h k = (h.0, All-append P xs ys h.1 k)

  -- Every selected row comes from the table and passes the test.
  pub All-where_rows {κ} :
      (P : A → Type κ) (p : A → Bool) (xs : List A)
      → All P xs
      → All (λ x. (p x ≡ true) × P x) (where_rows p xs)
  All-where_rows P p [] h = tt
  All-where_rows P p (x ∷ xs) h = elim (Bool-cases (p x)) [
    | inl e ↦ rw e ((e, h.0), All-where_rows P p xs h.1)
    | inr e ↦ rw e (All-where_rows P p xs h.1)
  ]
