-- ===== src/Credit/Selection.antt =====
-- The rows that a query hands to the deduction: they are stored, pairwise different and funded. The
-- steps from the table to the list (WHERE, ORDER BY, grouping by type) keep that.
use genioai_wxmini_server.Base.{
  ℤ, Bool, true, List, [], ◌∷◌, ◌++◌, pos, ◌+ℤ◌, +ℤ_assoc, ◌≤ℤ◌, int_laws, IsInt64, ◌≡◌, ◌≢◌, refl,
  sym, ap, subst, ◌∙◌, All, All-append, arith, Bool-cases, inl, inr, add64_exact, IsInt64-between,
  where_rows, Permᴰ,
}
use genioai_wxmini_server.Credit.Model.{UserAmount}
use genioai_wxmini_server.Credit.Dao.{sum_of}
use genioai_wxmini_server.Credit.Table.{Distinct, IsStored, find_row-extend}
use genioai_wxmini_server.Credit.Deduct.{total64}
use genioai_wxmini_server.Credit.Deduct.Charges.{IsFunded, sum_remaining}

pub record IsSelection (rows uas : List UserAmount) : Type 0 where
  pub funded : All IsFunded uas
  pub stored : All (IsStored rows) uas
  pub distinct : Distinct uas

module _ {κ} (P : UserAmount → Type κ) where
  pub All-perm : {xs ys : List UserAmount} → Permᴰ xs ys → All P xs → All P ys
  All-perm Permᴰ.nil h = h
  All-perm (Permᴰ.cons e p) h = (subst P e h.0, All-perm p h.1)
  All-perm (Permᴰ.swap e f) h = (subst P f h.1.0, (subst P e h.0, h.1.1))
  All-perm (Permᴰ.trans p q) h = All-perm q (All-perm p h)

  pub All-where :
      (p : UserAmount → Bool) (xs : List UserAmount) → All P xs → All P (where_rows p xs)
  All-where p [] h = tt
  All-where p (x ∷ xs) h = elim (Bool-cases (p x)) [
    | inl e ↦ rw e (h.0, All-where p xs h.1)
    | inr e ↦ rw e (All-where p xs h.1)
  ]

pub All-where_test :
    (p : UserAmount → Bool) (xs : List UserAmount) → All (λ x. p x ≡ true) (where_rows p xs)
All-where_test p [] = tt
All-where_test p (x ∷ xs) = elim (Bool-cases (p x)) [
  | inl e ↦ rw e (e, All-where_test p xs)
  | inr e ↦ rw e (All-where_test p xs)
]

pub All-map {κ} :
    (P Q : UserAmount → Type κ)
    → ((x : UserAmount) → P x → Q x)
    → (xs : List UserAmount) → All P xs
    → All Q xs
All-map P Q f [] h = tt
All-map P Q f (x ∷ xs) h = (f x h.0, All-map P Q f xs h.1)

pub All-both {κ} :
    (P Q : UserAmount → Type κ) (xs : List UserAmount)
    → All P xs
    → All Q xs
    → All (λ x. P x × Q x) xs
All-both P Q [] h k = tt
All-both P Q (x ∷ xs) h k = ((h.0, k.0), All-both P Q xs h.1 k.1)

pub Distinct-where :
    (p : UserAmount → Bool) (xs : List UserAmount) → Distinct xs → Distinct (where_rows p xs)
Distinct-where p [] h = tt
Distinct-where p (x ∷ xs) h = elim (Bool-cases (p x)) [
  | inl e ↦ rw e (All-where (λ v. v.id ≢ x.id) p xs h.0, Distinct-where p xs h.1)
  | inr e ↦ rw e (Distinct-where p xs h.1)
]

pub Distinct-perm : {xs ys : List UserAmount} → Permᴰ xs ys → Distinct xs → Distinct ys
Distinct-perm Permᴰ.nil h = h
Distinct-perm (Permᴰ.cons {a = a} {b = b} {l₂ = ys} e p) h = (
  subst (λ (z : UserAmount). All (λ v. v.id ≢ z.id) ys) e (All-perm (λ v. v.id ≢ a.id) p h.0),
  Distinct-perm p h.1,
)
Distinct-perm (Permᴰ.swap {a = a} {b = b} {b' = y} {l = l} e f) h =
    subst (λ (z : UserAmount). Distinct (z ∷ y ∷ l)) f
      (subst (λ (z : UserAmount). Distinct (b ∷ z ∷ l)) e
        ((((λ q. h.0.0 (sym q)), h.1.0)), (h.0.1, h.1.1)))
Distinct-perm (Permᴰ.trans p q) h = Distinct-perm q (Distinct-perm p h)

-- Two lists of stored rows that differ in some attribute have no key in common.
pub Distinct-append :
    (xs ys : List UserAmount)
    → Distinct xs
    → Distinct ys
    → All (λ x. All (λ y. y.id ≢ x.id) ys) xs
    → Distinct (xs ++ ys)
Distinct-append [] ys h k c = k
Distinct-append (x ∷ xs) ys h k c =
    (All-append (λ v. v.id ≢ x.id) xs ys h.0 c.0, Distinct-append xs ys h.1 k c.1)

-- Every row of a table with distinct keys is stored in it.
IsStored-in_tail :
    (r : UserAmount) (rows xs : List UserAmount)
    → All (λ v. v.id ≢ r.id) xs
    → All (IsStored rows) xs
    → All (IsStored (r ∷ rows)) xs
IsStored-in_tail r rows [] d h = tt
IsStored-in_tail r rows (x ∷ xs) d h =
    (find_row-extend x r rows (λ q. d.0 (sym q)) ∙ h.0, IsStored-in_tail r rows xs d.1 h.1)

pub Distinct-IsStored : (rows : List UserAmount) → Distinct rows → All (IsStored rows) rows
Distinct-IsStored [] h = tt
Distinct-IsStored (r ∷ rows) h =
    (ground arith, IsStored-in_tail r rows rows h.0 (Distinct-IsStored rows h.1))

-- Sums of balances along the same steps.
pub sum_remaining-perm :
    {xs ys : List UserAmount} → Permᴰ xs ys → sum_remaining xs ≡ sum_remaining ys
sum_remaining-perm Permᴰ.nil = refl
sum_remaining-perm (Permᴰ.cons {a = a} {b = b} e p) =
    rw (sum_remaining-perm p, ap (λ (z : UserAmount). z.remaining_amount) e) refl
sum_remaining-perm (Permᴰ.swap {a = a} {b = b} e f) =
    rw
      (ap (λ (z : UserAmount). z.remaining_amount) e, ap (λ (z : UserAmount). z.remaining_amount) f)
      (omega int_laws)
sum_remaining-perm (Permᴰ.trans p q) = sum_remaining-perm p ∙ sum_remaining-perm q

pub sum_remaining-append :
    (xs ys : List UserAmount) → sum_remaining (xs ++ ys) ≡ sum_remaining xs +ℤ sum_remaining ys
sum_remaining-append [] ys = omega int_laws
sum_remaining-append (x ∷ xs) ys = rw (sum_remaining-append xs ys) (omega int_laws)

abbrev pub IsBalance : UserAmount → Type 0
IsBalance u = (pos 0 ≤ℤ u.remaining_amount) × IsInt64 u.remaining_amount

pub sum_remaining-where :
    (p : UserAmount → Bool) (xs : List UserAmount)
    → All IsBalance xs
    → (pos 0 ≤ℤ sum_remaining (where_rows p xs))
      × (sum_remaining (where_rows p xs) ≤ℤ sum_remaining xs)
sum_remaining-where p [] h = omega arith
sum_remaining-where p (x ∷ xs) h =
    let ih = sum_remaining-where p xs h.1 in
    elim (Bool-cases (p x)) [
      | inl e ↦ rw e (omega int_laws, omega int_laws)
      | inr e ↦ rw e (omega int_laws, omega int_laws)
    ]

pub balances_nonneg : (xs : List UserAmount) → All IsBalance xs → pos 0 ≤ℤ sum_remaining xs
balances_nonneg [] h = omega arith
balances_nonneg (x ∷ xs) h = omega (int_laws, balances_nonneg xs h.1)

-- The loop's int64 sum is exact while the true sum fits.
pub total64_exact :
    (acc : ℤ) (xs : List UserAmount)
    → All IsBalance xs
    → pos 0 ≤ℤ acc
    → IsInt64 (acc +ℤ sum_remaining xs)
    → total64 acc xs ≡ acc +ℤ sum_remaining xs
total64_exact acc [] h p i = omega int_laws
total64_exact acc (x ∷ xs) h p i =
    let rest = balances_nonneg xs h.1 in
    let part =
      add64_exact acc x.remaining_amount
        (IsInt64-between (acc +ℤ x.remaining_amount) _ i (omega int_laws) (omega int_laws)) in
    rw
      (
        part,
        total64_exact (acc +ℤ x.remaining_amount) xs h.1 (omega int_laws)
            (subst IsInt64 (sym (+ℤ_assoc acc x.remaining_amount (sum_remaining xs))) i),
      )
      (+ℤ_assoc acc x.remaining_amount (sum_remaining xs))

pub sum_of-true : (xs : List UserAmount) → sum_of (λ _. true) xs ≡ sum_remaining xs
sum_of-true [] = refl
sum_of-true (x ∷ xs) = ap (λ z. x.remaining_amount +ℤ z) (sum_of-true xs)
