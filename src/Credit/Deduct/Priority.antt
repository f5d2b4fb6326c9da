-- ===== src/Credit/Deduct/Priority.antt =====
-- The rows are used up in the order in which the query returns them.
use genioai_wxmini_server.Base.{
  ℤ, true, false, List, [], ◌∷◌, ◌++◌, pos, ◌+ℤ◌, ◌-ℤ◌, ◌≤ℤ◌, ◌<ℤ◌, is_zero, int_laws, IsInt64,
  sub64, sub64_within, min64, min64-pos, min64_bounds, min64_rest, min64_right, ◌≡◌, refl, sym, ap,
  ◌∙◌, All, arith, Bool-cases, inl, inr, eq_of_parts,
}
use mathlib.Core.Path.{fun_ext}
use genioai_wxmini_server.Credit.Model.{UserAmount}
use genioai_wxmini_server.Credit.Store.{Db, Result, ok, err, M, continue, ◌>>=◌, ◌>>◌}
use genioai_wxmini_server.Credit.Deduct.{Request, DeductionInfo, put, charge, perform_deduction}
use genioai_wxmini_server.Credit.Deduct.Charges.{IsFunded, sum_remaining, sum_remaining-nonneg}
use genioai_wxmini_server.Credit.Deduct.Loop.{
  perform_deduction_step, perform_deduction_done, perform_deduction_nil, positive_left,
}

-- A sequence may be regrouped.
continue_assoc :
    {A B C : Type 0} (f : A → M B) (g : B → M C) (x : Result A × Db)
    → continue g (continue f x) ≡ continue (λ a. f a >>= g) x
continue_assoc f g (ok a, db) = refl
continue_assoc f g (err e, db) = refl

zero_left : (left : ℤ) → pos 0 ≤ℤ left → left ≤ℤ pos 0 → is_zero left ≡ true
zero_left left p q = ground arith

not_zero : (a : ℤ) → pos 0 <ℤ a → is_zero a ≡ false
not_zero a h = ground arith

minus_both : (a b c : ℤ) → a -ℤ b -ℤ c ≡ a -ℤ (b +ℤ c)
minus_both a b c = omega int_laws

module _ (r : Request) (ys : List UserAmount) where
  -- The rows are drawn on in their order: when the first rows cover the amount, the rows behind them
  -- are not drawn on, and the deduction is the one from the first rows alone. Assumed: the first rows
  -- have positive int64 balances, and the amount is an int64 from 0 on.
  pub perform_deduction_covered :
      (left : ℤ) (xs : List UserAmount) (info : DeductionInfo)
      → All IsFunded xs
      → pos 0 ≤ℤ left
      → IsInt64 left
      → left ≤ℤ sum_remaining xs
      → perform_deduction r left (xs ++ ys) info ≡ perform_deduction r left xs info
  perform_deduction_covered left [] info h p i q =
      let z = zero_left left p q in
      perform_deduction_done r left ys info z ∙ sym (perform_deduction_done r left [] info z)
  perform_deduction_covered left (x ∷ xs) info h p i q = elim (Bool-cases (is_zero left)) [
    | inl z ↦
        perform_deduction_done r left (x ∷ (xs ++ ys)) info z
        ∙ sym (perform_deduction_done r left (x ∷ xs) info z)
    | inr nz ↦
        let d = min64 left x.remaining_amount in
        let d_pos = min64-pos left x.remaining_amount (positive_left left p nz) h.0.0 in
        let nd : is_zero d ≡ false = ground arith in
        let (within, _) = min64_bounds left x.remaining_amount in
        let (exact, in_range) = sub64_within left d i (omega arith) within in
        let (le, ge) =
          min64_rest left x.remaining_amount (sum_remaining xs) q (sum_remaining-nonneg xs h.1) in
        let ih =
          perform_deduction_covered (sub64 left d) xs (put x.id d info) h.1 (rw exact ge)
            (rw exact in_range) (rw exact le) in
        perform_deduction_step r left x (xs ++ ys) info nz nd
        ∙ (ap (λ k. charge r x d >> k) ih ∙ sym (perform_deduction_step r left x xs info nz nd))
  ]

  -- The rows are drawn on in their order: when the first rows do not cover the amount, or just cover
  -- it, the deduction is the one of the amount from these rows, followed by a deduction of what is
  -- then missing from the rows behind them. Assumed: the first rows have positive int64 balances, and
  -- the amount is an int64.
  pub perform_deduction_beyond :
      (left : ℤ) (xs : List UserAmount) (info : DeductionInfo)
      → All IsFunded xs
      → IsInt64 left
      → sum_remaining xs ≤ℤ left
      → perform_deduction r left (xs ++ ys) info
        ≡ (perform_deduction r left xs info >>= perform_deduction r (left -ℤ sum_remaining xs) ys)
  perform_deduction_beyond left [] info h i q =
      rw (perform_deduction_nil r left info, eq_of_parts (left -ℤ pos 0) left (omega int_laws)) refl
  perform_deduction_beyond left (x ∷ xs) info h i q =
      let total = sum_remaining xs in
      let rest_nonneg = sum_remaining-nonneg xs h.1 in
      let d = min64 left x.remaining_amount in
      let d_eq = min64_right left x.remaining_amount (omega int_laws) in
      let nz : is_zero left ≡ false = not_zero left (omega int_laws) in
      let nd : is_zero d ≡ false = rw d_eq (not_zero x.remaining_amount h.0.0) in
      let (within, funded) = min64_bounds left x.remaining_amount in
      let (exact, in_range) = sub64_within left d i (rw d_eq (omega arith)) within in
      let k = perform_deduction r (sub64 left d) xs (put x.id d info) in
      let g = perform_deduction r (left -ℤ (x.remaining_amount +ℤ total)) ys in
      let ih : perform_deduction r (sub64 left d) (xs ++ ys) (put x.id d info) ≡ (k >>= g) =
        rw (exact, d_eq, ← minus_both left x.remaining_amount total)
          (perform_deduction_beyond (left -ℤ x.remaining_amount) xs
            (put x.id x.remaining_amount info) h.1 (rw d_eq at in_range) (omega int_laws)) in
      perform_deduction_step r left x (xs ++ ys) info nz nd
      ∙ (ap (λ m. charge r x d >> m) ih
          ∙ (fun_ext (λ db. sym (continue_assoc (λ _. k) g (charge r x d db)))
              ∙ ap (λ m. m >>= g) (sym (perform_deduction_step r left x xs info nz nd))))
