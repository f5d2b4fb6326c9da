-- ===== src/Credit/Deduct/Decision.antt =====
-- When a deduction succeeds: with a working database exactly when one usable group covers the amount.
use genioai_wxmini_server.Base.{
  ℕ, ℤ, Bool, true, false, not, List, [], ◌∷◌, ◌||◌, pos, ◌≤ℤ◌, leb_ℤ, ltb_ℤ, is_zero, int_laws,
  if◌then◌else◌, sub64, min64, ◌≡◌, ◌⊎◌, refl, sym, ap, ◌∙◌, arith, Bool-cases, inl, inr,
  where_rows, Permᴰ,
}
use genioai_wxmini_server.Credit.Model.{
  UserAmount, purchased, membership_grant, daily_free, event_grant,
}
use genioai_wxmini_server.Credit.Store.{Db, ok, err, insufficient_credits}
use genioai_wxmini_server.Credit.Dao.{
  OrderBy, is_type, is_available, sum_of, get_user_amounts_total,
}
use genioai_wxmini_server.Credit.Deduct.{
  Request, DeductionInfo, put, charge, total64, of_type, not_daily_free, combined_amounts,
  paid_total, perform_deduction, deduct_credits_for_member, deduct_credits_for_non_member,
  deduct_credits_with_tx,
}
use genioai_wxmini_server.Credit.Deduct.Charges.{sum_remaining}
use genioai_wxmini_server.Credit.Deduct.Pool.{
  IsPool, fetched-IsPool, IsPool-where, total64-pool, paid_total-pool, combined_sum,
}
use genioai_wxmini_server.Credit.Invariant.{IsSound, IsOrder}
use genioai_wxmini_server.Credit.Deduct.Affordable.{IsAffordable, Affordable-cases}

pub sum_remaining-sum_of :
    (p : UserAmount → Bool) (xs : List UserAmount) → sum_remaining (where_rows p xs) ≡ sum_of p xs
sum_remaining-sum_of p [] = refl
sum_remaining-sum_of p (x ∷ xs) = elim (Bool-cases (p x)) [
  | inl e ↦ rw (e, sum_remaining-sum_of p xs) refl
  | inr e ↦ rw (e, sum_remaining-sum_of p xs) (omega int_laws)
]

pub sum_of-perm :
    (p : UserAmount → Bool) {xs ys : List UserAmount} → Permᴰ xs ys → sum_of p xs ≡ sum_of p ys
sum_of-perm p Permᴰ.nil = refl
sum_of-perm p (Permᴰ.cons e π) =
    rw (sum_of-perm p π, ap (λ (z : UserAmount). if p z then z.remaining_amount else pos 0) e) refl
sum_of-perm p (Permᴰ.swap e f) =
    rw
      (
        ap (λ (z : UserAmount). if p z then z.remaining_amount else pos 0) e,
        ap (λ (z : UserAmount). if p z then z.remaining_amount else pos 0) f,
      )
      (omega int_laws)
sum_of-perm p (Permᴰ.trans π ρ) = sum_of-perm p π ∙ sum_of-perm p ρ

charge_total :
    (r : Request) (u : UserAmount) (d : ℤ) (db : Db)
    → db.faults ≡ []
    → (db' : Db) × (charge r u d db ≡ (ok tt, db')) × (db'.faults ≡ [])
unfolding charge
charge_total r u d db h = ((charge r u d db).1, ground arith, ground arith)

-- Without a failing statement the loop always returns a map.
pub perform_deduction_total :
    (r : Request) (left : ℤ) (uas : List UserAmount) (info : DeductionInfo) (db : Db)
    → db.faults ≡ []
    → (info' : DeductionInfo) × (db' : Db) × (perform_deduction r left uas info db
        ≡ (ok info', db'))
unfolding perform_deduction
perform_deduction_total r left [] info db h = (info, db, refl)
perform_deduction_total r left (u ∷ uas) info db h =
    let d = min64 left u.remaining_amount in
    elim (Bool-cases (is_zero left)) [
      | inl z ↦ (info, db, rw z refl)
      | inr nz ↦ elim (Bool-cases (is_zero d)) [
        | inl zd ↦
            let (i', db', e) = perform_deduction_total r left uas info db h in
            (i', db', rw (nz, zd) e)
        | inr nzd ↦
            let (mid, first, still) = charge_total r u d db h in
            let (i', db', e) =
              perform_deduction_total r (sub64 left d) uas (put u.id d info) mid still in
            (i', db', rw (nz, nzd, first) e)
      ]
    ]

ltb_ℤ_of_le : (a b : ℤ) → b ≤ℤ a → ltb_ℤ a b ≡ false
ltb_ℤ_of_le a b h = ground arith

ltb_ℤ_of_not_le : (a b : ℤ) → ¬ (b ≤ℤ a) → ltb_ℤ a b ≡ true
ltb_ℤ_of_not_le a b h = ground arith

leb_ℤ_of_not_le : (a b : ℤ) → ¬ (a ≤ℤ b) → leb_ℤ a b ≡ false
leb_ℤ_of_not_le a b h = ground arith

leb_ℤ_of_other : (a b c : ℤ) → (a ≤ℤ b) ⊎ (a ≤ℤ c) → leb_ℤ a b ≡ false → leb_ℤ a c ≡ true
leb_ℤ_of_other a b c h e = ground arith

abbrev Decides : Request → ℤ → Db → List UserAmount → List UserAmount → Bool → Type 0
Decides r amount db rows uas m =
    let run =
      (if m
          then deduct_credits_for_member r amount uas
          else deduct_credits_for_non_member r amount uas)
        db in
    (IsAffordable m amount rows → (info : DeductionInfo) × (db' : Db) × (run ≡ (ok info, db')))
    × (¬ IsAffordable m amount rows → run ≡ (err insufficient_credits, db))

-- Both answers of a deduction, for a pool whose sums are those of the available rows.
module _ (r : Request) (amount : ℤ) (db : Db) (rows uas : List UserAmount) (h : db.faults ≡ [])
    (pool : IsPool db.amounts uas) (π : Permᴰ rows uas) where
  group_total : (p : UserAmount → Bool) → total64 (pos 0) (where_rows p uas) ≡ sum_of p rows
  group_total p =
      total64-pool db.amounts (where_rows p uas) (IsPool-where db.amounts p uas pool)
      ∙ (sum_remaining-sum_of p uas ∙ sym (sum_of-perm p π))

  paid_sum_of :
      paid_total uas
      ≡ sum_of
          (λ u. (is_type purchased u || is_type membership_grant u) || is_type event_grant u)
          rows
  paid_sum_of =
      paid_total-pool db.amounts uas pool
      ∙ (combined_sum db.amounts uas pool ∙ (sum_remaining-sum_of _ uas ∙ sym (sum_of-perm _ π)))

  member-Decides : Decides r amount db rows uas true
  unfolding deduct_credits_for_member
  member-Decides =
      let usable = sum_of (λ u. not (is_type daily_free u)) rows in
      let total = group_total (λ u. not (is_type daily_free u)) in
      (
        (λ can.
            let enough : ltb_ℤ (total64 (pos 0) (not_daily_free uas)) amount ≡ false =
              rw total (ltb_ℤ_of_le usable amount can) in
            rw enough (perform_deduction_total r amount (not_daily_free uas) [] db h)),
        (λ cannot.
            let short : ltb_ℤ (total64 (pos 0) (not_daily_free uas)) amount ≡ true =
              rw total (ltb_ℤ_of_not_le usable amount cannot) in
            rw short refl),
      )

  non_member-Decides : Decides r amount db rows uas false
  unfolding deduct_credits_for_non_member
  non_member-Decides =
      let free = group_total (is_type daily_free) in
      let daily = sum_of (is_type daily_free) rows in
      let others =
        sum_of (λ u. (is_type purchased u || is_type membership_grant u) || is_type event_grant u)
          rows in
      (
        (λ can. elim (Bool-cases (leb_ℤ amount (total64 (pos 0) (of_type daily_free uas)))) [
          | inl e ↦ rw e (perform_deduction_total r amount (of_type daily_free uas) [] db h)
          | inr e ↦
              let enough : leb_ℤ amount (paid_total uas) ≡ true =
                rw paid_sum_of (leb_ℤ_of_other amount daily others can (rw free at e)) in
              rw (e, enough) (perform_deduction_total r amount (combined_amounts uas) [] db h)
        ]),
        (λ cannot.
            let no_free : leb_ℤ amount (total64 (pos 0) (of_type daily_free uas)) ≡ false =
              rw free (leb_ℤ_of_not_le amount daily (λ c. cannot (inl c))) in
            let no_paid : leb_ℤ amount (paid_total uas) ≡ false =
              rw paid_sum_of (leb_ℤ_of_not_le amount others (λ c. cannot (inr c))) in
            rw (no_free, no_paid) refl),
      )

decide :
    (r : Request) (amount : ℤ) (db : Db)
    → db.faults ≡ []
    → (m : Bool) (rows uas : List UserAmount) → IsPool db.amounts uas
    → Permᴰ rows uas
    → Decides r amount db rows uas m
decide r amount db h true rows uas pool π = member-Decides r amount db rows uas h pool π
decide r amount db h false rows uas pool π = non_member-Decides r amount db rows uas h pool π

-- With a working database a deduction succeeds exactly when the amount is affordable from the rows
-- that are available to the user, and otherwise reports insufficient credits and changes nothing: for
-- a member affordable means covered by all available credits but the daily free ones, for anybody
-- else covered by the daily free credits alone or by the purchased, membership and event credits
-- together. Assumed: no statement fails, a sound table, an ORDER BY that returns the selected rows in
-- some order.
pub deduct_credits_with_tx_decides :
    (order : OrderBy) (now : ℕ) (r : Request) (amount : ℤ) (is_member : Bool) (db : Db)
    → IsOrder order
    → IsSound db
    → db.faults ≡ []
    → let rows = where_rows (is_available r.project_id r.user_id now) db.amounts in
      let run = deduct_credits_with_tx order now r amount is_member db in
      (IsAffordable is_member amount rows
        × ((info : DeductionInfo) × (db' : Db) × (run ≡ (ok info, db'))))
      ⊎ ((¬ IsAffordable is_member amount rows) × (run ≡ (err insufficient_credits, db)))
unfolding deduct_credits_with_tx
deduct_credits_with_tx_decides order now r amount is_member db o s h =
    let rows = where_rows (is_available r.project_id r.user_id now) db.amounts in
    let (can, cannot) =
      decide r amount db h is_member rows (order rows)
        (fetched-IsPool order now r.project_id r.user_id db o s) (o.perm rows) in
    rw (get_user_amounts_total order now r.project_id r.user_id db h)
      (elim (Affordable-cases is_member amount rows) [
        | inl y ↦ inl (y, can y)
        | inr n ↦ inr (n, cannot n)
      ])
