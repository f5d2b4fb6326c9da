-- ===== src/Credit/Deduct/Draw.antt =====
-- Every successful deduction carries out the charges on one group of rows: the fetched rows but for
-- daily_free, or (not for a member) the daily_free rows alone.
use genioai_wxmini_server.Base.{
  ℕ, ℤ, Bool, true, false, List, [], ◌++◌, not, pos, ◌≤ℤ◌, leb_ℤ, ltb_ℤ, IsInt64, if◌then◌else◌,
  ◌≡◌, ◌⊎◌, refl, sym, ap, subst, ◌∙◌, All, All-append, arith, Bool-cases, inl, inr,
}
use genioai_wxmini_server.Credit.Model.{
  UserAmount, CreditType, purchased, membership_grant, daily_free, event_grant, type_eq,
}
use genioai_wxmini_server.Credit.Store.{Db, ok, err, Error, Result, continue-eq-ok}
use genioai_wxmini_server.Credit.Dao.{OrderBy, is_type, get_user_amounts}
use genioai_wxmini_server.Credit.Deduct.{
  Request, DeductionInfo, total64, of_type, not_daily_free, combined_amounts, paid_total,
  perform_deduction, deduct_credits_for_member, deduct_credits_for_non_member,
  deduct_credits_with_tx,
}
use genioai_wxmini_server.Credit.Deduct.Charges.{
  charges, charge_amounts, charge_ledger, sum_remaining,
}
use genioai_wxmini_server.Credit.Deduct.Loop.{Carried, perform_deduction_ok}
use genioai_wxmini_server.Credit.Selection.{IsSelection, All-where_test, All-map}
use genioai_wxmini_server.Credit.Invariant.{IsSound, IsOrder}
use genioai_wxmini_server.Credit.Grouping.{type_disjoint}
use genioai_wxmini_server.Credit.Deduct.Pool.{
  IsPool, get_user_amounts_ok, fetched-IsPool, IsPool-where, total64-pool, combined-IsPool,
  paid_total-pool,
}

le_of_test : (a b : ℤ) → ltb_ℤ b a ≡ false → a ≤ℤ b
le_of_test a b h = ground arith

leb_of_test : (a b : ℤ) → leb_ℤ a b ≡ true → a ≤ℤ b
leb_of_test a b h = ground arith

not-true : (b : Bool) → not b ≡ true → b ≡ false
not-true b h = ground arith

raise-ne-ok :
    {x : Error} {db : Db} {info : DeductionInfo} {db' : Db}
    → ◌≡◌ {A = Result DeductionInfo × Db} (err x, db) (ok info, db')
    → ⊥
raise-ne-ok h = ground arith

-- None of the mixed rows is daily_free.
combined_paid :
    (uas : List UserAmount) → All (λ u. is_type daily_free u ≡ false) (combined_amounts uas)
combined_paid uas =
    let group = λ (t : CreditType) (d : type_eq t daily_free ≡ false).
      All-map (λ u. is_type t u ≡ true) (λ u. is_type daily_free u ≡ false)
        (λ x. type_disjoint t daily_free x d) (of_type t uas) (All-where_test (is_type t) uas) in
    All-append _ (of_type purchased uas ++ of_type membership_grant uas) (of_type event_grant uas)
      (All-append _ (of_type purchased uas) (of_type membership_grant uas) (group purchased refl)
        (group membership_grant refl))
      (group event_grant refl)

-- A successful deduction: the group that was drawn on, and what was done to it.
pub record Draw (r : Request) (amount : ℤ) (is_member : Bool) (db : Db) (info : DeductionInfo)
    (db' : Db) : Type 0 where
  pub uas : List UserAmount
  pub selection : IsSelection db.amounts uas
  pub covered : amount ≤ℤ sum_remaining uas
  pub carried : Carried r (charges amount uas) [] info db db'
  pub unmixed :
      ((is_member ≡ false) × All (λ u. is_type daily_free u ≡ true) uas)
      ⊎ All (λ u. is_type daily_free u ≡ false) uas

module _ (r : Request) (amount : ℤ) (db : Db) (info : DeductionInfo) (db' : Db) where
  module _ (uas : List UserAmount) (pool : IsPool db.amounts uas) (p : pos 0 ≤ℤ amount)
      (i : IsInt64 amount) where
    Draw-from :
        (is_member : Bool) (group : List UserAmount)
        → IsPool db.amounts group
        → amount ≤ℤ sum_remaining group
        → ((is_member ≡ false) × All (λ u. is_type daily_free u ≡ true) group)
          ⊎ All (λ u. is_type daily_free u ≡ false) group
        → perform_deduction r amount group [] db ≡ (ok info, db')
        → Draw r amount is_member db info db'
    Draw-from is_member group g c u e = record {
      uas = group;
      selection = g.selection;
      covered = c;
      carried = perform_deduction_ok r amount group [] db g.selection.funded p i e;
      unmixed = u;
    }

    member-Draw :
        deduct_credits_for_member r amount uas db ≡ (ok info, db') → Draw r amount true db info db'
    unfolding deduct_credits_for_member
    member-Draw e =
        let keep = λ (u : UserAmount). not (is_type daily_free u) in
        let pool' = IsPool-where db.amounts keep uas pool in
        let total = total64-pool db.amounts (not_daily_free uas) pool' in
        elim (Bool-cases (ltb_ℤ (total64 (pos 0) (not_daily_free uas)) amount)) [
          | inl short ↦ absurd (raise-ne-ok (rw short at e))
          | inr enough ↦
              Draw-from true (not_daily_free uas) pool' (le_of_test amount _ (rw total at enough))
                (inr
                  (All-map _ _ (λ u. not-true (is_type daily_free u)) _ (All-where_test keep uas)))
                (rw enough at e)
        ]

    non_member-Draw :
        deduct_credits_for_non_member r amount uas db ≡ (ok info, db')
        → Draw r amount false db info db'
    unfolding deduct_credits_for_non_member
    non_member-Draw e =
        let daily = is_type daily_free in
        let pool' = IsPool-where db.amounts daily uas pool in
        let total = total64-pool db.amounts (of_type daily_free uas) pool' in
        let paid_eq = paid_total-pool db.amounts uas pool in
        elim (Bool-cases (leb_ℤ amount (total64 (pos 0) (of_type daily_free uas)))) [
          | inl free ↦
              Draw-from false (of_type daily_free uas) pool'
                (leb_of_test amount _ (rw total at free)) (inl (refl, All-where_test daily uas))
                (rw free at e)
          | inr not_free ↦ elim (Bool-cases (leb_ℤ amount (paid_total uas))) [
            | inl enough ↦
                Draw-from false (combined_amounts uas) (combined-IsPool db.amounts uas pool)
                  (leb_of_test amount _ (rw paid_eq at enough)) (inr (combined_paid uas))
                  (rw (not_free, enough) at e)
            | inr short ↦ absurd (raise-ne-ok (rw (not_free, short) at e))
          ]
        ]

any-Draw :
    (r : Request) (amount : ℤ) (db : Db) (info : DeductionInfo) (db' : Db) (uas : List UserAmount)
    → IsPool db.amounts uas
    → pos 0 ≤ℤ amount
    → IsInt64 amount
    → (is_member : Bool)
    → (if is_member
          then deduct_credits_for_member r amount uas
          else deduct_credits_for_non_member r amount uas)
        db
      ≡ (ok info, db')
    → Draw r amount is_member db info db'
any-Draw r amount db info db' uas pool p i true e = member-Draw r amount db info db' uas pool p i e
any-Draw r amount db info db' uas pool p i false e =
    non_member-Draw r amount db info db' uas pool p i e

-- The query before the deduction leaves the tables as they are.
Draw-fetched :
    (r : Request) (amount : ℤ) (is_member : Bool) (db mid : Db) {info : DeductionInfo} {db' : Db}
    → mid.amounts ≡ db.amounts
    → mid.transactions ≡ db.transactions
    → mid.drawn ≡ db.drawn
    → mid.next_id ≡ db.next_id
    → Draw r amount is_member mid info db'
    → Draw r amount is_member db info db'
Draw-fetched r amount is_member db mid am tr dr ni d = record {
  uas = d.uas;
  selection = subst (λ a. IsSelection a d.uas) am d.selection;
  covered = d.covered;
  carried = record {
    info_eq = d.carried.info_eq;
    amounts_eq = d.carried.amounts_eq ∙ ap (λ a. charge_amounts (charges amount d.uas) a) am;
    transactions_eq =
        d.carried.transactions_eq
        ∙ (ap (λ n. charge_ledger r (charges amount d.uas) n mid.transactions) dr
            ∙ ap (λ t. charge_ledger r (charges amount d.uas) db.drawn t) tr);
    next_id_eq = d.carried.next_id_eq ∙ ni;
  };
  unmixed = d.unmixed;
}

pub deduct_credits_with_tx-Draw :
    (order : OrderBy) (now : ℕ) (r : Request) (amount : ℤ) (is_member : Bool) (db : Db)
    {info : DeductionInfo} {db' : Db}
    → IsOrder order
    → IsSound db
    → pos 0 ≤ℤ amount
    → IsInt64 amount
    → deduct_credits_with_tx order now r amount is_member db ≡ (ok info, db')
    → Draw r amount is_member db info db'
unfolding deduct_credits_with_tx
deduct_credits_with_tx-Draw order now r amount is_member db {info} {db'} o s p i e =
    let (uas, mid, first, rest) =
      continue-eq-ok
        (λ user_amounts.
          if is_member
          then deduct_credits_for_member r amount user_amounts
          else deduct_credits_for_non_member r amount user_amounts)
        (get_user_amounts order now r.project_id r.user_id db) e in
    let (is_rows, am, tr, dr, ni) = get_user_amounts_ok order now r.project_id r.user_id db first in
    Draw-fetched r amount is_member db mid am tr dr ni (
      any-Draw r amount mid info db' uas
        (subst (λ a. IsPool a uas) (sym am)
          (subst (IsPool db.amounts) (sym is_rows)
            (fetched-IsPool order now r.project_id r.user_id db o s)))
        p i is_member rest)
