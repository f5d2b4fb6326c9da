-- ===== src/Credit/Deduct/Pool.antt =====
-- Pools: the rows that the query of a deduction returns, and the groups that it forms of them.
use genioai_wxmini_server.Base.{
  ℕ, String, Bool, true, false, List, ◌++◌, ◌||◌, pos, ◌+ℤ◌, IsInt64, ◌≡◌, refl, sym, ap, subst,
  ◌∙◌, All, All-append, arith, add64_exact, IsInt64-between, where_rows, zero_+ℤ,
}
use genioai_wxmini_server.Credit.Model.{UserAmount, purchased, membership_grant, event_grant}
use genioai_wxmini_server.Credit.Store.{Db, ok}
use genioai_wxmini_server.Credit.Dao.{OrderBy, is_type, is_available, get_user_amounts}
use genioai_wxmini_server.Credit.Table.{IsStored}
use genioai_wxmini_server.Credit.Deduct.{total64, of_type, combined_amounts, paid_total}
use genioai_wxmini_server.Credit.Deduct.Charges.{IsFunded, sum_remaining}
use genioai_wxmini_server.Credit.Selection.{
  IsSelection, IsBalance, All-perm, All-where, All-where_test, All-map, All-both, Distinct-where,
  Distinct-perm, Distinct-IsStored, sum_remaining-where, sum_remaining-append, sum_remaining-perm,
  total64_exact,
}
use genioai_wxmini_server.Credit.Invariant.{IsSound, IsOrder}
use genioai_wxmini_server.Credit.Grouping.{
  type_disjoint, sum_remaining-disjoint, IsSelection-where, IsSelection-append,
}

-- Rows that can be drawn on, with balances that together fit an int64.
pub record IsPool (rows uas : List UserAmount) : Type 0 where
  pub selection : IsSelection rows uas
  pub bounded : IsInt64 (sum_remaining uas)

pub get_user_amounts_ok :
    (order : OrderBy) (now : ℕ) (project_id user_id : String) (db : Db) {uas : List UserAmount}
    {db' : Db}
    → get_user_amounts order now project_id user_id db ≡ (ok uas, db')
    → (uas ≡ order (where_rows (is_available project_id user_id now) db.amounts))
      × (db'.amounts ≡ db.amounts)
      × (db'.transactions ≡ db.transactions)
      × (db'.drawn ≡ db.drawn)
      × (db'.next_id ≡ db.next_id)
unfolding get_user_amounts
get_user_amounts_ok order now project_id user_id db h = ground arith

IsFunded-of_test :
    (project_id user_id : String) (now : ℕ) (u : UserAmount)
    → (is_available project_id user_id now u ≡ true) × IsBalance u
    → IsFunded u
IsFunded-of_test project_id user_id now u h = ground arith

pub fetched-IsPool :
    (order : OrderBy) (now : ℕ) (project_id user_id : String) (db : Db)
    → IsOrder order
    → IsSound db
    → IsPool db.amounts (order (where_rows (is_available project_id user_id now) db.amounts))
fetched-IsPool order now project_id user_id db o s =
    let test = is_available project_id user_id now in
    let rows = where_rows test db.amounts in
    let bal = All-where IsBalance test db.amounts s.balances in
    let (low, high) = sum_remaining-where test db.amounts s.balances in
    record {
      selection = record {
        funded = All-perm IsFunded (o.perm rows) (
            All-map _ IsFunded (IsFunded-of_test project_id user_id now) rows
              (All-both (λ u. test u ≡ true) IsBalance rows (All-where_test test db.amounts) bal));
        stored = All-perm (IsStored db.amounts) (o.perm rows) (
            All-where (IsStored db.amounts) test db.amounts
              (Distinct-IsStored db.amounts s.distinct));
        distinct = Distinct-perm (o.perm rows) (Distinct-where test db.amounts s.distinct);
      };
      bounded =
          subst IsInt64 (sum_remaining-perm (o.perm rows)) (IsInt64-between _ _ s.bounded low high);
    }

abbrev balance_of_funded : (u : UserAmount) → IsFunded u → IsBalance u
balance_of_funded u h = (omega (arith, h.0), h.1)

pub IsPool-balances : {rows uas : List UserAmount} → IsPool rows uas → All IsBalance uas
IsPool-balances {rows} {uas} p = All-map IsFunded IsBalance balance_of_funded uas p.selection.funded

pub IsPool-where :
    (rows : List UserAmount) (p : UserAmount → Bool) (uas : List UserAmount)
    → IsPool rows uas
    → IsPool rows (where_rows p uas)
IsPool-where rows p uas pool =
    let (low, high) = sum_remaining-where p uas (IsPool-balances pool) in
    record {
      selection = IsSelection-where rows p uas pool.selection;
      bounded = IsInt64-between _ _ pool.bounded low high;
    }

-- The loop's total of a pool is its true total.
pub total64-pool :
    (rows uas : List UserAmount) → IsPool rows uas → total64 (pos 0) uas ≡ sum_remaining uas
total64-pool rows uas pool =
    total64_exact (pos 0) uas (IsPool-balances pool) (omega arith)
      (subst IsInt64 (sym (zero_+ℤ (sum_remaining uas))) pool.bounded)
    ∙ zero_+ℤ (sum_remaining uas)

-- The rows of the three mixed types are a pool, whose total is the code's total.
module _ (rows uas : List UserAmount) (pool : IsPool rows uas) where
  abbrev pub paid : UserAmount → Bool
  paid x = is_type purchased x || is_type membership_grant x

  abbrev pub with_events : UserAmount → Bool
  with_events x = paid x || is_type event_grant x

  paid_sum :
      sum_remaining (of_type purchased uas) +ℤ sum_remaining (of_type membership_grant uas)
      ≡ sum_remaining (where_rows paid uas)
  paid_sum =
      sum_remaining-disjoint (is_type purchased) (is_type membership_grant) uas
        (λ x. type_disjoint purchased membership_grant x refl)

  paid-disjoint : (x : UserAmount) → paid x ≡ true → is_type event_grant x ≡ false
  paid-disjoint x h = ground arith

  split_sum :
      sum_remaining (combined_amounts uas)
      ≡ sum_remaining (of_type purchased uas)
        +ℤ sum_remaining (of_type membership_grant uas)
        +ℤ sum_remaining (of_type event_grant uas)
  split_sum =
      sum_remaining-append (of_type purchased uas ++ of_type membership_grant uas)
        (of_type event_grant uas)
      ∙ ap (λ z. z +ℤ sum_remaining (of_type event_grant uas))
          (sum_remaining-append (of_type purchased uas) (of_type membership_grant uas))

  pub combined_sum :
      sum_remaining (combined_amounts uas) ≡ sum_remaining (where_rows with_events uas)
  combined_sum =
      split_sum
      ∙ (ap (λ z. z +ℤ sum_remaining (of_type event_grant uas)) paid_sum
          ∙ sum_remaining-disjoint paid (is_type event_grant) uas paid-disjoint)

  pub combined-IsPool : IsPool rows (combined_amounts uas)
  combined-IsPool =
      let sel = λ (p : UserAmount → Bool). IsSelection-where rows p uas pool.selection in
      let first =
        IsSelection-append rows (is_type purchased) true (of_type purchased uas)
          (of_type membership_grant uas) (sel (is_type purchased)) (sel (is_type membership_grant))
          (All-where_test (is_type purchased) uas)
          (All-map _ _ (λ x. type_disjoint membership_grant purchased x refl) _
            (All-where_test (is_type membership_grant) uas)) in
      let (low, high) = sum_remaining-where with_events uas (IsPool-balances pool) in
      record {
        selection =
            IsSelection-append rows (is_type event_grant) false
              (of_type purchased uas ++ of_type membership_grant uas) (of_type event_grant uas)
              first (sel (is_type event_grant))
              (All-append _ (of_type purchased uas) (of_type membership_grant uas)
                (All-map _ _ (λ x. type_disjoint purchased event_grant x refl) _
                  (All-where_test (is_type purchased) uas))
                (All-map _ _ (λ x. type_disjoint membership_grant event_grant x refl) _
                  (All-where_test (is_type membership_grant) uas)))
              (All-where_test (is_type event_grant) uas);
        bounded = subst IsInt64 (sym combined_sum) (IsInt64-between _ _ pool.bounded low high);
      }

  pub paid_total-pool : paid_total uas ≡ sum_remaining (combined_amounts uas)
  paid_total-pool =
      let group = λ (p : UserAmount → Bool). IsPool-where rows p uas pool in
      rw
        (
          total64-pool rows (of_type purchased uas) (group (is_type purchased)),
          total64-pool rows (of_type membership_grant uas) (group (is_type membership_grant)),
          total64-pool rows (of_type event_grant uas) (group (is_type event_grant)),
          add64_exact (sum_remaining (of_type purchased uas))
              (sum_remaining (of_type membership_grant uas))
              (subst IsInt64 (sym paid_sum) (group paid).bounded),
        )
        (add64_exact _ (sum_remaining (of_type event_grant uas))
            (subst IsInt64 split_sum combined-IsPool.bounded)
          ∙ sym split_sum)
