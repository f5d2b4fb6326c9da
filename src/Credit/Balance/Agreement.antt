-- ===== src/Credit/Balance/Agreement.antt =====
-- The two readings of a balance: GetUserCreditBalance, which adds up rows, and GetUserCreditOverview,
-- which sums in the query.
use genioai_wxmini_server.Base.{
  ℕ, ℤ, String, Bool, true, false, List, [], ◌∷◌, ◌++◌, ◌≡◌, refl, sym, ap, ◌∙◌, All, where_rows,
  pos, ◌+ℤ◌, ◌≤ℤ◌, int_laws, arith, add64, Bool-cases, inl, inr, if◌then◌else◌, ◌||◌, ltb_ℤ,
}
use genioai_wxmini_server.Credit.Model.{
  UserAmount, CreditType, purchased, membership_grant, daily_free, event_grant, type_eq,
}
use genioai_wxmini_server.Credit.Store.{Db, Result, ok, statement, continue-eq-ok, pure}
use genioai_wxmini_server.Credit.Dao.{
  OrderBy, is_type, is_available, is_overview_row, sum_of, get_user_amounts,
  get_user_credit_overview,
}
use genioai_wxmini_server.Credit.Deduct.{total64}
use genioai_wxmini_server.Credit.Deduct.Pool.{
  fetched-IsPool, IsPool-where, total64-pool, get_user_amounts_ok,
}
use genioai_wxmini_server.Credit.Deduct.Decision.{sum_remaining-sum_of, sum_of-perm}
use genioai_wxmini_server.Credit.Selection.{IsBalance}
use genioai_wxmini_server.Credit.Invariant.{IsSound, IsOrder}
use genioai_wxmini_server.Credit.Balance.{
  UserCreditBalance, credit_by_type, count_row, count_rows, detail, empty_balance,
  get_user_credit_balance,
}
use genioai_wxmini_server.Credit.Balance.Parts.{is_grant, is_unlisted, total_added_up, sums-Parts}

-- What one row does to the three counters.
abbrev plus_if : Bool → ℤ → ℤ → ℤ
plus_if c x a = if c then add64 a x else a

by_type :
    (t : CreditType) (x : ℤ) (b : UserCreditBalance)
    → ((credit_by_type t x b).purchased_credits
        ≡ plus_if (type_eq t purchased) x b.purchased_credits)
      × ((credit_by_type t x b).subscription_credits
          ≡ plus_if (type_eq t membership_grant) x b.subscription_credits)
      × ((credit_by_type t x b).system_grant_credits
          ≡ plus_if (type_eq t daily_free || type_eq t event_grant) x b.system_grant_credits)
unfolding credit_by_type
by_type purchased x b = (refl, refl, refl)
by_type membership_grant x b = (refl, refl, refl)
by_type daily_free x b = (refl, refl, refl)
by_type event_grant x b = (refl, refl, refl)
by_type (CreditType.unlisted s) x b = (refl, refl, refl)

count_row_counters :
    (u : UserAmount) (b : UserCreditBalance)
    → ((count_row u b).purchased_credits
        ≡ plus_if (is_type purchased u) u.remaining_amount b.purchased_credits)
      × ((count_row u b).subscription_credits
          ≡ plus_if (is_type membership_grant u) u.remaining_amount b.subscription_credits)
      × ((count_row u b).system_grant_credits
          ≡ plus_if (is_grant u) u.remaining_amount b.system_grant_credits)
unfolding count_row
count_row_counters u b = by_type u.amount_iden u.remaining_amount (record b {
  credit_details = b.credit_details ++ detail u ∷ [];
  total_credits = add64 b.total_credits u.remaining_amount;
})

total_by_type :
    (t : CreditType) (x : ℤ) (b : UserCreditBalance)
    → (credit_by_type t x b).total_credits ≡ b.total_credits
unfolding credit_by_type
total_by_type purchased x b = refl
total_by_type membership_grant x b = refl
total_by_type daily_free x b = refl
total_by_type event_grant x b = refl
total_by_type (CreditType.unlisted s) x b = refl

count_row_total :
    (u : UserAmount) (b : UserCreditBalance)
    → (count_row u b).total_credits ≡ add64 b.total_credits u.remaining_amount
unfolding count_row
count_row_total u b = total_by_type u.amount_iden u.remaining_amount (record b {
  credit_details = b.credit_details ++ detail u ∷ [];
  total_credits = add64 b.total_credits u.remaining_amount;
})

total64_where :
    (p : UserAmount → Bool) (u : UserAmount) (uas : List UserAmount) (a : ℤ)
    → total64 (plus_if (p u) u.remaining_amount a) (where_rows p uas)
      ≡ total64 a (where_rows p (u ∷ uas))
total64_where p u uas a = elim (Bool-cases (p u)) [ inl e ↦ rw e refl | inr e ↦ rw e refl ]

-- A counter that follows one condition ends as the loop's total of the rows that meet it.
count_rows_counter :
    (f : UserCreditBalance → ℤ) (p : UserAmount → Bool)
    → ((u : UserAmount) (b : UserCreditBalance)
        → f (count_row u b) ≡ plus_if (p u) u.remaining_amount (f b))
    → (uas : List UserAmount) (b : UserCreditBalance)
    → f (count_rows uas b) ≡ total64 (f b) (where_rows p uas)
unfolding count_rows
count_rows_counter f p step [] b = refl
count_rows_counter f p step (u ∷ uas) b =
    count_rows_counter f p step uas (count_row u b)
    ∙ (ap (λ a. total64 a (where_rows p uas)) (step u b) ∙ total64_where p u uas (f b))

no_weight :
    (c : Bool) (x z : ℤ) → pos 0 ≤ℤ x → ltb_ℤ (pos 0) x ≡ false → (if c then x else pos 0) +ℤ z ≡ z
no_weight c x z h q =
    let none : x ≤ℤ pos 0 = ground arith in
    elim (Bool-cases c) [ inl e ↦ rw e (omega int_laws) | inr e ↦ rw e (omega int_laws) ]

-- Rows without balance do not count, so both queries see the same sums.
sum_of-available :
    (project_id user_id : String) (now : ℕ) (p : UserAmount → Bool) (rows : List UserAmount)
    → All IsBalance rows
    → sum_of p (where_rows (is_available project_id user_id now) rows)
      ≡ sum_of p (where_rows (is_overview_row project_id user_id now) rows)
sum_of-available project_id user_id now p [] h = refl
sum_of-available project_id user_id now p (r ∷ rows) h =
    let ih = sum_of-available project_id user_id now p rows h.1 in
    elim (Bool-cases (is_overview_row project_id user_id now r)) [
      | inr e ↦
          let no : is_available project_id user_id now r ≡ false = ground arith in rw (e, no) ih
      | inl e ↦ elim (Bool-cases (ltb_ℤ (pos 0) r.remaining_amount)) [
        | inl q ↦
            let yes : is_available project_id user_id now r ≡ true = ground arith in
            rw (e, yes) (ap (λ z. (if p r then r.remaining_amount else pos 0) +ℤ z) ih)
        | inr q ↦
            let no : is_available project_id user_id now r ≡ false = ground arith in
            rw (e, no) (ih ∙ sym (no_weight (p r) r.remaining_amount _ h.0.0 q))
      ]
    ]

get_user_credit_overview_ok :
    (now : ℕ) (project_id user_id : String) (db : Db) {total m pu d : ℤ} {db' : Db}
    → get_user_credit_overview now project_id user_id db ≡ (ok (total, m, pu, d), db')
    → let rows = where_rows (is_overview_row project_id user_id now) db.amounts in
      (total
        ≡ add64
            (add64 (sum_of (is_type membership_grant) rows) (sum_of (is_type purchased) rows))
            (sum_of is_grant rows))
      × (m ≡ sum_of (is_type membership_grant) rows)
      × (pu ≡ sum_of (is_type purchased) rows)
      × (d ≡ sum_of is_grant rows)
unfolding get_user_credit_overview statement
get_user_credit_overview_ok now project_id user_id db h = ground arith

counted_eq :
    {b c : UserCreditBalance} {s s' : Db}
    → ◌≡◌ {A = Result UserCreditBalance × Db} (ok b, s) (ok c, s')
    → c ≡ b
counted_eq h = ground arith

-- What the loop counts for one condition is what the query of the overview sums.
counter_agrees :
    (order : OrderBy) (now : ℕ) (project_id user_id : String) (db : Db)
    → IsOrder order
    → IsSound db
    → (p : UserAmount → Bool)
    → total64
        (pos 0)
        (where_rows p (order (where_rows (is_available project_id user_id now) db.amounts)))
      ≡ sum_of p (where_rows (is_overview_row project_id user_id now) db.amounts)
counter_agrees order now project_id user_id db o s p =
    let rows = where_rows (is_available project_id user_id now) db.amounts in
    let pool = fetched-IsPool order now project_id user_id db o s in
    total64-pool db.amounts (where_rows p (order rows))
      (IsPool-where db.amounts p (order rows) pool)
    ∙ (sum_remaining-sum_of p (order rows)
        ∙ (sym (sum_of-perm p (o.perm rows))
            ∙ sum_of-available project_id user_id now p db.amounts s.balances))

-- The two ways to read a balance agree: the purchased, subscription and granted credits that
-- `GetUserCreditBalance` adds up are those that the query of `GetUserCreditOverview` sums at the same
-- time, and its total exceeds that of the query by exactly the credits of types that the code does
-- not know. Assumed: both succeed on one sound table, and an ORDER BY that returns the selected rows
-- in some order.
pub get_user_credit_balance_agrees :
    (order : OrderBy) (now : ℕ) (project_id user_id : String) (db : Db) {b : UserCreditBalance}
    {db' : Db} {total m pu d : ℤ} {db'' : Db}
    → IsOrder order
    → IsSound db
    → get_user_credit_balance order now project_id user_id db ≡ (ok b, db')
    → get_user_credit_overview now project_id user_id db ≡ (ok (total, m, pu, d), db'')
    → let rows = where_rows (is_overview_row project_id user_id now) db.amounts in
      (b.purchased_credits ≡ pu)
      × (b.subscription_credits ≡ m)
      × (b.system_grant_credits ≡ d)
      × (b.total_credits ≡ total +ℤ sum_of (λ r. is_unlisted r.amount_iden) rows)
unfolding get_user_credit_balance
get_user_credit_balance_agrees order now project_id user_id db {b} o s run read =
    let start = empty_balance project_id user_id in
    let (uas, mid, first, rest) =
      continue-eq-ok (λ uas. pure (count_rows uas start))
        (get_user_amounts order now project_id user_id db) run in
    let (fetched, _, _, _, _) = get_user_amounts_ok order now project_id user_id db first in
    let agree = counter_agrees order now project_id user_id db o s in
    let (total_eq, m_eq, pu_eq, d_eq) =
      get_user_credit_overview_ok now project_id user_id db read in
    let counted = counted_eq rest in
    let count =
      λ (f : UserCreditBalance → ℤ) (p : UserAmount → Bool)
          (step : (u : UserAmount) (c : UserCreditBalance)
            → f (count_row u c) ≡ plus_if (p u) u.remaining_amount (f c))
          (zero : f start ≡ pos 0).
        ap f counted
        ∙ (count_rows_counter f p step uas start
            ∙ (ap (λ a. total64 a (where_rows p uas)) zero
                ∙ (ap (λ rows. total64 (pos 0) (where_rows p rows)) fetched ∙ agree p))) in
    (
      count (λ c. c.purchased_credits) (is_type purchased) (λ u c. (count_row_counters u c).0) refl
          ∙ sym pu_eq,
      count (λ c. c.subscription_credits) (is_type membership_grant)
            (λ u c. (count_row_counters u c).1) refl
          ∙ sym m_eq,
      count (λ c. c.system_grant_credits) is_grant (λ u c. (count_row_counters u c).2) refl
          ∙ sym d_eq,
      count (λ c. c.total_credits) (λ r. true) count_row_total refl
          ∙ (total_added_up
                (sums-Parts (is_overview_row project_id user_id now) db.amounts s.balances)
                s.bounded
              ∙ ap
                  (λ z.
                    z
                    +ℤ sum_of (λ r. is_unlisted r.amount_iden)
                        (where_rows (is_overview_row project_id user_id now) db.amounts))
                  (sym total_eq)),
    )
