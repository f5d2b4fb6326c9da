-- ===== src/Credit/Daily/Once.antt =====
-- A source of credits is granted once.
use genioai_wxmini_server.Base.{
  ℕ, ℤ, String, ◌+◌, Bool, true, false, [], ◌∷◌, ◌≡◌, refl, leb_ℤ, ◌⊎◌, sym, ◌∙◌, pos, arith,
  Bool-cases, inl, inr, ◌<ℤ◌, str_eq_self,
}
use genioai_wxmini_server.Credit.Store.{
  Db, Result, ok, err, duplicate_entry, statement, statement_total, transaction, has_source,
}
use genioai_wxmini_server.Credit.Dao.{create_user_amount, create_transaction}
use genioai_wxmini_server.Credit.Grants.{
  Grant, new_user_amount, grant_row, add_credits, add_credits_with_tx,
}
use genioai_wxmini_server.Credit.Daily.{
  Service, Calendar, is_feature_enabled, is_vip_user, get_daily_credits_amount, daily_grant_of,
  check_and_grant_daily_credits, daily_source,
}
use genioai_wxmini_server.Credit.Daily.Due.{
  IsDue, positive_of_test, IsAmount-positive, known_member, is_feature_enabled_of, IsDue-of_config,
}

-- The database after a grant.
abbrev pub grant_to : Grant → Db → Db
grant_to g db = record db {
  amounts = record (new_user_amount g) { id = db.next_id } ∷ db.amounts;
  next_id = db.next_id + 1;
  drawn = db.drawn + 1;
  transactions = grant_row g db.drawn ∷ db.transactions;
}

-- A source that is in the table already is refused.
pub add_credits_again :
    (g : Grant) (db : Db)
    → db.faults ≡ []
    → has_source g.source_id db.amounts ≡ true
    → add_credits g db ≡ (err duplicate_entry, db)
unfolding add_credits transaction add_credits_with_tx create_user_amount
add_credits_again g db h e = rw (statement_total db h, statement_total db h, e) refl

-- A source that is not is granted.
pub add_credits_first :
    (g : Grant) (db : Db)
    → db.faults ≡ []
    → has_source g.source_id db.amounts ≡ false
    → add_credits g db ≡ (ok tt, grant_to g db)
unfolding add_credits transaction add_credits_with_tx create_user_amount create_transaction
    statement
add_credits_first g db h e = ground arith

not_granted :
    {a amount : ℤ} {db db' : Db}
    → ◌≡◌ {A = Result (Bool × ℤ) × Db} (ok (false, amount), db) (ok (true, a), db')
    → ⊥
not_granted h = ground arith

-- The gate that is open when credits are granted, and what the grant does.
abbrev pub IsGranted : Service → Grant → ℤ → Db → Db → Type 0
IsGranted s g a db db' =
    (is_feature_enabled s.config_service ≡ true)
    × (is_vip_user s.subscribe_service ≡ false)
    × (pos 0 <ℤ a)
    × (a ≡ get_daily_credits_amount s.config_service)
    × (has_source g.source_id db.amounts ≡ false)
    × (db' ≡ grant_to g db)

granted_eq :
    {a b : ℤ} {db db' : Db}
    → ◌≡◌ {A = Result (Bool × ℤ) × Db} (ok (true, a), db) (ok (true, b), db')
    → (b ≡ a) × (db' ≡ db)
granted_eq h = ground arith

-- A grant that succeeded had an open gate. Assumed: no statement fails.
pub check_and_grant_daily_credits-IsGranted :
    (s : Service) (calendar : Calendar) (today_now end_now : ℕ) (project_id user_id : String)
    (db : Db) {a : ℤ} {db' : Db}
    → db.faults ≡ []
    → check_and_grant_daily_credits s calendar today_now end_now project_id user_id db
      ≡ (ok (true, a), db')
    → IsGranted s (daily_grant_of calendar today_now end_now project_id user_id a) a db db'
unfolding check_and_grant_daily_credits
check_and_grant_daily_credits-IsGranted s calendar today_now end_now project_id user_id db {a} {db'}
      h e =
    let amount = get_daily_credits_amount s.config_service in
    let g = daily_grant_of calendar today_now end_now project_id user_id amount in
    elim (Bool-cases (is_feature_enabled s.config_service)) [
      | inr off ↦ absurd (not_granted (rw off at e))
      | inl on ↦ elim (Bool-cases (is_vip_user s.subscribe_service)) [
        | inl vip ↦ absurd (not_granted (rw (on, vip) at e))
        | inr no_vip ↦ elim (Bool-cases (leb_ℤ amount (pos 0))) [
          | inl none_due ↦ absurd (not_granted (rw (on, no_vip, none_due) at e))
          | inr due ↦ elim (Bool-cases (has_source g.source_id db.amounts)) [
            | inl used ↦
                absurd (not_granted (rw (on, no_vip, due, add_credits_again g db h used) at e))
            | inr fresh ↦
                let (same, after) =
                  granted_eq (rw (on, no_vip, due, add_credits_first g db h fresh) at e) in
                rw same (on, no_vip, positive_of_test amount due, refl, fresh, after)
          ]
        ]
      ]
    ]

not_true : true ≡ false → ⊥
not_true q = ground arith

-- Whether daily credits are granted, and what a grant does. With the feature on in a configuration
-- that can be read, for a user who is not known as a member and a source that was not used before,
-- the call grants the configured amount, or 30 when none is readable or it is not positive: one row
-- and one ledger entry are added. Otherwise it grants nothing and changes no table. A member whose
-- lookup fails counts as no member. Assumed: no statement fails.
pub check_and_grant_daily_credits_decides :
    (s : Service) (calendar : Calendar) (today_now end_now : ℕ) (project_id user_id : String)
    (db : Db)
    → db.faults ≡ []
    → let run = check_and_grant_daily_credits s calendar today_now end_now project_id user_id db in
      let used =
        has_source (daily_source project_id user_id (calendar.day_text today_now)) db.amounts in
      ((a : ℤ) × IsDue s a
        × (used ≡ false)
        × (run ≡ (
          ok (true, a),
          grant_to (daily_grant_of calendar today_now end_now project_id user_id a) db,
        )))
      ⊎ ((¬ ((a : ℤ) × IsDue s a × (used ≡ false))) × (run ≡ (ok (false, pos 0), db)))
unfolding check_and_grant_daily_credits
check_and_grant_daily_credits_decides s calendar today_now end_now project_id user_id db h =
    let amount = get_daily_credits_amount s.config_service in
    let g = daily_grant_of calendar today_now end_now project_id user_id amount in
    elim (Bool-cases (is_feature_enabled s.config_service)) [
      | inr off ↦ inr ((λ z. not_true (sym (is_feature_enabled_of s z.0 z.1) ∙ off)), simp off refl)
      | inl on ↦ elim (Bool-cases (is_vip_user s.subscribe_service)) [
        | inl vip ↦ inr ((λ z. z.1.3 (known_member s vip)), simp (on, vip) refl)
        | inr no_vip ↦
            let due = IsDue-of_config s on no_vip in
            let positive = IsAmount-positive due.0.amount amount due.4 in
            elim (Bool-cases (has_source g.source_id db.amounts)) [
              | inl used ↦ inr (
                (λ z. not_true (sym used ∙ z.2)),
                simp (on, no_vip, positive, add_credits_again g db h used) refl,
              )
              | inr fresh ↦ inl (
                amount,
                due,
                fresh,
                simp (on, no_vip, positive, add_credits_first g db h fresh) refl,
              )
            ]
      ]
    ]

-- Once daily credits are granted, no further call on the same day grants any, whatever the
-- configuration is then, and no table changes. Assumed: no statement fails.
pub check_and_grant_daily_credits-once :
    (s later : Service) (calendar : Calendar) (today_now end_now today_later end_later : ℕ)
    (project_id user_id : String) (db : Db) {a : ℤ} {db' : Db}
    → db.faults ≡ []
    → calendar.day_text today_later ≡ calendar.day_text today_now
    → check_and_grant_daily_credits s calendar today_now end_now project_id user_id db
      ≡ (ok (true, a), db')
    → check_and_grant_daily_credits later calendar today_later end_later project_id user_id db'
      ≡ (ok (false, pos 0), db')
unfolding check_and_grant_daily_credits
check_and_grant_daily_credits-once s later calendar t e t' e' project_id user_id db {a} {db'} h day
      run =
    let (_, _, _, _, _, after) =
      check_and_grant_daily_credits-IsGranted s calendar t e project_id user_id db h run in
    let amount = get_daily_credits_amount later.config_service in
    let g = daily_grant_of calendar t' e' project_id user_id amount in
    let source = daily_source project_id user_id (calendar.day_text t) in
    let used : has_source g.source_id db'.amounts ≡ true =
      rw (after, day, str_eq_self source) refl in
    let calm : db'.faults ≡ [] = rw after h in
    elim (Bool-cases (is_feature_enabled later.config_service)) [
      | inr off ↦ rw off refl
      | inl on ↦ elim (Bool-cases (is_vip_user later.subscribe_service)) [
        | inl vip ↦ rw (on, vip) refl
        | inr no_vip ↦ elim (Bool-cases (leb_ℤ amount (pos 0))) [
          | inl none_due ↦ rw (on, no_vip, none_due) refl
          | inr due ↦ rw (on, no_vip, due, add_credits_again g db' calm used) refl
        ]
      ]
    ]
