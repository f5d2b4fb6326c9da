-- ===== src/Credit/Membership/Collision.antt =====
-- The source of a membership grant names neither the project nor the user.
use genioai_wxmini_server.Base.{
  ℕ, ℤ, String, true, false, [], ◌≡◌, refl, pos, leb_ℤ, ◌<ℤ◌, arith, Bool-cases, inl, inr,
  str_eq_self,
}
use genioai_wxmini_server.Credit.Store.{Db, ok, err, Result, duplicate_entry, has_source}
use genioai_wxmini_server.Credit.Daily.Once.{add_credits_again, add_credits_first}
use genioai_wxmini_server.Credit.Membership.{
  get_membership_credit_amount, membership_grant_of, grant_membership_credits,
}

due_of_positive : (a : ℤ) → pos 0 <ℤ a → leb_ℤ a (pos 0) ≡ false
due_of_positive a h = ground arith

not_ok : {db db' : Db} → ◌≡◌ {A = Result (Unit {0}) × Db} (err duplicate_entry, db) (ok tt, db') → ⊥
not_ok h = ground arith

ok_eq : {db db' : Db} → ◌≡◌ {A = Result (Unit {0}) × Db} (ok tt, db) (ok tt, db') → db' ≡ db
ok_eq h = ground arith

-- Of two membership grants in one second only the first is made, even to different users: the second
-- fails on the unique source and changes nothing. Assumed: both levels carry credits, and no
-- statement fails.
pub grant_membership_credits-collides :
    (second_text project_id user_id other_project other_user : String) (level other_level : ℤ)
    (expired_at other_expiry : ℕ) (db : Db) {db' : Db}
    → db.faults ≡ []
    → pos 0 <ℤ get_membership_credit_amount level
    → pos 0 <ℤ get_membership_credit_amount other_level
    → grant_membership_credits second_text project_id user_id level expired_at db ≡ (ok tt, db')
    → grant_membership_credits second_text other_project other_user other_level other_expiry db'
      ≡ (err duplicate_entry, db')
unfolding grant_membership_credits
grant_membership_credits-collides second_text p u p' u' level level' x x' db {db'} h due due' run =
    let g = membership_grant_of second_text p u (get_membership_credit_amount level) x in
    let g' = membership_grant_of second_text p' u' (get_membership_credit_amount level') x' in
    let first = due_of_positive (get_membership_credit_amount level) due in
    let second = due_of_positive (get_membership_credit_amount level') due' in
    elim (Bool-cases (has_source g.source_id db.amounts)) [
      | inl used ↦ absurd (not_ok (rw (first, add_credits_again g db h used) at run))
      | inr fresh ↦
          let after = ok_eq (rw (first, add_credits_first g db h fresh) at run) in
          let calm : db'.faults ≡ [] = rw after h in
          let used : has_source g'.source_id db'.amounts ≡ true =
            rw (after, str_eq_self g.source_id) refl in
          rw second (add_credits_again g' db' calm used)
    ]
