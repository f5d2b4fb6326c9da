-- ===== src/Credit/Tests/Granting.antt =====
-- The theorems on grants and expiry at concrete runs.
use genioai_wxmini_server.Base.{
  ℕ, ℤ, ◌⊎◌, String, true, false, some, List, [], ◌∷◌, ◌≡◌, inl, refl, pos, arith, ◌+◌,
}
use genioai_wxmini_server.Credit.Model.{
  UserAmount, CreditTransaction, membership_grant, subscription_upgrade,
}
use genioai_wxmini_server.Credit.Store.{
  Db, has_source, ok, err, duplicate_entry, transaction, statement,
}
use genioai_wxmini_server.Credit.Dao.{create_user_amount, create_transaction}
use genioai_wxmini_server.Credit.Grants.{
  Grant, handle_membership_upgrade, add_credits, add_credits_with_tx,
}
use genioai_wxmini_server.Credit.Grants.Upgrade.{
  IsRowOf, IsEntryOf, AreUpgraded, handle_membership_upgrade_ok,
}
use genioai_wxmini_server.Credit.Expiry.{clear_expired_credits}
use genioai_wxmini_server.Credit.Expiry.Window.{clear_expired_credits_nothing}
use genioai_wxmini_server.Credit.Daily.{
  Service, Calendar, check_and_grant_daily_credits, daily_grant_of, daily_source,
}
use genioai_wxmini_server.Credit.Daily.Due.{IsDue}
use genioai_wxmini_server.Credit.Daily.Once.{
  grant_to, check_and_grant_daily_credits_decides, check_and_grant_daily_credits-once,
}
use genioai_wxmini_server.Credit.Membership.{Clock, grant_membership_credits}
use genioai_wxmini_server.Credit.Membership.Collision.{grant_membership_credits-collides}
use genioai_wxmini_server.Credit.Tests.{db_of, three_rows, as_stored, as_stored-IsOrder}

-- All three rows expired before 200.
abbrev stamp : ℕ → String
stamp n = "20260101"

clear_expired_credits_nothing_example :
    clear_expired_credits as_stored stamp 200 200 "p" "u" membership_grant three_rows
    ≡ (ok (pos 0), three_rows)
clear_expired_credits_nothing_example =
    clear_expired_credits_nothing as_stored stamp 200 200 "p" "u" membership_grant three_rows
      as_stored-IsOrder refl (inl (omega arith), (inl (omega arith), (inl (omega arith), tt)))

abbrev clock : Clock
clock = record { stamp = stamp; query_now = 200; now = 200; second_text = "20260101000000" }

-- Two grants in one second.
abbrev after_membership : Db
after_membership = (grant_membership_credits "20260101000000" "p" "u" (pos 2) 300 (db_of [])).1

grant_membership_credits-collides_example :
    grant_membership_credits "20260101000000" "p" "v" (pos 3) 300 after_membership
    ≡ (err duplicate_entry, after_membership)
unfolding grant_membership_credits add_credits transaction statement add_credits_with_tx
    create_user_amount create_transaction
grant_membership_credits-collides_example =
    grant_membership_credits-collides "20260101000000" "p" "u" "p" "v" (pos 2) (pos 3) 300 300
      (db_of []) refl (omega arith) (omega arith) refl

-- Two calls on one day.
abbrev service : Service
service = record {
  config_service = some (record { enabled = some true; amount = some (pos 10) });
  subscribe_service = some (some (pos 0));
}

abbrev calendar : Calendar
calendar = record {
  day_text = λ t. "2026-01-01";
  end_of_day = λ t. 86399;
  in_a_century = λ t. t + 3153600000;
}

abbrev after_daily : Db
after_daily = (check_and_grant_daily_credits service calendar 5 6 "p" "u" (db_of [])).1

grant_daily :
    check_and_grant_daily_credits service calendar 5 6 "p" "u" (db_of [])
    ≡ (ok (true, pos 10), after_daily)
unfolding check_and_grant_daily_credits add_credits transaction statement add_credits_with_tx
    create_user_amount create_transaction
grant_daily = refl

check_and_grant_daily_credits_decides_example :
    let run = check_and_grant_daily_credits service calendar 5 6 "p" "u" (db_of []) in
    let used = has_source (daily_source "p" "u" "2026-01-01") [] in
    ((a : ℤ) × IsDue service a
      × (used ≡ false)
      × (run ≡ (ok (true, a), grant_to (daily_grant_of calendar 5 6 "p" "u" a) (db_of []))))
    ⊎ ((¬ ((a : ℤ) × IsDue service a × (used ≡ false))) × (run ≡ (ok (false, pos 0), db_of [])))
check_and_grant_daily_credits_decides_example =
    check_and_grant_daily_credits_decides service calendar 5 6 "p" "u" (db_of []) refl

check_and_grant_daily_credits-once_example :
    check_and_grant_daily_credits service calendar 7 8 "p" "u" after_daily
    ≡ (ok (false, pos 0), after_daily)
check_and_grant_daily_credits-once_example =
    check_and_grant_daily_credits-once service service calendar 5 6 7 8 "p" "u" (db_of []) refl refl
      grant_daily

-- An upgrade until 90: the row of the membership expires then.
abbrev upgrade : Grant
upgrade = record {
  project_id = "p";
  user_id = "u";
  source_id = "event";
  credit_type = membership_grant;
  transaction_type = subscription_upgrade;
  amount = pos 8;
  expired_at = 90;
  description = "";
  subscribe_level = pos 2;
}

abbrev upgraded : Db
upgraded = (handle_membership_upgrade 10 upgrade 90 three_rows).1

upgrade_three : handle_membership_upgrade 10 upgrade 90 three_rows ≡ (ok tt, upgraded)
unfolding handle_membership_upgrade
upgrade_three = refl

handle_membership_upgrade_ok_example :
    (u : UserAmount) × (rest : List UserAmount) × (t : CreditTransaction) × (upgraded.amounts
      ≡ u ∷ rest)
    × (upgraded.transactions ≡ t ∷ three_rows.transactions)
    × IsRowOf upgrade u
    × IsEntryOf upgrade t
    × AreUpgraded "u" 10 90 three_rows.amounts rest
handle_membership_upgrade_ok_example =
    handle_membership_upgrade_ok 10 upgrade 90 three_rows upgrade_three
