-- ===== src/Credit/Daily.antt =====
-- internal/service/daily_free_credits_service.go: the daily free credits and the register bonus. The
-- formatted day of a time and the last second of its day are those of Go's time package, parameters
-- here.
pub mod Once
pub mod Due
use genioai_wxmini_server.Base.{
  ℕ, ℤ, String, Bool, true, false, not, Option, none, some, List, [], ◌∷◌, leb_ℤ, ltb_ℤ, pos,
  if◌then◌else◌, append_text,
}
use genioai_wxmini_server.Credit.Model.{daily_free, event_grant, daily_grant, register_bonus}
use genioai_wxmini_server.Credit.Store.{
  Error, insufficient_credits, duplicate_entry, statement_failed, malformed_info, Result, ok, err,
  Db, M, pure, raise,
}
use genioai_wxmini_server.Credit.Grants.{Grant, add_credits, add_credits_with_tx}

-- The two configuration values that the service reads, `none` where reading one fails.
pub record Config : Type 0 where
  pub enabled : Option Bool
  pub amount : Option ℤ

-- The fields of `DailyFreeCreditsService` that may be nil, with what they answer for the user:
-- `subscribe_level` is `none` for an error or no info.
pub record Service : Type 0 where
  pub config_service : Option Config
  pub subscribe_service : Option (Option ℤ)

pub record Calendar : Type 0 where
  pub day_text : ℕ → String  -- Format("2006-01-02")
  pub end_of_day : ℕ → ℕ  -- 23:59:59 of the same day
  pub in_a_century : ℕ → ℕ  -- AddDate(100, 0, 0)

abbrev pub is_feature_enabled : Option Config → Bool
is_feature_enabled none = false
is_feature_enabled (some c) = elim c.enabled [ none ↦ false | some b ↦ b ]

abbrev pub is_vip_user : Option (Option ℤ) → Bool
is_vip_user none = false
is_vip_user (some none) = false
is_vip_user (some (some level)) = ltb_ℤ (pos 0) level

abbrev pub get_daily_credits_amount : Option Config → ℤ
get_daily_credits_amount none = pos 30
get_daily_credits_amount (some c) = elim c.amount [
  | none ↦ pos 30
  | some a ↦ if leb_ℤ a (pos 0) then pos 30 else a
]

-- The text of the error names a duplicate key.
abbrev pub is_duplicate_error : Error → Bool
is_duplicate_error duplicate_entry = true
is_duplicate_error insufficient_credits = false
is_duplicate_error statement_failed = false
is_duplicate_error malformed_info = false

-- `fmt.Sprintf("daily_free_%s_%s_%s", …)` and `fmt.Sprintf("register_bonus_%s_%s", …)`
abbrev pub daily_source : String → String → String → String
daily_source project_id user_id today =
    append_text "daily_free_"
      (append_text project_id (append_text "_" (append_text user_id (append_text "_" today))))

abbrev pub bonus_source : String → String → String
bonus_source project_id user_id =
    append_text "register_bonus_" (append_text project_id (append_text "_" user_id))

-- `today_now` and `end_now` are the two readings of the clock.
abbrev pub daily_grant_of : Calendar → ℕ → ℕ → String → String → ℤ → Grant
daily_grant_of calendar today_now end_now project_id user_id amount = record {
  project_id = project_id;
  user_id = user_id;
  source_id = daily_source project_id user_id (calendar.day_text today_now);
  credit_type = daily_free;
  transaction_type = daily_grant;
  amount = amount;
  expired_at = calendar.end_of_day end_now;
  description = "每日免费积分";
  subscribe_level = pos 0;
}

abbrev pub bonus_grant_of : Calendar → ℕ → String → String → Grant
bonus_grant_of calendar now project_id user_id = record {
  project_id = project_id;
  user_id = user_id;
  source_id = bonus_source project_id user_id;
  credit_type = event_grant;
  transaction_type = register_bonus;
  amount = pos 5;
  expired_at = calendar.in_a_century now;
  description = "新用户注册奖励";
  subscribe_level = pos 0;
}

-- What a caller makes of the answer to `AddCredits`: a duplicate source is no error, but no grant.
abbrev pub granted : ℤ → Result (Unit {0}) × Db → Result (Bool × ℤ) × Db
granted amount (ok x, db) = (ok (true, amount), db)
granted amount (err e, db) = (if is_duplicate_error e then ok (false, pos 0) else err e, db)

unfoldable pub check_and_grant_daily_credits :
    Service → Calendar → ℕ → ℕ → String → String → M (Bool × ℤ)
unfolding add_credits
check_and_grant_daily_credits s calendar today_now end_now project_id user_id db =
    let amount = get_daily_credits_amount s.config_service in
    if not (is_feature_enabled s.config_service)
    then (ok (false, pos 0), db)
    else if is_vip_user s.subscribe_service
    then (ok (false, pos 0), db)
    else if leb_ℤ amount (pos 0)
    then (ok (false, pos 0), db)
    else granted amount
        (add_credits (daily_grant_of calendar today_now end_now project_id user_id amount) db)

-- In the transaction of the caller, who says whether the user is a member.
unfoldable pub check_and_grant_daily_credits_with_tx :
    Service → Calendar → ℕ → ℕ → String → String → Bool → M (Bool × ℤ)
unfolding add_credits_with_tx
check_and_grant_daily_credits_with_tx s calendar today_now end_now project_id user_id is_member db =
    let amount = get_daily_credits_amount s.config_service in
    if not (is_feature_enabled s.config_service)
    then (ok (false, pos 0), db)
    else if is_member
    then (ok (false, pos 0), db)
    else if leb_ℤ amount (pos 0)
    then (ok (false, pos 0), db)
    else granted amount (
        add_credits_with_tx (daily_grant_of calendar today_now end_now project_id user_id amount)
          db)

unfoldable pub grant_register_bonus : Calendar → ℕ → String → String → M (Bool × ℤ)
unfolding add_credits
grant_register_bonus calendar now project_id user_id db =
    granted (pos 5) (add_credits (bonus_grant_of calendar now project_id user_id) db)
