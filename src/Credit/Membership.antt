-- ===== src/Credit/Membership.antt =====
-- internal/service/credit/membership.go: the credits of memberships, a client of AddCredits and
-- ClearExpiredCredits. `second_text` is Format("20060102150405") of the reading of the clock at hand.
pub mod Expired
pub mod Collision
use genioai_wxmini_server.Base.{
  ℕ, ℤ, String, List, pos, neg64, ltb_ℤ, leb_ℤ, if◌then◌else◌, append_text, ◌==◌, negsuc, suc, eq_ℤ,
}
use genioai_wxmini_server.Credit.Model.{membership_grant, subscription_grant, subscription_expiry}
use genioai_wxmini_server.Credit.Store.{Result, ok, err, Db, M, pure, raise, ◌>>=◌, ◌>>◌}
use genioai_wxmini_server.Credit.Dao.{OrderBy}
use genioai_wxmini_server.Credit.Grants.{Grant, add_credits}
use genioai_wxmini_server.Credit.Expiry.{clear_expired_credits}

-- `switch membershipLevel`
abbrev pub get_membership_credit_amount : ℤ → ℤ
get_membership_credit_amount level =
    if eq_ℤ level (pos 10)
    then pos 100
    else if eq_ℤ level (pos 2)
    then pos 300
    else if eq_ℤ level (pos 3)
    then pos 500
    else pos 0

abbrev pub membership_grant_of : String → String → String → ℤ → ℕ → Grant
membership_grant_of second_text project_id user_id amount expired_at = record {
  project_id = project_id;
  user_id = user_id;
  source_id = append_text "membership_grant_" second_text;
  credit_type = membership_grant;
  transaction_type = subscription_grant;
  amount = amount;
  expired_at = expired_at;
  description = "会员额度发放";
  subscribe_level = pos 0;
}

unfoldable pub grant_membership_credits : String → String → String → ℤ → ℕ → M (Unit {0})
unfolding add_credits
grant_membership_credits second_text project_id user_id level expired_at =
    let amount = get_membership_credit_amount level in
    if leb_ℤ amount (pos 0)
    then pure tt
    else add_credits (membership_grant_of second_text project_id user_id amount expired_at)

-- The clock and the formatted times that `ClearExpiredCredits` reads.
pub record Clock : Type 0 where
  pub stamp : ℕ → String
  pub query_now : ℕ
  pub now : ℕ
  pub second_text : String

unfoldable pub clear_expired_membership_credits : OrderBy → Clock → String → String → M ℤ
unfolding clear_expired_credits
clear_expired_membership_credits order c project_id user_id =
    clear_expired_credits order c.stamp c.query_now c.now project_id user_id membership_grant

-- A failure of the clearing does not stop the upgrade.
abbrev pub after_clearing : {A : Type 0} → M A → Result ℤ × Db → Result A × Db
after_clearing next (ok cleared, db) = next db
after_clearing next (err e, db) = next db

unfoldable pub process_membership_upgrade : OrderBy → Clock → String → String → ℤ → ℕ → M (Unit {0})
unfolding clear_expired_membership_credits grant_membership_credits
process_membership_upgrade order c project_id user_id new_level expired_at db =
    after_clearing (grant_membership_credits c.second_text project_id user_id new_level expired_at)
      (clear_expired_membership_credits order c project_id user_id db)

-- The row that records the clearing: a negative balance, and the zero time.
abbrev pub expiry_grant_of : String → String → String → ℤ → Grant
expiry_grant_of second_text project_id user_id cleared_amount = record {
  project_id = project_id;
  user_id = user_id;
  source_id = append_text "membership_expiry_" second_text;
  credit_type = membership_grant;
  transaction_type = subscription_expiry;
  amount = neg64 cleared_amount;
  expired_at = 0;
  description = "会员到期额度清零";
  subscribe_level = pos 0;
}

-- An error of this last call is only logged.
abbrev pub ignore_error : ℤ → Result (Unit {0}) × Db → Result ℤ × Db
ignore_error cleared (r, db) = (ok cleared, db)

abbrev pub record_expiry : String → String → String → ℤ → M ℤ
record_expiry second_text project_id user_id cleared db =
    if ltb_ℤ (pos 0) cleared
    then ignore_error cleared
        (add_credits (expiry_grant_of second_text project_id user_id cleared) db)
    else (ok cleared, db)

unfoldable pub process_membership_expiry : OrderBy → Clock → String → String → M ℤ
unfolding clear_expired_membership_credits
process_membership_expiry order c project_id user_id =
    clear_expired_membership_credits order c project_id user_id
    >>= record_expiry c.second_text project_id user_id
