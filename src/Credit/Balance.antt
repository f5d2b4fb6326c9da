-- ===== src/Credit/Balance.antt =====
-- GetUserCreditBalance of internal/service/credit/service.go.
pub mod Agreement
pub mod Parts
use genioai_wxmini_server.Base.{ℕ, ℤ, String, List, [], ◌∷◌, ◌++◌, pos, add64}
use genioai_wxmini_server.Credit.Model.{
  CreditType, purchased, membership_grant, daily_free, event_grant, UserAmount,
}
use genioai_wxmini_server.Credit.Store.{M, pure, ◌>>=◌}
use genioai_wxmini_server.Credit.Dao.{OrderBy, get_user_amounts}

pub record UserCreditDetail : Type 0 where
  pub credit_type : CreditType
  pub remaining_amount : ℤ
  pub expired_at : ℕ

pub record UserCreditBalance : Type 0 where
  pub user_id : String
  pub project_id : String
  pub purchased_credits : ℤ
  pub subscription_credits : ℤ
  pub system_grant_credits : ℤ
  pub total_credits : ℤ
  pub credit_details : List UserCreditDetail

-- The `switch` on the type.
unfoldable pub credit_by_type : CreditType → ℤ → UserCreditBalance → UserCreditBalance
credit_by_type purchased x b = record b { purchased_credits = add64 b.purchased_credits x }
credit_by_type membership_grant x b = record b {
  subscription_credits = add64 b.subscription_credits x;
}
credit_by_type daily_free x b = record b { system_grant_credits = add64 b.system_grant_credits x }
credit_by_type event_grant x b = record b { system_grant_credits = add64 b.system_grant_credits x }
credit_by_type (CreditType.unlisted s) x b = b

abbrev pub detail : UserAmount → UserCreditDetail
detail ua = record {
  credit_type = ua.amount_iden;
  remaining_amount = ua.remaining_amount;
  expired_at = ua.expired_at;
}

-- One turn of the loop over the rows.
unfoldable pub count_row : UserAmount → UserCreditBalance → UserCreditBalance
unfolding credit_by_type
count_row ua b = credit_by_type ua.amount_iden ua.remaining_amount (record b {
  credit_details = b.credit_details ++ detail ua ∷ [];
  total_credits = add64 b.total_credits ua.remaining_amount;
})

unfoldable pub count_rows : List UserAmount → UserCreditBalance → UserCreditBalance
unfolding count_row
count_rows [] b = b
count_rows (ua ∷ uas) b = count_rows uas (count_row ua b)

abbrev pub empty_balance : String → String → UserCreditBalance
empty_balance project_id user_id = record {
  user_id = user_id;
  project_id = project_id;
  purchased_credits = pos 0;
  subscription_credits = pos 0;
  system_grant_credits = pos 0;
  total_credits = pos 0;
  credit_details = [];
}

unfoldable pub get_user_credit_balance : OrderBy → ℕ → String → String → M UserCreditBalance
unfolding count_rows
get_user_credit_balance order now project_id user_id = do
  user_amounts ← get_user_amounts order now project_id user_id
  pure (count_rows user_amounts (empty_balance project_id user_id))
