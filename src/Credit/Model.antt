-- ===== src/Credit/Model.antt =====
-- Rows and constants of the credit ledger: internal/model/amount.go, internal/model/credit.go,
-- internal/constants/credit.go. A time is a number of nanoseconds, the zero `time.Time` being 0.
use genioai_wxmini_server.Base.{ℕ, ℤ, String, Bool, true, false, str_eq}

-- `constants.CreditType`: a string type, of which the code knows four values.
pub data CreditType : Type 0 where
  purchased membership_grant daily_free event_grant : CreditType
  unlisted : String → CreditType

-- `constants.CreditTransactionType`, a string type as well.
pub data TransactionType : Type 0 where
  usage_deduction creation_failed_refund purchase onetime_purchase : TransactionType
  subscription_grant subscription_created subscription_renewed : TransactionType
  subscription_upgrade subscription_expiry subscription_expired_clear : TransactionType
  admin_adjustment system_grant task_retry_deduction daily_grant : TransactionType
  event_reward invite_reward register_bonus : TransactionType
  unlisted : String → TransactionType

-- `model.UserAmount`, with the `ID` of its `gorm.Model`.
pub record UserAmount : Type 0 where
  pub id : ℕ
  pub source_id : String
  pub amount_iden : CreditType
  pub project_id : String
  pub user_id : String
  pub remaining_amount : ℤ  -- int64
  pub expired_at : ℕ
  pub subscribe_level : ℤ

-- `model.CreditTransaction`; `transaction_id` is the number of the draw from `uuid.NewString`.
pub record CreditTransaction : Type 0 where
  pub project_id : String
  pub user_id : String
  pub transaction_id : ℕ
  pub transaction_type : TransactionType
  pub amount_change : ℤ  -- int64
  pub credit_type : CreditType
  pub balance_after : ℤ  -- int64
  pub source_id : String
  pub description : String

-- `a == b` on the string type.
abbrev pub type_eq : CreditType → CreditType → Bool
type_eq purchased purchased = true
type_eq membership_grant membership_grant = true
type_eq daily_free daily_free = true
type_eq event_grant event_grant = true
type_eq (CreditType.unlisted s) (CreditType.unlisted t) = str_eq s t
type_eq _ _ = false
