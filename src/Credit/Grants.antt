-- ===== src/Credit/Grants.antt =====
-- Adding credits, and the credit side of a membership upgrade: AddCredits, AddCreditsWithTx and
-- HandleMembershipUpgrade of internal/service/credit/service.go.
pub mod Upgrade
use genioai_wxmini_server.Base.{ℕ, ℤ, String}
use genioai_wxmini_server.Credit.Model.{CreditType, TransactionType, UserAmount, CreditTransaction}
use genioai_wxmini_server.Credit.Store.{M, ◌>>=◌, ◌>>◌, transaction}
use genioai_wxmini_server.Credit.Dao.{
  create_user_amount, create_transaction, extend_active_gift_credits,
}
use genioai_wxmini_server.Credit.Deduct.{draw}

-- The arguments of `AddCredits`.
pub record Grant : Type 0 where
  pub project_id : String
  pub user_id : String
  pub source_id : String
  pub credit_type : CreditType
  pub transaction_type : TransactionType
  pub amount : ℤ
  pub expired_at : ℕ
  pub description : String
  pub subscribe_level : ℤ

-- The row has no `ID` yet: the insert assigns it.
abbrev pub new_user_amount : Grant → UserAmount
new_user_amount g = record {
  id = 0;
  source_id = g.source_id;
  amount_iden = g.credit_type;
  project_id = g.project_id;
  user_id = g.user_id;
  remaining_amount = g.amount;
  expired_at = g.expired_at;
  subscribe_level = g.subscribe_level;
}

abbrev pub grant_row : Grant → ℕ → CreditTransaction
grant_row g number = record {
  project_id = g.project_id;
  user_id = g.user_id;
  transaction_id = number;
  transaction_type = g.transaction_type;
  amount_change = g.amount;
  credit_type = g.credit_type;
  balance_after = g.amount;
  source_id = g.source_id;
  description = g.description;
}

-- `AddCreditsWithTx` is this function exposed.
unfoldable pub add_credits_with_tx : Grant → M (Unit {0})
unfolding create_user_amount create_transaction
add_credits_with_tx g = do
  create_user_amount (new_user_amount g)
  number ← draw
  create_transaction (grant_row g number)

unfoldable pub add_credits : Grant → M (Unit {0})
unfolding add_credits_with_tx transaction
add_credits g = transaction (add_credits_with_tx g)

-- `HandleMembershipUpgrade`: both steps in one transaction. `CreditDetails` and `SubscriptionDetails`
-- are the grant and the new expiry of the subscription.
unfoldable pub handle_membership_upgrade : ℕ → Grant → ℕ → M (Unit {0})
unfolding extend_active_gift_credits add_credits_with_tx transaction
handle_membership_upgrade now g sub_expires_at =
    transaction (extend_active_gift_credits now g.user_id sub_expires_at >> add_credits_with_tx g)
