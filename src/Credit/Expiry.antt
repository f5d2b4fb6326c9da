-- ===== src/Credit/Expiry.antt =====
-- ClearExpiredCredits of internal/service/credit/service.go. The source id of a ledger row ends in
-- the formatted time of the call; `stamp` gives it for each row.
pub mod Window
use genioai_wxmini_server.Base.{
  ℕ, ℤ, String, suc, ◌+◌, Bool, true, false, Option, none, some, List, [], ◌∷◌, ◌&&◌, ltb, ltb_ℤ,
  pos, add64, neg64, if◌then◌else◌, append_text,
}
use genioai_wxmini_server.Credit.Model.{
  CreditType, purchased, membership_grant, daily_free, event_grant, TransactionType,
  creation_failed_refund, subscription_expired_clear, UserAmount, CreditTransaction, type_eq,
}
use genioai_wxmini_server.Credit.Store.{
  Error, malformed_info, Result, ok, err, Db, M, pure, raise, ◌>>=◌, ◌>>◌, statement, transaction,
  find_row,
}
use genioai_wxmini_server.Credit.Dao.{
  OrderBy, is_type, get_user_amounts, get_user_amounts_by_ids, update_user_amount,
  create_user_amount, create_transaction, extend_active_gift_credits,
}
use genioai_wxmini_server.Credit.Deduct.{DeductionInfo, draw}

-- The rows that `ClearExpiredCredits` clears, of those that it fetched.
abbrev pub is_clearable : CreditType → ℕ → UserAmount → Bool
is_clearable t now ua =
    type_eq ua.amount_iden t && (ltb ua.expired_at now && ltb_ℤ (pos 0) ua.remaining_amount)

abbrev pub clear_row :
    (ℕ → String) → String → String → CreditType → ℕ → UserAmount → ℕ → CreditTransaction
clear_row stamp project_id user_id t now ua number = record {
  project_id = project_id;
  user_id = user_id;
  transaction_id = number;
  transaction_type = subscription_expired_clear;
  amount_change = neg64 ua.remaining_amount;
  credit_type = t;
  balance_after = pos 0;
  source_id = append_text "expired_cleanup_" (stamp number);
  description = "清理过期会员额度";
}

unfoldable pub clear_one :
    (ℕ → String) → String → String → CreditType → ℕ → UserAmount → M (Unit {0})
unfolding update_user_amount create_transaction
clear_one stamp project_id user_id t now ua = do
  update_user_amount (record ua { remaining_amount = pos 0 })
  number ← draw
  create_transaction (clear_row stamp project_id user_id t now ua number)

unfoldable pub clear_loop :
    (ℕ → String) → String → String → CreditType → ℕ → List UserAmount → ℤ → M ℤ
clear_loop stamp project_id user_id t now [] total = pure total
clear_loop stamp project_id user_id t now (ua ∷ uas) total =
    let skip = clear_loop stamp project_id user_id t now uas total in
    let clear =
      clear_one stamp project_id user_id t now ua
      >> clear_loop stamp project_id user_id t now uas (add64 total ua.remaining_amount) in
    if is_clearable t now ua then clear else skip

-- `query_now` is the clock when `GetUserAmounts` builds its query, `now` the later reading.
unfoldable pub clear_expired_credits :
    OrderBy → (ℕ → String) → ℕ → ℕ → String → String → CreditType → M ℤ
unfolding clear_loop transaction
clear_expired_credits order stamp query_now now project_id user_id t = transaction (do
  user_amounts ← get_user_amounts order query_now project_id user_id
  clear_loop stamp project_id user_id t now user_amounts (pos 0))
