-- ===== src/Credit/Refund.antt =====
-- RefundCredits of internal/service/credit/service.go.
pub mod Returned
pub mod Restores
pub mod RoundTrip
use genioai_wxmini_server.Base.{Option, none, some, ℕ, ℤ, String, none, some, List, [], ◌∷◌, add64}
use genioai_wxmini_server.Credit.Model.{creation_failed_refund, UserAmount, CreditTransaction}
use genioai_wxmini_server.Credit.Store.{
  malformed_info, M, pure, raise, ◌>>=◌, ◌>>◌, transaction, find_row,
}
use genioai_wxmini_server.Credit.Dao.{
  get_user_amounts_by_ids, update_user_amount, create_transaction,
}
use genioai_wxmini_server.Credit.Deduct.{DeductionInfo, draw}

-- `task.CreditDeductionInfo`: empty, or JSON that does or does not decode to a map.
pub data StoredInfo : Type 0 where
  no_info malformed : StoredInfo
  parsed : DeductionInfo → StoredInfo

-- What `RefundCredits` reads of the task.
pub record RefundTask : Type 0 where
  pub project_id : String
  pub user_id : String
  pub task_id : String
  pub deduction_info : StoredInfo

abbrev pub refunded : UserAmount → ℤ → UserAmount
refunded ua refund_amount = record ua { remaining_amount = add64 ua.remaining_amount refund_amount }

abbrev pub refund_row : RefundTask → String → UserAmount → ℤ → ℕ → CreditTransaction
refund_row t description ua refund_amount number = record {
  project_id = t.project_id;
  user_id = t.user_id;
  transaction_id = number;
  transaction_type = creation_failed_refund;
  amount_change = refund_amount;
  credit_type = ua.amount_iden;
  balance_after = add64 ua.remaining_amount refund_amount;
  source_id = t.task_id;
  description = description;
}

unfoldable pub refund_one : RefundTask → String → UserAmount → ℤ → M (Unit {0})
unfolding update_user_amount create_transaction
refund_one t description ua refund_amount = do
  update_user_amount (refunded ua refund_amount)
  number ← draw
  create_transaction (refund_row t description ua refund_amount number)

-- A missing row is skipped.
unfoldable pub refund_entry : RefundTask → String → Option UserAmount → ℤ → M (Unit {0})
unfolding refund_one
refund_entry t description none refund_amount = pure tt
refund_entry t description (some ua) refund_amount = refund_one t description ua refund_amount

-- The loop over the map, in whichever order the map is ranged over.
unfoldable pub refund_loop : RefundTask → String → List UserAmount → DeductionInfo → M (Unit {0})
unfolding refund_entry
refund_loop t description found [] = pure tt
refund_loop t description found ((amount_id, refund_amount) ∷ m) =
    refund_entry t description (find_row amount_id found) refund_amount
    >> refund_loop t description found m

abbrev pub keys : DeductionInfo → List ℕ
keys [] = []
keys ((k, d) ∷ m) = k ∷ keys m

unfoldable pub refund_map : RefundTask → String → DeductionInfo → M (Unit {0})
unfolding refund_loop
refund_map t description m = do
  found ← get_user_amounts_by_ids (keys m)
  refund_loop t description found m

-- The branches on the stored text, and on the empty map.
unfoldable pub refund_stored : RefundTask → String → StoredInfo → M (Unit {0})
unfolding transaction
refund_stored t description no_info = pure tt
refund_stored t description malformed = raise malformed_info
refund_stored t description (parsed []) = pure tt
refund_stored t description (parsed (e ∷ m)) = transaction (refund_map t description (e ∷ m))

unfoldable pub refund_credits : RefundTask → String → M (Unit {0})
unfolding refund_stored
refund_credits t description = refund_stored t description t.deduction_info
