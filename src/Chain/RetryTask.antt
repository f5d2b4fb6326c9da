-- ===== src/Chain/RetryTask.antt =====
-- RetryFailedTask of internal/service/picture_task.go, with internal/service/credit/image_pricing.go.
-- The subscription service is an argument, its answer whether the user is a member. Encoding a map of
-- integers as JSON does not fail. Panics are left out.
pub mod Done
pub mod Atomic
pub mod Refunded
use genioai_wxmini_server.Base.{
  ℕ, ℤ, String, Bool, true, false, not, Option, none, some, List, str_eq, pos, ltb_ℤ, inc32, ◌&&◌,
  if◌then◌else◌,
}
use genioai_wxmini_server.Quota.World.{Status, failed, pending}
use genioai_wxmini_server.Credit.Model.{task_retry_deduction}
use genioai_wxmini_server.Credit.Store.{Db, Result}
use genioai_wxmini_server.Credit.Store
use genioai_wxmini_server.Credit.Dao.{OrderBy}
use genioai_wxmini_server.Credit.Deduct.{Request, DeductionInfo, deduct_credits_with_tx}
use genioai_wxmini_server.Credit.Refund.{StoredInfo, no_info, parsed}
use genioai_wxmini_server.Chain.World.{
  no_result, PictureTask, World, Answer, ok, err, fails, get_task, store_task, send,
}

-- `amount_not_enough` is `ERR_USER_AMOUNT_NOT_ENOUGH`, and `cannot_be_retried` the other constant.
pub data RetryError : Type 0 where
  begin_failed get_failed cannot_be_retried amount_not_enough update_failed commit_failed :
      RetryError

unfoldable pub image_generation_cost : Bool → ℤ → Bool → Bool → ℤ
image_generation_cost free_image_generation amount true true = pos 0
image_generation_cost free_image_generation amount true false =
    if free_image_generation then pos 0 else amount
image_generation_cost free_image_generation amount false member_free = amount

abbrev pub is_failed : Status → Bool
is_failed failed = true
is_failed _ = false

abbrev pub is_retriable : PictureTask → Bool
is_retriable t = t.can_retry && is_failed t.status

-- The credits are charged on the connection of the transaction.
abbrev pub retry_request : PictureTask → Request
retry_request t = record {
  project_id = t.project_id;
  user_id = t.user_id;
  source_id = t.task_id;
  transaction_type = task_retry_deduction;
  description = "任务重试扣款";
}

abbrev pub retried_row : ℤ → StoredInfo → PictureTask → PictureTask
retried_row credit_cost deduction_info t = record t {
  status = pending;
  error = "";
  result_json = no_result;
  progress = pos 0;
  retry_count = inc32 t.retry_count;
  provider_sync_error_count = pos 0;
  credit_deduction_info = deduction_info;
  credit_points = credit_cost;
  is_refunded = false;
}

abbrev pub Retried : Type 0
Retried = Option RetryError × World

-- `Rollback`, and a commit that fails: both tables are as when the transaction began.
abbrev pub with_tables : World → World → World
with_tables old w = record w {
  tasks = old.tasks;
  credits = record w.credits {
    amounts = old.credits.amounts;
    transactions = old.credits.transactions;
  };
}

abbrev pub undo_error : World → Retried → Retried
undo_error old (none, w) = (none, w)
undo_error old (some e, w) = (some e, with_tables old w)

abbrev pub after_retry_commit : PictureTask → Bool × World → Retried
after_retry_commit t (true, w) = (some commit_failed, w)
after_retry_commit t (false, w) = (none, send t w)

abbrev pub after_retry_save : PictureTask → Bool × World → Retried
after_retry_save t (true, w) = (some update_failed, w)
after_retry_save t (false, w) = after_retry_commit t (fails (store_task t w))

unfoldable pub save_retry : PictureTask → World → Retried
unfolding fails
save_retry t w = after_retry_save t (fails w)

-- Every error of the deduction is reported as too few credits.
abbrev pub after_deduction : ℤ → PictureTask → World → Result DeductionInfo × Db → Retried
after_deduction credit_cost t w (Store.ok info, db) =
    save_retry (retried_row credit_cost (parsed info) t) (record w { credits = db })
after_deduction credit_cost t w (Store.err e, db) =
    (some amount_not_enough, record w { credits = db })

module _ (order : OrderBy) (now : ℕ) (free_image_generation : Bool)
    (is_member : String → Bool) where
  abbrev pub credit_cost : PictureTask → ℤ
  credit_cost t =
      image_generation_cost free_image_generation t.credit_points
        (str_eq t.workflow_type "WORKFLOW_KIND_TYPE_IMAGE") false

  unfoldable pub pay_and_save : ℤ → PictureTask → World → Retried
  unfolding deduct_credits_with_tx save_retry
  pay_and_save cost t w =
      if ltb_ℤ (pos 0) cost
      then after_deduction cost t w
          (deduct_credits_with_tx order now (retry_request t) cost (is_member t.user_id) w.credits)
      else save_retry (retried_row cost no_info t) w

  abbrev pub after_row_read : Answer PictureTask × World → Retried
  after_row_read (err e, w) = (some get_failed, w)
  after_row_read (ok t, w) =
      if is_retriable t then pay_and_save (credit_cost t) t w else (some cannot_be_retried, w)

  abbrev pub after_retry_begin : World → String → Bool × World → Retried
  after_retry_begin old task_id (true, w) = (some begin_failed, w)
  after_retry_begin old task_id (false, w) = undo_error old (after_row_read (get_task task_id w))

  unfoldable pub retry_failed_task : String → World → Retried
  unfolding fails get_task pay_and_save
  retry_failed_task task_id w = after_retry_begin w task_id (fails w)
