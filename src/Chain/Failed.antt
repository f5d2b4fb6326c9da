-- ===== src/Chain/Failed.antt =====
-- OnTaskFailed and notifyChainFailure of internal/service/task_chain_service.go.
pub mod Credits
use genioai_wxmini_server.Base.{
  ℕ, ℤ, String, Bool, true, false, not, Option, none, some, List, [], ◌∷◌, str_eq, pos, negsuc,
  ltb_ℤ, append_text, if◌then◌else◌,
}
use genioai_wxmini_server.Quota.World.{Status, failed}
use genioai_wxmini_server.Chain.World.{
  StoredIds, malformed_ids, ids, PictureTask, TaskChain, World, Answer, ok, err, get_task,
  update_task, redis_call, set_flag, set_nx, del, send,
}
use genioai_wxmini_server.Chain.Activate.{get_chain_by_any_task_id, dropped, set_status}
use genioai_wxmini_server.Chain.Partial.{Float64, calculate_partial_refund, execute_partial_refund}

abbrev pub is_failed : Status → Bool
is_failed failed = true
is_failed _ = false

abbrev pub chain_failure_text : String → String
chain_failure_text failed_task_id =
    append_text "Chain failure: previous step failed (failed task: "
      (append_text failed_task_id ")")

abbrev pub marked : String → PictureTask → PictureTask
marked failed_task_id t = record t {
  status = failed;
  progress = negsuc 0;
  error = if str_eq t.task_id failed_task_id then t.error else chain_failure_text failed_task_id;
}

abbrev pub send_if_stored : PictureTask → Answer (Unit {0}) × World → World
send_if_stored t (ok x, w) = send t w
send_if_stored t (err e, w) = w

-- One turn of the loop.
abbrev pub notify_task : String → Answer PictureTask × World → World
notify_task failed_task_id (ok t, w) =
    if is_failed t.status
    then send t w
    else send_if_stored (marked failed_task_id t) (update_task (marked failed_task_id t) w)
notify_task failed_task_id (err e, w) = w

unfoldable pub notify_tasks : String → List String → World → World
unfolding get_task update_task
notify_tasks failed_task_id [] w = w
notify_tasks failed_task_id (task_id ∷ rest) w =
    notify_tasks failed_task_id rest (notify_task failed_task_id (get_task task_id w))

unfoldable pub notify_chain_failure : StoredIds → String → World → World
unfolding notify_tasks
notify_chain_failure malformed_ids failed_task_id w = w
notify_chain_failure (ids all) failed_task_id w = notify_tasks failed_task_id all w

abbrev pub unlock_failure : String → Option Bool × World → World
unlock_failure chain_id (o, w) = record w {
  failing = set_flag chain_id (del o (w.failing chain_id)) w.failing;
}

abbrev pub lock_failure : String → Option Bool × World → Bool × World
lock_failure chain_id (o, w) =
    let (taken, held) = set_nx o (w.failing chain_id) in
    (taken, record w { failing = set_flag chain_id held w.failing })

module _ {F : Type 0} (fl : Float64 F) (uuid : ℕ → String) where
  abbrev pub refund_if_due : TaskChain → String → ℤ → World → World
  refund_if_due c failed_task_id amount w =
      if ltb_ℤ (pos 0) amount
      then dropped (execute_partial_refund fl uuid c failed_task_id amount w)
      else w

  -- From the amount on.
  abbrev pub close_chain : TaskChain → String → Answer ℤ × World → World
  close_chain c failed_task_id (ok amount, w) =
      notify_chain_failure c.all_task_ids failed_task_id
        (set_status (pos 3) c (refund_if_due c failed_task_id amount w))
  close_chain c failed_task_id (err e, w) = w

  abbrev pub under_failure : TaskChain → String → Bool × World → World
  under_failure c failed_task_id (false, w) = w
  under_failure c failed_task_id (true, w) = unlock_failure c.chain_id (
      redis_call
        (close_chain c failed_task_id (calculate_partial_refund c.all_task_ids failed_task_id w)))

  abbrev pub after_chain : String → Option TaskChain × World → World
  after_chain failed_task_id (none, w) = w
  after_chain failed_task_id (some c, w) =
      under_failure c failed_task_id (lock_failure c.chain_id (redis_call w))

  unfoldable pub on_task_failed : String → World → World
  unfolding get_chain_by_any_task_id set_status redis_call execute_partial_refund
      calculate_partial_refund notify_chain_failure
  on_task_failed failed_task_id w =
      after_chain failed_task_id (get_chain_by_any_task_id failed_task_id w)
