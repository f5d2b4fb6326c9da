-- ===== src/Chain/FailTask.antt =====
-- FailTask and releaseUserProcessingLock of internal/service/picture_task.go, with the chain service
-- set, as internal/bootstrap/service_provider.go does. Panics and the push notification are left out.
use genioai_wxmini_server.Base.{
  ℕ, String, Bool, true, false, not, Option, none, some, [], ◌∷◌, ◌++◌, str_eq, pos, negsuc, ltb_ℤ,
  if◌then◌else◌, ◌&&◌,
}
use genioai_wxmini_server.Quota.World.{Status, failed, completed}
use genioai_wxmini_server.Credit.Refund.{RefundTask}
use genioai_wxmini_server.Chain.World.{
  PictureTask, World, Error, begin_failed, update_failed, commit_failed, Answer, ok, err, get_task,
  store_task, redis_call, fails, send,
}
use genioai_wxmini_server.Chain.Partial.{Float64, refund}
use genioai_wxmini_server.Chain.Failed.{on_task_failed}

abbrev pub set_user_lock :
    String → Option String → (String → Option String) → (String → Option String)
set_user_lock user_id v locks k = if str_eq user_id k then v else locks k

abbrev pub drop_user_lock : String → World → World
drop_user_lock user_id w = record w { user_lock = set_user_lock user_id none w.user_lock }

-- `Del`
abbrev pub after_del : String → Option Bool × World → World
after_del user_id (none, w) = drop_user_lock user_id w
after_del user_id (some executed, w) = if executed then drop_user_lock user_id w else w

abbrev pub del_if_own : String → String → Option String → World → World
del_if_own user_id task_id none w = w
del_if_own user_id task_id (some v) w =
    if str_eq v task_id then after_del user_id (redis_call w) else w

-- `Get`
abbrev pub after_lock_read : String → String → Option Bool × World → World
after_lock_read user_id task_id (none, w) = del_if_own user_id task_id (w.user_lock user_id) w
after_lock_read user_id task_id (some executed, w) = w

unfoldable pub release_user_processing_lock : String → String → World → World
unfolding redis_call
release_user_processing_lock user_id task_id w = after_lock_read user_id task_id (redis_call w)

abbrev pub is_terminal : Status → Bool
is_terminal completed = true
is_terminal failed = true
is_terminal _ = false

abbrev pub refund_task_of : PictureTask → RefundTask
refund_task_of t = record {
  project_id = t.project_id;
  user_id = t.user_id;
  task_id = t.task_id;
  deduction_info = t.credit_deduction_info;
}

-- Whether the refund went through, and what is left of the world.
abbrev pub noted : Answer (Unit {0}) × World → Bool × World
noted (ok x, w) = (true, w)
noted (err e, w) = (false, w)

abbrev pub is_due : PictureTask → Bool
is_due t = ltb_ℤ (pos 0) t.credit_points && not t.is_refunded

abbrev pub failed_row : String → Bool → PictureTask → PictureTask
failed_row err_msg is_refunded t = record t {
  is_refunded = is_refunded;
  status = failed;
  error = err_msg;
  progress = negsuc 0;
}

-- `latestTask`, with the reasons of the argument.
abbrev pub with_reasons : PictureTask → PictureTask → PictureTask
with_reasons task latest = record latest {
  failed_reason = task.failed_reason;
  failed_reason_full = task.failed_reason_full;
}

-- The hooks of a terminated task, which release its slots.
abbrev pub trigger_on_task_terminated : PictureTask → World → World
trigger_on_task_terminated t w = record w { terminated = w.terminated ++ (t ∷ []) }

module _ {F : Type 0} (fl : Float64 F) where
  unfoldable pub refund_latest : PictureTask → World → Bool × World
  unfolding refund
  refund_latest t w =
      if is_due t then noted (refund fl (refund_task_of t) "任务执行失败退款" w) else (t.is_refunded, w)

  module _ (uuid : ℕ → String) where
    -- After the commit.
    unfoldable pub announce : PictureTask → World → World
    unfolding on_task_failed
    announce t w = on_task_failed fl uuid t.task_id (trigger_on_task_terminated t (send t w))

    -- Save and commit.
    abbrev pub after_commit : PictureTask → Bool × World → Option Error × World
    after_commit t (true, w) = (some commit_failed, w)
    after_commit t (false, w) = (none, announce t (store_task t w))

    abbrev pub after_save : PictureTask → Bool × World → Option Error × World
    after_save t (true, w) = (some update_failed, w)
    after_save t (false, w) = after_commit t (fails w)

    abbrev pub after_refund : String → PictureTask → Bool × World → Option Error × World
    after_refund err_msg t (is_refunded, w) =
        after_save (failed_row err_msg is_refunded t) (fails w)

    -- The user whose lock is released: that of the row once it is read, by `*task = *latestTask`.
    abbrev pub for_user : String → Option Error × World → Option Error × (String × World)
    for_user user_id (e, w) = (e, (user_id, w))

    abbrev pub after_lookup :
        String → PictureTask → Answer PictureTask × World → Option Error × (String × World)
    after_lookup err_msg task (err e, w) = (some e, (task.user_id, w))
    after_lookup err_msg task (ok latest, w) =
        if is_terminal latest.status
        then (none, (latest.user_id, w))
        else for_user latest.user_id (
            after_refund err_msg (with_reasons task latest)
              (refund_latest (with_reasons task latest) w))

    abbrev pub after_begin : String → PictureTask → Bool × World → Option Error × (String × World)
    after_begin err_msg task (true, w) = (some begin_failed, (task.user_id, w))
    after_begin err_msg task (false, w) = after_lookup err_msg task (get_task task.task_id w)

    unfoldable pub fail_in_transaction :
        String → PictureTask → World → Option Error × (String × World)
    unfolding get_task fails refund_latest announce
    fail_in_transaction err_msg task w = after_begin err_msg task (fails w)

    abbrev pub unlocked : String → Option Error × (String × World) → Option Error × World
    unlocked task_id (e, (user_id, w)) = (e, release_user_processing_lock user_id task_id w)

    unfoldable pub fail_task : String → PictureTask → World → Option Error × World
    unfolding fail_in_transaction release_user_processing_lock
    fail_task err_msg task w = unlocked task.task_id (fail_in_transaction err_msg task w)
