-- ===== src/Chain/Uncommitted.antt =====
-- What FailTask leaves when its transaction does not commit.
use genioai_wxmini_server.Base.{
  ℕ, String, Bool, true, false, none, some, List, ◌∷◌, ◌≡◌, refl, ap, ◌∙◌, if◌then◌else◌,
}
use genioai_wxmini_server.Credit.Refund.{refund_credits}
use genioai_wxmini_server.Chain.World.{
  PictureTask, World, commit_failed, ok, fails, after_fault, query, read_unless, continue, or_raise,
  query_failed, task_not_found, first, has_task_id, get_task,
}
use genioai_wxmini_server.Chain.Partial.{Float64}
use genioai_wxmini_server.Chain.FailTask.{
  is_terminal, is_due, failed_row, with_reasons, refund_latest, refund_task_of, after_commit,
  after_save, after_refund, for_user, after_lookup, after_begin, fail_in_transaction, fail_task,
}
use genioai_wxmini_server.Chain.Settled.Once.{release_user_processing_lock-Same}
use genioai_wxmini_server.Chain.Refunds.{refunded_world, refund_latest_due}

fails_next :
    (b : Bool) (rest : List Bool) (w : World)
    → w.faults ≡ b ∷ rest
    → fails w ≡ (b, record w { faults = rest })
unfolding fails
fails_next b rest w h = ap (λ fs. after_fault fs w) h

get_task_next :
    (task_id : String) (t : PictureTask) (rest : List Bool) (w : World)
    → w.faults ≡ false ∷ rest
    → first (has_task_id task_id) w.tasks ≡ some t
    → get_task task_id w ≡ (ok t, record w { faults = rest })
unfolding get_task query
get_task_next task_id t rest w h f =
    let calm = record w { faults = rest } in
    ap
      (λ x.
        continue (or_raise task_not_found)
          (read_unless query_failed (λ v. first (has_task_id task_id) v.tasks) x))
      (fails_next false rest w h)
    ∙ ap (λ o. or_raise task_not_found o calm) f

-- When the commit is the call that fails, FailTask reports it and leaves the row of the task as it
-- was, not marked as refunded, but the credits are those after the refund of the task. Assumed: the
-- task is still running and its refund is due.
pub fail_task-uncommitted :
    {F : Type 0} (fl : Float64 F) (uuid : ℕ → String) (err_msg : String) (task t : PictureTask)
    (rest : List Bool) (w : World)
    → w.faults ≡ false ∷ (false ∷ (false ∷ (true ∷ rest)))
    → first (has_task_id task.task_id) w.tasks ≡ some t
    → is_terminal t.status ≡ false
    → is_due t ≡ true
    → let r = fail_task fl uuid err_msg task w in
      (r.0 ≡ some commit_failed)
      × (r.1.tasks ≡ w.tasks)
      × (r.1.credits ≡ (refund_credits (refund_task_of t) "任务执行失败退款" w.credits).1)
unfolding fail_task fail_in_transaction
fail_task-uncommitted fl uuid err_msg task t rest w faults row running due =
    let x = fail_in_transaction fl uuid err_msg task w in
    let same = release_user_processing_lock-Same x.1.0 task.task_id x.1.1 in
    (ap (λ z. z.0) run, same.0 ∙ ap (λ z. z.1.1.tasks) run, same.2 ∙ ap (λ z. z.1.1.credits) run)
  where
    u : PictureTask
    u = with_reasons task t

    third : World
    third = record w { faults = false ∷ (true ∷ rest) }

    saved :
        after_refund fl uuid err_msg u
          ((refund_latest fl u third).0, refunded_world fl uuid u third)
        ≡ (some commit_failed, refunded_world fl uuid t (record w { faults = rest }))
    saved =
        let stored = failed_row err_msg (refund_latest fl u third).0 u in
        ap (after_save fl uuid stored)
          (fails_next false (true ∷ rest) (refunded_world fl uuid u third) refl)
        ∙ ap (after_commit fl uuid stored) (
            fails_next true rest (record (refunded_world fl uuid u third) { faults = true ∷ rest })
              refl)

    run :
        fail_in_transaction fl uuid err_msg task w
        ≡ (some commit_failed, (t.user_id, refunded_world fl uuid t (record w { faults = rest })))
    run =
        ap (after_begin fl uuid err_msg task)
          (fails_next false (false ∷ (false ∷ (true ∷ rest))) w faults)
        ∙ (ap (after_lookup fl uuid err_msg task) (
              get_task_next task.task_id t (false ∷ (true ∷ rest))
                (record w { faults = false ∷ (false ∷ (true ∷ rest)) }) refl row)
            ∙ (ap
                  (λ b.
                    if b
                    then (none, (t.user_id, third))
                    else for_user fl uuid t.user_id
                        (after_refund fl uuid err_msg u (refund_latest fl u third)))
                  running
                ∙ ap (for_user fl uuid t.user_id) (
                    ap (λ v. after_refund fl uuid err_msg u ((refund_latest fl u third).0, v))
                      (refund_latest_due fl uuid u third due)
                    ∙ saved)))
