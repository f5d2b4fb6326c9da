-- ===== src/Sync/Stuck.antt =====
-- A task that its provider has forgotten is failed.
use genioai_wxmini_server.Base.{
  ℕ, String, Bool, true, false, Option, none, some, [], ltb, ◌&&◌, ◌≡◌, refl, sym, ap, subst, ◌∙◌,
  inl, inr, ◌⊎◌, arith, Bool-cases,
}
use genioai_wxmini_server.Chain.World.{PictureTask, World, first, has_task_id}
use genioai_wxmini_server.Chain.Calm.{IsCalm, fails_calm, get_task_calm}
use genioai_wxmini_server.Chain.Partial.{Float64}
use genioai_wxmini_server.Chain.FailTask.{
  is_terminal, with_reasons, failed_row, refund_latest, after_commit, after_save, after_refund,
  after_lookup, after_begin, fail_in_transaction, fail_task,
}
use genioai_wxmini_server.Chain.Settled.{IsSettled}
use genioai_wxmini_server.Chain.Settled.Once.{fail_task-settles}
use genioai_wxmini_server.Chain.Refunds.{refund_latest-faults}
use genioai_wxmini_server.Lock as Lock
use genioai_wxmini_server.Lock.{Redis, acquire_lock, pass}
use genioai_wxmini_server.Sync.{
  Executor, Polled, is_awaiting, lock_mgr, task_sync_resource, task_status_sync_lock_ttl,
  with_executor, sync_task, release_if, after_lock, handle_single_task,
}

module _ {F : Type 0} (fl : Float64 F) (uuid : ℕ → String) where
  -- FailTask succeeds when the database answers and the task is there.
  fail_task_calm :
      (err_msg : String) (task t : PictureTask) (w : World)
      → IsCalm w
      → first (has_task_id task.task_id) w.tasks ≡ some t
      → (fail_task fl uuid err_msg task w).0 ≡ none
  unfolding fail_task fail_in_transaction
  fail_task_calm err_msg task t w calm row =
      ap (λ x. (after_begin fl uuid err_msg task x).0) (fails_calm w calm.0)
      ∙ (ap (λ x. (after_lookup fl uuid err_msg task x).0)
            (get_task_calm task.task_id t w calm.0 row)
          ∙ elim (Bool-cases (is_terminal t.status)) [
            | inl e ↦ simp e refl
            | inr e ↦ simp e (
                saved (refund_latest fl (with_reasons task t) w)
                  (refund_latest-faults fl uuid (with_reasons task t) w ∙ calm.0))
          ])
    where
      saved :
          (x : Bool × World)
          → x.1.faults ≡ []
          → (after_refund fl uuid err_msg (with_reasons task t) x).0 ≡ none
      saved (b, v) h =
          let u = failed_row err_msg b (with_reasons task t) in
          ap (λ x. (after_save fl uuid u x).0) (fails_calm v h)
          ∙ ap (λ x. (after_commit fl uuid u x).0) (fails_calm v h)

  failed-IsSettled :
      (err_msg : String) (task t : PictureTask) (w : World)
      → IsCalm w
      → first (has_task_id task.task_id) w.tasks ≡ some t
      → IsSettled task.task_id (fail_task fl uuid err_msg task w).1
  failed-IsSettled err_msg task t w calm row =
      let w' = (fail_task fl uuid err_msg task w).1 in
      fail_task-settles fl uuid err_msg task w w'
        (ap (λ e. (e, w')) (fail_task_calm err_msg task t w calm row))

-- A task that has waited for its provider longer than the timeout, or that has no executor, is failed
-- or completed after the processor has handled it, and its lock is not released: on the locks the
-- handling is the acquisition and the time it took. Assumed: the lock is free, the database and Redis
-- answer, and the task is in the table.
pub handle_single_task-settles :
    {F : Type 0} (fl : Float64 F) (uuid : ℕ → String) (task_timeout : ℕ) (p : Polled)
    (t : PictureTask) (w : World) (r r' : Redis) (v : ℕ)
    → ((ltb task_timeout p.waited && is_awaiting p.task.status) ≡ true) ⊎ (p.executor ≡ none)
    → IsCalm w
    → first (has_task_id p.task.task_id) w.tasks ≡ some t
    → acquire_lock lock_mgr (task_sync_resource p.task.task_id) task_status_sync_lock_ttl r
      ≡ (Lock.ok v, r')
    → let s = handle_single_task fl uuid task_timeout p w r in
      IsSettled p.task.task_id s.0 × (s.1 ≡ pass p.took r')
unfolding handle_single_task sync_task
handle_single_task-settles fl uuid task_timeout p t w r r' v stuck calm row lock =
    let locked = ap (after_lock fl uuid task_timeout p w) lock in
    let (after, kept) = ended stuck in
    (
      subst (IsSettled p.task.task_id) (sym (ap (λ s. s.0) locked)) after,
      ap (λ s. s.1) locked ∙ kept,
    )
  where
    Ended : World × Redis → Type 0
    Ended s = IsSettled p.task.task_id s.0 × (s.1 ≡ pass p.took r')

    resource : String
    resource = task_sync_resource p.task.task_id

    without :
        (o : Option Executor)
        → o ≡ none
        → Ended (release_if fl uuid resource v (with_executor fl uuid o p.task w) (pass p.took r'))
    without none e = (
      failed-IsSettled fl uuid "No suitable executor found for status sync." p.task t w calm row,
      refl,
    )
    without (some ex) e = absurd (ground arith)

    ended :
        ((ltb task_timeout p.waited && is_awaiting p.task.status) ≡ true) ⊎ (p.executor ≡ none)
        → Ended
            (release_if fl uuid resource v (sync_task fl uuid task_timeout p w) (pass p.took r'))
    ended h = elim (Bool-cases (ltb task_timeout p.waited && is_awaiting p.task.status)) [
      | inl e ↦
          simp e
            (failed-IsSettled fl uuid "Provider task processing timeout." p.task t w calm row, refl)
      | inr e ↦ simp e (without p.executor (no_executor h e))
    ]
      where
        no_executor :
            ((ltb task_timeout p.waited && is_awaiting p.task.status) ≡ true) ⊎ (p.executor ≡ none)
            → (ltb task_timeout p.waited && is_awaiting p.task.status) ≡ false
            → p.executor ≡ none
        no_executor (inl a) e = absurd (true_false (sym a ∙ e))
          where
            true_false : true ≡ false → ⊥
            true_false q = ground arith
        no_executor (inr a) e = a
