-- ===== src/Quota/Reconciler/Reasons.antt =====
-- Why a round of the reconciler frees a slot.
use genioai_wxmini_server.Base.{
  ℕ, String, suc, ◌+◌, true, false, none, some, ◌≡◌, refl, sym, ltb, ◌≤◌, arith, Bool-cases, inl,
  inr, ◌⊎◌,
}
use genioai_wxmini_server.Quota.World.{
  QuotaType, queue, concurrent, Status, pending, processing, pending_submission_retry,
  awaiting_provider_completion, Task, World, fails,
}
use genioai_wxmini_server.Quota.Slot.{Slot, is_member}
use genioai_wxmini_server.Quota.Slot.Bounds.{IsConsistent}
use genioai_wxmini_server.Quota.Transition.{find_task}
use genioai_wxmini_server.Quota.Reconciler.{is_active, is_awaiting, awaiting_too_long}

-- A task of this status takes up a slot of the quota.
pub data IsLive : QuotaType → Status → Type 0 where
  queued : IsLive queue pending
  queued_processing : IsLive queue processing
  queued_retry : IsLive queue pending_submission_retry
  queued_awaiting : IsLive queue awaiting_provider_completion
  at_work : IsLive concurrent processing
  at_work_awaiting : IsLive concurrent awaiting_provider_completion

-- The task has awaited its provider for longer than the timeout.
abbrev pub IsOverdue : ℕ → ℕ → Task → Type 0
IsOverdue timeout now t =
    (t.status ≡ awaiting_provider_completion) × (suc (t.updated_at + timeout) ≤ now)

-- Why a slot is freed: the query failed, or the task is gone, does not take up a slot, or is overdue.
pub data IsReason (q : QuotaType) (timeout now : ℕ) (task_id : String) (w : World) : Type 0 where
  unread : (fails w).0 ≡ true → IsReason q timeout now task_id w
  gone : find_task task_id w.tasks ≡ none → IsReason q timeout now task_id w
  idle :
      (t : Task)
      → find_task task_id w.tasks ≡ some t
      → ¬ IsLive q t.status
      → IsReason q timeout now task_id w
  overdue :
      (t : Task)
      → find_task task_id w.tasks ≡ some t
      → IsOverdue timeout now t
      → IsReason q timeout now task_id w

-- The query was answered with a task that takes up a slot and is not overdue.
pub record IsHeld (q : QuotaType) (timeout now : ℕ) (task_id : String) (w : World) : Type 0 where
  pub answered : (fails w).0 ≡ false
  pub task : Task
  pub found : find_task task_id w.tasks ≡ some task
  pub live : IsLive q task.status
  pub in_time : ¬ IsOverdue timeout now task

-- The task is out of the slot, every other task is in it as before, and the counter is the number of
-- tasks in it.
pub record IsFreed (task_id : String) (before after : Slot) : Type 0 where
  pub out : is_member task_id after.tasks ≡ false
  pub others : (y : String) → (y ≡ task_id) ⊎ (is_member y after.tasks ≡ is_member y before.tasks)
  pub consistent : IsConsistent after

pub true_ne : true ≡ false → ⊥
true_ne e = ground arith

pub is_active-IsLive : (q : QuotaType) (s : Status) → is_active q s ≡ true → IsLive q s
is_active-IsLive queue pending e = queued
is_active-IsLive queue processing e = queued_processing
is_active-IsLive queue pending_submission_retry e = queued_retry
is_active-IsLive queue awaiting_provider_completion e = queued_awaiting
is_active-IsLive concurrent processing e = at_work
is_active-IsLive concurrent awaiting_provider_completion e = at_work_awaiting
is_active-IsLive queue Status.failed e = absurd (true_ne (sym e))
is_active-IsLive queue Status.pending_chain e = absurd (true_ne (sym e))
is_active-IsLive queue Status.completed e = absurd (true_ne (sym e))
is_active-IsLive queue (Status.unlisted n) e = absurd (true_ne (sym e))
is_active-IsLive concurrent pending e = absurd (true_ne (sym e))
is_active-IsLive concurrent pending_submission_retry e = absurd (true_ne (sym e))
is_active-IsLive concurrent Status.failed e = absurd (true_ne (sym e))
is_active-IsLive concurrent Status.pending_chain e = absurd (true_ne (sym e))
is_active-IsLive concurrent Status.completed e = absurd (true_ne (sym e))
is_active-IsLive concurrent (Status.unlisted n) e = absurd (true_ne (sym e))
is_active-IsLive (QuotaType.unlisted k) s e = absurd (true_ne (sym e))

pub IsLive-is_active : {q : QuotaType} {s : Status} → IsLive q s → is_active q s ≡ true
IsLive-is_active queued = refl
IsLive-is_active queued_processing = refl
IsLive-is_active queued_retry = refl
IsLive-is_active queued_awaiting = refl
IsLive-is_active at_work = refl
IsLive-is_active at_work_awaiting = refl

pub awaiting_eq : (s : Status) → is_awaiting s ≡ true → s ≡ awaiting_provider_completion
awaiting_eq s h = ground arith

pub awaiting_test : (s : Status) → s ≡ awaiting_provider_completion → is_awaiting s ≡ true
awaiting_test s h = ground arith

pub too_long-IsOverdue :
    (timeout now : ℕ) (t : Task) → awaiting_too_long timeout now t ≡ true → IsOverdue timeout now t
too_long-IsOverdue timeout now t h = elim (Bool-cases (is_awaiting t.status)) [
  | inl a ↦ (awaiting_eq t.status a, late (rw a at h))
  | inr a ↦ absurd (true_ne (sym (rw a at h)))
]
  where
    late : ltb (t.updated_at + timeout) now ≡ true → suc (t.updated_at + timeout) ≤ now
    late e = ground arith

pub IsOverdue-too_long :
    (timeout now : ℕ) (t : Task) → IsOverdue timeout now t → awaiting_too_long timeout now t ≡ true
IsOverdue-too_long timeout now t (e, late) =
    let long : ltb (t.updated_at + timeout) now ≡ true = ground arith in
    rw (awaiting_test t.status e) long
