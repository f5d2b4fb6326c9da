-- ===== src/Quota/Reconciler.antt =====
-- internal/task/reconciler: processOne of adapter.go, on the two adapters of adapter_impl.go.
pub mod Stale
pub mod Reasons
pub mod Scan
use genioai_wxmini_server.Base.{
  ℕ, ℤ, String, suc, ◌+◌, ◌-◌, Bool, true, false, not, Option, none, some, List, [], ◌∷◌, ltb, ◌||◌,
  ◌&&◌, if◌then◌else◌,
}
use genioai_wxmini_server.Quota.World.{
  QuotaType, queue, concurrent, Status, pending, processing, pending_submission_retry,
  awaiting_provider_completion, failed, pending_chain, completed, Task, World, fails,
}
use genioai_wxmini_server.Quota.Checker.{Answer, ok, err, release_slot}
use genioai_wxmini_server.Quota.Transition.{find_task}

-- `ConcurrentAdapter` or `QueueAdapter`, and which of its two fields are not nil.
pub record Adapter : Type 0 where
  pub quota_type : QuotaType
  pub has_task_getter : Bool
  pub has_releaser : Bool

-- `IsActive` of the two adapters; there is none of another type.
abbrev pub is_active : QuotaType → Status → Bool
is_active queue pending = true
is_active queue processing = true
is_active queue pending_submission_retry = true
is_active queue awaiting_provider_completion = true
is_active concurrent processing = true
is_active concurrent awaiting_provider_completion = true
is_active _ _ = false

-- `Release` and `IsDegradeMode`
abbrev pub release : Adapter → String → String → World → World
release a user_id task_id w =
    if a.has_releaser then (release_slot a.quota_type user_id task_id w).1 else w

abbrev pub is_degrade_mode : Adapter → World → Bool
is_degrade_mode a w = a.has_releaser && w.degrade_mode

-- `GetTask`: a nil getter finds nothing, and so does a failing query.
unfoldable pub get_task : Adapter → String → World → Option Task × World
unfolding fails
get_task a task_id w =
    let (failing, w1) = fails w in
    if a.has_task_getter
    then if failing then (none, w1) else (find_task task_id w1.tasks, w1)
    else (none, w)

abbrev pub is_awaiting : Status → Bool
is_awaiting awaiting_provider_completion = true
is_awaiting _ = false

-- `time.Since(task.UpdatedAt) > timeout`
abbrev pub awaiting_too_long : ℕ → ℕ → Task → Bool
awaiting_too_long timeout now t = is_awaiting t.status && ltb (t.updated_at + timeout) now

abbrev pub after_get : Adapter → ℕ → ℕ → String → String → Option Task × World → World
after_get a timeout now user_id task_id (none, w) = release a user_id task_id w
after_get a timeout now user_id task_id (some t, w) =
    if not (is_active a.quota_type t.status) || awaiting_too_long timeout now t
    then release a user_id task_id w
    else w

unfoldable pub process_one : Adapter → ℕ → ℕ → String → String → World → World
unfolding get_task release_slot
process_one a timeout now user_id task_id w =
    if is_degrade_mode a w
    then w
    else after_get a timeout now user_id task_id (get_task a task_id w)
