-- ===== src/Quota/Transition.antt =====
-- internal/service/quota/task_state_manager.go: TransitionToProcessing with its lock, and
-- GetTaskForUpdate of internal/dao/picture_task.go. A failed COMMIT leaves the table as it was.
pub mod Outcome
pub mod GivesBack
use genioai_wxmini_server.Base.{
  ℕ, ℤ, String, suc, ◌+◌, Bool, true, false, Option, none, some, List, [], ◌∷◌, str_eq, ◌==◌,
  if◌then◌else◌, append_text,
}
use genioai_wxmini_server.Quota.World.{
  QuotaType, concurrent, Status, pending, processing, failed, pending_submission_retry,
  awaiting_provider_completion, pending_chain, completed, Task, RedisFault, World, QuotaError,
  fails,
}
use genioai_wxmini_server.Quota.Checker.{Answer, ok, err, check_and_reserve_slot, release_slot}

pub data Error : Type 0 where
  acquire_lock_failed begin_failed get_task_failed task_not_found : Error
  task_status_is_not_pending : Status → Error
  not_reserved : QuotaError → Error
  update_failed commit_failed : Error

pub data Result : Type 0 where
  done : Task → Result
  failed_with : Error → Result

abbrev pub find_task : String → List Task → Option Task
find_task task_id [] = none
find_task task_id (t ∷ ts) = if str_eq t.task_id task_id then some t else find_task task_id ts

-- `Save` of a row that is there.
abbrev pub save_task : Task → List Task → List Task
save_task u [] = u ∷ []
save_task u (t ∷ ts) = if str_eq t.task_id u.task_id then u ∷ ts else t ∷ save_task u ts

abbrev pub is_pending : Status → Bool
is_pending pending = true
is_pending _ = false

abbrev pub moved : ℕ → Task → Task
moved now t = record t { status = processing; updated_at = now }

abbrev pub set_lock : String → Option ℕ → (String → Option ℕ) → (String → Option ℕ)
set_lock task_id v locks k = if str_eq task_id k then v else locks k

-- `acquireLock`: SETNX of a fresh value. A failing call may have set the lock.
abbrev pub take_lock : String → World → World
take_lock task_id w = record w {
  lock_of = set_lock task_id (some w.drawn) w.lock_of;
  drawn = w.drawn + 1;
}

abbrev pub set_if_free : String → Option ℕ → World → Option ℕ × World
set_if_free task_id none w = (some w.drawn, take_lock task_id w)
set_if_free task_id (some v) w = (none, record w { drawn = w.drawn + 1 })

-- The value of the lock when it is acquired, and `none` for an error or a lock that is held.
unfoldable pub acquire_lock : String → World → Option ℕ × World
acquire_lock task_id w = elim w.redis_faults [
  | [] ↦ set_if_free task_id (w.lock_of task_id) w
  | none ∷ rest ↦ set_if_free task_id (w.lock_of task_id) (record w { redis_faults = rest })
  | some o ∷ rest ↦
      let free = record w { redis_faults = rest } in
      let taken = (set_if_free task_id (w.lock_of task_id) free).1 in
      (none, if o.executed then taken else record free { drawn = w.drawn + 1 })
]

-- `releaseLock` deletes the lock if it still has the value; its error is dropped.
abbrev pub drop_lock : String → ℕ → Option ℕ → World → World
drop_lock task_id v none w = w
drop_lock task_id v (some x) w =
    if x == v then record w { lock_of = set_lock task_id none w.lock_of } else w

unfoldable pub release_lock : String → ℕ → World → World
release_lock task_id v w = elim w.redis_faults [
  | [] ↦ drop_lock task_id v (w.lock_of task_id) w
  | none ∷ rest ↦ drop_lock task_id v (w.lock_of task_id) (record w { redis_faults = rest })
  | some o ∷ rest ↦
      let calm = record w { redis_faults = rest } in
      if o.executed then drop_lock task_id v (w.lock_of task_id) calm else calm
]

-- Steps 6 and 7: save and commit, each giving the slot back when it fails.
unfoldable pub save_and_commit : ℕ → String → String → Task → World → Result × World
unfolding fails release_slot
save_and_commit now task_id user_id t w =
    let (no_save, w1) = fails w in
    let (no_commit, w2) = fails w1 in
    if no_save
    then (failed_with update_failed, (release_slot concurrent user_id task_id w1).1)
    else if no_commit
    then (failed_with commit_failed, (release_slot concurrent user_id task_id w2).1)
    else (done (moved now t), record w2 { tasks = save_task (moved now t) w2.tasks })

-- Step 5, from the answer of the checker on.
abbrev pub after_reserve : ℕ → String → String → Task → Answer (Unit {0}) × World → Result × World
after_reserve now task_id user_id t (ok x, w) = save_and_commit now task_id user_id t w
after_reserve now task_id user_id t (err e, w) = (failed_with (not_reserved e), w)

-- Step 4, from the locked row on.
abbrev pub after_find : ℕ → String → String → ℤ → Option Task → World → Result × World
after_find now task_id user_id max_concurrent none w = (failed_with task_not_found, w)
after_find now task_id user_id max_concurrent (some t) w =
    if is_pending t.status
    then after_reserve now task_id user_id t
        (check_and_reserve_slot concurrent user_id task_id max_concurrent w)
    else (failed_with (task_status_is_not_pending t.status), w)

-- Steps 2 and 3.
unfoldable pub in_transaction : ℕ → String → String → ℤ → World → Result × World
unfolding save_and_commit check_and_reserve_slot fails
in_transaction now task_id user_id max_concurrent w =
    let (no_begin, w1) = fails w in
    let (no_row, w2) = fails w1 in
    if no_begin
    then (failed_with begin_failed, w1)
    else if no_row
    then (failed_with get_task_failed, w2)
    else after_find now task_id user_id max_concurrent (find_task task_id w2.tasks) w2

abbrev pub unlocked : String → ℕ → Result × World → Result × World
unlocked task_id v (r, w) = (r, release_lock task_id v w)

abbrev pub after_lock : ℕ → String → String → ℤ → Option ℕ × World → Result × World
after_lock now task_id user_id max_concurrent (none, w) = (failed_with acquire_lock_failed, w)
after_lock now task_id user_id max_concurrent (some v, w) =
    unlocked task_id v (in_transaction now task_id user_id max_concurrent w)

unfoldable pub transition_to_processing : ℕ → String → String → ℤ → World → Result × World
unfolding acquire_lock in_transaction release_lock
transition_to_processing now task_id user_id max_concurrent w =
    after_lock now task_id user_id max_concurrent (acquire_lock task_id w)
