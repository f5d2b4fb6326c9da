-- ===== src/Retry/Stored.antt =====
-- What a retry leaves in the table.
use genioai_wxmini_server.Base.{
  ℕ, ℤ, String, Bool, true, false, not, Option, some, leb_ℤ, if◌then◌else◌, ◌≡◌, ◌≢◌, refl, ◌∙◌,
  arith, Bool-cases, inl, inr,
}
use genioai_wxmini_server.Quota.World.{Status, failed, awaiting_provider_completion}
use genioai_wxmini_server.Retry.{
  PictureTask, Executor, Calls, Handled, handle_single_task, record_error, record_progress,
  deferred, store, to_failed, status_eq, is_final_status, count_only, update_task,
}
use genioai_wxmini_server.Retry.Lost.{counted}

awaiting_false :
    (s : Status)
    → s ≢ awaiting_provider_completion
    → status_eq s awaiting_provider_completion ≡ false
awaiting_false s h = ground arith

failed_eq : (s : Status) → status_eq s failed ≡ true → s ≡ failed
failed_eq s h = ground arith

-- An error makes the status FAILED, if it is not AWAITING.
record_error-failed :
    (e : String) (t : PictureTask)
    → t.status ≢ awaiting_provider_completion
    → (record_error (some e) t).status ≡ failed
record_error-failed e t h = elim (Bool-cases (status_eq t.status failed)) [
  | inl f ↦ rw (awaiting_false t.status h, f) (failed_eq t.status f)
  | inr f ↦ rw (awaiting_false t.status h, f) refl
]

record_progress-status : (t : PictureTask) → (record_progress t).status ≡ t.status
record_progress-status t = ground arith

record_error-error : (e : String) (t : PictureTask) → (record_error (some e) t).error ≡ e
record_error-error e t = elim (Bool-cases (is_final_status t.status)) [
  | inl f ↦ simp f refl
  | inr f ↦ simp f refl
]

record_progress-error : (t : PictureTask) → (record_progress t).error ≡ t.error
record_progress-error t = elim (Bool-cases (status_eq t.status failed)) [
  | inl f ↦ simp f refl
  | inr f ↦ simp f refl
]

abbrev EndsFailed : String → Handled → Type 0
EndsFailed e after = (after.row.status ≡ failed) × (after.row.error ≡ e) × (after.terminated ≡ true)

store-failed :
    (end_time : ℕ) (t row : PictureTask) (e : String)
    → t.status ≡ failed
    → t.error ≡ e
    → EndsFailed e (store end_time true t row)
store-failed end_time t row e s r = (s, r, rw s refl)

deferred-failed :
    (c : Calls) (original t row : PictureTask) (e : String) (needs : Bool)
    → c.context_ended ≡ false
    → c.task_updated ≡ true
    → t.status ≢ awaiting_provider_completion
    → EndsFailed e
        (deferred c original (record { task = t; task_err = some e; needs_db_update = needs }) row)
deferred-failed c original t row e needs live updated h =
    let last = record_progress (record_error (some e) t) in
    let done =
      store-failed c.end_time last row e
        (record_progress-status (record_error (some e) t) ∙ record_error-failed e t h)
        (record_progress-error (record_error (some e) t) ∙ record_error-error e t) in
    elim (Bool-cases needs) [
      | inl n ↦ simp (live, updated, n) done
      | inr n ↦ simp (live, updated, n) done
    ]

-- The task that the body leaves after an error.
after_error : ℤ → Executor → String → PictureTask → PictureTask
after_error max_retry_attempts ex e t =
    if not (ex.is_submission_error_retryable e)
    then to_failed t
    else if leb_ℤ max_retry_attempts t.retry_count
    then to_failed t
    else t

after_error-not_awaiting :
    (max_retry_attempts : ℤ) (ex : Executor) (e : String) (t : PictureTask)
    → t.status ≢ awaiting_provider_completion
    → (after_error max_retry_attempts ex e t).status ≢ awaiting_provider_completion
unfolding after_error
after_error-not_awaiting max_retry_attempts ex e t h =
    elim (Bool-cases (ex.is_submission_error_retryable e)) [
      | inr n ↦ simp n failed_not_awaiting
      | inl y ↦ elim (Bool-cases (leb_ℤ max_retry_attempts t.retry_count)) [
        | inl k ↦ simp (y, k) failed_not_awaiting
        | inr k ↦ simp (y, k) h
      ]
    ]
  where
    failed_not_awaiting : failed ≢ awaiting_provider_completion
    failed_not_awaiting k = ground arith

-- A retry that fails is the last one, also when its error is retryable and attempts are left: the row
-- ends FAILED and the hooks of a terminated task run. Assumed: the context has not ended, the update
-- succeeds, and the executor does not leave the task AWAITING_PROVIDER_COMPLETION.
pub handle_single_task-failed :
    (max_retry_attempts : ℤ) (executor_provider : String → Option Executor) (c : Calls)
    (task row : PictureTask) (ex : Executor) (e : String) (t : PictureTask)
    → c.context_ended ≡ false
    → c.task_updated ≡ true
    → executor_provider task.executer ≡ some ex
    → ex.retry_submission (counted task) ≡ (some e, t)
    → t.status ≢ awaiting_provider_completion
    → let after = handle_single_task max_retry_attempts executor_provider c task row in
      (after.row.status ≡ failed) × (after.row.error ≡ e) × (after.terminated ≡ true)
unfolding handle_single_task after_error
handle_single_task-failed max_retry_attempts executor_provider c task row ex e t live updated x r
      h =
    let mid = update_task c.count_updated (count_only (counted task) c.count_time) row in
    rw (x, r)
      (deferred-failed c task (after_error max_retry_attempts ex e t) mid e c.count_updated live
        updated (after_error-not_awaiting max_retry_attempts ex e t h))
