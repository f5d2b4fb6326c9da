-- ===== src/Retry.antt =====
-- internal/task/picture_workflow/submission_retry_processor.go: handleSingleTask, and UpdateTask of
-- internal/dao/picture_task.go on the columns that matter here. The executor is a parameter.
pub mod Stored
pub mod Lost
mod Tests
use genioai_wxmini_server.Base.{
  ℕ, ℤ, String, Bool, true, false, not, Option, none, some, pos, negsuc, eq_ℤ, leb_ℤ, ◌+ℤ◌, str_eq,
  ◌||◌, ◌&&◌, if◌then◌else◌, inc32,
}
use genioai_wxmini_server.Quota.World.{
  Status, pending, failed, processing, pending_submission_retry, awaiting_provider_completion,
  pending_chain, completed,
}

pub record PictureTask : Type 0 where
  pub task_id : String
  pub user_id : String
  pub executer : String
  pub status : Status
  pub error : String
  pub progress : ℤ
  pub retry_count : ℤ  -- int32
  pub updated_at : ℕ

-- `picture_generate.TaskExecutorForRetry`: it may write to the task, and fail with a text.
pub record Executor : Type 0 where
  pub retry_submission : PictureTask → Option String × PictureTask
  pub is_submission_error_retryable : String → Bool

-- Whether the calls around the executor succeed, and the clock at the two updates.
pub record Calls : Type 0 where
  pub count_updated : Bool
  pub context_ended : Bool
  pub task_updated : Bool
  pub count_time : ℕ
  pub end_time : ℕ

abbrev pub status_eq : Status → Status → Bool
status_eq pending pending = true
status_eq failed failed = true
status_eq processing processing = true
status_eq pending_submission_retry pending_submission_retry = true
status_eq awaiting_provider_completion awaiting_provider_completion = true
status_eq pending_chain pending_chain = true
status_eq completed completed = true
status_eq (Status.unlisted m) (Status.unlisted n) = eq_ℤ m n
status_eq _ _ = false

-- `&model.PictureTask{TaskID: …, RetryCount: …, UpdatedAt: …}`: every other field is the zero value.
abbrev pub count_only : PictureTask → ℕ → PictureTask
count_only t time = record {
  task_id = t.task_id;
  user_id = "";
  executer = "";
  status = pending;
  error = "";
  progress = pos 0;
  retry_count = t.retry_count;
  updated_at = time;
}

-- `UpdateTask`: `Select("*")` with `Save` writes every column.
abbrev pub update_task : Bool → PictureTask → PictureTask → PictureTask
update_task succeeds task row = if succeeds then task else row

-- What the body leaves for the deferred function.
pub record Attempt : Type 0 where
  pub task : PictureTask
  pub task_err : Option String
  pub needs_db_update : Bool

abbrev pub is_final_status : Status → Bool
is_final_status s = status_eq s awaiting_provider_completion || status_eq s failed

abbrev pub to_failed : PictureTask → PictureTask
to_failed t = record t { status = failed }

-- After `RetrySubmission`.
abbrev pub after_retry : ℤ → Executor → Bool → Option String × PictureTask → Attempt
after_retry max_retry_attempts ex needs (none, t) = record {
  task = t;
  task_err = none;
  needs_db_update = true;
}
after_retry max_retry_attempts ex needs (some e, t) = record {
  task =
      if not (ex.is_submission_error_retryable e)
      then to_failed t
      else if leb_ℤ max_retry_attempts t.retry_count
      then to_failed t
      else t;
  task_err = some e;
  needs_db_update = needs;
}

abbrev pub attempt : ℤ → Option Executor → Bool → PictureTask → Attempt
attempt max_retry_attempts none needs t = record {
  task = to_failed t;
  task_err = some "no suitable executor found for retry";
  needs_db_update = needs;
}
attempt max_retry_attempts (some ex) needs t =
    after_retry max_retry_attempts ex needs (ex.retry_submission t)

-- The first half of the deferred function.
abbrev pub record_error : Option String → PictureTask → PictureTask
record_error none t = t
record_error (some e) t =
    if is_final_status t.status
    then record t { error = e }
    else record t { error = e; status = failed }

abbrev pub record_progress : PictureTask → PictureTask
record_progress t = if status_eq t.status failed then record t { progress = negsuc 0 } else t

abbrev pub is_some : Option String → Bool
is_some none = false
is_some (some e) = true

-- The row of the task, and whether the hooks of a terminated task ran.
pub record Handled : Type 0 where
  pub row : PictureTask
  pub terminated : Bool

abbrev pub store : ℕ → Bool → PictureTask → PictureTask → Handled
store end_time succeeds t row = record {
  row = update_task succeeds (record t { updated_at = end_time }) row;
  terminated = succeeds && status_eq t.status failed;
}

abbrev pub deferred : Calls → PictureTask → Attempt → PictureTask → Handled
deferred c original a row =
    let t = record_progress (record_error a.task_err a.task) in
    if c.context_ended
    then record { row = row; terminated = false }
    else if a.needs_db_update
        || (is_some a.task_err
            || (not (status_eq t.status original.status) || not (str_eq t.error original.error)))
    then store c.end_time c.task_updated t row
    else record { row = row; terminated = false }

-- `row` is the row in the table when the task was read.
unfoldable pub handle_single_task :
    ℤ → (String → Option Executor) → Calls → PictureTask → PictureTask → Handled
handle_single_task max_retry_attempts executor_provider c task row =
    let counted = record task { retry_count = inc32 task.retry_count } in
    deferred c task
      (attempt max_retry_attempts (executor_provider task.executer) c.count_updated counted)
      (update_task c.count_updated (count_only counted c.count_time) row)
