-- ===== src/Retry/Tests.antt =====
-- Runs of the retry, and the theorems at these runs.
use genioai_wxmini_server.Base.{
  String, true, false, Option, some, ◌≡◌, refl, pos, arith, ◌+ℤ◌, some,
}
use genioai_wxmini_server.Quota.World.{failed, pending_submission_retry}
use genioai_wxmini_server.Retry.{PictureTask, Executor, Calls, handle_single_task}
use genioai_wxmini_server.Retry.Lost.{counted}
use genioai_wxmini_server.Retry.Stored.{handle_single_task-failed}

abbrev task : PictureTask
task = record {
  task_id = "t";
  user_id = "u";
  executer = "e";
  status = pending_submission_retry;
  error = "busy";
  progress = pos 10;
  retry_count = pos 0;
  updated_at = 1;
}

-- A provider that is busy, which is retryable.
abbrev busy : Executor
busy = record {
  retry_submission = λ t. (some "busy", t);
  is_submission_error_retryable = λ e. true;
}

abbrev provider : String → Option Executor
provider name = some busy

abbrev calls : Calls
calls = record {
  count_updated = true;
  context_ended = false;
  task_updated = true;
  count_time = 2;
  end_time = 3;
}

handle_single_task-failed_example :
    let after = handle_single_task (pos 3) provider calls task task in
    (after.row.status ≡ failed) × (after.row.error ≡ "busy") × (after.terminated ≡ true)
unfolding ◌+ℤ◌
handle_single_task-failed_example =
    handle_single_task-failed (pos 3) provider calls task task busy "busy" (counted task) refl refl
      refl refl (λ h. ground arith)

-- The context of the task has ended.
abbrev ended_calls : Calls
ended_calls = record calls { context_ended = true }
