-- ===== src/Quota/Checker.antt =====
-- internal/service/quota/task_quota_checker.go, with the two counts of internal/dao/picture_task.go
-- that it uses. The goroutine of the health check shows as the two steps that end it.
pub mod Degraded
pub mod Limit
pub mod Undo
use genioai_wxmini_server.Base.{
  ℕ, ℤ, String, suc, ◌+◌, Bool, true, false, not, Option, none, some, List, [], ◌∷◌, str_eq, leb_ℤ,
  pos, ◌==◌, if◌then◌else◌, append_text, ◌||◌, ◌&&◌,
}
use genioai_wxmini_server.Quota.Slot.{Slot, check_and_reserve_script, release_slot_script}
use genioai_wxmini_server.Quota.World.{
  QuotaType, queue, concurrent, Status, pending, processing, pending_submission_retry,
  awaiting_provider_completion, failed, pending_chain, completed, Task, RedisFault, World,
  QuotaError, queue_limit_exceeded, concurrent_limit_exceeded, count_failed, redis_failed, Reply,
  replied, faulted, eval, fails,
}

pub data Answer (A : Type 0) : Type 0 where
  ok : A → Answer A
  err : QuotaError → Answer A

abbrev pub build_key : QuotaType → String → String
build_key queue user_id = append_text "visionai:queue:" user_id
build_key concurrent user_id = append_text "visionai:concurrent:" user_id
build_key (QuotaType.unlisted s) user_id = append_text "visionai:concurrent:" user_id

-- The error of a full quota.
abbrev pub limit_exceeded : QuotaType → QuotaError
limit_exceeded queue = queue_limit_exceeded
limit_exceeded concurrent = concurrent_limit_exceeded
limit_exceeded (QuotaType.unlisted s) = concurrent_limit_exceeded

-- `parseReserveResult` on the pair of integers that the script returns.
abbrev pub parse_reserve_result : QuotaType → ℕ × ℕ → Answer (Unit {0})
parse_reserve_result quota_type (success, count) =
    if success == 0 then err (limit_exceeded quota_type) else ok tt

abbrev pub reserve_reply : QuotaType → Reply (ℕ × ℕ) × World → Answer (Unit {0}) × World
reserve_reply quota_type (replied vals, w) = (parse_reserve_result quota_type vals, w)
reserve_reply quota_type (faulted f, w) = (err (redis_failed f), w)

unfoldable pub check_with_redis :
    QuotaType → String → String → ℤ → World → Answer (Unit {0}) × World
unfolding eval
check_with_redis quota_type user_id task_id max_limit w =
    reserve_reply quota_type
      (eval (check_and_reserve_script task_id max_limit) (build_key quota_type user_id) w)

-- `err == redis.Nil` fails on the wrapped error; an error of the text does not.
abbrev pub is_redis_error : QuotaError → Bool
is_redis_error (redis_failed RedisFault.redis_nil) = false
is_redis_error (redis_failed RedisFault.other) = false
is_redis_error (redis_failed RedisFault.tx_failed) = true
is_redis_error (redis_failed RedisFault.deadline_exceeded) = true
is_redis_error (redis_failed RedisFault.connection_refused) = true
is_redis_error (redis_failed RedisFault.io_timeout) = true
is_redis_error (redis_failed RedisFault.no_route) = true
is_redis_error (redis_failed RedisFault.eof) = true
is_redis_error queue_limit_exceeded = false
is_redis_error concurrent_limit_exceeded = false
is_redis_error count_failed = false

-- Enter the degrade mode; a health check is started unless one runs.
abbrev pub handle_redis_error : World → World
handle_redis_error w =
    if w.degrade_mode then w else record w { degrade_mode = true; health_check_running = true }

-- How the health check ends: Redis answers a ping, or five minutes are over.
abbrev pub health_check_recovered : World → World
health_check_recovered w = record w { degrade_mode = false; health_check_running = false }

abbrev pub health_check_timed_out : World → World
health_check_timed_out w = record w { health_check_running = false }

abbrev is_processing : Status → Bool
is_processing processing = true
is_processing _ = false

-- `CountActiveTasksByUser` and `CountProcessingTasksByUser`
abbrev pub is_counted : QuotaType → Status → Bool
is_counted queue pending = true
is_counted queue processing = true
is_counted queue pending_submission_retry = true
is_counted queue awaiting_provider_completion = true
is_counted queue failed = false
is_counted queue pending_chain = false
is_counted queue completed = false
is_counted queue (Status.unlisted n) = false
is_counted concurrent s = is_processing s
is_counted (QuotaType.unlisted q) s = is_processing s

abbrev pub count_tasks : QuotaType → String → List Task → ℕ
count_tasks quota_type user_id [] = 0
count_tasks quota_type user_id (t ∷ ts) =
    if str_eq t.user_id user_id && is_counted quota_type t.status
    then suc (count_tasks quota_type user_id ts)
    else count_tasks quota_type user_id ts

unfoldable pub check_with_db : QuotaType → String → ℤ → World → Answer (Unit {0}) × World
unfolding fails
check_with_db quota_type user_id max_limit w =
    let (failing, w') = fails w in
    if failing
    then (err count_failed, w')
    else if leb_ℤ max_limit (pos (count_tasks quota_type user_id w.tasks))
    then (err (limit_exceeded quota_type), w')
    else (ok tt, w')

-- What follows the answer of Redis.
abbrev pub after_redis :
    QuotaType → String → ℤ → Answer (Unit {0}) × World → Answer (Unit {0}) × World
after_redis quota_type user_id max_limit (ok x, w) = (ok x, w)
after_redis quota_type user_id max_limit (err e, w) =
    let fall_back = check_with_db quota_type user_id max_limit (handle_redis_error w) in
    if is_redis_error e then fall_back else (err e, w)

-- `CheckAndReserveSlot`; the queue and concurrent variants fix the quota type.
unfoldable pub check_and_reserve_slot :
    QuotaType → String → String → ℤ → World → Answer (Unit {0}) × World
unfolding check_with_redis check_with_db
check_and_reserve_slot quota_type user_id task_id max_limit w =
    if w.degrade_mode
    then check_with_db quota_type user_id max_limit w
    else after_redis quota_type user_id max_limit
        (check_with_redis quota_type user_id task_id max_limit w)

abbrev pub release_reply : Reply ℕ × World → Answer (Unit {0}) × World
release_reply (replied n, w) = (ok tt, w)
release_reply (faulted f, w) = (err (redis_failed f), w)

-- `ReleaseSlot` does nothing in the degrade mode.
unfoldable pub release_slot : QuotaType → String → String → World → Answer (Unit {0}) × World
unfolding eval
release_slot quota_type user_id task_id w =
    if w.degrade_mode
    then (ok tt, w)
    else release_reply (eval (release_slot_script task_id) (build_key quota_type user_id) w)
