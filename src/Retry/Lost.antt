-- ===== src/Retry/Lost.antt =====
-- When a retry loses the row of its task.
use genioai_wxmini_server.Base.{
  ℤ, String, Bool, true, false, Option, none, some, ◌≡◌, refl, inc32, ◌∙◌, arith, inl, inr, ◌⊎◌,
}
use genioai_wxmini_server.Retry.{
  PictureTask, Executor, Calls, record_error, record_progress, deferred, after_retry, attempt,
  Attempt,
}

abbrev pub counted : PictureTask → PictureTask
counted t = record t { retry_count = inc32 t.retry_count }

-- The update of the retry count blanked the row, and no update after it wrote the task back.
abbrev pub IsLost : Calls → Type 0
IsLost c = (c.count_updated ≡ true) × ((c.context_ended ≡ true) ⊎ (c.task_updated ≡ false))

-- The executors leave the user of a task as it is.
abbrev pub KeepUsers : (String → Option Executor) → Type 0
KeepUsers executor_provider =
    (name : String) (ex : Executor)
    → executor_provider name ≡ some ex
    → (t : PictureTask) → (ex.retry_submission t).1.user_id ≡ t.user_id

pub record_error-user_id :
    (o : Option String) (t : PictureTask) → (record_error o t).user_id ≡ t.user_id
record_error-user_id none t = refl
record_error-user_id (some e) t = ground arith

pub record_progress-user_id : (t : PictureTask) → (record_progress t).user_id ≡ t.user_id
record_progress-user_id t = ground arith

-- Whatever is decided about the task after an error, its user stays.
pub after_retry-user_id :
    (max_retry_attempts : ℤ) (ex : Executor) (needs : Bool) (o : Option String) (t : PictureTask)
    → (after_retry max_retry_attempts ex needs (o, t)).task.user_id ≡ t.user_id
after_retry-user_id max_retry_attempts ex needs none t = refl
after_retry-user_id max_retry_attempts ex needs (some e) t = ground arith

pub after_retry-needs :
    (max_retry_attempts : ℤ) (ex : Executor) (x : Option String × PictureTask)
    → (after_retry max_retry_attempts ex true x).needs_db_update ≡ true
after_retry-needs max_retry_attempts ex (none, t) = refl
after_retry-needs max_retry_attempts ex (some e, t) = refl

pub attempt-user_id :
    (max_retry_attempts : ℤ) (executor_provider : String → Option Executor) (name : String)
    (needs : Bool) (t : PictureTask)
    → KeepUsers executor_provider
    → (attempt max_retry_attempts (executor_provider name) needs t).task.user_id ≡ t.user_id
attempt-user_id max_retry_attempts executor_provider name needs t keep =
    at (executor_provider name) refl
  where
    at :
        (o : Option Executor)
        → executor_provider name ≡ o
        → (attempt max_retry_attempts o needs t).task.user_id ≡ t.user_id
    at none q = refl
    at (some ex) q =
        let x = ex.retry_submission t in
        after_retry-user_id max_retry_attempts ex needs x.0 x.1 ∙ keep name ex q t

pub attempt-needs :
    (max_retry_attempts : ℤ) (o : Option Executor) (t : PictureTask)
    → (attempt max_retry_attempts o true t).needs_db_update ≡ true
attempt-needs max_retry_attempts none t = refl
attempt-needs max_retry_attempts (some ex) t =
    after_retry-needs max_retry_attempts ex (ex.retry_submission t)

-- The deferred function leaves the row, or writes the task.
pub deferred-user_id :
    (c : Calls) (original : PictureTask) (a : Attempt) (row : PictureTask) (u : String)
    → a.task.user_id ≡ u
    → row.user_id ≡ u
    → (deferred c original a row).row.user_id ≡ u
deferred-user_id c original a row u h k =
    let last : (record_progress (record_error a.task_err a.task)).user_id ≡ u =
      record_progress-user_id (record_error a.task_err a.task)
      ∙ (record_error-user_id a.task_err a.task ∙ h) in
    ground arith

pub deferred-writes :
    (c : Calls) (original : PictureTask) (a : Attempt) (row : PictureTask)
    → a.needs_db_update ≡ true
    → c.context_ended ≡ false
    → c.task_updated ≡ true
    → (deferred c original a row).row.user_id ≡ a.task.user_id
deferred-writes c original a row needs live updated =
    simp (needs, live, updated)
      (record_progress-user_id (record_error a.task_err a.task)
        ∙ record_error-user_id a.task_err a.task)

pub deferred-leaves :
    (c : Calls) (original : PictureTask) (a : Attempt) (row : PictureTask)
    → (c.context_ended ≡ true) ⊎ (c.task_updated ≡ false)
    → (deferred c original a row).row ≡ row
deferred-leaves c original a row (inl e) = simp e refl
deferred-leaves c original a row (inr f) = ground arith
