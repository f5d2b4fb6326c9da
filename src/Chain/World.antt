-- ===== src/Chain/World.antt =====
-- What the chain code works on: the tables `task_chain`, `picture_task` and `workflow`, the locks in
-- Redis, the credits, and the calls of gorm and Redis on them. Times are left out.
use genioai_wxmini_server.Base.{
  ℕ, ℤ, String, Bool, true, false, not, Option, none, some, List, [], ◌∷◌, ◌++◌, str_eq, eq_ℤ, pos,
  if◌then◌else◌, ◌&&◌,
}
use genioai_wxmini_server.Quota.World.{Status}
use genioai_wxmini_server.Credit.Store.{Db}
use genioai_wxmini_server.Credit.Refund.{StoredInfo}

-- `model.PictureTaskResult`, as far as it is read, and `meta.prompt` of the same text.
pub record PictureTaskResult : Type 0 where
  pub result_url : String
  pub aspect_ratio : ℕ
  pub meta_prompt : Option String

-- `task.ResultJSON`: empty, or JSON that does or does not decode.
pub data StoredResult : Type 0 where
  no_result malformed_result : StoredResult
  result : PictureTaskResult → StoredResult

-- `chain.AllTaskIDs`.
pub data StoredIds : Type 0 where
  malformed_ids : StoredIds
  ids : List String → StoredIds

-- `model.UserPictureInfo`, as the chain writes it.
pub record UserPictureInfo : Type 0 where
  pub photo_url : String
  pub aspect_ratio : ℕ

-- The columns of `model.PictureTask` that a failure, a retry or a chain reads or writes.
pub record PictureTask : Type 0 where
  pub task_id : String
  pub project_id : String
  pub user_id : String
  pub workflow_id : String
  pub status : Status
  pub error : String
  pub failed_reason : String
  pub failed_reason_full : String
  pub progress : ℤ
  pub can_retry : Bool
  pub credit_points : ℤ
  pub credit_deduction_info : StoredInfo
  pub is_refunded : Bool
  pub result_json : StoredResult
  pub param_json : List (String × String)
  pub user_picture_info : Option UserPictureInfo
  pub workflow_type : String
  pub retry_count : ℤ  -- int32
  pub provider_sync_error_count : ℤ  -- int32

-- `model.TaskChain`.
pub record TaskChain : Type 0 where
  pub chain_id : String
  pub root_task_id : String
  pub next_task_id : String
  pub user_id : String
  pub project_id : String
  pub status : ℤ  -- 0 PENDING, 1 RUNNING, 2 DONE, 3 FAILED
  pub current_step : ℤ
  pub all_task_ids : StoredIds
  pub total_credit_cost : ℤ
  pub credit_deduction_info : StoredInfo

pub record Workflow : Type 0 where
  pub workflow_id : String
  pub status : ℤ
  pub prompt : String
  pub api_iden : String
  pub effect_scene : String
  pub provider : String
  pub credit_points : ℤ

pub record World : Type 0 where
  pub chains : List TaskChain  -- in the order of the primary key
  pub tasks : List PictureTask
  pub workflows : List Workflow
  pub guide_workflow_id : Option String  -- `ConfigKeyPictureToVideoGuideWorkflowID`
  pub credits : Db
  pub activating : String → Bool  -- the lock of `OnTaskCompleted` on a chain
  pub failing : String → Bool  -- the lock of `OnTaskFailed` on a chain
  pub user_lock : String → Option String  -- `visionai:user_processing_lock:<user>`
  pub faults : List Bool  -- whether the statements to come fail
  pub redis_faults : List (Option Bool)  -- of the calls to come, `some` whether a lost call ran
  pub sent : List PictureTask  -- progress events
  pub terminated : List PictureTask  -- calls of the hooks of a terminated task
  pub drawn : ℕ  -- calls of `uuid.NewString` so far

pub data Error : Type 0 where
  query_failed task_not_found update_failed begin_failed commit_failed : Error
  not_pending_chain : Status → Error
  workflow_not_found malformed_result_error malformed_ids_error : Error
  no_tasks config_missing refund_failed malformed_info_error : Error

pub data Answer (A : Type 0) : Type 0 where
  ok : A → Answer A
  err : Error → Answer A

abbrev pub M : Type 0 → Type 0
M A = World → Answer A × World

module _ {A : Type 0} where
  abbrev pub pure : A → M A
  pure a w = (ok a, w)

  abbrev pub raise : Error → M A
  raise e w = (err e, w)

abbrev pub continue : {A B : Type 0} → (A → M B) → Answer A × World → Answer B × World
continue f (ok a, w) = f a w
continue f (err e, w) = (err e, w)

infixl 5 ◌>>=◌ ◌>>◌
abbrev pub ◌>>=◌ : {A B : Type 0} → M A → (A → M B) → M B
◌>>=◌ m f w = continue f (m w)

abbrev pub ◌>>◌ : {A B : Type 0} → M A → M B → M B
m >> k = m >>= λ _. k

-- `x, err := f(); if err != nil { return fmt.Errorf(…) }`
abbrev pub or_raise : {A : Type 0} → Error → Option A → M A
or_raise e none = raise e
or_raise e (some a) = pure a

-- One statement of the database: whether it fails, and the statements to come.
abbrev pub after_fault : List Bool → World → Bool × World
after_fault [] w = (false, w)
after_fault (b ∷ rest) w = (b, record w { faults = rest })

unfoldable pub fails : World → Bool × World
fails w = after_fault w.faults w

-- A statement that reads `read` of the tables, or reports `e`.
abbrev pub read_unless : {A : Type 0} → Error → (World → A) → Bool × World → Answer A × World
read_unless e read (true, w) = (err e, w)
read_unless e read (false, w) = (ok (read w), w)

unfoldable pub query : {A : Type 0} → Error → (World → A) → M A
unfolding fails
query e read w = read_unless e read (fails w)

-- A statement that writes the tables by `write`, or reports `e`.
abbrev pub write_unless : Error → (World → World) → Bool × World → Answer (Unit {0}) × World
write_unless e write (true, w) = (err e, w)
write_unless e write (false, w) = (ok tt, write w)

unfoldable pub execute : Error → (World → World) → M (Unit {0})
unfolding fails
execute e write w = write_unless e write (fails w)

-- `Where(…).First(…)`
abbrev pub first : {A : Type 0} → (A → Bool) → List A → Option A
first p [] = none
first p (x ∷ xs) = if p x then some x else first p xs

-- `Save`: all columns of the row with this key; with no such row it is inserted.
abbrev pub save : {A : Type 0} → (A → Bool) → A → List A → List A
save same a [] = a ∷ []
save same a (x ∷ xs) = if same x then a ∷ xs else x ∷ save same a xs

abbrev pub has_task_id : String → PictureTask → Bool
has_task_id task_id t = str_eq t.task_id task_id

unfoldable pub get_task : String → M PictureTask
unfolding query
get_task task_id = do
  t ← query query_failed (λ w. first (has_task_id task_id) w.tasks)
  or_raise task_not_found t

abbrev pub store_task : PictureTask → World → World
store_task t w = record w { tasks = save (has_task_id t.task_id) t w.tasks }

unfoldable pub update_task : PictureTask → M (Unit {0})
unfolding execute
update_task t = execute update_failed (store_task t)

abbrev pub has_chain_id : String → TaskChain → Bool
has_chain_id chain_id c = str_eq c.chain_id chain_id

abbrev pub store_chain : TaskChain → World → World
store_chain c w = record w { chains = save (has_chain_id c.chain_id) c w.chains }

unfoldable pub update_chain : TaskChain → M (Unit {0})
unfolding execute
update_chain c = execute update_failed (store_chain c)

unfoldable pub get_by_root_task : String → M (Option TaskChain)
unfolding query
get_by_root_task task_id =
    query query_failed (λ w. first (λ c. str_eq c.root_task_id task_id) w.chains)

unfoldable pub get_by_next_task : String → M (Option TaskChain)
unfolding query
get_by_next_task task_id =
    query query_failed (λ w. first (λ c. str_eq c.next_task_id task_id) w.chains)

abbrev pub is_listed : String → Workflow → Bool
is_listed workflow_id f = str_eq f.workflow_id workflow_id && eq_ℤ f.status (pos 1)

unfoldable pub get_workflow : String → M Workflow
unfolding query
get_workflow workflow_id = do
  f ← query query_failed (λ w. first (is_listed workflow_id) w.workflows)
  or_raise workflow_not_found f

-- One call of Redis: what happens to it, and the calls to come.
abbrev pub after_call : List (Option Bool) → World → Option Bool × World
after_call [] w = (none, w)
after_call (o ∷ rest) w = (o, record w { redis_faults = rest })

unfoldable pub redis_call : World → Option Bool × World
redis_call w = after_call w.redis_faults w

abbrev pub set_flag : String → Bool → (String → Bool) → (String → Bool)
set_flag key b flags k = if str_eq key k then b else flags k

-- `SetNX(key, "1", …).Val()`, which is false for an error.
abbrev pub set_nx : Option Bool → Bool → Bool × Bool
set_nx none held = (not held, true)
set_nx (some true) held = (false, true)
set_nx (some false) held = (false, held)

-- `Del(key)`: whether the key is still there.
abbrev pub del : Option Bool → Bool → Bool
del none held = false
del (some true) held = false
del (some false) held = held

-- `SendProgressEvent(task)`
abbrev pub send : PictureTask → World → World
send t w = record w { sent = w.sent ++ (t ∷ []) }
