-- ===== src/Sync.antt =====
-- internal/task/picture_workflow/provider_status_sync_processor.go: a round of the processor and
-- handleSingleTask, on the lock manager of Lock and the tables of Chain. The executors, which ask the
-- providers, are a parameter; panics, the renewal of the lock and the push notification are left out.
pub mod Stuck
pub mod Locked
mod Tests
use genioai_wxmini_server.Base.{
  ℕ, ℤ, String, zero, suc, ◌+◌, Bool, true, false, not, Option, none, some, List, [], ◌∷◌, ltb,
  ◌||◌, ◌&&◌, str_eq, append_text, map, where_rows, if◌then◌else◌,
}
use genioai_wxmini_server.Quota.World.{Status, failed, completed, awaiting_provider_completion}
use genioai_wxmini_server.Chain.World as World
use genioai_wxmini_server.Chain.World.{PictureTask, World, Error, query_failed, update_task, query}
use genioai_wxmini_server.Chain.Activate.{dropped, on_task_completed}
use genioai_wxmini_server.Chain.Partial.{Float64}
use genioai_wxmini_server.Chain.Failed.{is_failed}
use genioai_wxmini_server.Chain.FailTask.{fail_task, release_user_processing_lock}
use genioai_wxmini_server.Lock as Lock
use genioai_wxmini_server.Lock.{
  Redis, LockManager, new_distributed_lock_manager, set_renewal_ttl, acquire_lock, release_lock,
  pass,
}

-- `ProviderStatusSyncConfig`; times are in seconds.
pub record ProviderStatusSyncConfig : Type 0 where
  pub poll_interval : ℕ
  pub batch_size : ℕ
  pub task_timeout : ℕ

abbrev pub default_config : ProviderStatusSyncConfig
default_config = record { poll_interval = 2; batch_size = 10; task_timeout = 900 }

abbrev pub positive_or : ℕ → ℕ → ℕ
positive_or n default = if ltb 0 n then n else default

abbrev pub new_config : Option ProviderStatusSyncConfig → ProviderStatusSyncConfig
new_config none = default_config
new_config (some c) = record {
  poll_interval = positive_or c.poll_interval default_config.poll_interval;
  batch_size = positive_or c.batch_size default_config.batch_size;
  task_timeout = positive_or c.task_timeout default_config.task_timeout;
}

abbrev pub provider_status_sync_lock_ttl : ℕ
provider_status_sync_lock_ttl = 30

abbrev pub task_status_sync_lock_ttl : ℕ
task_status_sync_lock_ttl = 15

abbrev pub lock_mgr : LockManager
lock_mgr =
    set_renewal_ttl provider_status_sync_lock_ttl
      (new_distributed_lock_manager "visionai:provider_sync")

abbrev pub task_sync_resource : String → String
task_sync_resource task_id = append_text "task_status_sync:" task_id

-- `TaskExecutorForSync`: the status and the error that it returns, and what it makes of the task and
-- the tables.
pub record Executor : Type 0 where
  pub sync_provider_status : PictureTask → World → (Status × Option String) × (PictureTask × World)
  pub process_successful_result : PictureTask → World → Option String × (PictureTask × World)

-- A task as it was read: its executor, if there is one, the time since its last update, and the time
-- that its handling takes, which the clock of the locks goes on by before the deferred function runs.
pub record Polled : Type 0 where
  pub task : PictureTask
  pub executor : Option Executor
  pub waited : ℕ
  pub took : ℕ

abbrev pub is_awaiting : Status → Bool
is_awaiting awaiting_provider_completion = true
is_awaiting _ = false

abbrev pub is_completed : Status → Bool
is_completed completed = true
is_completed _ = false

abbrev pub take : {A : Type 0} → ℕ → List A → List A
take n [] = []
take zero (x ∷ xs) = []
take (suc n) (x ∷ xs) = x ∷ take n xs

-- `GetTasksByStatus`; the order by time is a parameter.
abbrev pub get_tasks_by_status :
    (List PictureTask → List PictureTask) → ℕ → World → List PictureTask
get_tasks_by_status order limit w =
    take limit (order (where_rows (λ t. is_awaiting t.status) w.tasks))

module _ {F : Type 0} (fl : Float64 F) (uuid : ℕ → String) where
  -- `releaseNow`, and the tables.
  abbrev pub fail_and_keep : String → PictureTask → World → Bool × World
  fail_and_keep err_msg t w = (false, (fail_task fl uuid err_msg t w).1)

  abbrev pub after_result : Option String × (PictureTask × World) → Bool × World
  after_result (some e, (t, w)) =
      fail_and_keep (append_text "Failed to process successful result: " e) t w
  after_result (none, (t, w)) =
      (false, on_task_completed t (release_user_processing_lock t.user_id t.task_id w))

  abbrev pub on_status : Executor → Status → PictureTask → World → Bool × World
  on_status ex s t w =
      if is_completed s
      then after_result (ex.process_successful_result t w)
      else if is_failed s
      then (false, w)
      else (true, w)

  abbrev pub after_sync : Executor → (Status × Option String) × (PictureTask × World) → Bool × World
  after_sync ex ((s, some e), (t, w)) =
      if is_failed s
      then fail_and_keep (append_text "Executor sync failed: " e) t w
      else (true, dropped (update_task t w))
  after_sync ex ((s, none), (t, w)) = on_status ex s t w

  abbrev pub with_executor : Option Executor → PictureTask → World → Bool × World
  with_executor none t w = fail_and_keep "No suitable executor found for status sync." t w
  with_executor (some ex) t w = after_sync ex (ex.sync_provider_status t w)

  -- Under the lock of the task.
  unfoldable pub sync_task : ℕ → Polled → World → Bool × World
  unfolding fail_task update_task release_user_processing_lock on_task_completed
  sync_task task_timeout p w =
      if ltb task_timeout p.waited && is_awaiting p.task.status
      then fail_and_keep "Provider task processing timeout." p.task w
      else with_executor p.executor p.task w

  -- The deferred function: the lock stays until its time is over unless the branch was a cheap one.
  abbrev pub release_if : String → ℕ → Bool × World → Redis → World × Redis
  release_if resource_id lock_value (false, w) r = (w, r)
  release_if resource_id lock_value (true, w) r =
      (w, (release_lock lock_mgr resource_id lock_value r).1)

  abbrev pub after_lock : ℕ → Polled → World → Lock.Answer ℕ × Redis → World × Redis
  after_lock task_timeout p w (Lock.err e, r) = (w, r)
  after_lock task_timeout p w (Lock.ok lock_value, r) =
      release_if (task_sync_resource p.task.task_id) lock_value (sync_task task_timeout p w)
        (pass p.took r)

  unfoldable pub handle_single_task : ℕ → Polled → World → Redis → World × Redis
  unfolding acquire_lock sync_task release_lock
  handle_single_task task_timeout p w r =
      after_lock task_timeout p w
        (acquire_lock lock_mgr (task_sync_resource p.task.task_id) task_status_sync_lock_ttl r)

  abbrev pub then_handle : ℕ → Polled → World × Redis → World × Redis
  then_handle task_timeout p (w, r) = handle_single_task task_timeout p w r

  abbrev pub handle_tasks : ℕ → List Polled → World × Redis → World × Redis
  handle_tasks task_timeout [] s = s
  handle_tasks task_timeout (p ∷ ps) s = handle_tasks task_timeout ps (then_handle task_timeout p s)

  -- `poll` looks the executor of a task and the clock up.
  abbrev pub after_query :
      ℕ → (PictureTask → Polled) → World.Answer (List PictureTask) × World → Redis → World × Redis
  after_query task_timeout poll (World.err e, w) r = (w, r)
  after_query task_timeout poll (World.ok ts, w) r = handle_tasks task_timeout (map poll ts) (w, r)

  abbrev pub release_round : ℕ → World × Redis → World × Redis
  release_round lock_value (w, r) =
      (w, (release_lock lock_mgr "provider_status_sync_lock" lock_value r).1)

  abbrev pub under_round :
      ProviderStatusSyncConfig
      → (List PictureTask → List PictureTask)
      → (PictureTask → Polled)
      → World
      → Lock.Answer ℕ × Redis
      → World × Redis
  under_round cfg order poll w (Lock.err e, r) = (w, r)
  under_round cfg order poll w (Lock.ok lock_value, r) = release_round lock_value (
      after_query cfg.task_timeout poll
        (query query_failed (get_tasks_by_status order cfg.batch_size) w) r)

  unfoldable pub process_tasks :
      ProviderStatusSyncConfig
      → (List PictureTask → List PictureTask)
      → (PictureTask → Polled)
      → World
      → Redis
      → World × Redis
  unfolding acquire_lock query handle_single_task release_lock
  process_tasks cfg order poll w r =
      under_round cfg order poll w
        (acquire_lock lock_mgr "provider_status_sync_lock" provider_status_sync_lock_ttl r)
