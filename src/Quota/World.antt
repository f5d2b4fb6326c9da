-- ===== src/Quota/World.antt =====
-- What the slot code works on: Redis, the task table, and the state of the `TaskQuotaChecker`.
use genioai_wxmini_server.Base.{
  ℕ, ℤ, String, Bool, false, Option, none, some, List, [], ◌∷◌, str_eq, if◌then◌else◌,
}
use genioai_wxmini_server.Quota.Slot.{Slot}

-- `quota.QuotaType`, a string type with two known values.
pub data QuotaType : Type 0 where
  queue concurrent : QuotaType
  unlisted : String → QuotaType

-- `pb.WorkflowTaskStatus`; the other values are of no account here.
pub data Status : Type 0 where
  pending failed processing pending_submission_retry awaiting_provider_completion : Status
  pending_chain completed : Status
  unlisted : ℤ → Status

-- What is read and written of `model.PictureTask`.
pub record Task : Type 0 where
  pub task_id : String
  pub user_id : String
  pub status : Status
  pub updated_at : ℕ

-- The error of a Redis call, as far as `isRedisError` tells them apart.
pub data RedisFault : Type 0 where
  redis_nil tx_failed deadline_exceeded connection_refused io_timeout no_route eof other :
      RedisFault

-- A failed call: the script may have run when the reply was lost.
pub record Outcome : Type 0 where
  pub executed : Bool
  pub fault : RedisFault

pub record World : Type 0 where
  pub slots : String → Slot
  pub lock_of : String → Option ℕ  -- the value at `visionai:task:lock:<task>`
  pub drawn : ℕ  -- calls of `uuid.New` so far
  pub redis_faults : List (Option Outcome)  -- what happens to the calls to come
  pub tasks : List Task
  pub database_faults : List Bool  -- whether the statements to come fail
  pub degrade_mode : Bool
  pub health_check_running : Bool

pub data QuotaError : Type 0 where
  queue_limit_exceeded concurrent_limit_exceeded count_failed : QuotaError
  redis_failed : RedisFault → QuotaError

pub data Reply (A : Type 0) : Type 0 where
  replied : A → Reply A
  faulted : RedisFault → Reply A

abbrev pub set_slot : String → Slot → (String → Slot) → (String → Slot)
set_slot key s slots k = if str_eq key k then s else slots k

-- `Eval(script, key, …)`
abbrev pub run_script : {A : Type 0} → (Slot → A × Slot) → String → World → World
run_script script key w = record w { slots = set_slot key (script (w.slots key)).1 w.slots }

unfoldable pub eval : {A : Type 0} → (Slot → A × Slot) → String → World → Reply A × World
eval script key w = elim w.redis_faults [
  | [] ↦ (replied (script (w.slots key)).0, run_script script key w)
  | none ∷ rest ↦
      (replied (script (w.slots key)).0, record (run_script script key w) { redis_faults = rest })
  | some o ∷ rest ↦ (
    faulted o.fault,
    record (if o.executed then run_script script key w else w) { redis_faults = rest },
  )
]

-- One statement of the database: whether it fails, and the statements to come.
unfoldable pub fails : World → Bool × World
fails w = elim w.database_faults [
  | [] ↦ (false, w)
  | b ∷ rest ↦ (b, record w { database_faults = rest })
]
