-- ===== src/Quota/Submit.antt =====
-- internal/service/picture_task.go: checkActiveTasks with its two parts, and SubmitTaskWithTx, which
-- holds a queue slot while it prepares and stores a task. What the steps that touch no slot answer is
-- an argument; the statements on the task table are in the transaction of the caller.
pub mod Leaks
use genioai_wxmini_server.Base.{
  ℕ, ℤ, String, Bool, true, false, not, Option, none, some, List, [], ◌∷◌, ◌++◌, leb_ℤ, pos, str_eq,
  if◌then◌else◌,
}
use genioai_wxmini_server.Quota.World.{
  queue, Task, World, QuotaError, queue_limit_exceeded, concurrent_limit_exceeded, count_failed,
  redis_failed, fails,
}
use genioai_wxmini_server.Quota.Checker.{
  Answer, ok, err, check_and_reserve_slot, release_slot, count_tasks,
}

-- Only a full queue stops the submission; any other error leaves it to the database.
abbrev pub or_database : Answer (Unit {0}) × World → Answer (Unit {0}) × World
or_database (ok x, w) = (ok tt, w)
or_database (err queue_limit_exceeded, w) = (err queue_limit_exceeded, w)
or_database (err concurrent_limit_exceeded, w) = (ok tt, w)
or_database (err count_failed, w) = (ok tt, w)
or_database (err (redis_failed f), w) = (ok tt, w)

unfoldable pub reserve_queue_slot : String → String → ℤ → World → Answer (Unit {0}) × World
unfolding check_and_reserve_slot
reserve_queue_slot user_id task_id limit w =
    or_database (check_and_reserve_slot queue user_id task_id limit w)

abbrev pub counted : String → String → ℤ → Bool × World → Answer (Unit {0}) × World
counted user_id task_id limit (true, w) =
    (err count_failed, (release_slot queue user_id task_id w).1)
counted user_id task_id limit (false, w) =
    if leb_ℤ limit (pos (count_tasks queue user_id w.tasks))
    then (err queue_limit_exceeded, (release_slot queue user_id task_id w).1)
    else (ok tt, w)

unfoldable pub verify_queue_size_with_db : String → String → ℤ → World → Answer (Unit {0}) × World
unfolding fails release_slot
verify_queue_size_with_db user_id task_id limit w = counted user_id task_id limit (fails w)

-- `logConcurrentState` counts once more, for the log only.
abbrev pub after_reserve_call :
    String → String → ℤ → Answer (Unit {0}) × World → Answer (Unit {0}) × World
after_reserve_call user_id task_id limit (ok x, w) =
    verify_queue_size_with_db user_id task_id limit w
after_reserve_call user_id task_id limit (err e, w) = (err e, w)

abbrev pub then_log : Answer (Unit {0}) × World → Answer (Unit {0}) × World
then_log (ok x, w) = (ok tt, (fails w).1)
then_log (err e, w) = (err e, w)

unfoldable pub check_active_tasks : String → String → ℤ → World → Answer (Unit {0}) × World
unfolding reserve_queue_slot verify_queue_size_with_db fails
check_active_tasks user_id task_id max_queue_size w = then_log (
    after_reserve_call user_id task_id max_queue_size
      (reserve_queue_slot user_id task_id max_queue_size w))

pub data SubmitError : Type 0 where
  invalid_user : SubmitError
  no_slot : QuotaError → SubmitError
  virtual_workflow_not_found not_prepared replacement_not_prepared : SubmitError
  invalid_faces kind_not_processed invalid_theme not_persisted ref_count_failed : SubmitError

pub data Outcome : Type 0 where
  submitted : Outcome
  refused : SubmitError → Outcome
  panicked : Outcome

-- What the steps of one submission answer.
pub record Submission : Type 0 where
  pub is_valid_user : Bool
  pub user_id : String
  pub task_id : String
  pub is_model_direct : Bool
  pub has_virtual_workflow : Bool
  pub is_prepared : Bool
  pub replacement : Option Bool  -- a replaced workflow, and whether its inputs are prepared
  pub optimization : Option Bool  -- optimized inputs, and whether they are prepared
  pub has_valid_faces : Bool
  pub has_kind : Bool
  pub has_valid_theme : Bool
  pub row : Task

-- An early end: its outcome, and whether the variable `err` that the give_slot_back function reads is
-- set then. A `return` with an error of its own, or of an inner `err`, leaves it nil.
abbrev pub End : Type 0
End = Outcome × Bool

abbrev pub or_end : Bool → End → Option End → Option End
or_end true e rest = rest
or_end false e rest = some e

abbrev pub or_end_of : Option Bool → End → Option End → Option End
or_end_of none e rest = rest
or_end_of (some b) e rest = or_end b e rest

-- The steps up to the row: a map that is nil after a failed preparation is written to with the
-- optimized inputs, which panics.
unfoldable pub prepare : Submission → Option End
prepare s =
    let workflow =
      or_end s.is_prepared (refused not_prepared, true)
        (or_end_of s.replacement (refused replacement_not_prepared, false)
          (or_end_of s.optimization (panicked, true)
            (or_end s.has_valid_faces (refused invalid_faces, false)
              (or_end s.has_kind (refused kind_not_processed, true)
                (or_end s.has_valid_theme (refused invalid_theme, false) none))))) in
    let direct =
      or_end s.has_virtual_workflow (refused virtual_workflow_not_found, false)
        (or_end s.is_prepared (refused not_prepared, true) none) in
    if s.is_model_direct then direct else workflow

abbrev pub with_row : Task → World → World
with_row t w = record w { tasks = w.tasks ++ (t ∷ []) }

-- `IncrementWorkflowRefCount`
abbrev pub referred : Bool × World → End × World
referred (true, w) = ((refused ref_count_failed, false), w)
referred (false, w) = ((submitted, false), w)

abbrev pub persisted : Submission → Bool × World → End × World
persisted s (true, w) = ((refused not_persisted, true), w)
persisted s (false, w) =
    if s.is_model_direct
    then ((submitted, false), with_row s.row w)
    else referred (fails (with_row s.row w))

abbrev pub after_prepare : Submission → Option End → World → End × World
after_prepare s (some e) w = (e, w)
after_prepare s none w = persisted s (fails w)

-- The give_slot_back function.
abbrev pub give_slot_back : Submission → End × World → Outcome × World
give_slot_back s ((o, err_is_set), w) =
    if err_is_set then (o, (release_slot queue s.user_id s.task_id w).1) else (o, w)

abbrev pub after_check : Submission → Answer (Unit {0}) × World → Outcome × World
after_check s (err e, w) = (refused (no_slot e), w)
after_check s (ok x, w) = give_slot_back s (after_prepare s (prepare s) w)

unfoldable pub submit_task_with_tx : ℤ → Submission → World → Outcome × World
unfolding check_active_tasks prepare fails release_slot
submit_task_with_tx max_queue_size s w =
    if s.is_valid_user
    then after_check s (check_active_tasks s.user_id s.task_id max_queue_size w)
    else (refused invalid_user, w)
