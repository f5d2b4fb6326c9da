-- ===== src/Quota/Tests.antt =====
-- Runs of the slot code, and the theorems at these runs.
mod Scanning
mod Submitting
use genioai_wxmini_server.Base.{
  String, length, ◌<◌, arith, true, false, none, some, List, [], ◌∷◌, ◌≡◌, ◌⊎◌, refl, pos, negsuc,
  ◌≤ℤ◌, ◌+◌,
}
use genioai_wxmini_server.Quota.Slot.{Slot, check_and_reserve_script}
use genioai_wxmini_server.Quota.Slot.Refines.{
  Op, reserve, release, spec_step, script_step, replies, empty_slot, scripts-refines,
}
use genioai_wxmini_server.Quota.Slot.Leaks.{slot_after, scripts-leak}
use genioai_wxmini_server.Quota.World.{concurrent, pending, processing, Task, World}
use genioai_wxmini_server.Quota.Checker.{
  ok, err, check_and_reserve_slot, release_slot, limit_exceeded,
}
use genioai_wxmini_server.Quota.Checker.Limit.{occupied, reserved, check_and_reserve_slot-limited}
use genioai_wxmini_server.Quota.Checker.Degraded.{Step, Reaches, IsStuck, degrade_mode-forever}
use genioai_wxmini_server.Quota.Transition.GivesBack.{transition_to_processing-gives_back}
use genioai_wxmini_server.Quota.Transition.{failed_with, update_failed, transition_to_processing}
use genioai_wxmini_server.Quota.Transition.Outcome.{IsOutcome, transition_to_processing-atomic}
use genioai_wxmini_server.Quota.Reconciler.{process_one}
use genioai_wxmini_server.Quota.Reconciler.Reasons.{IsReason, IsFreed, IsHeld}
use genioai_wxmini_server.Quota.Reconciler.Stale.{adapter, process_one_decides}
use genioai_wxmini_server.Quota.Config.{load_config, Stored}
use genioai_wxmini_server.Quota.Config.Positive.{IsPositive, load_config-IsPositive}

abbrev one_taken : Slot
one_taken = record { current = 1; tasks = "a" ∷ [] }

abbrev task_a : Task
task_a = record { task_id = "a"; user_id = "u"; status = processing; updated_at = 5 }

abbrev task_b : Task
task_b = record { task_id = "b"; user_id = "u"; status = pending; updated_at = 6 }

abbrev world : World
world = record {
  slots = λ key. one_taken;
  lock_of = λ task_id. none;
  drawn = 0;
  redis_faults = [];
  tasks = task_a ∷ task_b ∷ [];
  database_faults = [];
  degrade_mode = false;
  health_check_running = false;
}

check_and_reserve_slot-limited_example :
    (¬ (pos 2 ≤ℤ pos (occupied concurrent "u" world))
      × (check_and_reserve_slot concurrent "u" "b" (pos 2) world
          ≡ (ok tt, reserved concurrent "u" "b" (pos 2) world)))
    ⊎ ((pos 2 ≤ℤ pos (occupied concurrent "u" world))
        × (check_and_reserve_slot concurrent "u" "b" (pos 2) world
            ≡ (err (limit_exceeded concurrent), reserved concurrent "u" "b" (pos 2) world)))
check_and_reserve_slot-limited_example =
    check_and_reserve_slot-limited concurrent "u" "b" (pos 2) world (refl, refl)

transition_to_processing-atomic_example :
    IsOutcome 9 "b" world (transition_to_processing 9 "b" "u" (pos 2) world)
transition_to_processing-atomic_example = transition_to_processing-atomic 9 "b" "u" (pos 2) world

-- The transition of the pending task succeeds.
transition_b : (transition_to_processing 9 "b" "u" (pos 2) world).1.drawn ≡ 1
unfolding transition_to_processing
transition_b = refl

-- The health check has timed out.
abbrev stuck : World
stuck = record world { degrade_mode = true; health_check_running = false }

abbrev stuck_later : World
stuck_later =
    (release_slot concurrent "u" "a" (check_and_reserve_slot concurrent "u" "b" (pos 2) stuck).1).1

degrade_mode-forever_example : IsStuck stuck_later × (stuck_later.slots ≡ stuck.slots)
degrade_mode-forever_example =
    degrade_mode-forever stuck stuck_later (refl, refl)
      (Reaches.later (check_and_reserve_slot concurrent "u" "b" (pos 2) stuck).1
        (Reaches.later stuck Reaches.here (Step.reserves concurrent "u" "b" (pos 2)))
        (Step.releases concurrent "u" "a"))

-- The next statement fails.
abbrev unreadable : World
unreadable = record world { database_faults = true ∷ [] }

-- The slot of a task that is at work is lost.
process_one_decides_example :
    let after = process_one (adapter concurrent) 600 7 "u" "a" unreadable in
    (IsReason concurrent 600 7 "a" unreadable
      × IsFreed "a" one_taken (after.slots "visionai:concurrent:u")
      × ((k : String) → ("visionai:concurrent:u" ≡ k) ⊎ (after.slots k ≡ one_taken)))
    ⊎ (IsHeld concurrent 600 7 "a" unreadable × ((k : String) → after.slots k ≡ one_taken))
process_one_decides_example =
    process_one_decides concurrent 600 7 "u" "a" unreadable refl refl
      (record { counted = refl; distinct = (refl, tt) })

lost_slot :
    (process_one (adapter concurrent) 600 7 "u" "a" unreadable).slots "visionai:concurrent:u"
    ≡ record { current = 0; tasks = [] }
unfolding process_one
lost_slot = refl

load_config-IsPositive_example :
    IsPositive
      (load_config
        (some (
          Stored.decoded (record {
            member = some (record { max_queue_size = pos 6; max_concurrent = negsuc 0 });
            non_member = none;
          })))
        none
        true).0
load_config-IsPositive_example =
    load_config-IsPositive
      (some (
        Stored.decoded (record {
          member = some (record { max_queue_size = pos 6; max_concurrent = negsuc 0 });
          non_member = none;
        })))
      none true

-- The update of the task fails, after the slot was taken.
abbrev save_fails : World
save_fails = record world { database_faults = false ∷ false ∷ true ∷ [] }

abbrev after_failure : World
after_failure = (transition_to_processing 9 "b" "u" (pos 2) save_fails).1

transition_fails :
    transition_to_processing 9 "b" "u" (pos 2) save_fails
    ≡ (failed_with update_failed, after_failure)
unfolding transition_to_processing
transition_fails = refl

transition_to_processing-gives_back_example :
    after_failure.slots "visionai:concurrent:u" ≡ one_taken
transition_to_processing-gives_back_example =
    transition_to_processing-gives_back 9 "b" "u" (pos 2) save_fails refl refl refl transition_fails
      "visionai:concurrent:u"

abbrev three_calls : List Op
three_calls = reserve "a" (pos 1) ∷ reserve "b" (pos 1) ∷ release "a" ∷ []

scripts-refines_example :
    replies script_step three_calls empty_slot ≡ replies spec_step three_calls []
scripts-refines_example = scripts-refines three_calls (refl, (refl, (tt, tt)))

-- Task "a" reserves again and gives two slots back.
abbrev twice_back : List Op
twice_back = release "a" ∷ release "a" ∷ []

scripts-leak_example :
    let after = slot_after twice_back (check_and_reserve_script "a" (pos 2) one_taken).1 in
    length after.tasks < after.current
scripts-leak_example =
    scripts-leak "a" (pos 2) one_taken twice_back (record { counted = refl; distinct = (refl, tt) })
      refl (ground arith)

leaked :
    slot_after twice_back (check_and_reserve_script "a" (pos 2) one_taken).1
    ≡ record { current = 1; tasks = [] }
leaked = refl
