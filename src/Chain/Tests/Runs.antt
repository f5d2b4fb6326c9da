-- ===== src/Chain/Tests/Runs.antt =====
-- The theorems on chains and failed tasks at these runs.
use genioai_wxmini_server.Base.{
  true, false, none, some, [], ◌∷◌, pos, ◌≡◌, refl, ap, subst, some_eq, arith, ◌+ℤ◌, add64, wrap64,
  ltb_ℤ, ◌≤ℤ◌,
}
use genioai_wxmini_server.Credit.Store.{statement}
use genioai_wxmini_server.Credit.Dao.{get_user_amounts_by_ids}
use genioai_wxmini_server.Credit.Deduct.{DeductionInfo}
use genioai_wxmini_server.Credit.Deduct.Charges.{sum_remaining}
use genioai_wxmini_server.Credit.Deduct.Conservation.{sum_info}
use genioai_wxmini_server.Credit.Refund.{parsed, refund_credits, refund_map}
use genioai_wxmini_server.Chain.World.{
  result, PictureTask, World, ok, commit_failed, first, save, has_task_id, has_chain_id,
}
use genioai_wxmini_server.Chain.Frame.{Same}
use genioai_wxmini_server.Chain.Activate.{on_task_completed}
use genioai_wxmini_server.Chain.Activate.Advance.{Advance}
use genioai_wxmini_server.Chain.Activate.Once.{on_task_completed-once}
use genioai_wxmini_server.Chain.Activate.Runs.{IsQueued, on_task_completed-runs}
use genioai_wxmini_server.Chain.Partial.{calculate_partial_deduction_info, refund}
use genioai_wxmini_server.Chain.Partial.Bounded.{IsPart, calculate_partial_deduction_info-bounded}
use genioai_wxmini_server.Chain.FailTask.{fail_task, refund_task_of}
use genioai_wxmini_server.Chain.Settled.Once.{fail_task-once}
use genioai_wxmini_server.Chain.Twice.{chain_refund, fail_task-first}
use genioai_wxmini_server.Chain.Uncommitted.{fail_task-uncommitted}
use genioai_wxmini_server.Chain.Tests.{
  fixed_point, fixed_point-IsIeee, info, picture, video, painted, workflow, chain, credits, world,
  uuid,
}

-- The picture is painted, and the video waits.
abbrev completed_picture : PictureTask
completed_picture = record picture { result_json = result painted }

on_task_completed-runs_example :
    let w' = on_task_completed completed_picture world in
    ((row : PictureTask) × (w'.tasks ≡ save (has_task_id "b") row world.tasks)
      × IsQueued painted video row)
    × (w'.chains
        ≡ save
            (has_chain_id "c")
            (record chain { status = pos 1; current_step = pos 2 })
            world.chains)
    × (w'.activating "c" ≡ false)
on_task_completed-runs_example =
    on_task_completed-runs completed_picture video painted chain (workflow "film" 4) "a" "b" []
      world (refl, refl) refl refl refl refl refl refl refl refl

on_task_completed-once_example :
    let w' = on_task_completed completed_picture world in
    Same w' (on_task_completed completed_picture w')
unfolding on_task_completed
on_task_completed-once_example =
    on_task_completed-once completed_picture completed_picture world refl
      (λ c h.
        subst (λ d. first (has_chain_id d.chain_id) world.chains ≡ some d) (some_eq chain c h) refl)
      (λ e. ground arith)

calculate_partial_deduction_info-bounded_example :
    (m' : DeductionInfo) × (calculate_partial_deduction_info fixed_point
        (parsed info)
        (pos 4)
        (pos 7)
        world
      ≡ (ok (parsed m'), world))
    × IsPart m' info
    × (sum_info m' ≤ℤ sum_info info)
calculate_partial_deduction_info-bounded_example =
    calculate_partial_deduction_info-bounded fixed_point fixed_point-IsIeee info (pos 4) (pos 7)
      world (omega arith, omega arith) (omega arith, omega arith) (omega arith) (omega arith)
      ((omega arith, omega arith), tt)

-- Three of the seven are given back, where the second step had cost four.
four_of_seven :
    calculate_partial_deduction_info fixed_point (parsed info) (pos 4) (pos 7) world
    ≡ (ok (parsed ((1, pos 3) ∷ [])), world)
unfolding calculate_partial_deduction_info
four_of_seven = refl

failing_run : (fail_task fixed_point uuid "broken" picture world).0 ≡ none
unfolding fail_task refund refund_credits add64 wrap64 ◌+ℤ◌ statement get_user_amounts_by_ids
    refund_map
failing_run = refl

failing_pair :
    fail_task fixed_point uuid "broken" picture world
    ≡ (none, (fail_task fixed_point uuid "broken" picture world).1)
failing_pair = ap (λ e. (e, (fail_task fixed_point uuid "broken" picture world).1)) failing_run

-- Fourteen credits come back for the seven that were spent.
twice_refunded :
    sum_remaining (fail_task fixed_point uuid "broken" picture world).1.credits.amounts ≡ pos 16
unfolding fail_task refund refund_credits add64 wrap64 ◌+ℤ◌ statement get_user_amounts_by_ids
    refund_map
twice_refunded = refl

price : ltb_ℤ (pos 0) (add64 (pos 3) (pos 4)) ≡ true
unfolding add64 wrap64 ◌+ℤ◌
price = refl

abbrev after_failure : World
after_failure = (fail_task fixed_point uuid "broken" picture world).1

fail_task-first_example :
    (fail_task fixed_point uuid "broken" picture world).1.credits
    ≡ chain_refund fixed_point uuid chain "a" (add64 (pos 3) (pos 4)) info (record world {
      credits = (refund_credits (refund_task_of picture) "任务执行失败退款" world.credits).1;
    })
fail_task-first_example =
    fail_task-first fixed_point uuid "broken" "film" ("b" ∷ []) picture picture chain
      (workflow "paint" 3) (workflow "film" 4) info world (refl, refl) refl refl refl refl refl refl
      refl refl refl refl price

fail_task-uncommitted_example :
    let r =
      fail_task fixed_point uuid "broken" picture
        (record world { faults = false ∷ false ∷ false ∷ true ∷ [] }) in
    (r.0 ≡ some commit_failed)
    × (r.1.tasks ≡ world.tasks)
    × (r.1.credits ≡ (refund_credits (refund_task_of picture) "任务执行失败退款" credits).1)
fail_task-uncommitted_example =
    fail_task-uncommitted fixed_point uuid "broken" picture picture []
      (record world { faults = false ∷ false ∷ false ∷ true ∷ [] }) refl refl refl refl

fail_task-once_example :
    Same after_failure (fail_task fixed_point uuid "again" picture after_failure).1
fail_task-once_example =
    fail_task-once fixed_point uuid "broken" "again" picture picture world after_failure refl
      failing_pair
