-- ===== src/Chain/Tests/Retries.antt =====
-- The theorems on retries at a failed picture.
use genioai_wxmini_server.Base.{
  String, Bool, false, none, List, [], ◌∷◌, pos, ◌≡◌, refl, arith, ◌+ℤ◌, add64, sub64, neg64,
  wrap64, min64, ◌-ℤ◌, Permᴰ,
}
use genioai_wxmini_server.Quota.World.{failed}
use genioai_wxmini_server.Credit.Model.{UserAmount}
use genioai_wxmini_server.Credit.Dao.{OrderBy, get_user_amounts}
use genioai_wxmini_server.Credit.Invariant.{IsOrder, IsSound}
use genioai_wxmini_server.Credit.Store.{statement}
use genioai_wxmini_server.Credit.Deduct.{
  deduct_credits_with_tx, deduct_credits_for_non_member, perform_deduction, charge,
}
use genioai_wxmini_server.Credit.Deduct.Charges.{sum_remaining}
use genioai_wxmini_server.Credit.Deduct.Effect.{sum_changes}
use genioai_wxmini_server.Chain.World.{PictureTask, World, fails, get_task, query}
use genioai_wxmini_server.Chain.FailTask.{fail_task}
use genioai_wxmini_server.Chain.RetryTask.{
  image_generation_cost, credit_cost, pay_and_save, save_retry, retry_failed_task,
}
use genioai_wxmini_server.Chain.RetryTask.Atomic.{IsAtomic, retry_failed_task-IsAtomic}
use genioai_wxmini_server.Chain.RetryTask.Refunded.{retry_failed_task-fail_task}
use genioai_wxmini_server.Chain.Tests.{fixed_point, picture, credits, world, uuid}

abbrev as_stored : OrderBy
as_stored rows = rows

same_order : (rows : List UserAmount) → Permᴰ rows rows
same_order [] = Permᴰ.nil
same_order (r ∷ rows) = Permᴰ.cons refl (same_order rows)

as_stored-IsOrder : IsOrder as_stored
as_stored-IsOrder = record { perm = same_order }

-- It has failed and costs two credits, as many as there are.
abbrev broken : PictureTask
broken = record picture { status = failed; error = "broken"; credit_points = pos 2 }

abbrev failed_world : World
failed_world = record world { tasks = broken ∷ []; chains = [] }

abbrev not_member : String → Bool
not_member user_id = false

credits-IsSound : IsSound credits
unfolding ◌+ℤ◌
credits-IsSound = record {
  distinct = (tt, tt);
  balances = (omega arith, tt);
  bounded = omega arith;
}

retry_failed_task-IsAtomic_example :
    IsAtomic
      (credit_cost as_stored 10 false not_member)
      "a"
      failed_world
      (retry_failed_task as_stored 10 false not_member "a" failed_world)
retry_failed_task-IsAtomic_example =
    retry_failed_task-IsAtomic as_stored 10 false not_member "a" failed_world as_stored-IsOrder
      credits-IsSound (omega arith, tt)

abbrev retried : World
retried = (retry_failed_task as_stored 10 false not_member "a" failed_world).1

is_retried : retry_failed_task as_stored 10 false not_member "a" failed_world ≡ (none, retried)
unfolding retry_failed_task fails get_task query pay_and_save save_retry image_generation_cost
    deduct_credits_with_tx get_user_amounts deduct_credits_for_non_member perform_deduction charge
    statement add64 sub64 neg64 wrap64 min64 ◌+ℤ◌ ◌-ℤ◌
is_retried = refl

retry_failed_task-fail_task_example :
    let x = (fail_task fixed_point uuid "broken" broken retried).1 in
    (sum_remaining x.credits.amounts ≡ sum_remaining credits.amounts)
    × (sum_changes x.credits.transactions ≡ sum_changes credits.transactions)
unfolding retry_failed_task fails get_task query pay_and_save save_retry image_generation_cost
    deduct_credits_with_tx get_user_amounts deduct_credits_for_non_member perform_deduction charge
    statement add64 sub64 neg64 wrap64 min64 ◌+ℤ◌ ◌-ℤ◌
retry_failed_task-fail_task_example =
    retry_failed_task-fail_task fixed_point uuid as_stored 10 false not_member "broken" broken
      failed_world retried retried as_stored-IsOrder credits-IsSound (omega arith, tt) is_retried
      refl refl refl refl refl (refl, refl)
