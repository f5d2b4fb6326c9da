-- ===== src/Chain/Settled/Kept.antt =====
-- OnTaskFailed keeps the tasks that have failed or completed.
use genioai_wxmini_server.Base.{
  ℕ, ℤ, suc, String, Bool, true, false, Option, none, some, [], ◌∷◌, ◌≡◌, refl, ◌∙◌, inl, inr,
  Bool-cases, ltb_ℤ, pos,
}
use genioai_wxmini_server.Credit.Store as Store
use genioai_wxmini_server.Credit.Store.{Result, Db}
use genioai_wxmini_server.Credit.Refund.{
  RefundTask, StoredInfo, no_info, malformed, parsed, refund_credits,
}
use genioai_wxmini_server.Chain.World.{
  StoredIds, malformed_ids, ids, TaskChain, World, Answer, ok, err, fails, write_unless, execute,
  continue, store_chain, update_chain, get_task, get_workflow, redis_call, update_failed,
  config_missing,
}
use genioai_wxmini_server.Chain.Frame.{
  Same, fails-Same, redis_call-Same, or_raise-Same, continue-Same, get_task-Same, get_workflow-Same,
}
use genioai_wxmini_server.Chain.Activate.{get_chain_by_any_task_id, set_status}
use genioai_wxmini_server.Chain.Partial.{
  Float64, calculate_partial_refund, execute_partial_refund, calculate_partial_deduction_info,
  refund, with_credits, price_of_step, price_if_found, second_workflow_id, index_of,
  partial_refund_task, failure_reason, partial_deduction,
}
use genioai_wxmini_server.Chain.Failed.{
  lock_failure, refund_if_due, close_chain, under_failure, after_chain, on_task_failed,
}
use genioai_wxmini_server.Chain.Settled.{
  IsSettled, IsSettled-across, get_chain_by_any_task_id-Same, notify_chain_failure-IsSettled,
}

update_chain-tasks : (c : TaskChain) (w : World) → (update_chain c w).1.tasks ≡ w.tasks
unfolding update_chain execute
update_chain-tasks c w = at (fails w) (fails-Same w).0
  where
    at :
        (x : Bool × World)
        → x.1.tasks ≡ w.tasks
        → (write_unless update_failed (store_chain c) x).1.tasks ≡ w.tasks
    at (true, v) h = h
    at (false, v) h = h

set_status-tasks :
    (status : ℤ) (c : TaskChain) (w : World) → (set_status status c w).tasks ≡ w.tasks
unfolding set_status
set_status-tasks status c w = update_chain-tasks (record c { status = status }) w

price_of_step-Same : (first_id : String) (i : ℕ) (w : World) → Same w (price_of_step first_id i w).1
unfolding price_of_step
price_of_step-Same first_id i w =
    continue-Same _ w (get_task first_id w) (get_task-Same first_id w) (λ t w1.
      continue-Same _ w1 (get_workflow t.workflow_id w1) (get_workflow-Same t.workflow_id w1)
        (λ first w2.
          continue-Same _ w2 (second_workflow_id w2)
            (or_raise-Same config_missing w2.guide_workflow_id w2)
            (λ second_id w3.
              continue-Same _ w3 (get_workflow second_id w3) (get_workflow-Same second_id w3)
                (λ second w4. (refl, refl, refl)))))

pub calculate_partial_refund-Same :
    (stored : StoredIds) (i : String) (w : World) → Same w (calculate_partial_refund stored i w).1
unfolding calculate_partial_refund
calculate_partial_refund-Same malformed_ids i w = (refl, refl, refl)
calculate_partial_refund-Same (ids []) i w = (refl, refl, refl)
calculate_partial_refund-Same (ids (x ∷ xs)) i w = at (index_of i (x ∷ xs))
  where
    at : (o : Option ℕ) → Same w (price_if_found x o w).1
    at none = (refl, refl, refl)
    at (some n) = price_of_step-Same x n w

module _ {F : Type 0} (fl : Float64 F) where
  pub refund-tasks :
      (t : RefundTask) (reason : String) (w : World) → (refund fl t reason w).1.tasks ≡ w.tasks
  unfolding refund
  refund-tasks t reason w = at (refund_credits t reason w.credits)
    where
      at : (x : Result (Unit {0}) × Db) → (with_credits fl w x).1.tasks ≡ w.tasks
      at (Store.ok y, db) = refl
      at (Store.err e, db) = refl

  module _ (uuid : ℕ → String) where
    execute_partial_refund-tasks :
        (c : TaskChain) (i : String) (amount : ℤ) (w : World)
        → (execute_partial_refund fl uuid c i amount w).1.tasks ≡ w.tasks
    unfolding execute_partial_refund calculate_partial_deduction_info
    execute_partial_refund-tasks c i amount w = at c.credit_deduction_info
      where
        at :
            (info : StoredInfo)
            → (continue
                (λ info.
                  refund fl (partial_refund_task fl uuid c i w.drawn info) (failure_reason fl i))
                (calculate_partial_deduction_info fl info amount c.total_credit_cost
                  (record w { drawn = suc w.drawn }))).1.tasks
              ≡ w.tasks
        at no_info =
            refund-tasks (partial_refund_task fl uuid c i w.drawn no_info) (failure_reason fl i)
              (record w { drawn = suc w.drawn })
        at malformed = refl
        at (parsed m) =
            let ratio = fl.div (fl.of_int amount) (fl.of_int c.total_credit_cost) in
            let info = parsed (partial_deduction fl ratio m) in
            refund-tasks (partial_refund_task fl uuid c i w.drawn info) (failure_reason fl i)
              (record w { drawn = suc w.drawn })

    refund_if_due-tasks :
        (c : TaskChain) (i : String) (amount : ℤ) (w : World)
        → (refund_if_due fl uuid c i amount w).tasks ≡ w.tasks
    refund_if_due-tasks c i amount w = elim (Bool-cases (ltb_ℤ (pos 0) amount)) [
      | inl e ↦ simp e (execute_partial_refund-tasks c i amount w)
      | inr e ↦ simp e refl
    ]

    close_chain-IsSettled :
        (i : String) (c : TaskChain) (j : String) (x : Answer ℤ × World)
        → IsSettled i x.1
        → IsSettled i (close_chain fl uuid c j x)
    close_chain-IsSettled i c j (ok amount, w) h =
        let w1 = refund_if_due fl uuid c j amount w in
        let w2 = set_status (pos 3) c w1 in
        notify_chain_failure-IsSettled i j c.all_task_ids w2 (
          IsSettled-across i w w2 (set_status-tasks (pos 3) c w1 ∙ refund_if_due-tasks c j amount w)
            h)
    close_chain-IsSettled i c j (err e, w) h = h

    under_failure-IsSettled :
        (i : String) (c : TaskChain) (j : String) (x : Bool × World)
        → IsSettled i x.1
        → IsSettled i (under_failure fl uuid c j x)
    under_failure-IsSettled i c j (false, w) h = h
    under_failure-IsSettled i c j (true, w) h =
        let priced = calculate_partial_refund c.all_task_ids j w in
        let closed = close_chain fl uuid c j priced in
        IsSettled-across i closed (redis_call closed).1 (redis_call-Same closed).0 (
          close_chain-IsSettled i c j priced
            (IsSettled-across i w priced.1 (calculate_partial_refund-Same c.all_task_ids j w).0 h))

    pub on_task_failed-IsSettled :
        (i j : String) (w : World) → IsSettled i w → IsSettled i (on_task_failed fl uuid j w)
    unfolding on_task_failed
    on_task_failed-IsSettled i j w h = at (get_chain_by_any_task_id j w) (
        IsSettled-across i w (get_chain_by_any_task_id j w).1 (get_chain_by_any_task_id-Same j w).0
          h)
      where
        at :
            (x : Option TaskChain × World) → IsSettled i x.1 → IsSettled i (after_chain fl uuid j x)
        at (none, v) k = k
        at (some c, v) k =
            under_failure-IsSettled i c j (lock_failure c.chain_id (redis_call v))
              (IsSettled-across i v (redis_call v).1 (redis_call-Same v).0 k)
