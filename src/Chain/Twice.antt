-- ===== src/Chain/Twice.antt =====
-- The credits that the failure of the first task of a chain gives back.
use genioai_wxmini_server.Base.{
  ℕ, ℤ, suc, String, true, false, some, List, ◌∷◌, eq_iff, ◌≡◌, ap, subst, ◌∙◌, pos, ltb_ℤ, add64,
  not,
}
use genioai_wxmini_server.Credit.Store.{Db}
use genioai_wxmini_server.Credit.Deduct.{DeductionInfo}
use genioai_wxmini_server.Credit.Refund.{parsed, refund_credits}
use genioai_wxmini_server.Chain.World.{
  ids, PictureTask, TaskChain, Workflow, World, Answer, ok, continue, first, has_task_id, is_listed,
  set_flag,
}
use genioai_wxmini_server.Chain.Frame.{redis_call-Same, first-save_same, first_holds}
use genioai_wxmini_server.Chain.Calm.{
  IsCalm, redis_call_calm, has_root, get_chain_by_any_task_id_calm,
}
use genioai_wxmini_server.Chain.Activate.{set_status}
use genioai_wxmini_server.Chain.Partial.{
  Float64, calculate_partial_refund, execute_partial_refund, calculate_partial_deduction_info,
  refund, partial_refund_task, failure_reason, partial_deduction,
}
use genioai_wxmini_server.Chain.Failed.{
  lock_failure, refund_if_due, close_chain, under_failure, after_chain, on_task_failed,
}
use genioai_wxmini_server.Chain.Failed.Credits.{
  set_status-credits, notify_chain_failure-credits, calculate_partial_refund-first, refund-credits,
}
use genioai_wxmini_server.Chain.FailTask.{
  is_terminal, is_due, with_reasons, refund_task_of, fail_task,
}
use genioai_wxmini_server.Chain.Refunds.{
  refunded_world, refund_latest_due, failed_task, told, fail_task-credits,
}

-- The refund that a chain makes for the part `amount` of its cost.
abbrev pub chain_refund :
    {F : Type 0} → Float64 F → (ℕ → String) → TaskChain → String → ℤ → DeductionInfo → World → Db
chain_refund fl uuid c i amount m w =
    let ratio = fl.div (fl.of_int amount) (fl.of_int c.total_credit_cost) in
    (refund_credits
      (partial_refund_task fl uuid c i w.drawn (parsed (partial_deduction fl ratio m)))
      (failure_reason fl i) w.credits).1

module _ {F : Type 0} (fl : Float64 F) (uuid : ℕ → String) where
  execute_partial_refund-credits :
      (c : TaskChain) (i : String) (amount : ℤ) (m : DeductionInfo) (w : World)
      → c.credit_deduction_info ≡ parsed m
      → (execute_partial_refund fl uuid c i amount w).1.credits
        ≡ chain_refund fl uuid c i amount m w
  unfolding execute_partial_refund calculate_partial_deduction_info
  execute_partial_refund-credits c i amount m w e =
      ap
        (λ info.
          (continue
            (λ info. refund fl (partial_refund_task fl uuid c i w.drawn info) (failure_reason fl i))
            (calculate_partial_deduction_info fl info amount c.total_credit_cost
              (record w { drawn = suc w.drawn }))).1.credits)
        e
      ∙ (let ratio = fl.div (fl.of_int amount) (fl.of_int c.total_credit_cost) in
          let part =
            partial_refund_task fl uuid c i w.drawn (parsed (partial_deduction fl ratio m)) in
          ap (λ v. v.credits)
            (refund-credits fl part (failure_reason fl i) (record w { drawn = suc w.drawn })))

  refund_if_due-credits :
      (c : TaskChain) (i : String) (amount : ℤ) (m : DeductionInfo) (w : World)
      → c.credit_deduction_info ≡ parsed m
      → ltb_ℤ (pos 0) amount ≡ true
      → (refund_if_due fl uuid c i amount w).credits ≡ chain_refund fl uuid c i amount m w
  refund_if_due-credits c i amount m w e p =
      simp p (execute_partial_refund-credits c i amount m w e)

  close_chain-credits :
      (c : TaskChain) (i : String) (x : Answer ℤ × World) (amount : ℤ) (m : DeductionInfo)
      (w : World)
      → x ≡ (ok amount, w)
      → c.credit_deduction_info ≡ parsed m
      → ltb_ℤ (pos 0) amount ≡ true
      → (close_chain fl uuid c i x).credits ≡ chain_refund fl uuid c i amount m w
  close_chain-credits c i x amount m w r e p =
      let paid = refund_if_due fl uuid c i amount w in
      ap (λ y. (close_chain fl uuid c i y).credits) r
      ∙ (notify_chain_failure-credits c.all_task_ids i (set_status (pos 3) c paid)
          ∙ (set_status-credits (pos 3) c paid ∙ refund_if_due-credits c i amount m w e p))

  -- The failure of the first task refunds the prices of both steps.
  on_task_failed-first :
      (i second_id : String) (rest : List String) (t : PictureTask) (c : TaskChain) (f g : Workflow)
      (m : DeductionInfo) (w : World)
      → IsCalm w
      → first (has_root i) w.chains ≡ some c
      → w.failing c.chain_id ≡ false
      → c.all_task_ids ≡ ids (i ∷ rest)
      → c.credit_deduction_info ≡ parsed m
      → first (has_task_id i) w.tasks ≡ some t
      → first (is_listed t.workflow_id) w.workflows ≡ some f
      → w.guide_workflow_id ≡ some second_id
      → first (is_listed second_id) w.workflows ≡ some g
      → ltb_ℤ (pos 0) (add64 f.credit_points g.credit_points) ≡ true
      → (on_task_failed fl uuid i w).credits
        ≡ chain_refund fl uuid c i (add64 f.credit_points g.credit_points) m w
  unfolding on_task_failed
  on_task_failed-first i second_id rest t c f g m w calm root free all info row at_f guide at_g p =
      let v = record w { failing = set_flag c.chain_id true w.failing } in
      let priced =
        ap (λ stored. calculate_partial_refund stored i v) all
        ∙ calculate_partial_refund-first i second_id rest t f g v calm.0 row at_f guide at_g in
      let closed = close_chain fl uuid c i (calculate_partial_refund c.all_task_ids i v) in
      ap (λ x. (after_chain fl uuid i x).credits) (get_chain_by_any_task_id_calm i c w calm.0 root)
      ∙ (ap (λ x. (under_failure fl uuid c i (lock_failure c.chain_id x)).credits)
            (redis_call_calm w calm.1)
          ∙ (ap (λ held. (under_failure fl uuid c i (not held, v)).credits) free
              ∙ ((redis_call-Same closed).2
                  ∙ close_chain-credits c i (calculate_partial_refund c.all_task_ids i v)
                      (add64 f.credit_points g.credit_points) m v priced info p)))

-- FailTask on the first task of a chain makes two refunds, one for the whole deduction that its row
-- holds and one for the prices of both steps, on the credits that the first has left. Assumed: the
-- database and Redis answer, no other failure of the chain is at work, the task is still running
-- and its refund is due, the deduction of the chain decodes, and the workflows of both steps are
-- listed with a positive price together.
pub fail_task-first :
    {F : Type 0} (fl : Float64 F) (uuid : ℕ → String) (err_msg second_id : String)
    (rest : List String) (task t : PictureTask) (c : TaskChain) (f g : Workflow) (m : DeductionInfo)
    (w : World)
    → IsCalm w
    → first (has_task_id task.task_id) w.tasks ≡ some t
    → is_terminal t.status ≡ false
    → is_due t ≡ true
    → first (has_root task.task_id) w.chains ≡ some c
    → w.failing c.chain_id ≡ false
    → c.all_task_ids ≡ ids (task.task_id ∷ rest)
    → c.credit_deduction_info ≡ parsed m
    → first (is_listed t.workflow_id) w.workflows ≡ some f
    → w.guide_workflow_id ≡ some second_id
    → first (is_listed second_id) w.workflows ≡ some g
    → ltb_ℤ (pos 0) (add64 f.credit_points g.credit_points) ≡ true
    → let once = (refund_credits (refund_task_of t) "任务执行失败退款" w.credits).1 in
      (fail_task fl uuid err_msg task w).1.credits
      ≡ chain_refund fl uuid c task.task_id
          (add64 f.credit_points g.credit_points)
          m
          (record w { credits = once })
fail_task-first fl uuid err_msg second_id rest task t c f g m w calm row running due root free all
      info' at_f guide at_g p =
    let i = task.task_id in
    let same : t.task_id ≡ i = (eq_iff t.task_id i).0 (first_holds (has_task_id i) w.tasks t row) in
    let u = with_reasons task t in
    let r = refunded_world fl uuid u w in
    let stored = failed_task fl uuid err_msg task t w in
    let found : first (has_task_id i) (told fl uuid stored r).tasks ≡ some stored =
      subst (λ j. first (has_task_id j) (told fl uuid stored r).tasks ≡ some stored) same
        (first-save_same stored w.tasks) in
    fail_task-credits fl uuid err_msg task t r w calm.0 row running
      (refund_latest_due fl uuid u w due) calm.0
    ∙ on_task_failed-first fl uuid i second_id rest stored c f g m (told fl uuid stored r) calm root
        free all info' found at_f guide at_g p
