-- ===== src/Chain/Partial.antt =====
-- calculatePartialRefund, calculatePartialDeductionInfo and executePartialRefund of
-- internal/service/task_chain_service.go. Numbers of type float64 are a type F with the operations
-- that the code uses, and the values of `uuid.NewString` a sequence.
pub mod Bounded
use genioai_wxmini_server.Base.{
  ℕ, ℤ, String, zero, suc, ◌+◌, Bool, Option, none, some, List, [], ◌∷◌, str_eq, eq_ℤ, pos, ltb_ℤ,
  add64, append_text, map, if◌then◌else◌,
}
use genioai_wxmini_server.Credit.Store as Store
use genioai_wxmini_server.Credit.Store.{Result, Db}
use genioai_wxmini_server.Credit.Deduct.{DeductionInfo}
use genioai_wxmini_server.Credit.Refund.{
  StoredInfo, no_info, malformed, parsed, RefundTask, refund_credits,
}
use genioai_wxmini_server.Chain.World.{
  StoredIds, malformed_ids, ids, PictureTask, TaskChain, Workflow, World, malformed_ids_error,
  no_tasks, config_missing, refund_failed, malformed_info_error, Answer, ok, err, M, pure, raise,
  or_raise, ◌>>=◌, ◌>>◌, get_task, get_workflow,
}

pub record Float64 (F : Type 0) : Type 0 where
  pub of_int : ℤ → F
  pub div : F → F → F
  pub mul : F → F → F
  pub to_int : F → ℤ  -- `int64(x)`

module _ {F : Type 0} (fl : Float64 F) where
  -- `int64(float64(deductedAmount) * refundRatio)`
  abbrev pub partial_refund_amount : F → ℤ → ℤ
  partial_refund_amount ratio deducted = fl.to_int (fl.mul (fl.of_int deducted) ratio)

  abbrev pub keep_positive : ℕ → ℤ → DeductionInfo → DeductionInfo
  keep_positive k d m = if ltb_ℤ (pos 0) d then (k, d) ∷ m else m

  abbrev pub partial_deduction : F → DeductionInfo → DeductionInfo
  partial_deduction ratio [] = []
  partial_deduction ratio ((k, d) ∷ m) =
      keep_positive k (partial_refund_amount ratio d) (partial_deduction ratio m)

  unfoldable pub calculate_partial_deduction_info : StoredInfo → ℤ → ℤ → M StoredInfo
  calculate_partial_deduction_info no_info refund_amount total_cost = pure no_info
  calculate_partial_deduction_info malformed refund_amount total_cost = raise malformed_info_error
  calculate_partial_deduction_info (parsed m) refund_amount total_cost =
      pure (parsed (partial_deduction (fl.div (fl.of_int refund_amount) (fl.of_int total_cost)) m))

  -- `s.creditSvc.RefundCredits(…)`
  abbrev pub with_credits : World → Result (Unit {0}) × Db → Answer (Unit {0}) × World
  with_credits w (Store.ok x, db) = (ok tt, record w { credits = db })
  with_credits w (Store.err e, db) = (err refund_failed, record w { credits = db })

  unfoldable pub refund : RefundTask → String → M (Unit {0})
  unfolding refund_credits
  refund t reason w = with_credits w (refund_credits t reason w.credits)

  abbrev pub draw : M ℕ
  draw w = (ok w.drawn, record w { drawn = suc w.drawn })

  abbrev pub partial_refund_id : (ℕ → String) → TaskChain → String → ℕ → String
  partial_refund_id uuid c failed_task_id n = append_text "partial_refund_" (
      append_text c.chain_id
        (append_text "_" (append_text failed_task_id (append_text "_" (uuid n)))))

  abbrev pub partial_refund_task : (ℕ → String) → TaskChain → String → ℕ → StoredInfo → RefundTask
  partial_refund_task uuid c failed_task_id n info = record {
    project_id = c.project_id;
    user_id = c.user_id;
    task_id = partial_refund_id uuid c failed_task_id n;
    deduction_info = info;
  }

  abbrev pub failure_reason : String → String
  failure_reason failed_task_id =
      append_text "Chain task failure - step failed (task: " (append_text failed_task_id ")")

  unfoldable pub execute_partial_refund : (ℕ → String) → TaskChain → String → ℤ → M (Unit {0})
  unfolding calculate_partial_deduction_info refund
  execute_partial_refund uuid c failed_task_id refund_amount = do
    n ← draw
    info ←
        calculate_partial_deduction_info c.credit_deduction_info refund_amount c.total_credit_cost
    refund (partial_refund_task uuid c failed_task_id n info) (failure_reason failed_task_id)

abbrev pub after_index : Option ℕ → Option ℕ
after_index none = none
after_index (some i) = some (suc i)

abbrev pub index_of : String → List String → Option ℕ
index_of s [] = none
index_of s (x ∷ xs) = if str_eq x s then some 0 else after_index (index_of s xs)

abbrev pub second_workflow_id : M String
second_workflow_id w = or_raise config_missing w.guide_workflow_id w

-- The switch over the index of the failed step.
abbrev pub refund_of_step : ℕ → Workflow → Workflow → ℤ
refund_of_step zero first second = add64 first.credit_points second.credit_points
refund_of_step (suc zero) first second = second.credit_points
refund_of_step (suc (suc i)) first second = pos 0

unfoldable pub price_of_step : String → ℕ → M ℤ
unfolding get_task get_workflow
price_of_step first_id i = do
  t ← get_task first_id
  first ← get_workflow t.workflow_id
  second_id ← second_workflow_id
  second ← get_workflow second_id
  pure (refund_of_step i first second)

abbrev pub price_if_found : String → Option ℕ → M ℤ
price_if_found first_id none = pure (pos 0)
price_if_found first_id (some i) = price_of_step first_id i

unfoldable pub calculate_partial_refund : StoredIds → String → M ℤ
unfolding price_of_step
calculate_partial_refund malformed_ids failed_task_id = raise malformed_ids_error
calculate_partial_refund (ids []) failed_task_id = raise no_tasks
calculate_partial_refund (ids (x ∷ xs)) failed_task_id =
    price_if_found x (index_of failed_task_id (x ∷ xs))
