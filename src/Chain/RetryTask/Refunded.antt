-- ===== src/Chain/RetryTask/Refunded.antt =====
-- A retry that fails in its turn: RetryFailedTask and then FailTask.
use genioai_wxmini_server.Base.{
  ℕ, ℤ, String, Bool, true, false, none, some, [], ◌≡◌, refl, ap, subst, ◌∙◌, inl, inr, IsInt64,
  All, str_eq, eq_iff, ◌&&◌,
}
use genioai_wxmini_server.Credit.Store.{Db, Result}
use genioai_wxmini_server.Credit.Dao.{OrderBy}
use genioai_wxmini_server.Credit.Invariant.{IsOrder, IsSound}
use genioai_wxmini_server.Credit.Deduct.Charges.{sum_remaining}
use genioai_wxmini_server.Credit.Deduct.Effect.{sum_changes}
use genioai_wxmini_server.Credit.Calm.{refund_credits-Runs}
use genioai_wxmini_server.Credit.Refund.{StoredInfo, no_info, parsed}
use genioai_wxmini_server.Credit.Refund.RoundTrip.{refund_credits_later}
use genioai_wxmini_server.Chain.World.{
  PictureTask, TaskChain, World, first, save, has_task_id, get_by_next_task, query_failed,
}
use genioai_wxmini_server.Chain.Frame.{first_holds, first-save_same}
use genioai_wxmini_server.Chain.Calm.{query_calm, has_root, get_by_root_task_calm}
use genioai_wxmini_server.Chain.Activate.{any_of, or_next, get_chain_by_any_task_id}
use genioai_wxmini_server.Chain.Partial.{Float64}
use genioai_wxmini_server.Chain.Failed.{after_chain, on_task_failed}
use genioai_wxmini_server.Chain.FailTask.{
  is_due, with_reasons, refund_task_of, refund_latest, fail_task,
}
use genioai_wxmini_server.Chain.Refunds.{
  refunded_world, refund_latest_due, failed_task, told, fail_task-credits,
}
use genioai_wxmini_server.Chain.RetryTask.{
  retry_request, retried_row, credit_cost, retry_failed_task,
}
use genioai_wxmini_server.Chain.RetryTask.Done.{IsDone, retry_failed_task-IsDone}
use genioai_wxmini_server.Chain.RetryTask.Atomic.{
  positive, first-All, image_generation_cost-IsInt64,
}

abbrev pub has_next : String → TaskChain → Bool
has_next task_id c = str_eq c.next_task_id task_id

-- No chain has the task.
abbrev pub IsUnchained : String → World → Type 0
IsUnchained task_id w =
    (first (has_root task_id) w.chains ≡ none) × (first (has_next task_id) w.chains ≡ none)

module _ {F : Type 0} (fl : Float64 F) (uuid : ℕ → String) where
  on_task_failed-unchained :
      (i : String) (w : World) → w.faults ≡ [] → IsUnchained i w → on_task_failed fl uuid i w ≡ w
  unfolding on_task_failed get_chain_by_any_task_id get_by_next_task
  on_task_failed-unchained i w h (root, next) = ap (after_chain fl uuid i) (
      ap (λ x. or_next i (any_of x)) (get_by_root_task_calm i w h)
      ∙ (ap (λ o. or_next i (o, w)) root
          ∙ (ap any_of (query_calm query_failed (λ v. first (has_next i) v.chains) w h)
              ∙ ap (λ o. (o, w)) next)))

  refund_latest_not_due :
      (t : PictureTask) (w : World) → is_due t ≡ false → (refund_latest fl t w).1 ≡ w
  unfolding refund_latest
  refund_latest_not_due t w e = simp e refl

  -- FailTask on a pending task of no chain: its credits are those after its own refund.
  fail_task-unchained :
      (err_msg : String) (task t : PictureTask) (cost : ℤ) (info : StoredInfo) (r v : World)
      → let s = retried_row cost info t in
        first (has_task_id task.task_id) v.tasks ≡ some s
        → (refund_latest fl (with_reasons task s) v).1 ≡ r
        → v.faults ≡ []
        → r.faults ≡ []
        → IsUnchained task.task_id r
        → (fail_task fl uuid err_msg task v).1.credits ≡ r.credits
  fail_task-unchained err_msg task t cost info r v row refunded h calm alone =
      let s = retried_row cost info t in
      let stored = failed_task fl uuid err_msg task s v in
      fail_task-credits fl uuid err_msg task s r v h row refl refunded calm
      ∙ ap (λ z. z.credits)
          (on_task_failed-unchained task.task_id (told fl uuid stored r) calm alone)

-- A retry that fails in its turn costs nothing: after a RetryFailedTask that succeeded and a FailTask
-- of the same task, the balances and the ledger have the sums from before the retry. Assumed: a sound
-- table of credits and stored prices within int64 before the retry, an ORDER BY that returns the
-- selected rows in some order, tasks and credits that are not changed in between, a database that
-- answers FailTask, and a task of no chain.
pub retry_failed_task-fail_task :
    {F : Type 0} (fl : Float64 F) (uuid : ℕ → String) (order : OrderBy) (now : ℕ)
    (free_image_generation : Bool) (is_member : String → Bool) (err_msg : String)
    (task : PictureTask) (w w' v : World)
    → IsOrder order
    → IsSound w.credits
    → All (λ t. IsInt64 t.credit_points) w.tasks
    → retry_failed_task order now free_image_generation is_member task.task_id w ≡ (none, w')
    → v.tasks ≡ w'.tasks
    → v.credits.amounts ≡ w'.credits.amounts
    → v.credits.transactions ≡ w'.credits.transactions
    → v.faults ≡ []
    → v.credits.faults ≡ []
    → IsUnchained task.task_id v
    → let x = (fail_task fl uuid err_msg task v).1 in
      (sum_remaining x.credits.amounts ≡ sum_remaining w.credits.amounts)
      × (sum_changes x.credits.transactions ≡ sum_changes w.credits.transactions)
retry_failed_task-fail_task fl uuid order now free_image_generation is_member err_msg task w w' v o
      sound prices run tasks amounts ledger h h' alone =
    at (
      subst (IsDone order now free_image_generation is_member i w) run
        (retry_failed_task-IsDone order now free_image_generation is_member i w))
  where
    i : String
    i = task.task_id

    cost : PictureTask → ℤ
    cost = credit_cost order now free_image_generation is_member

    -- The row that FailTask reads.
    found :
        (t : PictureTask) (info : StoredInfo)
        → first (has_task_id i) w.tasks ≡ some t
        → w'.tasks ≡ save (has_task_id t.task_id) (retried_row (cost t) info t) w.tasks
        → first (has_task_id i) v.tasks ≡ some (retried_row (cost t) info t)
    found t info row saved =
        let s = retried_row (cost t) info t in
        let same : t.task_id ≡ i =
          (eq_iff t.task_id i).0 (first_holds (has_task_id i) w.tasks t row) in
        ap (first (has_task_id i)) (tasks ∙ saved)
        ∙ subst (λ j. first (has_task_id j) (save (has_task_id t.task_id) s w.tasks) ≡ some s) same
            (first-save_same s w.tasks)

    at :
        IsDone order now free_image_generation is_member i w (none, w')
        → let x = (fail_task fl uuid err_msg task v).1 in
          (sum_remaining x.credits.amounts ≡ sum_remaining w.credits.amounts)
          × (sum_changes x.credits.transactions ≡ sum_changes w.credits.transactions)
    at (t, row, may, inl (e, saved, kept)) =
        let s = retried_row (cost t) no_info t in
        let same =
          fail_task-unchained fl uuid err_msg task t (cost t) no_info v v
            (found t no_info row saved)
            (refund_latest_not_due fl uuid (with_reasons task s) v (ap (λ b. b && true) e)) h h
            alone in
        (
          ap (λ (d : Db). sum_remaining d.amounts) same
              ∙ (ap sum_remaining amounts ∙ ap (λ (d : Db). sum_remaining d.amounts) kept),
          ap (λ (d : Db). sum_changes d.transactions) same
              ∙ (ap sum_changes ledger ∙ ap (λ (d : Db). sum_changes d.transactions) kept),
        )
    at (t, row, may, inr (e, info, charged, saved)) =
        let s = retried_row (cost t) (parsed info) t in
        let u = with_reasons task s in
        let same =
          fail_task-unchained fl uuid err_msg task t (cost t) (parsed info)
            (refunded_world fl uuid u v) v (found t (parsed info) row saved)
            (refund_latest_due fl uuid u v (ap (λ b. b && true) e)) h h alone in
        let (y, db, back, _) =
          refund_credits-Runs (refund_task_of u) "任务执行失败退款" info refl v.credits h' in
        let (balance, sums) =
          refund_credits_later order now (retry_request t) (cost t) (is_member t.user_id) w.credits
            (refund_task_of u) "任务执行失败退款" v.credits o sound (positive (cost t) e)
            (image_generation_cost-IsInt64 free_image_generation t.credit_points _
              (first-All (λ z. IsInt64 z.credit_points) (has_task_id i) w.tasks t prices row))
            charged amounts ledger refl back in
        let end = same ∙ ap (λ (x : Result (Unit {0}) × Db). x.1) back in
        (
          ap (λ (d : Db). sum_remaining d.amounts) end ∙ balance,
          ap (λ (d : Db). sum_changes d.transactions) end ∙ sums,
        )
