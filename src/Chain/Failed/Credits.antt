-- ===== src/Chain/Failed/Credits.antt =====
-- What the parts of OnTaskFailed do to the credits.
use genioai_wxmini_server.Base.{
  ℤ, String, Bool, true, false, some, List, [], ◌∷◌, str_eq_self, ◌≡◌, refl, ap, ◌∙◌, inl, inr,
  Bool-cases, add64, if◌then◌else◌,
}
use genioai_wxmini_server.Credit.Store as Store
use genioai_wxmini_server.Credit.Store.{Result, Db}
use genioai_wxmini_server.Credit.Refund.{RefundTask, refund_credits}
use genioai_wxmini_server.Chain.World.{
  StoredIds, malformed_ids, ids, PictureTask, TaskChain, Workflow, World, Answer, ok, err, fails,
  write_unless, execute, continue, first, has_task_id, is_listed, store_task, store_chain,
  update_task, update_chain, get_task, update_failed, or_raise, config_missing,
}
use genioai_wxmini_server.Chain.Frame.{fails-Same, get_task-Same}
use genioai_wxmini_server.Chain.Calm.{get_task_calm, get_workflow_calm}
use genioai_wxmini_server.Chain.Activate.{set_status}
use genioai_wxmini_server.Chain.Partial.{
  Float64, calculate_partial_refund, refund, with_credits, price_of_step, price_if_found, index_of,
  after_index,
}
use genioai_wxmini_server.Chain.Failed.{
  is_failed, marked, send_if_stored, notify_task, notify_tasks, notify_chain_failure,
}

update_task-credits : (t : PictureTask) (w : World) → (update_task t w).1.credits ≡ w.credits
unfolding update_task execute
update_task-credits t w = at (fails w) (fails-Same w).2
  where
    at :
        (x : Bool × World)
        → x.1.credits ≡ w.credits
        → (write_unless update_failed (store_task t) x).1.credits ≡ w.credits
    at (true, v) h = h
    at (false, v) h = h

pub set_status-credits :
    (status : ℤ) (c : TaskChain) (w : World) → (set_status status c w).credits ≡ w.credits
unfolding set_status update_chain execute
set_status-credits status c w = at (record c { status = status }) (fails w) (fails-Same w).2
  where
    at :
        (c : TaskChain) (x : Bool × World)
        → x.1.credits ≡ w.credits
        → (write_unless update_failed (store_chain c) x).1.credits ≡ w.credits
    at c (true, v) h = h
    at c (false, v) h = h

notify_task-credits :
    (i : String) (x : Answer PictureTask × World) → (notify_task i x).credits ≡ x.1.credits
notify_task-credits i (err e, w) = refl
notify_task-credits i (ok t, w) = elim (Bool-cases (is_failed t.status)) [
  | inl e ↦ simp e refl
  | inr e ↦
      simp e (sent (marked i t) (update_task (marked i t) w) ∙ update_task-credits (marked i t) w)
]
  where
    sent :
        (t : PictureTask) (x : Answer (Unit {0}) × World)
        → (send_if_stored t x).credits ≡ x.1.credits
    sent t (ok y, v) = refl
    sent t (err e, v) = refl

notify_tasks-credits :
    (i : String) (all : List String) (w : World) → (notify_tasks i all w).credits ≡ w.credits
unfolding notify_tasks
notify_tasks-credits i [] w = refl
notify_tasks-credits i (task_id ∷ rest) w =
    notify_tasks-credits i rest (notify_task i (get_task task_id w))
    ∙ (notify_task-credits i (get_task task_id w) ∙ (get_task-Same task_id w).2)

pub notify_chain_failure-credits :
    (stored : StoredIds) (i : String) (w : World)
    → (notify_chain_failure stored i w).credits ≡ w.credits
unfolding notify_chain_failure
notify_chain_failure-credits malformed_ids i w = refl
notify_chain_failure-credits (ids all) i w = notify_tasks-credits i all w

-- The price of the first step.
price_of_first :
    (i second_id : String) (t : PictureTask) (f g : Workflow) (w : World)
    → w.faults ≡ []
    → first (has_task_id i) w.tasks ≡ some t
    → first (is_listed t.workflow_id) w.workflows ≡ some f
    → w.guide_workflow_id ≡ some second_id
    → first (is_listed second_id) w.workflows ≡ some g
    → price_of_step i 0 w ≡ (ok (add64 f.credit_points g.credit_points), w)
unfolding price_of_step
price_of_first i second_id t f g w h a b c d =
    ap (continue _) (get_task_calm i t w h a)
    ∙ (ap (continue _) (get_workflow_calm t.workflow_id f w h b)
        ∙ (ap (continue _) (ap (λ o. or_raise config_missing o w) c)
            ∙ ap (continue _) (get_workflow_calm second_id g w h d)))

pub calculate_partial_refund-first :
    (i second_id : String) (rest : List String) (t : PictureTask) (f g : Workflow) (w : World)
    → w.faults ≡ []
    → first (has_task_id i) w.tasks ≡ some t
    → first (is_listed t.workflow_id) w.workflows ≡ some f
    → w.guide_workflow_id ≡ some second_id
    → first (is_listed second_id) w.workflows ≡ some g
    → calculate_partial_refund (ids (i ∷ rest)) i w
      ≡ (ok (add64 f.credit_points g.credit_points), w)
unfolding calculate_partial_refund
calculate_partial_refund-first i second_id rest t f g w h a b c d =
    ap (λ (s : Bool). price_if_found i (if s then some 0 else after_index (index_of i rest)) w)
      (str_eq_self i)
    ∙ price_of_first i second_id t f g w h a b c d

module _ {F : Type 0} (fl : Float64 F) where
  pub refund-credits :
      (t : RefundTask) (reason : String) (w : World)
      → (refund fl t reason w).1 ≡ record w { credits = (refund_credits t reason w.credits).1 }
  unfolding refund
  refund-credits t reason w = at (refund_credits t reason w.credits)
    where
      at : (x : Result (Unit {0}) × Db) → (with_credits fl w x).1 ≡ record w { credits = x.1 }
      at (Store.ok y, db) = refl
      at (Store.err e, db) = refl
