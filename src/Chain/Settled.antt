-- ===== src/Chain/Settled.antt =====
-- A task that has failed or completed stays so, whatever the failure of a chain does.
mod Kept
pub mod Once
use genioai_wxmini_server.Base.{
  ℕ, ℤ, String, Bool, true, false, Option, none, some, List, [], ◌∷◌, str_eq, eq_iff, ◌≡◌, refl,
  sym, ap, subst, ◌∙◌, inl, inr, arith, Bool-cases, ltb_ℤ, pos, if◌then◌else◌,
}
use genioai_wxmini_server.Credit.Store as Store
use genioai_wxmini_server.Credit.Store.{Result, Db}
use genioai_wxmini_server.Credit.Refund.{
  RefundTask, StoredInfo, no_info, malformed, parsed, refund_credits,
}
use genioai_wxmini_server.Chain.World.{
  StoredIds, malformed_ids, ids, PictureTask, TaskChain, Workflow, World, Error, Answer, ok, err, M,
  fails, write_unless, execute, continue, first, save, has_task_id, store_task, update_task,
  store_chain, update_chain, get_task, get_by_root_task, get_by_next_task, get_workflow, redis_call,
  query, query_failed, update_failed, or_raise, is_listed, workflow_not_found, config_missing, pure,
  ◌>>=◌,
}
use genioai_wxmini_server.Chain.Frame.{
  Same, Same-trans, fails-Same, redis_call-Same, query-Same, or_raise-Same, continue-Same,
  get_task-Same, first-save_same, first-save_other,
}
use genioai_wxmini_server.Chain.Activate.{
  any_of, or_next, get_chain_by_any_task_id, dropped, set_status,
}
use genioai_wxmini_server.Chain.Partial.{
  Float64, calculate_partial_refund, execute_partial_refund, calculate_partial_deduction_info,
  refund, with_credits, price_of_step, price_if_found, refund_of_step, second_workflow_id, index_of,
  partial_refund_task, failure_reason,
}
use genioai_wxmini_server.Chain.Failed.{
  is_failed, marked, send_if_stored, notify_task, notify_tasks, notify_chain_failure,
  unlock_failure, lock_failure, refund_if_due, close_chain, under_failure, after_chain,
  on_task_failed,
}
use genioai_wxmini_server.Chain.FailTask.{is_terminal}

abbrev pub IsSettled : String → World → Type 0
IsSettled i w =
    (t : PictureTask) × (first (has_task_id i) w.tasks ≡ some t) × (is_terminal t.status ≡ true)

pub IsSettled-across :
    (i : String) (w w' : World) → w'.tasks ≡ w.tasks → IsSettled i w → IsSettled i w'
IsSettled-across i w w' e (t, f, s) = (t, ap (first (has_task_id i)) e ∙ f, s)

pub IsSettled-store_task :
    (i : String) (t : PictureTask) (w : World)
    → is_terminal t.status ≡ true
    → IsSettled i w
    → IsSettled i (store_task t w)
IsSettled-store_task i t w h (s, f, k) = elim (Bool-cases (str_eq t.task_id i)) [
  | inl e ↦ (
    t,
    subst (λ j. first (has_task_id j) (save (has_task_id t.task_id) t w.tasks) ≡ some t)
        ((eq_iff t.task_id i).0 e) (first-save_same t w.tasks),
    h,
  )
  | inr e ↦ (s, first-save_other i t w.tasks e ∙ f, k)
]

update_task-IsSettled :
    (i : String) (t : PictureTask) (w : World)
    → is_terminal t.status ≡ true
    → IsSettled i w
    → IsSettled i (update_task t w).1
unfolding update_task execute
update_task-IsSettled i t w h s = at (fails w) (IsSettled-across i w (fails w).1 (fails-Same w).0 s)
  where
    at :
        (x : Bool × World)
        → IsSettled i x.1
        → IsSettled i (write_unless update_failed (store_task t) x).1
    at (true, v) k = k
    at (false, v) k = IsSettled-store_task i t v h k

notify_task-IsSettled :
    (i failed_task_id : String) (x : Answer PictureTask × World)
    → IsSettled i x.1
    → IsSettled i (notify_task failed_task_id x)
notify_task-IsSettled i failed_task_id (err e, w) h = h
notify_task-IsSettled i failed_task_id (ok t, w) h = elim (Bool-cases (is_failed t.status)) [
  | inl e ↦ simp e h
  | inr e ↦ simp e (
      sent (marked failed_task_id t) (update_task (marked failed_task_id t) w)
        (update_task-IsSettled i (marked failed_task_id t) w refl h))
]
  where
    sent :
        (t : PictureTask) (x : Answer (Unit {0}) × World)
        → IsSettled i x.1
        → IsSettled i (send_if_stored t x)
    sent t (ok y, v) k = k
    sent t (err e, v) k = k

notify_tasks-IsSettled :
    (i failed_task_id : String) (all : List String) (w : World)
    → IsSettled i w
    → IsSettled i (notify_tasks failed_task_id all w)
unfolding notify_tasks
notify_tasks-IsSettled i failed_task_id [] w h = h
notify_tasks-IsSettled i failed_task_id (task_id ∷ rest) w h =
    notify_tasks-IsSettled i failed_task_id rest (notify_task failed_task_id (get_task task_id w)) (
      notify_task-IsSettled i failed_task_id (get_task task_id w)
        (IsSettled-across i w (get_task task_id w).1 (get_task-Same task_id w).0 h))

pub notify_chain_failure-IsSettled :
    (i failed_task_id : String) (stored : StoredIds) (w : World)
    → IsSettled i w
    → IsSettled i (notify_chain_failure stored failed_task_id w)
unfolding notify_chain_failure
notify_chain_failure-IsSettled i failed_task_id malformed_ids w h = h
notify_chain_failure-IsSettled i failed_task_id (ids all) w h =
    notify_tasks-IsSettled i failed_task_id all w h

pub get_chain_by_any_task_id-Same :
    (task_id : String) (w : World) → Same w (get_chain_by_any_task_id task_id w).1
unfolding get_chain_by_any_task_id get_by_root_task get_by_next_task
get_chain_by_any_task_id-Same task_id w =
    next (any_of (get_by_root_task task_id w))
      (any w (get_by_root_task task_id w) (query-Same query_failed _ w))
  where
    any : (u : World) (x : Answer (Option TaskChain) × World) → Same u x.1 → Same u (any_of x).1
    any u (ok c, v) h = h
    any u (err e, v) h = h

    next : (x : Option TaskChain × World) → Same w x.1 → Same w (or_next task_id x).1
    next (some c, v) h = h
    next (none, v) h =
        Same-trans w v (any_of (get_by_next_task task_id v)).1 h
          (any v (get_by_next_task task_id v) (query-Same query_failed _ v))
