-- ===== src/Chain/Calm.antt =====
-- The calls of the chain code when the database and Redis answer.
use genioai_wxmini_server.Base.{String, Bool, false, none, some, [], str_eq, ◌≡◌, ap, ◌∙◌}
use genioai_wxmini_server.Chain.World.{
  PictureTask, TaskChain, Workflow, World, Error, ok, fails, after_fault, query, execute,
  read_unless, write_unless, continue, or_raise, first, has_task_id, is_listed, get_task,
  get_workflow, get_by_root_task, update_task, update_chain, store_task, store_chain, redis_call,
  after_call, query_failed, update_failed, task_not_found, workflow_not_found,
}
use genioai_wxmini_server.Chain.Activate.{any_of, or_next, get_chain_by_any_task_id}

-- No fault is to come.
abbrev pub IsCalm : World → Type 0
IsCalm w = (w.faults ≡ []) × (w.redis_faults ≡ [])

pub fails_calm : (w : World) → w.faults ≡ [] → fails w ≡ (false, w)
unfolding fails
fails_calm w h = ap (λ fs. after_fault fs w) h

pub redis_call_calm : (w : World) → w.redis_faults ≡ [] → redis_call w ≡ (none, w)
unfolding redis_call
redis_call_calm w h = ap (λ os. after_call os w) h

pub query_calm :
    {A : Type 0} (e : Error) (read : World → A) (w : World)
    → w.faults ≡ []
    → query e read w ≡ (ok (read w), w)
unfolding query
query_calm e read w h = ap (read_unless e read) (fails_calm w h)

pub execute_calm :
    (e : Error) (write : World → World) (w : World)
    → w.faults ≡ []
    → execute e write w ≡ (ok tt, write w)
unfolding execute
execute_calm e write w h = ap (write_unless e write) (fails_calm w h)

pub get_task_calm :
    (task_id : String) (t : PictureTask) (w : World)
    → w.faults ≡ []
    → first (has_task_id task_id) w.tasks ≡ some t
    → get_task task_id w ≡ (ok t, w)
unfolding get_task
get_task_calm task_id t w h f =
    ap (continue (or_raise task_not_found))
      (query_calm query_failed (λ v. first (has_task_id task_id) v.tasks) w h)
    ∙ ap (λ o. or_raise task_not_found o w) f

pub get_workflow_calm :
    (workflow_id : String) (f : Workflow) (w : World)
    → w.faults ≡ []
    → first (is_listed workflow_id) w.workflows ≡ some f
    → get_workflow workflow_id w ≡ (ok f, w)
unfolding get_workflow
get_workflow_calm workflow_id f w h l =
    ap (continue (or_raise workflow_not_found))
      (query_calm query_failed (λ v. first (is_listed workflow_id) v.workflows) w h)
    ∙ ap (λ o. or_raise workflow_not_found o w) l

pub update_task_calm :
    (t : PictureTask) (w : World) → w.faults ≡ [] → update_task t w ≡ (ok tt, store_task t w)
unfolding update_task
update_task_calm t w h = execute_calm update_failed (store_task t) w h

pub update_chain_calm :
    (c : TaskChain) (w : World) → w.faults ≡ [] → update_chain c w ≡ (ok tt, store_chain c w)
unfolding update_chain
update_chain_calm c w h = execute_calm update_failed (store_chain c) w h

abbrev pub has_root : String → TaskChain → Bool
has_root task_id c = str_eq c.root_task_id task_id

pub get_by_root_task_calm :
    (task_id : String) (w : World)
    → w.faults ≡ []
    → get_by_root_task task_id w ≡ (ok (first (has_root task_id) w.chains), w)
unfolding get_by_root_task
get_by_root_task_calm task_id w h =
    query_calm query_failed (λ v. first (has_root task_id) v.chains) w h

-- The chain whose first task it is.
pub get_chain_by_any_task_id_calm :
    (task_id : String) (c : TaskChain) (w : World)
    → w.faults ≡ []
    → first (has_root task_id) w.chains ≡ some c
    → get_chain_by_any_task_id task_id w ≡ (some c, w)
unfolding get_chain_by_any_task_id
get_chain_by_any_task_id_calm task_id c w h f =
    ap (λ x. or_next task_id (any_of x)) (get_by_root_task_calm task_id w h)
    ∙ ap (λ o. or_next task_id (o, w)) f
