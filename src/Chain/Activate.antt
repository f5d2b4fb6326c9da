-- ===== src/Chain/Activate.antt =====
-- ActivateNextTask, OnTaskCompleted and GetChainByAnyTaskID of
-- internal/service/task_chain_service.go.
pub mod Advance
pub mod Moves
pub mod Once
pub mod Runs
use genioai_wxmini_server.Base.{
  ℤ, String, Bool, true, false, Option, none, some, List, [], ◌∷◌, str_eq, eq_ℤ, pos, not,
  if◌then◌else◌, ◌||◌, ◌&&◌,
}
use genioai_wxmini_server.Quota.World.{Status, pending, pending_chain}
use genioai_wxmini_server.Chain.World.{
  PictureTaskResult, StoredResult, no_result, malformed_result, result, StoredIds, malformed_ids,
  ids, UserPictureInfo, PictureTask, TaskChain, Workflow, World, not_pending_chain,
  malformed_result_error, Answer, ok, err, M, pure, raise, ◌>>=◌, ◌>>◌, get_task, update_task,
  update_chain, get_by_root_task, get_by_next_task, get_workflow, redis_call, set_flag, set_nx, del,
}

-- The ends of `GetChainByAnyTaskID`: an error of either query counts as no chain.
abbrev pub any_of : Answer (Option TaskChain) × World → Option TaskChain × World
any_of (ok c, w) = (c, w)
any_of (err e, w) = (none, w)

abbrev pub or_next : String → Option TaskChain × World → Option TaskChain × World
or_next task_id (some c, w) = (some c, w)
or_next task_id (none, w) = any_of (get_by_next_task task_id w)

unfoldable pub get_chain_by_any_task_id : String → World → Option TaskChain × World
unfolding get_by_root_task get_by_next_task
get_chain_by_any_task_id task_id w = or_next task_id (any_of (get_by_root_task task_id w))

-- A map under construction: a key that is there is written over.
abbrev pub put : String → String → List (String × String) → List (String × String)
put k v [] = (k, v) ∷ []
put k v ((k', v') ∷ m) = if str_eq k' k then (k, v) ∷ m else (k', v') ∷ put k v m

abbrev pub put_unless_empty : String → String → List (String × String) → List (String × String)
put_unless_empty k v m = if str_eq v "" then m else put k v m

-- The extracted text: empty when there is no result, no `meta.prompt`, or it is not a text.
abbrev pub extract_prompt_from_result : PictureTaskResult → String
extract_prompt_from_result r = elim r.meta_prompt [ none ↦ "" | some p ↦ p ]

abbrev pub final_prompt : String → String → String
final_prompt extracted workflow_prompt = if str_eq extracted "" then workflow_prompt else extracted

unfoldable pub build_chain_task_params :
    Workflow → PictureTaskResult → PictureTask → List (String × String)
build_chain_task_params f r t =
    let base =
      ("LoadImage1", r.result_url)
      ∷ (("workflow_id", t.workflow_id) ∷ (("workflow_type", "WORKFLOW_KIND_TYPE_VIDEO") ∷ [])) in
    put_unless_empty "prompt" (final_prompt (extract_prompt_from_result r) f.prompt) (
      put_unless_empty "provider" f.provider (
        put_unless_empty "effect_scene" f.effect_scene
          (put_unless_empty "api_iden" f.api_iden base)))

abbrev pub decode : StoredResult → M PictureTaskResult
decode no_result = raise malformed_result_error
decode malformed_result = raise malformed_result_error
decode (result r) = pure r

abbrev pub is_pending_chain : Status → Bool
is_pending_chain pending_chain = true
is_pending_chain _ = false

abbrev pub require_pending_chain : PictureTask → M (Unit {0})
require_pending_chain t =
    if is_pending_chain t.status then pure tt else raise (not_pending_chain t.status)

-- Step 8.
unfoldable pub activated : Workflow → PictureTaskResult → PictureTask → PictureTask
unfolding build_chain_task_params
activated f r t = record t {
  param_json = build_chain_task_params f r t;
  status = pending;
  can_retry = true;
  user_picture_info = some (record { photo_url = r.result_url; aspect_ratio = r.aspect_ratio });
}

unfoldable pub activate_next_task : String → StoredResult → M (Unit {0})
unfolding get_task get_workflow update_task activated
activate_next_task task_id previous_result = do
  t ← get_task task_id
  require_pending_chain t
  f ← get_workflow t.workflow_id
  r ← decode previous_result
  update_task (activated f r t)

-- `_ = s.chainDao.Update(ctx, chain)`
abbrev pub dropped : {A : Type 0} → Answer A × World → World
dropped (a, w) = w

unfoldable pub set_status : ℤ → TaskChain → World → World
unfolding update_chain
set_status status c w = dropped (update_chain (record c { status = status }) w)

-- The last update, or the failure of the chain.
abbrev pub after_activation : TaskChain → Answer (Unit {0}) × World → World
after_activation c (ok x, w) =
    dropped (update_chain (record c { status = pos 1; current_step = pos 2 }) w)
after_activation c (err e, w) = set_status (pos 3) c w

abbrev pub activate_second : StoredResult → List String → M (Unit {0})
activate_second res (first ∷ (second ∷ rest)) = activate_next_task second res
activate_second res (first ∷ []) = pure tt
activate_second res [] = pure tt

-- Under the lock.
unfoldable pub advance : StoredResult → TaskChain → StoredIds → World → World
unfolding set_status activate_next_task update_chain
advance no_result c stored w = set_status (pos 3) c w
advance malformed_result c malformed_ids w = set_status (pos 3) c w
advance (result r) c malformed_ids w = set_status (pos 3) c w
advance malformed_result c (ids all) w = after_activation c (activate_second malformed_result all w)
advance (result r) c (ids all) w = after_activation c (activate_second (result r) all w)

-- The lock on activation, and its deferred deletion.
abbrev pub unlock_activation : String → Option Bool × World → World
unlock_activation chain_id (o, w) = record w {
  activating = set_flag chain_id (del o (w.activating chain_id)) w.activating;
}

abbrev pub lock_activation : String → Option Bool × World → Bool × World
lock_activation chain_id (o, w) =
    let (taken, held) = set_nx o (w.activating chain_id) in
    (taken, record w { activating = set_flag chain_id held w.activating })

abbrev pub under_activation : StoredResult → TaskChain → Bool × World → World
under_activation res c (false, w) = w
under_activation res c (true, w) =
    unlock_activation c.chain_id (redis_call (advance res c c.all_task_ids w))

abbrev pub is_settled : TaskChain → Bool
is_settled c = eq_ℤ c.status (pos 2) || (eq_ℤ c.status (pos 3) || not (eq_ℤ c.current_step (pos 1)))

abbrev pub after_root : StoredResult → Answer (Option TaskChain) × World → World
after_root res (ok (some c), w) =
    if is_settled c then w else under_activation res c (lock_activation c.chain_id (redis_call w))
after_root res (ok none, w) = w
after_root res (err e, w) = w

unfoldable pub on_task_completed : PictureTask → World → World
unfolding get_by_root_task redis_call advance
on_task_completed t w = after_root t.result_json (get_by_root_task t.task_id w)
