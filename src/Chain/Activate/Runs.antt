-- ===== src/Chain/Activate/Runs.antt =====
-- A chain whose first task is completed goes on with its second.
use genioai_wxmini_server.Base.{
  String, Bool, true, false, not, none, some, List, [], ◌∷◌, str_eq, str_eq_self, eq_iff, Option,
  Bool-cases, inl, inr, pos, ◌≡◌, refl, sym, subst, ap, ◌∙◌, if◌then◌else◌,
}
use genioai_wxmini_server.Quota.World.{pending, pending_chain}
use genioai_wxmini_server.Chain.World.{
  PictureTaskResult, result, ids, PictureTask, TaskChain, Workflow, World, ok, continue, first,
  save, has_task_id, has_chain_id, is_listed, update_task, get_workflow, get_by_root_task,
  store_task, store_chain, redis_call, set_flag,
}
use genioai_wxmini_server.Chain.Calm.{
  IsCalm, redis_call_calm, get_task_calm, get_workflow_calm, update_task_calm, update_chain_calm,
  get_by_root_task_calm, has_root,
}
use genioai_wxmini_server.Chain.Activate.{
  put, put_unless_empty, build_chain_task_params, final_prompt, extract_prompt_from_result,
  require_pending_chain, decode, activated, activate_next_task, dropped, after_activation, advance,
  lock_activation, unlock_activation, under_activation, is_settled, after_root, on_task_completed,
}

activate_next_task_calm :
    (i : String) (r : PictureTaskResult) (u : PictureTask) (f : Workflow) (w : World)
    → w.faults ≡ []
    → first (has_task_id i) w.tasks ≡ some u
    → u.status ≡ pending_chain
    → first (is_listed u.workflow_id) w.workflows ≡ some f
    → activate_next_task i (result r) w ≡ (ok tt, store_task (activated f r u) w)
unfolding activate_next_task
activate_next_task_calm i r u f w h row waiting listed =
    ap (continue _) (get_task_calm i u w h row)
    ∙ (ap
          (λ s.
            continue
              (λ _ v.
                continue
                  (λ g z. continue (λ r'. update_task (activated g r' u)) (decode (result r) z))
                  (get_workflow u.workflow_id v))
              (require_pending_chain (record u { status = s }) w))
          waiting
        ∙ (ap (continue _) (get_workflow_calm u.workflow_id f w h listed)
            ∙ update_task_calm (activated f r u) w h))

-- The value of a key, the first one that is there.
abbrev pub lookup : String → List (String × String) → Option String
lookup k [] = none
lookup k ((k', v) ∷ m) = if str_eq k' k then some v else lookup k m

lookup-put :
    (k k' v : String) (m : List (String × String))
    → str_eq k' k ≡ false
    → lookup k (put k' v m) ≡ lookup k m
lookup-put k k' v [] h = rw h refl
lookup-put k k' v ((x, y) ∷ m) h = elim (Bool-cases (str_eq x k')) [
  | inl e ↦
      let same : k' ≡ x = sym ((eq_iff x k').0 e) in
      let g = subst (λ z. str_eq z k ≡ false) same h in simp (e, g, h) refl
  | inr e ↦ elim (Bool-cases (str_eq x k)) [
    | inl f ↦ simp (e, f) refl
    | inr f ↦ simp (e, f) (lookup-put k k' v m h)
  ]
]

lookup-put_unless_empty :
    (k k' v : String) (m : List (String × String))
    → str_eq k' k ≡ false
    → lookup k (put_unless_empty k' v m) ≡ lookup k m
lookup-put_unless_empty k k' v m h = elim (Bool-cases (str_eq v "")) [
  | inl e ↦ simp e refl
  | inr e ↦ simp e (lookup-put k k' v m h)
]

-- A row that is in the queue and may be retried, with the picture of the result as its input.
pub record IsQueued (r : PictureTaskResult) (u row : PictureTask) : Type 0 where
  pub same_task : row.task_id ≡ u.task_id
  pub same_user : row.user_id ≡ u.user_id
  pub same_workflow : row.workflow_id ≡ u.workflow_id
  pub same_price : row.credit_points ≡ u.credit_points
  pub in_queue : row.status ≡ pending
  pub may_retry : row.can_retry ≡ true
  pub image : lookup "LoadImage1" row.param_json ≡ some r.result_url
  pub workflow : lookup "workflow_id" row.param_json ≡ some u.workflow_id
  pub picture :
      row.user_picture_info
      ≡ some (record { photo_url = r.result_url; aspect_ratio = r.aspect_ratio })

activated-IsQueued :
    (f : Workflow) (r : PictureTaskResult) (u : PictureTask) → IsQueued r u (activated f r u)
unfolding activated build_chain_task_params
activated-IsQueued f r u = record {
  same_task = refl;
  same_user = refl;
  same_workflow = refl;
  same_price = refl;
  in_queue = refl;
  may_retry = refl;
  image = at "LoadImage1" refl refl refl refl;
  workflow = at "workflow_id" refl refl refl refl;
  picture = refl;
}
  where
    base : List (String × String)
    base =
        ("LoadImage1", r.result_url)
        ∷ (("workflow_id", u.workflow_id) ∷ (("workflow_type", "WORKFLOW_KIND_TYPE_VIDEO") ∷ []))

    at :
        (k : String)
        → str_eq "api_iden" k ≡ false
        → str_eq "effect_scene" k ≡ false
        → str_eq "provider" k ≡ false
        → str_eq "prompt" k ≡ false
        → lookup k (build_chain_task_params f r u) ≡ lookup k base
    at k a b c d =
        let m1 = put_unless_empty "api_iden" f.api_iden base in
        let m2 = put_unless_empty "effect_scene" f.effect_scene m1 in
        let m3 = put_unless_empty "provider" f.provider m2 in
        let prompt = final_prompt (extract_prompt_from_result r) f.prompt in
        lookup-put_unless_empty k "prompt" prompt m3 d
        ∙ (lookup-put_unless_empty k "provider" f.provider m2 c
            ∙ (lookup-put_unless_empty k "effect_scene" f.effect_scene m1 b
                ∙ lookup-put_unless_empty k "api_iden" f.api_iden base a))

-- When the first task of a chain is completed with a result, and the second one waits for it, the
-- second task is put in the queue: its row is PENDING and may be retried, and has the picture of the
-- result as its input and the workflow as its parameter. The chain is running at its second step, and
-- the lock is free again. Assumed: the database and Redis answer, the chain is at its first step, no
-- other call is activating it, and the workflow of the second task is listed.
pub on_task_completed-runs :
    (t u : PictureTask) (r : PictureTaskResult) (c : TaskChain) (f : Workflow) (a b : String)
    (rest : List String) (w : World)
    → IsCalm w
    → t.result_json ≡ result r
    → first (has_root t.task_id) w.chains ≡ some c
    → is_settled c ≡ false
    → w.activating c.chain_id ≡ false
    → c.all_task_ids ≡ ids (a ∷ (b ∷ rest))
    → first (has_task_id b) w.tasks ≡ some u
    → u.status ≡ pending_chain
    → first (is_listed u.workflow_id) w.workflows ≡ some f
    → let w' = on_task_completed t w in
      ((row : PictureTask) × (w'.tasks ≡ save (has_task_id u.task_id) row w.tasks)
        × IsQueued r u row)
      × (w'.chains
          ≡ save
              (has_chain_id c.chain_id)
              (record c { status = pos 1; current_step = pos 2 })
              w.chains)
      × (w'.activating c.chain_id ≡ false)
unfolding on_task_completed advance
on_task_completed-runs t u r c f a b rest w calm res root fresh free all row waiting listed = (
  (activated f r u, ap (λ v. v.tasks) run, activated-IsQueued f r u),
  ap (λ v. v.chains) run,
  ap (λ v. v.activating c.chain_id) run ∙ unset,
)
  where
    c2 : TaskChain
    c2 = record c { status = pos 1; current_step = pos 2 }

    v : World
    v = record w { activating = set_flag c.chain_id true w.activating }

    done : World
    done = store_chain c2 (store_task (activated f r u) v)

    unset : set_flag c.chain_id false v.activating c.chain_id ≡ false
    unset = rw (str_eq_self c.chain_id) refl

    advanced : advance (result r) c (ids (a ∷ (b ∷ rest))) v ≡ done
    advanced =
        ap (after_activation c) (activate_next_task_calm b r u f v calm.0 row waiting listed)
        ∙ ap dropped (update_chain_calm c2 (store_task (activated f r u) v) calm.0)

    run :
        after_root t.result_json (get_by_root_task t.task_id w)
        ≡ unlock_activation c.chain_id (none, done)
    run =
        ap (λ x. after_root t.result_json x) (get_by_root_task_calm t.task_id w calm.0)
        ∙ (ap (λ o. after_root t.result_json (ok o, w)) root
            ∙ (ap
                  (λ (s : Bool).
                    if s
                    then w
                    else under_activation t.result_json c
                        (lock_activation c.chain_id (redis_call w)))
                  fresh
                ∙ (ap (λ x. under_activation t.result_json c (lock_activation c.chain_id x))
                      (redis_call_calm w calm.1)
                    ∙ (ap (λ held. under_activation t.result_json c (not held, v)) free
                        ∙ (ap
                              (λ q.
                                unlock_activation c.chain_id
                                  (redis_call (advance q c c.all_task_ids v)))
                              res
                            ∙ (ap
                                  (λ q.
                                    unlock_activation c.chain_id
                                      (redis_call (advance (result r) c q v)))
                                  all
                                ∙ (ap (λ z. unlock_activation c.chain_id (redis_call z)) advanced
                                    ∙ ap (unlock_activation c.chain_id)
                                        (redis_call_calm done calm.1))))))))
