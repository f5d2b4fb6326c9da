-- ===== src/Chain/Activate/Advance.antt =====
-- What a completed task can do to its chain.
use genioai_wxmini_server.Base.{
  String, Bool, true, false, some, List, [], ◌∷◌, pos, ◌≡◌, refl, sym, ap, ◌∙◌, ◌⊎◌, inl, inr,
  arith, Bool-cases,
}
use genioai_wxmini_server.Quota.World.{Status, pending, pending_chain}
use genioai_wxmini_server.Chain.World.{
  StoredResult, no_result, malformed_result, result, ids, PictureTask, TaskChain, Workflow, World,
  Error, Answer, ok, err, fails, write_unless, execute, continue, first, save, has_task_id,
  has_chain_id, store_task, store_chain, update_task, update_chain, update_failed, get_task,
  get_workflow,
}
use genioai_wxmini_server.Chain.Frame.{
  Same, Same-trans, fails-Same, get_task-Same, get_task_found, get_workflow-Same,
}
use genioai_wxmini_server.Chain.Calm.{has_root}
use genioai_wxmini_server.Chain.Activate.{
  is_pending_chain, require_pending_chain, decode, activated, activate_next_task, activate_second,
  dropped, set_status, after_activation, is_settled,
}

-- The row `u` of the task was waiting for its chain, and is now in the queue and may be retried.
abbrev pub HasActivated : String → World → World → Type 0
HasActivated i w v =
    (u : PictureTask) × (row : PictureTask) × (first (has_task_id i) w.tasks ≡ some u)
    × (u.status ≡ pending_chain)
    × (row.task_id ≡ u.task_id)
    × (row.status ≡ pending)
    × (row.can_retry ≡ true)
    × (v.tasks ≡ save (has_task_id row.task_id) row w.tasks)
    × (v.chains ≡ w.chains)
    × (v.credits ≡ w.credits)

-- An error leaves everything, and success activates.
abbrev Outcome : String → World → Answer (Unit {0}) × World → Type 0
Outcome i w x = ((e : Error) × (x.0 ≡ err e) × Same w x.1) ⊎ ((x.0 ≡ ok tt) × HasActivated i w x.1)

is_pending_chain_of : (s : Status) → is_pending_chain s ≡ true → s ≡ pending_chain
is_pending_chain_of s h = ground arith

activate_next_task_outcome :
    (i : String) (res : StoredResult) (w : World) → Outcome i w (activate_next_task i res w)
unfolding activate_next_task update_task execute activated
activate_next_task_outcome i res w = with_task (get_task i w) refl (get_task-Same i w)
  where
    with_result :
        (u : PictureTask) (f : Workflow) (o : StoredResult) (v : World)
        → Same w v
        → first (has_task_id i) w.tasks ≡ some u
        → u.status ≡ pending_chain
        → Outcome i w (continue (λ r. update_task (activated f r u)) (decode o v))
    with_result u f no_result v s a b = inl (_, refl, s)
    with_result u f malformed_result v s a b = inl (_, refl, s)
    with_result u f (result r) v s a b =
        stored (fails v) (Same-trans w v (fails v).1 s (fails-Same v))
      where
        stored :
            (x : Bool × World)
            → Same w x.1
            → Outcome i w (write_unless update_failed (store_task (activated f r u)) x)
        stored (true, z) k = inl (_, refl, k)
        stored (false, z) k = inr (
          refl,
          (
            u,
            activated f r u,
            a,
            b,
            refl,
            refl,
            refl,
            ap (save (has_task_id u.task_id) (activated f r u)) k.0,
            k.1,
            k.2,
          ),
        )

    with_workflow :
        (u : PictureTask) (x : Answer Workflow × World)
        → Same w x.1
        → first (has_task_id i) w.tasks ≡ some u
        → u.status ≡ pending_chain
        → Outcome i w
            (continue (λ f z. continue (λ r. update_task (activated f r u)) (decode res z)) x)
    with_workflow u (ok f, v) s a b = with_result u f res v s a b
    with_workflow u (err e, v) s a b = inl (e, refl, s)

    with_task :
        (x : Answer PictureTask × World)
        → get_task i w ≡ x
        → Same w x.1
        → Outcome i w (
            continue
              (λ u z.
                continue
                  (λ _ z'.
                    continue
                      (λ f z''. continue (λ r. update_task (activated f r u)) (decode res z''))
                      (get_workflow u.workflow_id z'))
                  (require_pending_chain u z))
              x)
    with_task (err e, v) r s = inl (e, refl, s)
    with_task (ok u, v) r s = elim (Bool-cases (is_pending_chain u.status)) [
      | inl e ↦ simp e (
          with_workflow u (get_workflow u.workflow_id v)
            (Same-trans w v (get_workflow u.workflow_id v).1 s (get_workflow-Same u.workflow_id v))
            (get_task_found i w u v r) (is_pending_chain_of u.status e))
      | inr e ↦ simp e (inl (_, refl, s))
    ]

-- The second task of the list, where there is one, is activated, and no other task changes.
abbrev pub SecondMoved : List String → World → World → Type 0
SecondMoved [] w w' = w'.tasks ≡ w.tasks
SecondMoved (a ∷ []) w w' = w'.tasks ≡ w.tasks
SecondMoved (a ∷ (second ∷ rest)) w w' =
    (v : World) × HasActivated second w v × (w'.tasks ≡ v.tasks)

-- What `OnTaskCompleted` of the task `i` does to the tables, for the chain `c` that it starts.
pub data Advance (i : String) (w w' : World) : Type 0 where
  stayed : Same w w' → Advance i w w'
  -- The chain fails, and no task changes.
  chain_failed :
      (c : TaskChain)
      → first (has_root i) w.chains ≡ some c
      → is_settled c ≡ false
      → w'.tasks ≡ w.tasks
      → w'.chains ≡ save (has_chain_id c.chain_id) (record c { status = pos 3 }) w.chains
      → w'.credits ≡ w.credits
      → Advance i w w'
  -- The second task, where there is one, is activated, and the chain moves on unless its update
  -- fails.
  moved :
      (c : TaskChain) (all : List String)
      → first (has_root i) w.chains ≡ some c
      → is_settled c ≡ false
      → c.all_task_ids ≡ ids all
      → SecondMoved all w w'
      → ((w'.chains ≡ w.chains)
          ⊎ (w'.chains
              ≡ save
                  (has_chain_id c.chain_id)
                  (record c { status = pos 1; current_step = pos 2 })
                  w.chains))
      → w'.credits ≡ w.credits
      → Advance i w w'

-- The update of a chain is made, or lost.
abbrev Updated : TaskChain → World → World → Type 0
Updated c w v =
    (v.tasks ≡ w.tasks)
    × ((v.chains ≡ w.chains) ⊎ (v.chains ≡ save (has_chain_id c.chain_id) c w.chains))
    × (v.credits ≡ w.credits)

update_chain-Updated : (c : TaskChain) (w : World) → Updated c w (update_chain c w).1
unfolding update_chain execute
update_chain-Updated c w = at (fails w) (fails-Same w)
  where
    at :
        (x : Bool × World)
        → Same w x.1
        → Updated c w (write_unless update_failed (store_chain c) x).1
    at (true, v) s = (s.0, inl s.1, s.2)
    at (false, v) s = (s.0, inr (ap (save (has_chain_id c.chain_id) c) s.1), s.2)

Advance-Updated :
    (i : String) (c : TaskChain) (w u v : World)
    → first (has_root i) w.chains ≡ some c
    → is_settled c ≡ false
    → Same w u
    → Updated (record c { status = pos 3 }) u v
    → Advance i w v
Advance-Updated i c w u v root fresh s (t, inl e, k) = stayed (Same-trans w u v s (t, e, k))
Advance-Updated i c w u v root fresh s (t, inr e, k) =
    chain_failed c root fresh (t ∙ s.0)
      (e ∙ ap (save (has_chain_id c.chain_id) (record c { status = pos 3 })) s.1) (k ∙ s.2)

pub set_failed-Advance :
    (i : String) (c : TaskChain) (w u : World)
    → first (has_root i) w.chains ≡ some c
    → is_settled c ≡ false
    → Same w u
    → Advance i w (set_status (pos 3) c u)
unfolding set_status
set_failed-Advance i c w u root fresh s =
    Advance-Updated i c w u (set_status (pos 3) c u) root fresh s
      (update_chain-Updated (record c { status = pos 3 }) u)

pub after_activation-Advance :
    (i : String) (res : StoredResult) (c : TaskChain) (all : List String) (w u : World)
    → first (has_root i) w.chains ≡ some c
    → is_settled c ≡ false
    → c.all_task_ids ≡ ids all
    → Same w u
    → Advance i w (after_activation c (activate_second res all u))
after_activation-Advance i res c all w u root fresh listed s = by all listed
  where
    c2 : TaskChain
    c2 = record c { status = pos 1; current_step = pos 2 }

    chains_of :
        (a b d : World)
        → b.chains ≡ a.chains
        → (d.chains ≡ b.chains) ⊎ (d.chains ≡ save (has_chain_id c.chain_id) c2 b.chains)
        → (d.chains ≡ a.chains) ⊎ (d.chains ≡ save (has_chain_id c.chain_id) c2 a.chains)
    chains_of a b d e (inl h) = inl (h ∙ e)
    chains_of a b d e (inr h) = inr (h ∙ ap (save (has_chain_id c.chain_id) c2) e)

    without :
        (all : List String)
        → (((v : World) → v.tasks ≡ w.tasks → SecondMoved all w v))
        → c.all_task_ids ≡ ids all
        → Advance i w (dropped (update_chain c2 u))
    without all none l =
        let k = update_chain-Updated c2 u in
        moved c all root fresh l (none (dropped (update_chain c2 u)) (k.0 ∙ s.0))
          (chains_of w u (dropped (update_chain c2 u)) s.1 k.1) (k.2 ∙ s.2)

    from :
        (a second : String) (rest : List String) (x : Answer (Unit {0}) × World)
        → c.all_task_ids ≡ ids (a ∷ (second ∷ rest))
        → Outcome second u x
        → Advance i w (after_activation c x)
    from a second others (err e, v) l (inl (e', r, k)) =
        set_failed-Advance i c w v root fresh (Same-trans w u v s k)
    from a second others (err e, v) l (inr (r, k)) = absurd (ground arith)
    from a second others (ok y, v) l (inl (e', r, k)) = absurd (ground arith)
    from a second others (ok y, v) l (inr (r, (t, row, at, b, d, e, f, g, h, j))) =
        let k = update_chain-Updated c2 v in
        moved c (a ∷ (second ∷ others)) root fresh l
          (
            v,
            (
              t,
              row,
              ap (first (has_task_id second)) (sym s.0) ∙ at,
              b,
              d,
              e,
              f,
              g ∙ ap (save (has_task_id row.task_id) row) s.0,
              h ∙ s.1,
              j ∙ s.2,
            ),
            k.0,
          )
          (chains_of w v (dropped (update_chain c2 v)) (h ∙ s.1) k.1) (k.2 ∙ (j ∙ s.2))

    by :
        (all : List String)
        → c.all_task_ids ≡ ids all
        → Advance i w (after_activation c (activate_second res all u))
    by [] l = without [] (λ v h. h) l
    by (a ∷ []) l = without (a ∷ []) (λ v h. h) l
    by (a ∷ (b ∷ rest)) l =
        from a b rest (activate_next_task b res u) l (activate_next_task_outcome b res u)
