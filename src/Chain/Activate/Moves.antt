-- ===== src/Chain/Activate/Moves.antt =====
-- Each call of OnTaskCompleted is one move of a chain.
use genioai_wxmini_server.Base.{
  String, Bool, true, false, Option, none, some, List, [], ◌∷◌, ◌≡◌, refl, sym, ap, ◌∙◌, ◌⊎◌, inl,
  inr, arith, Bool-cases,
}
use genioai_wxmini_server.Chain.World.{
  StoredResult, no_result, malformed_result, result, StoredIds, malformed_ids, ids, PictureTask,
  TaskChain, World, Answer, ok, err, fails, first, get_by_root_task, query, query_failed,
  read_unless, redis_call,
}
use genioai_wxmini_server.Chain.Frame.{Same, Same-trans, fails-Same, redis_call-Same, query-Same}
use genioai_wxmini_server.Chain.Calm.{has_root}
use genioai_wxmini_server.Chain.Activate.{
  advance, lock_activation, unlock_activation, under_activation, is_settled, after_root,
  on_task_completed,
}
use genioai_wxmini_server.Chain.Activate.Advance.{
  Advance, stayed, chain_failed, moved, SecondMoved, set_failed-Advance, after_activation-Advance,
}

-- The answer of the query is the row in the table, if it answers.
get_by_root_task_found :
    (i : String) (w : World) (o : Option TaskChain) (w' : World)
    → get_by_root_task i w ≡ (ok o, w')
    → first (has_root i) w.chains ≡ o
unfolding get_by_root_task query
get_by_root_task_found i w o w' h = at (fails w) (fails-Same w) h
  where
    at :
        (x : Bool × World)
        → Same w x.1
        → read_unless query_failed (λ v. first (has_root i) v.chains) x ≡ (ok o, w')
        → first (has_root i) w.chains ≡ o
    at (true, v) s e = absurd (ground arith)
    at (false, v) s e = ap (first (has_root i)) (sym s.1) ∙ answer (first (has_root i) v.chains) v e
      where
        answer :
            (a : Option TaskChain) (z : World)
            → ◌≡◌ {A = Answer (Option TaskChain) × World} (ok a, z) (ok o, w')
            → a ≡ o
        answer a z q = ground arith

get_by_root_task-Same : (i : String) (w : World) → Same w (get_by_root_task i w).1
unfolding get_by_root_task
get_by_root_task-Same i w = query-Same query_failed (λ v. first (has_root i) v.chains) w

Advance-across : (i : String) (w u v : World) → Advance i w u → Same u v → Advance i w v
Advance-across i w u v (stayed s) k = stayed (Same-trans w u v s k)
Advance-across i w u v (chain_failed c a b d e f) k =
    chain_failed c a b (k.0 ∙ d) (k.1 ∙ e) (k.2 ∙ f)
Advance-across i w u v (moved c all a b l d e f) k =
    moved c all a b l (tasks_across all d) (chains_across e) (k.2 ∙ f)
  where
    tasks_across : (xs : List String) → SecondMoved xs w u → SecondMoved xs w v
    tasks_across [] h = k.0 ∙ h
    tasks_across (x ∷ []) h = k.0 ∙ h
    tasks_across (x ∷ (y ∷ rest)) (z, h, e) = (z, h, k.0 ∙ e)

    chains_across :
        {xs ys : List TaskChain}
        → (u.chains ≡ xs) ⊎ (u.chains ≡ ys)
        → (v.chains ≡ xs) ⊎ (v.chains ≡ ys)
    chains_across (inl h) = inl (k.1 ∙ h)
    chains_across (inr h) = inr (k.1 ∙ h)

advance-Advance :
    (i : String) (res : StoredResult) (c : TaskChain) (stored : StoredIds) (w u : World)
    → first (has_root i) w.chains ≡ some c
    → is_settled c ≡ false
    → c.all_task_ids ≡ stored
    → Same w u
    → Advance i w (advance res c stored u)
unfolding advance
advance-Advance i no_result c stored w u a b l s = set_failed-Advance i c w u a b s
advance-Advance i malformed_result c malformed_ids w u a b l s = set_failed-Advance i c w u a b s
advance-Advance i (result r) c malformed_ids w u a b l s = set_failed-Advance i c w u a b s
advance-Advance i malformed_result c (ids all) w u a b l s =
    after_activation-Advance i malformed_result c all w u a b l s
advance-Advance i (result r) c (ids all) w u a b l s =
    after_activation-Advance i (result r) c all w u a b l s

pub on_task_completed-Advance :
    (t : PictureTask) (w : World) → Advance t.task_id w (on_task_completed t w)
unfolding on_task_completed
on_task_completed-Advance t w =
    at (get_by_root_task t.task_id w) refl (get_by_root_task-Same t.task_id w)
  where
    locked :
        (c : TaskChain) (x : Bool × World)
        → first (has_root t.task_id) w.chains ≡ some c
        → is_settled c ≡ false
        → Same w x.1
        → Advance t.task_id w (under_activation t.result_json c x)
    locked c (false, v) a b s = stayed s
    locked c (true, v) a b s =
        let done = advance t.result_json c c.all_task_ids v in
        Advance-across t.task_id w done (unlock_activation c.chain_id (redis_call done))
          (advance-Advance t.task_id t.result_json c c.all_task_ids w v a b refl s)
          (redis_call-Same done)

    at :
        (x : Answer (Option TaskChain) × World)
        → get_by_root_task t.task_id w ≡ x
        → Same w x.1
        → Advance t.task_id w (after_root t.result_json x)
    at (err e, v) r s = stayed s
    at (ok none, v) r s = stayed s
    at (ok (some c), v) r s = elim (Bool-cases (is_settled c)) [
      | inl e ↦ simp e (stayed s)
      | inr e ↦ simp e (
          locked c (lock_activation c.chain_id (redis_call v))
            (get_by_root_task_found t.task_id w (some c) v r) e
            (Same-trans w v (redis_call v).1 s (redis_call-Same v)))
    ]
