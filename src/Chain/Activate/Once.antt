-- ===== src/Chain/Activate/Once.antt =====
-- OnTaskCompleted moves a chain at most once.
use genioai_wxmini_server.Base.{
  Bool, true, false, some, List, [], ◌∷◌, str_eq, str_eq_self, pos, ◌≡◌, ◌≢◌, refl, sym, ap, subst,
  ◌∙◌, ◌⊎◌, inl, inr, arith, Bool-cases, some_eq, if◌then◌else◌,
}
use genioai_wxmini_server.Chain.World.{PictureTask, TaskChain, World, first, save, has_chain_id}
use genioai_wxmini_server.Chain.Frame.{Same, first_holds}
use genioai_wxmini_server.Chain.Calm.{has_root}
use genioai_wxmini_server.Chain.Activate.{is_settled, on_task_completed}
use genioai_wxmini_server.Chain.Activate.Advance.{Advance, stayed, chain_failed, moved}
use genioai_wxmini_server.Chain.Activate.Moves.{on_task_completed-Advance}

-- A row that is saved under its key is found where the old one was.
first-save_root :
    (p : TaskChain → Bool) (c c' : TaskChain) (rows : List TaskChain)
    → p c' ≡ true
    → first p rows ≡ some c
    → first (has_chain_id c.chain_id) rows ≡ some c
    → first p (save (has_chain_id c.chain_id) c' rows) ≡ some c'
first-save_root p c c' [] h a b = absurd (ground arith)
first-save_root p c c' (x ∷ rows) h a b = elim (Bool-cases (has_chain_id c.chain_id x)) [
  | inl e ↦ simp e (rw h refl)
  | inr e ↦ simp e (behind (first-save_root p c c' rows h) e (Bool-cases (p x)))
]
  where
    behind :
        (first p rows ≡ some c
          → first (has_chain_id c.chain_id) rows ≡ some c
          → first p (save (has_chain_id c.chain_id) c' rows) ≡ some c')
        → has_chain_id c.chain_id x ≡ false
        → (p x ≡ true) ⊎ (p x ≡ false)
        → first p (x ∷ save (has_chain_id c.chain_id) c' rows) ≡ some c'
    behind ih e (inl k) = absurd (clash e (some_eq x c (at_head k a)))
      where
        at_head : p x ≡ true → (if p x then some x else first p rows) ≡ some c → some x ≡ some c
        at_head k q = ground arith

        clash : has_chain_id c.chain_id x ≡ false → x ≡ c → ⊥
        clash e q =
            let self = str_eq_self c.chain_id in
            true_false (sym self ∙ (sym (ap (λ z. str_eq z.chain_id c.chain_id) q) ∙ e))
          where
            true_false : true ≡ false → ⊥
            true_false q = ground arith
    behind ih e (inr k) = simp k (ih (in_tail p k a) (in_tail (has_chain_id c.chain_id) e b))
      where
        in_tail :
            (q : TaskChain → Bool)
            → q x ≡ false
            → (if q x then some x else first q rows) ≡ some c
            → first q rows ≡ some c
        in_tail q k z = ground arith

-- A chain that is settled is left alone.
on_task_completed-settled :
    (t : PictureTask) (c : TaskChain) (w : World)
    → first (has_root t.task_id) w.chains ≡ some c
    → is_settled c ≡ true
    → Same w (on_task_completed t w)
on_task_completed-settled t c w root settled = at (on_task_completed-Advance t w)
  where
    clash :
        (d : TaskChain) → first (has_root t.task_id) w.chains ≡ some d → is_settled d ≡ false → ⊥
    clash d r f = true_false (sym settled ∙ (ap is_settled (some_eq c d (sym root ∙ r)) ∙ f))
      where
        true_false : true ≡ false → ⊥
        true_false q = ground arith

    at : {w' : World} → Advance t.task_id w w' → Same w w'
    at (stayed s) = s
    at (chain_failed d a b e f g) = absurd (clash d a b)
    at (moved d all a b l e f g) = absurd (clash d a b)

-- When a call of OnTaskCompleted has changed the chains, a further call for the same task changes no
-- table. Assumed: the identity of the chain that the task starts is unique.
pub on_task_completed-once :
    (t t' : PictureTask) (w : World)
    → t'.task_id ≡ t.task_id
    → ((c : TaskChain)
        → first (has_root t.task_id) w.chains ≡ some c
        → first (has_chain_id c.chain_id) w.chains ≡ some c)
    → (on_task_completed t w).chains ≢ w.chains
    → Same (on_task_completed t w) (on_task_completed t' (on_task_completed t w))
on_task_completed-once t t' w same unique changed = at (on_task_completed-Advance t w)
  where
    w' : World
    w' = on_task_completed t w

    again :
        (c d : TaskChain)
        → first (has_root t.task_id) w.chains ≡ some c
        → d.root_task_id ≡ c.root_task_id
        → w'.chains ≡ save (has_chain_id c.chain_id) d w.chains
        → is_settled d ≡ true
        → Same w' (on_task_completed t' w')
    again c d root kept e s =
        let held =
          ap (λ z. str_eq z t.task_id) kept ∙ first_holds (has_root t.task_id) w.chains c root in
        let found =
          ap (first (has_root t.task_id)) e
          ∙ first-save_root (has_root t.task_id) c d w.chains held root (unique c root) in
        on_task_completed-settled t' d w'
          (subst (λ i. first (has_root i) w'.chains ≡ some d) (sym same) found) s

    at : Advance t.task_id w w' → Same w' (on_task_completed t' w')
    at (stayed s) = absurd (changed s.1)
    at (chain_failed c a b d e f) = again c (record c { status = pos 3 }) a refl e refl
    at (moved c all a b l d (inl e) f) = absurd (changed e)
    at (moved c all a b l d (inr e) f) =
        again c (record c { status = pos 1; current_step = pos 2 }) a refl e refl
