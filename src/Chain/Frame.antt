-- ===== src/Chain/Frame.antt =====
-- What the single calls leave alone, and how a saved row is found again.
use genioai_wxmini_server.Base.{
  String, Bool, true, false, Option, none, some, List, [], ◌∷◌, str_eq, str_eq_self, eq_iff, ◌≡◌,
  refl, sym, ap, ◌∙◌, inl, inr, arith, Bool-cases, if◌then◌else◌,
}
use genioai_wxmini_server.Chain.World.{
  PictureTask, World, Error, Answer, ok, err, M, fails, after_fault, query, read_unless, continue,
  or_raise, first, save, has_task_id, get_task, get_workflow, redis_call, is_listed,
  workflow_not_found, after_call, query_failed, task_not_found,
}

-- The tables of the chain code and the credits.
abbrev pub Same : World → World → Type 0
Same w w' = (w'.tasks ≡ w.tasks) × (w'.chains ≡ w.chains) × (w'.credits ≡ w.credits)

pub Same-trans : (u v w : World) → Same u v → Same v w → Same u w
Same-trans u v w h k = (k.0 ∙ h.0, k.1 ∙ h.1, k.2 ∙ h.2)

pub fails-Same : (w : World) → Same w (fails w).1
unfolding fails
fails-Same w = at w.faults
  where
    at : (fs : List Bool) → Same w (after_fault fs w).1
    at [] = (refl, refl, refl)
    at (b ∷ rest) = (refl, refl, refl)

pub redis_call-Same : (w : World) → Same w (redis_call w).1
unfolding redis_call
redis_call-Same w = at w.redis_faults
  where
    at : (os : List (Option Bool)) → Same w (after_call os w).1
    at [] = (refl, refl, refl)
    at (b ∷ rest) = (refl, refl, refl)

pub query-Same : {A : Type 0} (e : Error) (read : World → A) (w : World) → Same w (query e read w).1
unfolding query
query-Same e read w = at (fails w) (fails-Same w)
  where
    at : (x : Bool × World) → Same w x.1 → Same w (read_unless e read x).1
    at (true, v) h = h
    at (false, v) h = h

pub or_raise-Same : {A : Type 0} (e : Error) (a : Option A) (w : World) → Same w (or_raise e a w).1
or_raise-Same e none w = (refl, refl, refl)
or_raise-Same e (some a) w = (refl, refl, refl)

-- A sequence keeps what both parts keep.
pub continue-Same :
    {A B : Type 0} (f : A → M B) (u : World) (x : Answer A × World)
    → Same u x.1
    → ((a : A) (w : World) → Same w (f a w).1)
    → Same u (continue f x).1
continue-Same f u (ok a, w) h k = Same-trans u w (f a w).1 h (k a w)
continue-Same f u (err e, w) h k = h

pub get_task-Same : (task_id : String) (w : World) → Same w (get_task task_id w).1
unfolding get_task
get_task-Same task_id w =
    continue-Same (or_raise task_not_found) w
      (query query_failed (λ v. first (has_task_id task_id) v.tasks) w)
      (query-Same query_failed (λ v. first (has_task_id task_id) v.tasks) w)
      (or_raise-Same task_not_found)

pub get_workflow-Same : (workflow_id : String) (w : World) → Same w (get_workflow workflow_id w).1
unfolding get_workflow
get_workflow-Same workflow_id w =
    continue-Same (or_raise workflow_not_found) w
      (query query_failed (λ v. first (is_listed workflow_id) v.workflows) w)
      (query-Same query_failed (λ v. first (is_listed workflow_id) v.workflows) w)
      (or_raise-Same workflow_not_found)

-- A task that is read is the one in the table.
pub get_task_found :
    (task_id : String) (w : World) (t : PictureTask) (w' : World)
    → get_task task_id w ≡ (ok t, w')
    → first (has_task_id task_id) w.tasks ≡ some t
unfolding get_task query
get_task_found task_id w t w' h = at (fails w) (fails-Same w) h
  where
    with_row :
        (o : Option PictureTask) (v : World) → or_raise task_not_found o v ≡ (ok t, w') → o ≡ some t
    with_row none v e = absurd (ground arith)
    with_row (some s) v e = ground arith

    at :
        (x : Bool × World)
        → Same w x.1
        → continue
            (or_raise task_not_found)
            (read_unless query_failed (λ v. first (has_task_id task_id) v.tasks) x)
          ≡ (ok t, w')
        → first (has_task_id task_id) w.tasks ≡ some t
    at (true, v) s e = absurd (ground arith)
    at (false, v) s e =
        ap (first (has_task_id task_id)) (sym s.0)
        ∙ with_row (first (has_task_id task_id) v.tasks) v e

pub first_holds :
    {A : Type 0} (p : A → Bool) (xs : List A) (x : A) → first p xs ≡ some x → p x ≡ true
first_holds p [] x h = absurd (ground arith)
first_holds p (y ∷ ys) x h = elim (Bool-cases (p y)) [
  | inl e ↦ rw (← yes e h) e
  | inr e ↦ first_holds p ys x (no e h)
]
  where
    yes : p y ≡ true → (if p y then some y else first p ys) ≡ some x → y ≡ x
    yes e k = ground arith

    no : p y ≡ false → (if p y then some y else first p ys) ≡ some x → first p ys ≡ some x
    no e k = ground arith

-- The row that was saved is found, and saving it hides no other.
pub first-save_same :
    (t : PictureTask) (rows : List PictureTask)
    → first (has_task_id t.task_id) (save (has_task_id t.task_id) t rows) ≡ some t
first-save_same t [] = let a = str_eq_self t.task_id in ground arith
first-save_same t (r ∷ rows) =
    let rest = first-save_same t rows in let a = str_eq_self t.task_id in ground arith

pub first-save_other :
    (i : String) (t : PictureTask) (rows : List PictureTask)
    → str_eq t.task_id i ≡ false
    → first (has_task_id i) (save (has_task_id t.task_id) t rows) ≡ first (has_task_id i) rows
first-save_other i t [] h = ground arith
first-save_other i t (r ∷ rows) h =
    let rest = first-save_other i t rows h in
    let a = eq_iff r.task_id t.task_id in
    let b = eq_iff r.task_id i in let c = eq_iff t.task_id i in ground arith
