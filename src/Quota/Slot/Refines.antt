-- ===== src/Quota/Slot/Refines.antt =====
-- The two scripts against what a slot promises: a set of tasks of bounded size.
use genioai_wxmini_server.Base.{
  ℕ, ℤ, String, ◌+◌, Bool, true, false, List, [], ◌∷◌, ◌≡◌, refl, sym, ap, subst, ◌∙◌, length,
  leb_ℤ, ltb, pos, str_eq, arith, Bool-cases, inl, inr, if◌then◌else◌,
}
use genioai_wxmini_server.Quota.Slot.{
  Slot, is_member, srem, check_and_reserve_script, release_slot_script,
}
use genioai_wxmini_server.Quota.Slot.Bounds.{
  IsConsistent, release_slot_script-IsConsistent, length-srem,
}

pub data Op : Type 0 where
  reserve : String → ℤ → Op
  release : String → Op

-- What a caller sees: whether a slot was given and how many are taken, or whether one was given back.
pub data Reply : Type 0 where
  given : Bool → ℕ → Reply
  given_back : Bool → Reply

-- The promise: a slot is given while fewer tasks than the limit hold one, and a task that holds one
-- can give it back.
abbrev pub spec_step : Op → List String → Reply × List String
spec_step (reserve t max_limit) holders =
    if leb_ℤ max_limit (pos (length holders))
    then (given false (length holders), holders)
    else (given true (length holders + 1), t ∷ holders)
spec_step (release t) holders = (given_back (is_member t holders), srem t holders)

abbrev pub of_reserve : (ℕ × ℕ) × Slot → Reply × Slot
of_reserve ((success, count), s) = (given (ltb 0 success) count, s)

abbrev pub of_release : ℕ × Slot → Reply × Slot
of_release (released, s) = (given_back (ltb 0 released), s)

abbrev pub script_step : Op → Slot → Reply × Slot
script_step (reserve t max_limit) s = of_reserve (check_and_reserve_script t max_limit s)
script_step (release t) s = of_release (release_slot_script t s)

-- The replies of a run.
abbrev pub replies : {S : Type 0} → (Op → S → Reply × S) → List Op → S → List Reply
replies step [] s = []
replies step (o ∷ ops) s = (step o s).0 ∷ replies step ops (step o s).1

-- No task reserves while it holds a slot.
abbrev pub IsFresh : Op → List String → Type 0
IsFresh (reserve t max_limit) holders = is_member t holders ≡ false
IsFresh (release t) holders = Unit

abbrev pub AreFresh : List Op → List String → Type 0
AreFresh [] holders = Unit
AreFresh (o ∷ ops) holders = IsFresh o holders × AreFresh ops (spec_step o holders).1

srem_absent : (t : String) (xs : List String) → is_member t xs ≡ false → srem t xs ≡ xs
srem_absent t [] h = refl
srem_absent t (x ∷ xs) h = elim (Bool-cases (str_eq x t)) [
  | inl e ↦ absurd (ground arith)
  | inr e ↦ rw e (ap (λ ys. x ∷ ys) (srem_absent t xs (rw e at h)))
]

-- One step of the scripts is the step of the promise on the tasks of the slot.
step-refines :
    (o : Op) (s : Slot)
    → IsConsistent s
    → IsFresh o s.tasks
    → ((script_step o s).0 ≡ (spec_step o s.tasks).0)
      × ((script_step o s).1.tasks ≡ (spec_step o s.tasks).1)
      × IsConsistent (script_step o s).1
step-refines (reserve t max_limit) s c fresh = elim (Bool-cases (leb_ℤ max_limit (pos s.current))) [
  | inl full ↦
      let full' = subst (λ n. leb_ℤ max_limit (pos n) ≡ true) c.counted full in
      simp (full, full') (ap (given false) c.counted, refl, c)
  | inr room ↦
      let room' = subst (λ n. leb_ℤ max_limit (pos n) ≡ false) c.counted room in
      simp (room, room', fresh)
        (
          ap (λ n. given true (n + 1)) c.counted,
          refl,
          record { counted = rw c.counted (ground arith); distinct = (fresh, c.distinct) },
        )
]
step-refines (release t) s c fresh =
    let kept = release_slot_script-IsConsistent t s c in
    elim (Bool-cases (is_member t s.tasks)) [
      | inl e ↦
          let less = length-srem t s.tasks e in
          let some_left : ltb 0 s.current ≡ true = rw (c.counted, less) (ground arith) in
          let after = rw (e, some_left) at kept in simp (e, some_left) (refl, refl, after)
      | inr e ↦ simp e (refl, sym (srem_absent t s.tasks e), c)
    ]

replies-refines :
    (ops : List Op) (s : Slot) (holders : List String)
    → s.tasks ≡ holders
    → IsConsistent s
    → AreFresh ops holders
    → replies script_step ops s ≡ replies spec_step ops holders
replies-refines [] s holders e c fresh = refl
replies-refines (o ∷ ops) s holders e c fresh =
    let (same, tasks, c') = step-refines o s c (subst (IsFresh o) (sym e) fresh.0) in
    let first = same ∙ ap (λ hs. (spec_step o hs).0) e in
    let left = tasks ∙ ap (λ hs. (spec_step o hs).1) e in
    let rest = replies-refines ops (script_step o s).1 (spec_step o holders).1 left c' fresh.1 in
    ap (λ r. r ∷ replies script_step ops (script_step o s).1) first
    ∙ ap (λ rs. (spec_step o holders).0 ∷ rs) rest

abbrev pub empty_slot : Slot
empty_slot = record { current = 0; tasks = [] }

-- From an empty slot on, every sequence of reservations and releases gets from the two scripts the
-- replies that the promise gives on a set of tasks: a reservation succeeds, and reports the number of
-- holders, exactly while fewer tasks than its limit hold a slot, and a release succeeds exactly for a
-- task that holds one. Assumed: no task reserves while it holds a slot.
pub scripts-refines :
    (ops : List Op)
    → AreFresh ops []
    → replies script_step ops empty_slot ≡ replies spec_step ops []
scripts-refines ops fresh =
    replies-refines ops empty_slot [] refl (record { counted = refl; distinct = tt }) fresh
