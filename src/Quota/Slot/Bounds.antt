-- ===== src/Quota/Slot/Bounds.antt =====
-- The counter counts the tasks of the set, and stays within the limit.
use genioai_wxmini_server.Base.{
  ℤ, String, suc, ◌+◌, true, false, List, [], ◌∷◌, ◌≡◌, refl, ap, length, leb_ℤ, ltb, pos, ◌≤ℤ◌,
  str_eq, str_eq_self, arith, Bool-cases, inl, inr, ◌⊎◌, subst, sym, ◌∙◌, eq_iff,
}
use genioai_wxmini_server.Quota.Slot.{
  Slot, is_member, sadd, srem, check_and_reserve_script, release_slot_script,
}

-- No task is in the set twice, and the counter is the size of the set.
abbrev pub IsUnique : List String → Type 0
IsUnique [] = Unit
IsUnique (x ∷ xs) = (is_member x xs ≡ false) × IsUnique xs

pub record IsConsistent (s : Slot) : Type 0 where
  pub counted : s.current ≡ length s.tasks
  pub distinct : IsUnique s.tasks

pub length-srem :
    (t : String) (xs : List String) → is_member t xs ≡ true → length xs ≡ suc (length (srem t xs))
length-srem t [] h = absurd (ground arith)
length-srem t (x ∷ xs) h = elim (Bool-cases (str_eq x t)) [
  | inl e ↦ rw e refl
  | inr e ↦ rw e (ap suc (length-srem t xs (rw e at h)))
]

is_member-srem :
    (t y : String) (xs : List String) → is_member y xs ≡ false → is_member y (srem t xs) ≡ false
is_member-srem t y [] h = refl
is_member-srem t y (x ∷ xs) h = elim (Bool-cases (str_eq x t)) [
  | inl e ↦ rw e (ground arith)
  | inr e ↦ elim (Bool-cases (str_eq x y)) [
    | inl f ↦ absurd (ground arith)
    | inr f ↦ rw (e, f) (is_member-srem t y xs (rw f at h))
  ]
]

srem-IsUnique : (t : String) (xs : List String) → IsUnique xs → IsUnique (srem t xs)
srem-IsUnique t [] h = tt
srem-IsUnique t (x ∷ xs) h = elim (Bool-cases (str_eq x t)) [
  | inl e ↦ rw e h.1
  | inr e ↦ rw e (is_member-srem t x xs h.0, srem-IsUnique t xs h.1)
]

-- A release takes the task out of the set, and no other.
pub srem-removes : (t : String) (xs : List String) → IsUnique xs → is_member t (srem t xs) ≡ false
srem-removes t [] u = refl
srem-removes t (x ∷ xs) u = elim (Bool-cases (str_eq x t)) [
  | inl e ↦ rw e (subst (λ y. is_member y xs ≡ false) ((eq_iff x t).0 e) u.0)
  | inr e ↦ rw (e, e) (srem-removes t xs u.1)
]

pub srem-keeps :
    (t y : String) (xs : List String) → (y ≡ t) ⊎ (is_member y (srem t xs) ≡ is_member y xs)
srem-keeps t y [] = inr refl
srem-keeps t y (x ∷ xs) = elim (Bool-cases (str_eq x t)) [
  | inr e ↦ elim (srem-keeps t y xs) [ inl h ↦ inl h | inr h ↦ inr (rw (e, h) refl) ]
  | inl e ↦ elim (Bool-cases (str_eq x y)) [
    | inl f ↦ inl (sym ((eq_iff x y).0 f) ∙ (eq_iff x t).0 e)
    | inr f ↦ inr (rw (e, f) refl)
  ]
]

pub release_slot_script-IsConsistent :
    (other : String) (s : Slot) → IsConsistent s → IsConsistent (release_slot_script other s).1
release_slot_script-IsConsistent other s c = elim (Bool-cases (is_member other s.tasks)) [
  | inr e ↦ rw e c
  | inl e ↦
      let less = length-srem other s.tasks e in
      let some_left : ltb 0 s.current ≡ true = rw (c.counted, less) (ground arith) in
      rw (e, some_left)
        (record {
          counted = rw (c.counted, less) (ground arith);
          distinct = srem-IsUnique other s.tasks c.distinct;
        })
]

pub check_and_reserve_script-IsConsistent :
    (task_id : String) (max_limit : ℤ) (s : Slot)
    → is_member task_id s.tasks ≡ false
    → IsConsistent s
    → IsConsistent (check_and_reserve_script task_id max_limit s).1
check_and_reserve_script-IsConsistent task_id max_limit s free c =
    elim (Bool-cases (leb_ℤ max_limit (pos s.current))) [
      | inl full ↦ rw full c
      | inr room ↦
          rw (room, free)
            (record { counted = rw c.counted (ground arith); distinct = (free, c.distinct) })
    ]

-- Reserving a slot for a task that holds none, and releasing any task, keep the counter equal to the
-- number of tasks in the set, each of them there once.
pub scripts-IsConsistent :
    (task_id other : String) (max_limit : ℤ) (s : Slot)
    → is_member task_id s.tasks ≡ false
    → IsConsistent s
    → IsConsistent (check_and_reserve_script task_id max_limit s).1
      × IsConsistent (release_slot_script other s).1
scripts-IsConsistent task_id other max_limit s free c = (
  check_and_reserve_script-IsConsistent task_id max_limit s free c,
  release_slot_script-IsConsistent other s c,
)

-- A slot is given exactly while fewer than the limit are taken; then the counter goes up by one and
-- is at most the limit. Otherwise nothing changes.
pub check_and_reserve_script-limited :
    (task_id : String) (max_limit : ℤ) (s : Slot)
    → let ((success, count), after) = check_and_reserve_script task_id max_limit s in
      (¬ (max_limit ≤ℤ pos s.current)
        × (success ≡ 1)
        × (count ≡ after.current)
        × (after.current ≡ s.current + 1)
        × (pos after.current ≤ℤ max_limit)
        × (is_member task_id after.tasks ≡ true))
      ⊎ ((max_limit ≤ℤ pos s.current) × (success ≡ 0) × (after ≡ s))
check_and_reserve_script-limited task_id max_limit s =
    elim (Bool-cases (leb_ℤ max_limit (pos s.current))) [
      | inl full ↦ rw full (inr (ground arith, refl, refl))
      | inr room ↦
          let below : ¬ (max_limit ≤ℤ pos s.current) = ground arith in
          rw room (inl (below, refl, refl, refl, ground arith, added task_id s.tasks))
    ]
  where
    added : (t : String) (xs : List String) → is_member t (sadd t xs) ≡ true
    added t xs = elim (Bool-cases (is_member t xs)) [
      | inl e ↦ rw (e, e) refl
      | inr e ↦ rw (e, str_eq_self t) refl
    ]

-- A reservation of a task that holds no slot is undone by its release. Assumed: there is room.
pub release-check_and_reserve :
    (task_id : String) (max_limit : ℤ) (s : Slot)
    → is_member task_id s.tasks ≡ false
    → leb_ℤ max_limit (pos s.current) ≡ false
    → release_slot_script task_id (check_and_reserve_script task_id max_limit s).1 ≡ (1, s)
release-check_and_reserve task_id max_limit s free room =
    rw (room, free, str_eq_self task_id) (ground arith)
