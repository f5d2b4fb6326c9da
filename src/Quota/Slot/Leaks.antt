-- ===== src/Quota/Slot/Leaks.antt =====
-- What a second reservation of a task does to its slot.
use genioai_wxmini_server.Base.{
  ℤ, String, ◌+◌, true, List, [], ◌∷◌, ◌≡◌, ◌<◌, length, leb_ℤ, ltb, pos, ◌≤ℤ◌, arith, Bool-cases,
  inl, inr,
}
use genioai_wxmini_server.Quota.Slot.{
  Slot, is_member, check_and_reserve_script, release_slot_script,
}
use genioai_wxmini_server.Quota.Slot.Bounds.{IsConsistent, length-srem}
use genioai_wxmini_server.Quota.Slot.Refines.{Op, reserve, release, script_step}

-- The slot after a run.
abbrev pub slot_after : List Op → Slot → Slot
slot_after [] s = s
slot_after (o ∷ ops) s = slot_after ops (script_step o s).1

-- More is counted than the set holds.
abbrev pub IsOvercounted : Slot → Type 0
IsOvercounted s = length s.tasks < s.current

reserve-IsOvercounted :
    (t : String) (max_limit : ℤ) (s : Slot)
    → IsOvercounted s
    → IsOvercounted (check_and_reserve_script t max_limit s).1
reserve-IsOvercounted t max_limit s h = elim (Bool-cases (leb_ℤ max_limit (pos s.current))) [
  | inl full ↦ rw full h
  | inr room ↦ elim (Bool-cases (is_member t s.tasks)) [
    | inl e ↦ rw (room, e) (omega arith)
    | inr e ↦ rw (room, e) (omega arith)
  ]
]

release-IsOvercounted :
    (t : String) (s : Slot) → IsOvercounted s → IsOvercounted (release_slot_script t s).1
release-IsOvercounted t s h = elim (Bool-cases (is_member t s.tasks)) [
  | inr e ↦ rw e h
  | inl e ↦
      let less = length-srem t s.tasks e in
      let some_left : ltb 0 s.current ≡ true = ground arith in rw (e, some_left) (omega arith)
]

slot_after-IsOvercounted :
    (ops : List Op) (s : Slot) → IsOvercounted s → IsOvercounted (slot_after ops s)
slot_after-IsOvercounted [] s h = h
slot_after-IsOvercounted (reserve t max_limit ∷ ops) s h =
    slot_after-IsOvercounted ops (check_and_reserve_script t max_limit s).1
      (reserve-IsOvercounted t max_limit s h)
slot_after-IsOvercounted (release t ∷ ops) s h =
    slot_after-IsOvercounted ops (release_slot_script t s).1 (release-IsOvercounted t s h)

-- When a task that holds a slot is given one again, the counter exceeds the number of tasks in the
-- set from then on, whatever reservations and releases of any tasks follow, all releases of that task
-- included: one unit of the limit is lost for good. Assumed: the counter was the number of tasks in
-- the set, there was room, and the keys do not expire.
pub scripts-leak :
    (task_id : String) (max_limit : ℤ) (s : Slot) (ops : List Op)
    → IsConsistent s
    → is_member task_id s.tasks ≡ true
    → ¬ (max_limit ≤ℤ pos s.current)
    → let after = slot_after ops (check_and_reserve_script task_id max_limit s).1 in
      length after.tasks < after.current
scripts-leak task_id max_limit s ops c held below =
    slot_after-IsOvercounted ops (check_and_reserve_script task_id max_limit s).1
      (elim (Bool-cases (leb_ℤ max_limit (pos s.current))) [
        | inl full ↦ absurd (below (ground arith))
        | inr room ↦ rw (room, held) (counted s c)
      ])
  where
    counted : (s : Slot) → IsConsistent s → length s.tasks < s.current + 1
    counted s c = rw c.counted (omega arith)
