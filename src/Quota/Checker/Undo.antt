-- ===== src/Quota/Checker/Undo.antt =====
-- A reservation while Redis answers, and the release that undoes it.
use genioai_wxmini_server.Base.{
  ℤ, String, ◌+◌, false, [], ◌≡◌, refl, sym, ap, subst, ◌∙◌, arith, Bool-cases, inl, inr,
  if◌then◌else◌, str_eq, str_eq_self, eq_iff, leb_ℤ, pos,
}
use genioai_wxmini_server.Quota.World.{QuotaType, World, fails, set_slot}
use genioai_wxmini_server.Quota.Slot.{
  Slot, is_member, sadd, check_and_reserve_script, release_slot_script,
}
use genioai_wxmini_server.Quota.Slot.Bounds.{release-check_and_reserve}
use genioai_wxmini_server.Quota.Checker.{
  Answer, ok, err, build_key, limit_exceeded, check_and_reserve_slot, check_with_redis,
  release_slot,
}
use genioai_wxmini_server.Quota.Checker.Limit.{eval_calm, no_fault}

-- Redis answers, and the slots are these.
abbrev pub IsAt : (String → Slot) → World → Type 0
IsAt slots w = (w.slots ≡ slots) × (w.redis_faults ≡ []) × (w.degrade_mode ≡ false)

pub fails-IsAt : (slots : String → Slot) (w : World) → IsAt slots w → IsAt slots (fails w).1
unfolding fails
fails-IsAt slots w h = ground arith

-- Writing a slot and writing back what was there changes nothing.
set_slot_back :
    (key : String) (x s : Slot) (slots : String → Slot)
    → s ≡ slots key
    → (k : String) → set_slot key s (set_slot key x slots) k ≡ slots k
set_slot_back key x s slots h k = elim (Bool-cases (str_eq key k)) [
  | inl e ↦ simp e (h ∙ ap slots ((eq_iff key k).0 e))
  | inr e ↦ simp e refl
]

set_slot_same :
    (key : String) (s : Slot) (slots : String → Slot)
    → s ≡ slots key
    → (k : String) → set_slot key s slots k ≡ slots k
set_slot_same key s slots h k = elim (Bool-cases (str_eq key k)) [
  | inl e ↦ simp e (h ∙ ap slots ((eq_iff key k).0 e))
  | inr e ↦ simp e refl
]

module _ (q : QuotaType) (task_id user_id : String) (max_limit : ℤ) (slots : String → Slot) where
  abbrev pub taken : Slot
  taken = (check_and_reserve_script task_id max_limit (slots (build_key q user_id))).1

  abbrev pub taken_slots : String → Slot
  taken_slots = set_slot (build_key q user_id) taken slots

  abbrev pub HasRoom : Type 0
  HasRoom = leb_ℤ max_limit (pos (slots (build_key q user_id)).current) ≡ false

  abbrev one_more : Slot → Slot
  one_more s = record { current = s.current + 1; tasks = sadd task_id s.tasks }

  taken_of_room :
      (s : Slot)
      → leb_ℤ max_limit (pos s.current) ≡ false
      → (check_and_reserve_script task_id max_limit s).1 ≡ one_more s
  taken_of_room s room = rw room refl

  -- A release after the reservation.
  pub release_slot-IsUndone :
      (w : World)
      → is_member task_id (slots (build_key q user_id)).tasks ≡ false
      → HasRoom
      → IsAt taken_slots w
      → (k : String) → (release_slot q user_id task_id w).1.slots k ≡ slots k
  unfolding release_slot
  release_slot-IsUndone w free room h k =
      let key = build_key q user_id in
      let at_key : (w.slots key) ≡ taken =
        ap (λ f. f key) h.0 ∙ ap (λ b. if b then taken else slots key) (str_eq_self key) in
      let back : (release_slot_script task_id (w.slots key)).1 ≡ slots key =
        ap (λ s. (release_slot_script task_id s).1) at_key
        ∙ ap (λ p. p.1) (release-check_and_reserve task_id max_limit (slots key) free room) in
      simp (h.2, eval_calm (release_slot_script task_id) key w h.1)
        (ap (λ f. set_slot key (release_slot_script task_id (w.slots key)).1 f k) h.0
          ∙ set_slot_back key taken (release_slot_script task_id (w.slots key)).1 slots back k)

  -- What an answer leaves: the slots as they were, or the slot of the task taken.
  abbrev pub Reserved : Answer (Unit {0}) × World → Type 0
  Reserved (err e, w) = (e ≡ limit_exceeded q) × ((k : String) → w.slots k ≡ slots k)
  Reserved (ok x, w) = HasRoom × IsAt taken_slots w

  pub check_and_reserve_slot-Reserved :
      (w : World) → IsAt slots w → Reserved (check_and_reserve_slot q user_id task_id max_limit w)
  unfolding check_and_reserve_slot check_with_redis
  check_and_reserve_slot-Reserved w h =
      let key = build_key q user_id in
      let script = check_and_reserve_script task_id max_limit in
      let run = eval_calm script key w h.1 in
      let slot_eq : w.slots key ≡ slots key = ap (λ f. f key) h.0 in
      elim (Bool-cases (leb_ℤ max_limit (pos (w.slots key).current))) [
        | inl full ↦
            simp (h.2, run, full, no_fault q)
              (refl, λ k. set_slot_same key (w.slots key) w.slots refl k ∙ ap (λ f. f k) h.0)
        | inr room ↦
            let room' : HasRoom =
              subst (λ s. leb_ℤ max_limit (pos s.current) ≡ false) slot_eq room in
            let taken_eq : taken ≡ one_more (slots key) = taken_of_room (slots key) room' in
            let at : set_slot key (one_more (w.slots key)) w.slots ≡ taken_slots =
              ap (λ f. set_slot key (one_more (f key)) f) h.0
              ∙ ap (λ s. set_slot key s slots) (sym taken_eq) in
            simp (h.2, run, room) (room', (at, h.1, refl))
      ]
