-- ===== src/Quota/Submit/Leaks.antt =====
-- Which ends of a submission give the queue slot back.
use genioai_wxmini_server.Base.{
  ℤ, String, Bool, true, false, not, Option, none, some, [], ◌≡◌, refl, ap, ◌∙◌, inl, inr, ◌⊎◌,
  arith, Bool-cases, leb_ℤ, pos, str_eq_self, if◌then◌else◌,
}
use genioai_wxmini_server.Quota.World.{
  queue, World, queue_limit_exceeded, concurrent_limit_exceeded, count_failed, redis_failed, fails,
}
use genioai_wxmini_server.Quota.Slot.{Slot, is_member}
use genioai_wxmini_server.Quota.Slot.Bounds.{check_and_reserve_script-limited}
use genioai_wxmini_server.Quota.Checker.{
  Answer, ok, err, build_key, check_and_reserve_slot, count_tasks,
}
use genioai_wxmini_server.Quota.Checker.Undo.{
  IsAt, fails-IsAt, taken, taken_slots, HasRoom, release_slot-IsUndone, Reserved,
  check_and_reserve_slot-Reserved,
}
use genioai_wxmini_server.Quota.Submit.{
  or_database, reserve_queue_slot, counted, verify_queue_size_with_db, after_reserve_call, then_log,
  check_active_tasks, virtual_workflow_not_found, not_prepared, replacement_not_prepared,
  invalid_faces, invalid_theme, ref_count_failed, Outcome, submitted, refused, Submission, End,
  or_end, or_end_of, prepare, with_row, referred, persisted, after_prepare, give_slot_back,
  after_check, submit_task_with_tx,
}

-- The ends after which the slot stays taken: success, and five errors.
abbrev pub keeps_slot : Outcome → Bool
keeps_slot submitted = true
keeps_slot (refused virtual_workflow_not_found) = true
keeps_slot (refused replacement_not_prepared) = true
keeps_slot (refused invalid_faces) = true
keeps_slot (refused invalid_theme) = true
keeps_slot (refused ref_count_failed) = true
keeps_slot _ = false

-- The variable is set exactly at the ends that give the slot back.
abbrev IsMarked : End → Type 0
IsMarked (o, b) = keeps_slot o ≡ not b

abbrev AreMarked : Option End → Type 0
AreMarked none = Unit
AreMarked (some e) = IsMarked e

or_end-AreMarked :
    (b : Bool) (e : End) (o : Option End) → IsMarked e → AreMarked o → AreMarked (or_end b e o)
or_end-AreMarked true e o h k = k
or_end-AreMarked false e o h k = h

or_end_of-AreMarked :
    (c : Option Bool) (e : End) (o : Option End)
    → IsMarked e
    → AreMarked o
    → AreMarked (or_end_of c e o)
or_end_of-AreMarked none e o h k = k
or_end_of-AreMarked (some b) e o h k = or_end-AreMarked b e o h k

prepare-AreMarked : (s : Submission) → AreMarked (prepare s)
unfolding prepare
prepare-AreMarked s =
    let workflow = or_end-AreMarked s.is_prepared _ _ refl (
      or_end_of-AreMarked s.replacement _ _ refl (
        or_end_of-AreMarked s.optimization _ _ refl (
          or_end-AreMarked s.has_valid_faces _ _ refl (
            or_end-AreMarked s.has_kind _ _ refl (
              or_end-AreMarked s.has_valid_theme (refused invalid_theme, false) none refl tt))))) in
    let direct =
      or_end-AreMarked s.has_virtual_workflow _ _ refl
        (or_end-AreMarked s.is_prepared (refused not_prepared, true) none refl tt) in
    elim (Bool-cases s.is_model_direct) [ inl e ↦ simp e direct | inr e ↦ simp e workflow ]

module _ (limit : ℤ) (s : Submission) (slots : String → Slot)
    (free : is_member s.task_id (slots (build_key queue s.user_id)).tasks ≡ false) where
  abbrev Room : Type 0
  Room = HasRoom queue s.task_id s.user_id limit slots

  abbrev after_reservation : String → Slot
  after_reservation = taken_slots queue s.task_id s.user_id limit slots

  -- An error leaves the slots as they were, and success the slot taken.
  abbrev Checked : Answer (Unit {0}) × World → Type 0
  Checked (err e, w) = (k : String) → w.slots k ≡ slots k
  Checked (ok x, w) = Room × IsAt after_reservation w

  counted-Checked :
      (x : Bool × World)
      → Room
      → IsAt after_reservation x.1
      → Checked (counted s.user_id s.task_id limit x)
  counted-Checked (true, w) room h =
      release_slot-IsUndone queue s.task_id s.user_id limit slots w free room h
  counted-Checked (false, w) room h =
      elim (Bool-cases (leb_ℤ limit (pos (count_tasks queue s.user_id w.tasks)))) [
        | inl e ↦ simp e (release_slot-IsUndone queue s.task_id s.user_id limit slots w free room h)
        | inr e ↦ simp e (room, h)
      ]

  check_active_tasks-Checked :
      (w : World) → IsAt slots w → Checked (check_active_tasks s.user_id s.task_id limit w)
  unfolding check_active_tasks reserve_queue_slot verify_queue_size_with_db
  check_active_tasks-Checked w h =
      reserved (check_and_reserve_slot queue s.user_id s.task_id limit w)
        (check_and_reserve_slot-Reserved queue s.task_id s.user_id limit slots w h)
    where
      logged : (x : Answer (Unit {0}) × World) → Checked x → Checked (then_log x)
      logged (ok y, v) c = (c.0, fails-IsAt after_reservation v c.1)
      logged (err e, v) c = c

      reserved :
          (x : Answer (Unit {0}) × World)
          → Reserved queue s.task_id s.user_id limit slots x
          → Checked (then_log (after_reserve_call s.user_id s.task_id limit (or_database x)))
      reserved (ok y, v) r =
          logged (counted s.user_id s.task_id limit (fails v))
            (counted-Checked (fails v) r.0 (fails-IsAt after_reservation v r.1))
      reserved (err queue_limit_exceeded, v) r = r.1
      reserved (err concurrent_limit_exceeded, v) r = absurd (ground arith)
      reserved (err count_failed, v) r = absurd (ground arith)
      reserved (err (redis_failed f), v) r = absurd (ground arith)

  taken-member :
      Room → is_member s.task_id (taken queue s.task_id s.user_id limit slots).tasks ≡ true
  taken-member room =
      elim (check_and_reserve_script-limited s.task_id limit (slots (build_key queue s.user_id))) [
        | inl h ↦ h.5
        | inr h ↦ absurd (ground arith)
      ]

  abbrev Settled : Outcome × World → Type 0
  Settled (o, w) =
      ((keeps_slot o ≡ true)
        × (is_member s.task_id (w.slots (build_key queue s.user_id)).tasks ≡ true))
      ⊎ ((keeps_slot o ≡ false) × ((k : String) → w.slots k ≡ slots k))

  give_slot_back-Settled :
      (x : End × World)
      → IsMarked x.0
      → Room
      → IsAt after_reservation x.1
      → Settled (give_slot_back s x)
  give_slot_back-Settled ((o, true), w) m room h =
      inr (m, release_slot-IsUndone queue s.task_id s.user_id limit slots w free room h)
  give_slot_back-Settled ((o, false), w) m room h = inl (m, held)
    where
      key : String
      key = build_key queue s.user_id

      at_key : w.slots key ≡ taken queue s.task_id s.user_id limit slots
      at_key =
          ap (λ f. f key) h.0
          ∙ ap (λ b. if b then taken queue s.task_id s.user_id limit slots else slots key)
              (str_eq_self key)

      held : is_member s.task_id (w.slots key).tasks ≡ true
      held = ap (λ (x : Slot). is_member s.task_id x.tasks) at_key ∙ taken-member room

  -- The end of the steps, with the slot still taken.
  abbrev Ended : End × World → Type 0
  Ended x = IsMarked x.0 × IsAt after_reservation x.1

  referred-Ended : (x : Bool × World) → IsAt after_reservation x.1 → Ended (referred x)
  referred-Ended (true, w) h = (refl, h)
  referred-Ended (false, w) h = (refl, h)

  persisted-Ended : (x : Bool × World) → IsAt after_reservation x.1 → Ended (persisted s x)
  persisted-Ended (true, w) h = (refl, h)
  persisted-Ended (false, w) h = elim (Bool-cases s.is_model_direct) [
    | inl e ↦ simp e (refl, h)
    | inr e ↦ simp e (
        referred-Ended (fails (with_row s.row w))
          (fails-IsAt after_reservation (with_row s.row w) h))
  ]

  after_prepare-Ended :
      (o : Option End) (w : World)
      → AreMarked o
      → IsAt after_reservation w
      → Ended (after_prepare s o w)
  after_prepare-Ended (some e) w m h = (m, h)
  after_prepare-Ended none w m h = persisted-Ended (fails w) (fails-IsAt after_reservation w h)

  after_check-Settled : (x : Answer (Unit {0}) × World) → Checked x → Settled (after_check s x)
  after_check-Settled (err e, w) c = inr (refl, c)
  after_check-Settled (ok y, w) c =
      let x = after_prepare s (prepare s) w in
      let (m, h) = after_prepare-Ended (prepare s) w (prepare-AreMarked s) c.1 in
      give_slot_back-Settled x m c.0 h

-- A submission that ends without a task gives its queue slot back, so that all slots are as before,
-- except after five errors, which leave the slot taken: no virtual workflow, no inputs for the
-- replaced workflow, invalid faces, an invalid theme, and a failed reference count. A success holds
-- the slot. Assumed: Redis answers, no degrade mode, and the task held no queue slot before.
pub submit_task_with_tx-leaks :
    (limit : ℤ) (s : Submission) (w : World)
    → w.redis_faults ≡ []
    → w.degrade_mode ≡ false
    → is_member s.task_id (w.slots (build_key queue s.user_id)).tasks ≡ false
    → let (o, w') = submit_task_with_tx limit s w in
      ((keeps_slot o ≡ true)
        × (is_member s.task_id (w'.slots (build_key queue s.user_id)).tasks ≡ true))
      ⊎ ((keeps_slot o ≡ false) × ((key : String) → w'.slots key ≡ w.slots key))
unfolding submit_task_with_tx
submit_task_with_tx-leaks limit s w calm d free = elim (Bool-cases s.is_valid_user) [
  | inl e ↦ simp e (
      after_check-Settled limit s w.slots free (check_active_tasks s.user_id s.task_id limit w)
        (check_active_tasks-Checked limit s w.slots free w (refl, calm, d)))
  | inr e ↦ simp e (inr (refl, λ k. refl))
]
