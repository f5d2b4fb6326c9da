-- ===== src/Quota/Transition/GivesBack.antt =====
-- A failed transition leaves the slots as they were.
use genioai_wxmini_server.Base.{
  ℕ, ℤ, String, false, Option, none, some, [], ◌≡◌, refl, ap, subst, ◌∙◌, arith, Bool-cases, inl,
  inr,
}
use genioai_wxmini_server.Quota.World.{concurrent, Task, World, fails}
use genioai_wxmini_server.Quota.Slot.{Slot, is_member}
use genioai_wxmini_server.Quota.Checker.{Answer, ok, err, build_key, check_and_reserve_slot}
use genioai_wxmini_server.Quota.Checker.Undo.{
  IsAt, fails-IsAt, HasRoom, taken_slots, release_slot-IsUndone, Reserved,
  check_and_reserve_slot-Reserved,
}
use genioai_wxmini_server.Quota.Transition.{
  Result, done, failed_with, Error, find_task, is_pending, acquire_lock, release_lock,
  save_and_commit, after_reserve, after_find, in_transaction, after_lock, unlocked,
  transition_to_processing,
}

-- On an error every slot is as in `slots`.
abbrev GivesBack : (String → Slot) → Result × World → Type 0
GivesBack slots (done u, w) = Unit {0}
GivesBack slots (failed_with e, w) = (key : String) → w.slots key ≡ slots key

acquire_lock-IsAt :
    (slots : String → Slot) (task_id : String) (w : World)
    → IsAt slots w
    → IsAt slots (acquire_lock task_id w).1
unfolding acquire_lock
acquire_lock-IsAt slots task_id w h = ground arith

release_lock_slots :
    (task_id : String) (v : ℕ) (w : World) → (release_lock task_id v w).slots ≡ w.slots
unfolding release_lock
release_lock_slots task_id v w = ground arith

module _ (now : ℕ) (task_id user_id : String) (max_concurrent : ℤ) (slots : String → Slot)
    (free : is_member task_id (slots (build_key concurrent user_id)).tasks ≡ false) where
  abbrev Room : Type 0
  Room = HasRoom concurrent task_id user_id max_concurrent slots

  abbrev after_reservation : String → Slot
  after_reservation = taken_slots concurrent task_id user_id max_concurrent slots

  saved :
      (t : Task) (w : World)
      → Room
      → IsAt after_reservation w
      → GivesBack slots (save_and_commit now task_id user_id t w)
  unfolding save_and_commit
  saved t w room h =
      let w1 = (fails w).1 in
      let h1 = fails-IsAt after_reservation w h in
      let w2 = (fails w1).1 in
      let h2 = fails-IsAt after_reservation w1 h1 in
      elim (Bool-cases (fails w).0) [
        | inl e ↦
            simp e (
              release_slot-IsUndone concurrent task_id user_id max_concurrent slots w1 free room h1)
        | inr e ↦ elim (Bool-cases (fails w1).0) [
          | inl e' ↦
              simp (e, e')
                (release_slot-IsUndone concurrent task_id user_id max_concurrent slots w2 free room
                  h2)
          | inr e' ↦ simp (e, e') tt
        ]
      ]

  -- Redis refuses, or the slot is taken.
  answered :
      (t : Task) (w : World)
      → IsAt slots w
      → GivesBack slots (
          after_reserve now task_id user_id t
            (check_and_reserve_slot concurrent user_id task_id max_concurrent w))
  answered t w h =
      at (check_and_reserve_slot concurrent user_id task_id max_concurrent w)
        (check_and_reserve_slot-Reserved concurrent task_id user_id max_concurrent slots w h)
    where
      at :
          (x : Answer (Unit {0}) × World)
          → Reserved concurrent task_id user_id max_concurrent slots x
          → GivesBack slots (after_reserve now task_id user_id t x)
      at (err e, v) r = r.1
      at (ok y, v) r = saved t v r.0 r.1

  found :
      (o : Option Task) (w : World)
      → IsAt slots w
      → GivesBack slots (after_find now task_id user_id max_concurrent o w)
  found none w h = λ k. ap (λ f. f k) h.0
  found (some t) w h = elim (Bool-cases (is_pending t.status)) [
    | inl e ↦ rw e (answered t w h)
    | inr e ↦ rw e (λ k. ap (λ f. f k) h.0)
  ]

  transacted :
      (w : World)
      → IsAt slots w
      → GivesBack slots (in_transaction now task_id user_id max_concurrent w)
  unfolding in_transaction
  transacted w h =
      let w1 = (fails w).1 in
      let h1 = fails-IsAt slots w h in
      let w2 = (fails w1).1 in
      let h2 = fails-IsAt slots w1 h1 in
      elim (Bool-cases (fails w).0) [
        | inl e ↦ simp e (λ k. ap (λ f. f k) h1.0)
        | inr e ↦ elim (Bool-cases (fails w1).0) [
          | inl e' ↦ simp (e, e') (λ k. ap (λ f. f k) h2.0)
          | inr e' ↦ simp (e, e') (found (find_task task_id w2.tasks) w2 h2)
        ]
      ]

  unlocked_back :
      (v : ℕ) (x : Result × World) → GivesBack slots x → GivesBack slots (unlocked task_id v x)
  unlocked_back v (done u, w) h = tt
  unlocked_back v (failed_with e, w) h = λ k. ap (λ f. f k) (release_lock_slots task_id v w) ∙ h k

  locked :
      (x : Option ℕ × World)
      → IsAt slots x.1
      → GivesBack slots (after_lock now task_id user_id max_concurrent x)
  locked (none, w) h = λ k. ap (λ f. f k) h.0
  locked (some v, w) h = unlocked_back v _ (transacted w h)

-- A transition that reports an error leaves every slot in Redis as it was, whichever statements of
-- the database fail. Assumed: Redis answers, no degrade mode, and the task held no concurrent slot
-- before.
pub transition_to_processing-gives_back :
    (now : ℕ) (task_id user_id : String) (max_concurrent : ℤ) (w : World) {e : Error} {w' : World}
    → w.redis_faults ≡ []
    → w.degrade_mode ≡ false
    → is_member task_id (w.slots (build_key concurrent user_id)).tasks ≡ false
    → transition_to_processing now task_id user_id max_concurrent w ≡ (failed_with e, w')
    → (key : String) → w'.slots key ≡ w.slots key
unfolding transition_to_processing
transition_to_processing-gives_back now task_id user_id max_concurrent w calm d free run =
    subst (GivesBack w.slots) run (
      locked now task_id user_id max_concurrent w.slots free (acquire_lock task_id w)
        (acquire_lock-IsAt w.slots task_id w (refl, calm, d)))
