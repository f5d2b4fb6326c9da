-- ===== src/Quota/Transition/Outcome.antt =====
-- What a transition leaves behind.
use genioai_wxmini_server.Base.{
  ℕ, ℤ, String, true, Option, none, some, ◌≡◌, refl, sym, ap, ◌∙◌, arith, Bool-cases, inl, inr,
  leb_ℤ, pos,
}
use genioai_wxmini_server.Quota.World.{
  QuotaType, concurrent, Task, World, fails, eval, Reply, replied, faulted,
}
use genioai_wxmini_server.Quota.Slot.{Slot, check_and_reserve_script, release_slot_script}
use genioai_wxmini_server.Quota.Checker.{
  Answer, ok, err, check_and_reserve_slot, check_with_redis, check_with_db, release_slot,
  handle_redis_error, after_redis, reserve_reply, release_reply, build_key, count_tasks,
  is_redis_error,
}
use genioai_wxmini_server.Quota.Transition.{
  Result, done, failed_with, find_task, save_task, is_pending, moved, acquire_lock, release_lock,
  save_and_commit, after_reserve, after_find, in_transaction, after_lock, unlocked,
  transition_to_processing,
}

-- A world with the same table.
abbrev IsSameTable : World → World → Type 0
IsSameTable w w' = w'.tasks ≡ w.tasks

fails_table : (w : World) → IsSameTable w (fails w).1
unfolding fails
fails_table w = ground arith

eval_table :
    {A : Type 0} (script : Slot → A × Slot) (key : String) (w : World)
    → IsSameTable w (eval script key w).1
unfolding eval
eval_table script key w = ground arith

release_slot_table :
    (q : QuotaType) (user_id task_id : String) (w : World)
    → IsSameTable w (release_slot q user_id task_id w).1
unfolding release_slot
release_slot_table q user_id task_id w = elim (Bool-cases w.degrade_mode) [
  | inl d ↦ simp d refl
  | inr d ↦ simp d (
      released (eval (release_slot_script task_id) (build_key q user_id) w)
        (eval_table (release_slot_script task_id) (build_key q user_id) w))
]
  where
    released : (x : Reply ℕ × World) → IsSameTable w x.1 → IsSameTable w (release_reply x).1
    released (replied n, w') h = h
    released (faulted f, w') h = h

handle_redis_error_table : (w : World) → IsSameTable w (handle_redis_error w)
handle_redis_error_table w = ground arith

check_with_db_table :
    (q : QuotaType) (user_id : String) (max_limit : ℤ) (w : World)
    → IsSameTable w (check_with_db q user_id max_limit w).1
unfolding check_with_db
check_with_db_table q user_id max_limit w = elim (Bool-cases (fails w).0) [
  | inl e ↦ simp e (fails_table w)
  | inr e ↦ elim (Bool-cases (leb_ℤ max_limit (pos (count_tasks q user_id w.tasks)))) [
    | inl f ↦ simp (e, f) (fails_table w)
    | inr f ↦ simp (e, f) (fails_table w)
  ]
]

after_redis_table :
    (q : QuotaType) (user_id : String) (max_limit : ℤ) (w : World) (x : Answer (Unit {0}) × World)
    → IsSameTable w x.1
    → IsSameTable w (after_redis q user_id max_limit x).1
after_redis_table q user_id max_limit w (ok y, w') h = h
after_redis_table q user_id max_limit w (err e, w') h = elim (Bool-cases (is_redis_error e)) [
  | inl f ↦ simp f (
      check_with_db_table q user_id max_limit (handle_redis_error w')
      ∙ (handle_redis_error_table w' ∙ h))
  | inr f ↦ simp f h
]

check_and_reserve_slot_table :
    (q : QuotaType) (user_id task_id : String) (max_limit : ℤ) (w : World)
    → IsSameTable w (check_and_reserve_slot q user_id task_id max_limit w).1
unfolding check_and_reserve_slot check_with_redis
check_and_reserve_slot_table q user_id task_id max_limit w = elim (Bool-cases w.degrade_mode) [
  | inl d ↦ simp d (check_with_db_table q user_id max_limit w)
  | inr d ↦
      let script = check_and_reserve_script task_id max_limit in
      simp d (
        after_redis_table q user_id max_limit w _ (
          answered (eval script (build_key q user_id) w)
            (eval_table script (build_key q user_id) w)))
]
  where
    answered : (x : Reply (ℕ × ℕ) × World) → IsSameTable w x.1 → IsSameTable w (reserve_reply q x).1
    answered (replied n, w') h = h
    answered (faulted f, w') h = h

acquire_lock_table : (task_id : String) (w : World) → IsSameTable w (acquire_lock task_id w).1
unfolding acquire_lock
acquire_lock_table task_id w = ground arith

release_lock_table :
    (task_id : String) (v : ℕ) (w : World) → IsSameTable w (release_lock task_id v w)
unfolding release_lock
release_lock_table task_id v w = ground arith

-- Either a pending task of the table is now processing, and nothing else in it has changed, or an
-- error is reported and the table is as it was.
abbrev pub IsOutcome : ℕ → String → World → Result × World → Type 0
IsOutcome now task_id w (done u, w') =
    (t : Task) × (find_task task_id w.tasks ≡ some t)
    × (is_pending t.status ≡ true)
    × (u ≡ moved now t)
    × (w'.tasks ≡ save_task u w.tasks)
IsOutcome now task_id w (failed_with e, w') = w'.tasks ≡ w.tasks

module _ (now : ℕ) (task_id user_id : String) (max_concurrent : ℤ) (w : World) where
  saved :
      (t : Task) (w1 : World)
      → find_task task_id w.tasks ≡ some t
      → is_pending t.status ≡ true
      → IsSameTable w w1
      → IsOutcome now task_id w (save_and_commit now task_id user_id t w1)
  unfolding save_and_commit
  saved t w1 f p h =
      let w2 = (fails w1).1 in
      let h2 : IsSameTable w w2 = fails_table w1 ∙ h in
      let w3 = (fails w2).1 in
      let h3 : IsSameTable w w3 = fails_table w2 ∙ h2 in
      elim (Bool-cases (fails w1).0) [
        | inl e ↦ simp e (release_slot_table concurrent user_id task_id w2 ∙ h2)
        | inr e ↦ elim (Bool-cases (fails w2).0) [
          | inl e' ↦ simp (e, e') (release_slot_table concurrent user_id task_id w3 ∙ h3)
          | inr e' ↦ simp (e, e') (t, f, p, refl, ap (save_task (moved now t)) h3)
        ]
      ]

  reserved :
      (t : Task) (x : Answer (Unit {0}) × World)
      → find_task task_id w.tasks ≡ some t
      → is_pending t.status ≡ true
      → IsSameTable w x.1
      → IsOutcome now task_id w (after_reserve now task_id user_id t x)
  reserved t (ok y, w1) f p h = saved t w1 f p h
  reserved t (err e, w1) f p h = h

  found :
      (o : Option Task) (w1 : World)
      → find_task task_id w.tasks ≡ o
      → IsSameTable w w1
      → IsOutcome now task_id w (after_find now task_id user_id max_concurrent o w1)
  found none w1 f h = h
  found (some t) w1 f h = elim (Bool-cases (is_pending t.status)) [
    | inr e ↦ rw e h
    | inl e ↦ rw e (
        reserved t (check_and_reserve_slot concurrent user_id task_id max_concurrent w1) f e
          (check_and_reserve_slot_table concurrent user_id task_id max_concurrent w1 ∙ h))
  ]

  transacted :
      (w1 : World)
      → IsSameTable w w1
      → IsOutcome now task_id w (in_transaction now task_id user_id max_concurrent w1)
  unfolding in_transaction
  transacted w1 h =
      let w2 = (fails w1).1 in
      let h2 : IsSameTable w w2 = fails_table w1 ∙ h in
      let w3 = (fails w2).1 in
      let h3 : IsSameTable w w3 = fails_table w2 ∙ h2 in
      elim (Bool-cases (fails w1).0) [
        | inl e ↦ simp e h2
        | inr e ↦ elim (Bool-cases (fails w2).0) [
          | inl e' ↦ simp (e, e') h3
          | inr e' ↦
              simp (e, e')
                (found (find_task task_id w3.tasks) w3 (sym (ap (find_task task_id) h3)) h3)
        ]
      ]

  unlocked_outcome :
      (v : ℕ) (x : Result × World)
      → IsOutcome now task_id w x
      → IsOutcome now task_id w (unlocked task_id v x)
  unlocked_outcome v (done u, w1) (t, f, p, e, h) =
      (t, f, p, e, release_lock_table task_id v w1 ∙ h)
  unlocked_outcome v (failed_with e, w1) h = release_lock_table task_id v w1 ∙ h

  locked :
      (x : Option ℕ × World)
      → IsSameTable w x.1
      → IsOutcome now task_id w (after_lock now task_id user_id max_concurrent x)
  locked (none, w1) h = h
  locked (some v, w1) h = unlocked_outcome v _ (transacted w1 h)

-- `TransitionToProcessing` either moves one task of the table from PENDING to PROCESSING and changes
-- nothing else in the table, or reports an error and leaves the table as it was, whichever calls of
-- Redis and of the database fail.
pub transition_to_processing-atomic :
    (now : ℕ) (task_id user_id : String) (max_concurrent : ℤ) (w : World)
    → IsOutcome now task_id w (transition_to_processing now task_id user_id max_concurrent w)
unfolding transition_to_processing
transition_to_processing-atomic now task_id user_id max_concurrent w =
    locked now task_id user_id max_concurrent w (acquire_lock task_id w)
      (acquire_lock_table task_id w)
