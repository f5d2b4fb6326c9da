-- ===== src/Quota/Checker/Limit.antt =====
-- What a call of CheckAndReserveSlot does on each branch.
use genioai_wxmini_server.Base.{
  ℕ, ℤ, String, false, [], ◌≡◌, refl, ◌≤ℤ◌, leb_ℤ, pos, arith, Bool-cases, inl, inr, ◌⊎◌,
  if◌then◌else◌,
}
use genioai_wxmini_server.Quota.Slot.{Slot, check_and_reserve_script}
use genioai_wxmini_server.Quota.World.{QuotaType, World, replied, eval, fails, set_slot, run_script}
use genioai_wxmini_server.Quota.Checker.{
  ok, err, build_key, check_and_reserve_slot, check_with_db, check_with_redis, limit_exceeded,
  count_tasks, is_redis_error,
}

-- Redis and the database answer.
abbrev pub IsCalm : World → Type 0
IsCalm w = (w.redis_faults ≡ []) × (w.database_faults ≡ [])

-- The number that a quota is checked against.
abbrev pub occupied : QuotaType → String → World → ℕ
occupied q user_id w =
    if w.degrade_mode
    then count_tasks q user_id w.tasks
    else (w.slots (build_key q user_id)).current

-- The slots after a reservation.
abbrev pub reserved : QuotaType → String → String → ℤ → World → World
reserved q user_id task_id max_limit w = if w.degrade_mode then w else record w {
  slots =
      set_slot (build_key q user_id)
        (check_and_reserve_script task_id max_limit (w.slots (build_key q user_id))).1 w.slots;
}

pub no_fault : (q : QuotaType) → is_redis_error (limit_exceeded q) ≡ false
no_fault QuotaType.queue = refl
no_fault QuotaType.concurrent = refl
no_fault (QuotaType.unlisted s) = refl

pub eval_calm :
    {A : Type 0} (script : Slot → A × Slot) (key : String) (w : World)
    → w.redis_faults ≡ []
    → eval script key w ≡ (replied (script (w.slots key)).0, run_script script key w)
unfolding eval
eval_calm script key w h = ground arith

pub fails_calm : (w : World) → w.database_faults ≡ [] → fails w ≡ (false, w)
unfolding fails
fails_calm w h = ground arith

-- While Redis and the database answer, a slot is given exactly when fewer than the limit are
-- occupied, by the counter or, in the degrade mode, by the tasks in the table; a refusal names the
-- quota, and only the slot of the user and the quota is written.
pub check_and_reserve_slot-limited :
    (q : QuotaType) (user_id task_id : String) (max_limit : ℤ) (w : World)
    → IsCalm w
    → (¬ (max_limit ≤ℤ pos (occupied q user_id w))
        × (check_and_reserve_slot q user_id task_id max_limit w
            ≡ (ok tt, reserved q user_id task_id max_limit w)))
      ⊎ ((max_limit ≤ℤ pos (occupied q user_id w))
          × (check_and_reserve_slot q user_id task_id max_limit w
              ≡ (err (limit_exceeded q), reserved q user_id task_id max_limit w)))
unfolding check_and_reserve_slot check_with_db check_with_redis
check_and_reserve_slot-limited q user_id task_id max_limit w calm =
    elim (Bool-cases w.degrade_mode) [
      | inl d ↦ elim (Bool-cases (leb_ℤ max_limit (pos (count_tasks q user_id w.tasks)))) [
        | inl full ↦ inr (simp d (ground arith), simp (d, fails_calm w calm.1, full) refl)
        | inr room ↦ inl (simp d (ground arith), simp (d, fails_calm w calm.1, room) refl)
      ]
      | inr d ↦
          let s = w.slots (build_key q user_id) in
          let run =
            eval_calm (check_and_reserve_script task_id max_limit) (build_key q user_id) w calm.0 in
          elim (Bool-cases (leb_ℤ max_limit (pos s.current))) [
            | inl full ↦ inr (simp d (ground arith), simp (d, run, full, no_fault q) refl)
            | inr room ↦ inl (simp d (ground arith), simp (d, run, room) refl)
          ]
    ]
