-- ===== src/Quota/Checker/Degraded.antt =====
-- The degrade mode, once its health check has ended without an answer of Redis.
use genioai_wxmini_server.Base.{ℤ, String, true, false, ◌≡◌, refl, ◌∙◌, arith}
use genioai_wxmini_server.Quota.World.{QuotaType, World, fails}
use genioai_wxmini_server.Quota.Checker.{
  ok, check_and_reserve_slot, check_with_db, release_slot, health_check_recovered,
  health_check_timed_out,
}

-- What the checker of one process may do next. Its health check ends only while it runs.
pub data Step (w : World) : World → Type 0 where
  reserves :
      (q : QuotaType) (user_id task_id : String) (max_limit : ℤ)
      → Step w (check_and_reserve_slot q user_id task_id max_limit w).1
  releases :
      (q : QuotaType) (user_id task_id : String) → Step w (release_slot q user_id task_id w).1
  recovers : w.health_check_running ≡ true → Step w (health_check_recovered w)
  times_out : w.health_check_running ≡ true → Step w (health_check_timed_out w)

pub data Reaches (w : World) : World → Type 0 where
  here : Reaches w w
  later : (w' : World) {w'' : World} → Reaches w w' → Step w' w'' → Reaches w w''

abbrev pub IsStuck : World → Type 0
IsStuck w = (w.degrade_mode ≡ true) × (w.health_check_running ≡ false)

-- The slots as they were, and no way out.
abbrev Keeps : World → World → Type 0
Keeps w w' = IsStuck w' × (w'.slots ≡ w.slots)

kept_by_db :
    (q : QuotaType) (user_id : String) (max_limit : ℤ) (w : World)
    → IsStuck w
    → Keeps w (check_with_db q user_id max_limit w).1
unfolding check_with_db fails
kept_by_db q user_id max_limit w s = ground arith

reserved_by_db :
    (q : QuotaType) (user_id task_id : String) (max_limit : ℤ) (w : World)
    → w.degrade_mode ≡ true
    → check_and_reserve_slot q user_id task_id max_limit w ≡ check_with_db q user_id max_limit w
unfolding check_and_reserve_slot
reserved_by_db q user_id task_id max_limit w d = simp d refl

not_released :
    (q : QuotaType) (user_id task_id : String) (w : World)
    → w.degrade_mode ≡ true
    → release_slot q user_id task_id w ≡ (ok tt, w)
unfolding release_slot
not_released q user_id task_id w d = simp d refl

kept_by-Step : (w w' : World) → Step w w' → IsStuck w → Keeps w w'
kept_by-Step w w' (Step.reserves q user_id task_id max_limit) s =
    rw (reserved_by_db q user_id task_id max_limit w s.0) (kept_by_db q user_id max_limit w s)
kept_by-Step w w' (Step.releases q user_id task_id) s =
    rw (not_released q user_id task_id w s.0) (s, refl)
kept_by-Step w w' (Step.recovers r) s = absurd (ground arith)
kept_by-Step w w' (Step.times_out r) s = absurd (ground arith)

-- Once the health check has timed out the checker never leaves the degrade mode: whatever calls
-- follow, it stays there, no health check runs again, and it neither takes nor frees any slot in
-- Redis.
pub degrade_mode-forever :
    (w w' : World) → IsStuck w → Reaches w w' → IsStuck w' × (w'.slots ≡ w.slots)
degrade_mode-forever w w' s Reaches.here = (s, refl)
degrade_mode-forever w w'' s (Reaches.later w' before step) =
    let (s', same) = degrade_mode-forever w w' s before in
    let (s'', same') = kept_by-Step w' w'' step s' in (s'', same' ∙ same)
