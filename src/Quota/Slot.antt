-- ===== src/Quota/Slot.antt =====
-- The two Lua scripts of internal/service/quota/task_quota_scripts.go, which Redis runs atomically,
-- on the two keys of one quota: the counter and the set of tasks. A missing counter reads as 0 and a
-- missing set as empty, for GET, INCR, SISMEMBER and SREM alike.
pub mod Bounds
pub mod Refines
pub mod Leaks
use genioai_wxmini_server.Base.{
  ℕ, ℤ, String, suc, ◌+◌, ◌-◌, Bool, true, false, List, [], ◌∷◌, ◌||◌, ltb, leb_ℤ, pos, str_eq,
  if◌then◌else◌,
}

pub record Slot : Type 0 where
  pub current : ℕ  -- the counter at `key`
  pub tasks : List String  -- the set at `key .. ':tasks'`

abbrev pub is_member : String → List String → Bool
is_member t [] = false
is_member t (x ∷ xs) = str_eq x t || is_member t xs

-- SADD and SREM.
abbrev pub sadd : String → List String → List String
sadd t xs = if is_member t xs then xs else t ∷ xs

abbrev pub srem : String → List String → List String
srem t [] = []
srem t (x ∷ xs) = if str_eq x t then xs else x ∷ srem t xs

-- `LuaCheckAndReserveScript`: the success flag and the count.
abbrev pub check_and_reserve_script : String → ℤ → Slot → (ℕ × ℕ) × Slot
check_and_reserve_script task_id max_limit s =
    if leb_ℤ max_limit (pos s.current)
    then ((0, s.current), s)
    else ((1, s.current + 1), record { current = s.current + 1; tasks = sadd task_id s.tasks })

-- `LuaReleaseSlotScript`
abbrev pub release_slot_script : String → Slot → ℕ × Slot
release_slot_script task_id s =
    if is_member task_id s.tasks
    then if ltb 0 s.current
      then (1, record { current = s.current - 1; tasks = srem task_id s.tasks })
      else (0, record s { tasks = srem task_id s.tasks })
    else (0, s)
