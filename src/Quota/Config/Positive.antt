-- ===== src/Quota/Config/Positive.antt =====
-- The limits in force.
use genioai_wxmini_server.Base.{
  ℤ, Bool, true, false, Option, none, some, pos, ◌<ℤ◌, ◌≡◌, arith, inl, inr, ◌⊎◌, Option-cases,
}
use genioai_wxmini_server.Quota.Config.{
  TaskLimitsConfig, TaskLimitsConfigSet, Stored, Cache, or_default, sanitize_limits,
  load_config_set, load_from_cache, load_config, get_fallback_config, fallback_member_config,
  fallback_non_member_config, usable, usable_entry, with_set, entry, choose,
}

abbrev pub IsPositive : TaskLimitsConfig → Type 0
IsPositive c = (pos 0 <ℤ c.max_queue_size) × (pos 0 <ℤ c.max_concurrent)

or_default-pos : (x d : ℤ) → pos 0 <ℤ d → pos 0 <ℤ or_default x d
or_default-pos x d h = ground arith

sanitize_limits-IsPositive :
    (c : Option TaskLimitsConfig) (f : TaskLimitsConfig)
    → IsPositive f
    → IsPositive (sanitize_limits c f)
unfolding sanitize_limits
sanitize_limits-IsPositive none f h = h
sanitize_limits-IsPositive (some c) f h = (
  or_default-pos c.max_queue_size f.max_queue_size h.0,
  or_default-pos c.max_concurrent f.max_concurrent h.1,
)

fallback-IsPositive : (m : Bool) → IsPositive (get_fallback_config m)
fallback-IsPositive true = (omega arith, omega arith)
fallback-IsPositive false = (omega arith, omega arith)

usable-IsPositive : (x c : TaskLimitsConfig) → usable x ≡ some c → IsPositive c
usable-IsPositive x c h = (ground arith, ground arith)

from_cache-IsPositive :
    (cache : Option Cache) (m : Bool) (c : TaskLimitsConfig)
    → load_from_cache cache m ≡ some c
    → IsPositive c
unfolding load_from_cache
from_cache-IsPositive none m c h = absurd (ground arith)
from_cache-IsPositive (some k) m c h = from_entry (entry m k) h
  where
    from_entry : (o : Option TaskLimitsConfig) → usable_entry o ≡ some c → IsPositive c
    from_entry none e = absurd (ground arith)
    from_entry (some x) e = usable-IsPositive x c e

chosen-IsPositive :
    (stored : Stored) (m : Bool) (s : TaskLimitsConfigSet)
    → load_config_set stored ≡ some s
    → IsPositive (choose m s)
unfolding load_config_set
chosen-IsPositive Stored.unreadable m s h = absurd (ground arith)
chosen-IsPositive Stored.blank m s h = absurd (ground arith)
chosen-IsPositive Stored.undecodable m s h = absurd (ground arith)
chosen-IsPositive (Stored.decoded p) true s h =
    let e : sanitize_limits p.member fallback_member_config ≡ s.member = cc in
    rw (← e) (sanitize_limits-IsPositive p.member fallback_member_config (omega arith, omega arith))
chosen-IsPositive (Stored.decoded p) false s h =
    let e : sanitize_limits p.non_member fallback_non_member_config ≡ s.non_member = cc in
    rw (← e) (
      sanitize_limits-IsPositive p.non_member fallback_non_member_config (omega arith, omega arith))

-- Whatever is stored or cached, the limits in force are positive, so that a quota always admits
-- somebody.
pub load_config-IsPositive :
    (stored : Option Stored) (cache : Option Cache) (is_member : Bool)
    → IsPositive (load_config stored cache is_member).0
unfolding load_config
load_config-IsPositive none cache m = fallback-IsPositive m
load_config-IsPositive (some s) cache m = elim (Option-cases (load_from_cache cache m)) [
  | inr (c, e) ↦ rw e (from_cache-IsPositive cache m c e)
  | inl e ↦ rw e (from_set (Option-cases (load_config_set s)))
]
  where
    from_set :
        (load_config_set s ≡ none) ⊎ ((k : TaskLimitsConfigSet) × (load_config_set s ≡ some k))
        → IsPositive (with_set cache m (load_config_set s)).0
    from_set (inl f) = rw f (fallback-IsPositive m)
    from_set (inr (k, f)) = rw f (chosen-IsPositive s m k f)
