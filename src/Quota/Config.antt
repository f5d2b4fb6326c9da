-- ===== src/Quota/Config.antt =====
-- internal/service/quota/task_config_manager.go: the limits of members and non-members. The JSON text
-- is decoded by encoding/json, whose answer is an argument; the cache holds what was set last.
pub mod Positive
use genioai_wxmini_server.Base.{
  ℕ, ℤ, Bool, true, false, Option, none, some, leb_ℤ, ltb_ℤ, ◌&&◌, pos, if◌then◌else◌,
}

pub record TaskLimitsConfig : Type 0 where
  pub max_queue_size : ℤ
  pub max_concurrent : ℤ

pub record TaskLimitsConfigSet : Type 0 where
  pub member : TaskLimitsConfig
  pub non_member : TaskLimitsConfig

-- The JSON object: either field may be missing.
pub record ParsedLimits : Type 0 where
  pub member : Option TaskLimitsConfig
  pub non_member : Option TaskLimitsConfig

-- The stored string: the read fails, it is blank, it does not decode, or it decodes.
pub data Stored : Type 0 where
  unreadable blank undecodable : Stored
  decoded : ParsedLimits → Stored

-- What the cache has for the two keys; an entry may have been stored by another process.
pub record Cache : Type 0 where
  pub member : Option TaskLimitsConfig
  pub non_member : Option TaskLimitsConfig

abbrev pub fallback_member_config : TaskLimitsConfig
fallback_member_config = record { max_queue_size = pos 2; max_concurrent = pos 1 }

abbrev pub fallback_non_member_config : TaskLimitsConfig
fallback_non_member_config = record { max_queue_size = pos 2; max_concurrent = pos 1 }

abbrev pub get_fallback_config : Bool → TaskLimitsConfig
get_fallback_config true = fallback_member_config
get_fallback_config false = fallback_non_member_config

-- A limit that is not positive is replaced by that of the fallback.
abbrev pub or_default : ℤ → ℤ → ℤ
or_default x d = if leb_ℤ x (pos 0) then d else x

unfoldable pub sanitize_limits : Option TaskLimitsConfig → TaskLimitsConfig → TaskLimitsConfig
sanitize_limits none fallback = fallback
sanitize_limits (some c) fallback = record {
  max_queue_size = or_default c.max_queue_size fallback.max_queue_size;
  max_concurrent = or_default c.max_concurrent fallback.max_concurrent;
}

unfoldable pub load_config_set : Stored → Option TaskLimitsConfigSet
unfolding sanitize_limits
load_config_set unreadable = none
load_config_set blank = none
load_config_set undecodable = none
load_config_set (decoded p) = some (record {
  member = sanitize_limits p.member fallback_member_config;
  non_member = sanitize_limits p.non_member fallback_non_member_config;
})

-- `none` for a nil cache service. An entry counts only with both limits positive.
abbrev pub usable : TaskLimitsConfig → Option TaskLimitsConfig
usable c = if ltb_ℤ (pos 0) c.max_queue_size && ltb_ℤ (pos 0) c.max_concurrent then some c else none

abbrev pub entry : Bool → Cache → Option TaskLimitsConfig
entry true c = c.member
entry false c = c.non_member

abbrev pub usable_entry : Option TaskLimitsConfig → Option TaskLimitsConfig
usable_entry none = none
usable_entry (some x) = usable x

unfoldable pub load_from_cache : Option Cache → Bool → Option TaskLimitsConfig
load_from_cache none is_member = none
load_from_cache (some c) is_member = usable_entry (entry is_member c)

abbrev pub persist_to_cache : Option Cache → TaskLimitsConfigSet → Option Cache
persist_to_cache none s = none
persist_to_cache (some c) s =
    some (record { member = some s.member; non_member = some s.non_member })

abbrev pub choose : Bool → TaskLimitsConfigSet → TaskLimitsConfig
choose true s = s.member
choose false s = s.non_member

-- What `LoadConfig` returns after the read of the stored set, and the cache then.
abbrev pub with_set :
    Option Cache → Bool → Option TaskLimitsConfigSet → TaskLimitsConfig × Option Cache
with_set cache is_member none = (get_fallback_config is_member, cache)
with_set cache is_member (some s) = (choose is_member s, persist_to_cache cache s)

abbrev pub with_cached :
    Stored → Option Cache → Bool → Option TaskLimitsConfig → TaskLimitsConfig × Option Cache
with_cached stored cache is_member (some c) = (c, cache)
with_cached stored cache is_member none = with_set cache is_member (load_config_set stored)

-- The stored value is `none` for a nil config service.
unfoldable pub load_config : Option Stored → Option Cache → Bool → TaskLimitsConfig × Option Cache
unfolding load_from_cache load_config_set
load_config none cache is_member = (get_fallback_config is_member, cache)
load_config (some stored) cache is_member =
    with_cached stored cache is_member (load_from_cache cache is_member)
