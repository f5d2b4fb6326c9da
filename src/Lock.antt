-- ===== src/Lock.antt =====
-- internal/common/distributed_lock.go: DistributedLockManager, on the keys of Redis with their
-- expiry.
pub mod Exclusion
mod Tests
use genioai_wxmini_server.Base.{
  ℕ, ℤ, String, suc, ◌+◌, ◌*◌, Bool, true, false, Option, none, some, List, [], ◌∷◌, ltb, ◌==◌,
  str_eq, append_text, if◌then◌else◌, ltb_ℤ, pos,
}

-- A value of `uuid.New` is its number, and a key is gone at its time of expiry.
pub record Entry : Type 0 where
  pub value : ℕ
  pub expires_at : ℕ

-- What happens to a call of Redis: `lost` says whether it ran although no reply came.
pub data Call : Type 0 where
  answered : Call
  lost : Bool → Call

pub record Redis : Type 0 where
  pub entries : String → Option Entry
  pub now : ℕ
  pub drawn : ℕ  -- calls of `uuid.New` so far
  pub calls : List Call  -- the calls to come; the end of the list is `answered`

pub data LockError : Type 0 where
  acquire_lock_failed lock_not_held redis_failed : LockError

pub data Answer (A : Type 0) : Type 0 where
  ok : A → Answer A
  err : LockError → Answer A

-- `DistributedLockManager`
pub record LockManager : Type 0 where
  pub lock_prefix : String
  pub renewal_ttl : ℕ

abbrev pub default_lock_ttl : ℕ
default_lock_ttl = 30

abbrev pub new_distributed_lock_manager : String → LockManager
new_distributed_lock_manager lock_prefix = record {
  lock_prefix = lock_prefix;
  renewal_ttl = default_lock_ttl;
}

abbrev pub set_renewal_ttl : ℕ → LockManager → LockManager
set_renewal_ttl ttl lm = if ltb 0 ttl then record lm { renewal_ttl = ttl } else lm

abbrev pub lock_key : LockManager → String → String
lock_key lm resource_id = append_text lm.lock_prefix (append_text ":" resource_id)

-- What Redis has at a key now.
abbrev pub live : ℕ → Option Entry → Option Entry
live now none = none
live now (some e) = if ltb now e.expires_at then some e else none

abbrev pub set_entry : String → Option Entry → (String → Option Entry) → (String → Option Entry)
set_entry key e entries k = if str_eq key k then e else entries k

-- The next call.
abbrev pub after_call : List Call → Redis → Call × Redis
after_call [] r = (answered, r)
after_call (c ∷ rest) r = (c, record r { calls = rest })

unfoldable pub call : Redis → Call × Redis
call r = after_call r.calls r

abbrev pub write : String → Option Entry → Redis → Redis
write key e r = record r { entries = set_entry key e r.entries }

-- SET NX: whether the key was set.
abbrev pub set_nx_at : String → ℕ → ℕ → Option Entry → Redis → Bool × Redis
set_nx_at key value ttl none r =
    (true, write key (some (record { value = value; expires_at = r.now + ttl })) r)
set_nx_at key value ttl (some e) r = (false, r)

abbrev pub set_nx : String → ℕ → ℕ → Redis → Bool × Redis
set_nx key value ttl r = set_nx_at key value ttl (live r.now (r.entries key)) r

abbrev pub of_set_nx : ℕ → Bool × Redis → Answer ℕ × Redis
of_set_nx value (true, r) = (ok value, r)
of_set_nx value (false, r) = (err acquire_lock_failed, r)

abbrev pub acquire_at : String → ℕ → ℕ → Call × Redis → Answer ℕ × Redis
acquire_at key value ttl (answered, r) = of_set_nx value (set_nx key value ttl r)
acquire_at key value ttl (lost executed, r) =
    (err redis_failed, if executed then (set_nx key value ttl r).1 else r)

unfoldable pub acquire_lock : LockManager → String → ℕ → Redis → Answer ℕ × Redis
unfolding call
acquire_lock lm resource_id ttl r =
    acquire_at (lock_key lm resource_id) r.drawn ttl (call (record r { drawn = suc r.drawn }))

-- The two scripts compare the value at the key first; the result is their reply.
abbrev pub if_owner : ℕ → Option Entry → (Entry → Redis) → Redis → Bool × Redis
if_owner value none f r = (false, r)
if_owner value (some e) f r = if e.value == value then (true, f e) else (false, r)

abbrev pub delete_script : String → ℕ → Redis → Bool × Redis
delete_script key value r = if_owner value (live r.now (r.entries key)) (λ e. write key none r) r

abbrev pub expire_script : String → ℕ → ℕ → Redis → Bool × Redis
expire_script key value ttl r =
    if_owner value (live r.now (r.entries key))
      (λ e. write key (some (record e { expires_at = r.now + ttl })) r) r

abbrev pub of_script : Bool × Redis → Answer (Unit {0}) × Redis
of_script (true, r) = (ok tt, r)
of_script (false, r) = (err lock_not_held, r)

abbrev pub eval : (Redis → Bool × Redis) → Call × Redis → Answer (Unit {0}) × Redis
eval script (answered, r) = of_script (script r)
eval script (lost executed, r) = (err redis_failed, if executed then (script r).1 else r)

unfoldable pub release_lock : LockManager → String → ℕ → Redis → Answer (Unit {0}) × Redis
unfolding call
release_lock lm resource_id lock_value r =
    eval (delete_script (lock_key lm resource_id) lock_value) (call r)

-- The check at the start of `StartRenewal`.
abbrev pub held_by : ℕ → Option Entry → Answer (Unit {0})
held_by value none = err lock_not_held
held_by value (some e) = if e.value == value then ok tt else err lock_not_held

abbrev pub start_at : String → ℕ → Call × Redis → Answer (Unit {0}) × Redis
start_at key value (answered, r) = (held_by value (live r.now (r.entries key)), r)
start_at key value (lost executed, r) = (err redis_failed, r)

unfoldable pub start_renewal : LockManager → String → ℕ → Redis → Answer (Unit {0}) × Redis
unfolding call
start_renewal lm resource_id lock_value r = start_at (lock_key lm resource_id) lock_value (call r)

-- One tick of the goroutine that `StartRenewal` starts; it stops when the lock is no longer its own.
unfoldable pub renew : LockManager → String → ℕ → Redis → Answer (Unit {0}) × Redis
unfolding call
renew lm resource_id lock_value r =
    eval (expire_script (lock_key lm resource_id) lock_value lm.renewal_ttl) (call r)

abbrev pub pass : ℕ → Redis → Redis
pass d r = record r { now = r.now + d }
