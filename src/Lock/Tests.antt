-- ===== src/Lock/Tests.antt =====
-- Two clients of one lock.
use genioai_wxmini_server.Base.{
  str_eq, if◌then◌else◌, true, none, some, [], ◌∷◌, ◌≡◌, ◌⊎◌, refl, arith,
}
use genioai_wxmini_server.Lock.{
  answered, lost, Redis, acquire_lock_failed, redis_failed, lock_not_held, ok, err, LockManager,
  new_distributed_lock_manager, set_renewal_ttl, acquire_lock, release_lock, renew, start_renewal,
  pass,
}
use genioai_wxmini_server.Lock.Exclusion.{releases, passes, here, then_step, acquire_lock-exclusive}

abbrev manager : LockManager
manager = set_renewal_ttl 20 (new_distributed_lock_manager "sync")

abbrev redis : Redis
redis = record { entries = λ k. none; now = 100; drawn = 0; calls = answered ∷ lost true ∷ [] }

abbrev locked : Redis
locked = record {
  entries =
      λ k. if str_eq "sync:job" k then some (record { value = 0; expires_at = 115 }) else none;
  now = 100;
  drawn = 1;
  calls = lost true ∷ [];
}

-- Another client's release is lost, and ten seconds pass.
abbrev later : Redis
later = pass 10 (release_lock manager "job" 7 locked).1

first_acquires : acquire_lock manager "job" 15 redis ≡ (ok 0, locked)
unfolding acquire_lock
first_acquires = refl

acquire_lock-exclusive_example :
    ((acquire_lock manager "job" 15 later).0 ≡ err acquire_lock_failed)
    ⊎ ((acquire_lock manager "job" 15 later).0 ≡ err redis_failed)
unfolding release_lock
acquire_lock-exclusive_example =
    acquire_lock-exclusive manager manager "job" "job" 15 15 redis 0 locked later first_acquires
      (then_step (then_step here (releases manager "job" 7 (λ h. ground arith))) (passes 10))
      (omega arith) refl

-- The holder renews, and after its release the lock is free again.
renewed_and_released :
    ((renew manager "job" 0 (record locked { calls = [] })).0 ≡ ok tt)
    × ((start_renewal manager "job" 7 (record locked { calls = [] })).0 ≡ err lock_not_held)
    × ((release_lock manager "job" 0 (record locked { calls = [] })).1.entries "sync:job" ≡ none)
unfolding renew start_renewal release_lock
renewed_and_released = (refl, refl, refl)
