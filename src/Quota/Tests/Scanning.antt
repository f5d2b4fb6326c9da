-- ===== src/Quota/Tests/Scanning.antt =====
-- A round of the reconciler over two keys, of which one belongs to no user.
use genioai_wxmini_server.Base.{
  ℕ, zero, suc, false, some, List, [], ◌∷◌, length, pos, ◌≤ℤ◌, ◌≡◌, ◌⊎◌, refl, arith,
}
use genioai_wxmini_server.Quota.Reconciler.Scan.{
  Job, Page, page, Round, scan_redis_keys, scan_keys, scan_tasks_in_key, send_members,
  parse_user_id_from_key,
}
use genioai_wxmini_server.Quota.Reconciler.Scan.Ends.{Descends, scan_redis_keys-ends}

abbrev members : ℕ → Page
members zero = page ("a" ∷ "b" ∷ []) 7
members (suc c) = page ("c" ∷ "d" ∷ []) 0

abbrev keys : ℕ → Page
keys zero = page ("visionai:queue::tasks" ∷ "visionai:queue:u:tasks" ∷ []) 5
keys (suc c) = page [] 0

abbrev round : Round
round = record {
  max_tasks_per_round = pos 3;
  key_prefix = "visionai:queue:";
  key_suffix = ":tasks";
  scan = λ n c. keys c;
  sscan = λ n key c. members c;
  is_done = λ n. false;
}

abbrev rank : ℕ → ℕ
rank zero = 1
rank (suc c) = 0

keys-Descends : Descends (λ n c. keys c) rank
keys-Descends n zero ms zero e h = absurd (h refl)
keys-Descends n zero ms (suc k) e h = ground arith
keys-Descends n (suc c) ms next e h = absurd (h (ground arith))

members-Descends : Descends (λ n c. members c) rank
members-Descends n zero ms zero e h = absurd (h refl)
members-Descends n zero ms (suc k) e h = ground arith
members-Descends n (suc c) ms next e h = absurd (h (ground arith))

scan_redis_keys-ends_example :
    (jobs : List Job) × (m : ℕ) × (scan_redis_keys 2 2 round 0 0 0 ≡ some (jobs, m))
    × ((jobs ≡ []) ⊎ (pos (length jobs) ≤ℤ pos 3))
scan_redis_keys-ends_example =
    scan_redis_keys-ends round (λ key. rank) rank 2 2 0 (λ key. members-Descends)
      (λ key. ground arith) keys-Descends (ground arith)

-- The fourth task is left for another round.
three_jobs :
    scan_redis_keys 2 2 round 0 0 0
    ≡ some (
      (record { user_id = "u"; task_id = "a" })
          ∷ (record { user_id = "u"; task_id = "b" })
          ∷ (record { user_id = "u"; task_id = "c" })
          ∷ [],
      8,
    )
unfolding scan_redis_keys scan_keys scan_tasks_in_key send_members parse_user_id_from_key
three_jobs = refl
