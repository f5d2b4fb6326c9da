-- ===== src/Quota/Reconciler/Scan/Ends.antt =====
-- A round ends, on enough fuel for the cursors of Redis.
use genioai_wxmini_server.Base.{
  ℕ, String, zero, suc, ◌+◌, ◌<◌, Bool, false, Option, none, some, List, [], ◌∷◌, ◌++◌, length, pos,
  ◌≤ℤ◌, ◌==◌, ◌||◌, ◌≡◌, ◌≢◌, refl, ap, subst, inl, inr, ◌⊎◌, arith, Bool-cases,
}
use genioai_wxmini_server.Quota.Reconciler.Scan.{
  Job, Page, failed, page, Round, is_full, send_members, Sent, prepend, after_sscan,
  scan_tasks_in_key, after_key, scan_if_user, scan_keys, after_keys, after_scan, scan_redis_keys,
  parse_user_id_from_key,
}
use genioai_wxmini_server.Quota.Reconciler.Scan.Bounded.{
  IsWithin, AreWithin, scan_redis_keys-AreWithin,
}

-- Each cursor that is not 0 is of less rank than the one it was asked with, so an iteration comes to
-- its end, as SCAN and SSCAN promise for a set of keys or members that does not keep growing.
abbrev pub Descends : (ℕ → ℕ → Page) → (ℕ → ℕ) → Type 0
Descends scan rank =
    (n c : ℕ) (members : List String) (next : ℕ)
    → scan n c ≡ page members next
    → next ≢ 0
    → rank next < rank c

abbrev pub Ends : Option Sent → Type 0
Ends o = (jobs : List Job) × (n : ℕ) × (o ≡ some (jobs, n))

prepend-Ends : (jobs : List Job) (o : Option Sent) → Ends o → Ends (prepend jobs o)
prepend-Ends jobs o (more, n, e) = (jobs ++ more, n, ap (prepend jobs) e)

more_cursors : (full : Bool) (next : ℕ) → (full || next == 0) ≡ false → next ≢ 0
more_cursors full next h e = ground arith

module _ (r : Round) where
  scan_tasks_in_key-Ends :
      (rank : ℕ → ℕ) (fuel : ℕ) (key user_id : String) (c p n : ℕ)
      → Descends (λ n c. r.sscan n key c) rank
      → rank c < fuel
      → Ends (scan_tasks_in_key fuel r key user_id c p n)
  unfolding scan_tasks_in_key
  scan_tasks_in_key-Ends rank zero key user_id c p n d h = absurd (omega arith)
  scan_tasks_in_key-Ends rank (suc fuel) key user_id c p n d h =
      at (r.sscan n key c) refl
        (λ c' p' m less. scan_tasks_in_key-Ends rank fuel key user_id c' p' m d (omega arith))
    where
      rest : ℕ → ℕ → ℕ → Option Sent
      rest c' p' m = scan_tasks_in_key fuel r key user_id c' p' m

      at :
          (answer : Page)
          → r.sscan n key c ≡ answer
          → ((c' p' m : ℕ) → rank c' < rank c → Ends (scan_tasks_in_key fuel r key user_id c' p' m))
          → Ends (
              after_sscan r user_id p
                (suc n)
                (λ c' p' m. scan_tasks_in_key fuel r key user_id c' p' m)
                answer)
      at failed q f = ([], suc n, refl)
      at (page members next) q f =
          let b = send_members r user_id members p (suc n) in
          elim (Bool-cases b.returned) [
            | inl e ↦ simp e (b.jobs, b.ticks, refl)
            | inr e ↦ elim (Bool-cases (is_full r (p + length b.jobs) || next == 0)) [
              | inl full ↦ simp (e, full) (b.jobs, b.ticks, refl)
              | inr room ↦
                  simp (e, room)
                    (prepend-Ends b.jobs
                      (scan_tasks_in_key fuel r key user_id next (p + length b.jobs) b.ticks)
                      (f next (p + length b.jobs) b.ticks (
                        d n c members next q
                          (more_cursors (is_full r (p + length b.jobs)) next room))))
            ]
          ]

  module _ (rank : String → ℕ → ℕ) (fuel : ℕ)
      (d : (key : String) → Descends (λ n c. r.sscan n key c) (rank key))
      (enough : (key : String) → rank key 0 < fuel) where
    scan_keys-Ends : (keys : List String) (p n : ℕ) → Ends (scan_keys fuel r keys p n)
    unfolding scan_keys
    scan_keys-Ends [] p n = ([], n, refl)
    scan_keys-Ends (key ∷ keys) p n =
        at (λ q m. scan_keys-Ends keys q m) (parse_user_id_from_key key r.key_prefix r.key_suffix)
      where
        joined :
            ((q m : ℕ) → Ends (scan_keys fuel r keys q m))
            → (o : Option Sent) → Ends o
            → Ends (after_key r p (λ q m. scan_keys fuel r keys q m) o)
        joined f none (jobs, m, e) = absurd (ground arith)
        joined f (some (jobs, m)) g = elim (Bool-cases (is_full r (p + length jobs))) [
          | inl full ↦ simp full (jobs, m, refl)
          | inr room ↦ simp room (
              prepend-Ends jobs (scan_keys fuel r keys (p + length jobs) m) (f (p + length jobs) m))
        ]

        at :
            ((q m : ℕ) → Ends (scan_keys fuel r keys q m))
            → (u : Option String)
            → Ends (scan_if_user fuel r key p n (λ q m. scan_keys fuel r keys q m) u)
        at f none = f p n
        at f (some user_id) =
            joined f (scan_tasks_in_key fuel r key user_id 0 p n)
              (scan_tasks_in_key-Ends (rank key) fuel key user_id 0 p n (d key) (enough key))

    scan_redis_keys-Ends :
        (key_rank : ℕ → ℕ) (outer c p n : ℕ)
        → Descends r.scan key_rank
        → key_rank c < outer
        → Ends (scan_redis_keys outer fuel r c p n)
    unfolding scan_redis_keys
    scan_redis_keys-Ends key_rank zero c p n g h = absurd (omega arith)
    scan_redis_keys-Ends key_rank (suc outer) c p n g h =
        let rest =
          at (r.scan (suc n) c) refl
            (λ c' p' m less. scan_redis_keys-Ends key_rank outer c' p' m g (omega arith)) in
        elim (Bool-cases (r.is_done n)) [ inl e ↦ simp e ([], suc n, refl) | inr e ↦ simp e rest ]
      where
        at :
            (answer : Page)
            → r.scan (suc n) c ≡ answer
            → ((c' p' m : ℕ)
                → key_rank c' < key_rank c
                → Ends (scan_redis_keys outer fuel r c' p' m))
            → Ends (
                after_scan fuel r p
                  (suc (suc n))
                  (λ c' p' m. scan_redis_keys outer fuel r c' p' m)
                  answer)
        at failed q f = ([], suc (suc n), refl)
        at (page keys next) q f =
            joined (scan_keys fuel r keys p (suc (suc n))) (scan_keys-Ends keys p (suc (suc n)))
          where
            joined :
                (o : Option Sent)
                → Ends o
                → Ends (after_keys r p next (λ c' p' m. scan_redis_keys outer fuel r c' p' m) o)
            joined none (jobs, m, e) = absurd (ground arith)
            joined (some (jobs, m)) k =
                elim (Bool-cases (is_full r (p + length jobs) || next == 0)) [
                  | inl full ↦ simp full (jobs, m, refl)
                  | inr room ↦ simp room (
                      prepend-Ends jobs (scan_redis_keys outer fuel r next (p + length jobs) m) (
                        f next (p + length jobs) m (
                          g (suc n) c keys next q
                            (more_cursors (is_full r (p + length jobs)) next room))))
                ]

-- A round of the reconciler ends, and sends at most `MaxTasksPerRound` jobs, none for a limit of 0 or
-- less. Assumed: the cursors of SCAN and of SSCAN descend, and the fuel of each loop exceeds the rank
-- of its first cursor, which is the number of pages at most.
pub scan_redis_keys-ends :
    (r : Round) (rank : String → ℕ → ℕ) (key_rank : ℕ → ℕ) (outer fuel n : ℕ)
    → ((key : String) → Descends (λ n c. r.sscan n key c) (rank key))
    → ((key : String) → rank key 0 < fuel)
    → Descends r.scan key_rank
    → key_rank 0 < outer
    → (jobs : List Job) × (m : ℕ) × (scan_redis_keys outer fuel r 0 0 n ≡ some (jobs, m))
      × ((jobs ≡ []) ⊎ (pos (length jobs) ≤ℤ r.max_tasks_per_round))
scan_redis_keys-ends r rank key_rank outer fuel n d enough g h =
    let (jobs, m, e) = scan_redis_keys-Ends r rank fuel d enough key_rank outer 0 0 n g h in
    let within = subst (AreWithin r 0) e (scan_redis_keys-AreWithin r outer fuel 0 0 n) in
    (jobs, m, e, limit jobs within)
  where
    limit :
        (jobs : List Job)
        → IsWithin r 0 jobs
        → (jobs ≡ []) ⊎ (pos (length jobs) ≤ℤ r.max_tasks_per_round)
    limit jobs (inl e) = inl e
    limit jobs (inr k) = inr (omega arith)
