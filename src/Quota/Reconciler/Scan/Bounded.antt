-- ===== src/Quota/Reconciler/Scan/Bounded.antt =====
-- A round sends no more jobs than its limit.
use genioai_wxmini_server.Base.{
  ℕ, String, zero, suc, ◌+◌, false, Option, none, some, List, [], ◌∷◌, ◌++◌, length, pos, ◌≤ℤ◌,
  ◌==◌, ◌||◌, ◌≡◌, refl, sym, ap, subst, inl, inr, ◌⊎◌, arith, Bool-cases,
}
use genioai_wxmini_server.Quota.Reconciler.Scan.{
  Job, Page, failed, page, Round, is_full, Batch, send_members, Sent, prepend, after_members,
  after_sscan, scan_tasks_in_key, after_key, scan_if_user, scan_keys, after_keys, after_scan,
  scan_redis_keys, parse_user_id_from_key,
}

-- After `processed` jobs these are none, or still within the limit.
abbrev pub IsWithin : Round → ℕ → List Job → Type 0
IsWithin r processed jobs = (jobs ≡ []) ⊎ (pos (processed + length jobs) ≤ℤ r.max_tasks_per_round)

-- The same of a result, if there is one.
abbrev pub AreWithin : Round → ℕ → Option Sent → Type 0
AreWithin r processed none = Unit
AreWithin r processed (some (jobs, n)) = IsWithin r processed jobs

length-append : (a b : List Job) → length (a ++ b) ≡ length a + length b
length-append [] b = omega arith
length-append (x ∷ a) b = let rest = length-append a b in omega arith

append_nil : (a : List Job) → a ++ [] ≡ a
append_nil [] = refl
append_nil (x ∷ a) = ap (λ xs. x ∷ xs) (append_nil a)

append-IsWithin :
    (r : Round) (p : ℕ) (a b : List Job)
    → IsWithin r p a
    → IsWithin r (p + length a) b
    → IsWithin r p (a ++ b)
append-IsWithin r p a b h (inl e) =
    subst (λ xs. IsWithin r p (a ++ xs)) (sym e) (subst (IsWithin r p) (sym (append_nil a)) h)
append-IsWithin r p a b h (inr k) = (let e = length-append a b in inr (omega arith))

module _ (r : Round) where
  with_job-IsWithin :
      (p : ℕ) (j : Job) (jobs : List Job)
      → is_full r p ≡ false
      → IsWithin r (suc p) jobs
      → IsWithin r p (j ∷ jobs)
  with_job-IsWithin p j jobs room (inl e) = inr (rw e (ground arith))
  with_job-IsWithin p j jobs room (inr k) = inr (omega arith)

  send_members-IsWithin :
      (user_id : String) (members : List String) (p n : ℕ)
      → IsWithin r p (send_members r user_id members p n).jobs
  unfolding send_members
  send_members-IsWithin user_id [] p n = inl refl
  send_members-IsWithin user_id (t ∷ ts) p n =
      let rest = send_members-IsWithin user_id ts (suc p) (suc n) in
      elim (Bool-cases (r.is_done n)) [
        | inl e ↦ simp e (inl refl)
        | inr e ↦ elim (Bool-cases (is_full r p)) [
          | inl full ↦ simp (e, full) (inl refl)
          | inr room ↦
              simp (e, room)
                (with_job-IsWithin p (record { user_id = user_id; task_id = t }) _ room rest)
        ]
      ]

  prepend-AreWithin :
      (p : ℕ) (jobs : List Job) (o : Option Sent)
      → IsWithin r p jobs
      → AreWithin r (p + length jobs) o
      → AreWithin r p (prepend jobs o)
  prepend-AreWithin p jobs none h k = tt
  prepend-AreWithin p jobs (some (more, n)) h k = append-IsWithin r p jobs more h k

  -- Results of the loops, given that the rest of the loop is within the limit.
  abbrev Rest : Type 0
  Rest = ℕ → ℕ → ℕ → Option Sent

  abbrev AllWithin : Rest → Type 0
  AllWithin rest = (c p n : ℕ) → AreWithin r p (rest c p n)

  after_members-AreWithin :
      (p next : ℕ) (rest : Rest) (b : Batch)
      → AllWithin rest
      → IsWithin r p b.jobs
      → AreWithin r p (after_members r p next rest b)
  after_members-AreWithin p next rest b f h = elim (Bool-cases b.returned) [
    | inl e ↦ simp e h
    | inr e ↦ elim (Bool-cases (is_full r (p + length b.jobs) || next == 0)) [
      | inl full ↦ simp (e, full) h
      | inr room ↦
          simp (e, room)
            (prepend-AreWithin p b.jobs (rest next (p + length b.jobs) b.ticks) h
              (f next (p + length b.jobs) b.ticks))
    ]
  ]

  after_sscan-AreWithin :
      (user_id : String) (p n : ℕ) (rest : Rest) (answer : Page)
      → AllWithin rest
      → AreWithin r p (after_sscan r user_id p n rest answer)
  after_sscan-AreWithin user_id p n rest failed f = inl refl
  after_sscan-AreWithin user_id p n rest (page members next) f =
      after_members-AreWithin p next rest (send_members r user_id members p n) f
        (send_members-IsWithin user_id members p n)

  scan_tasks_in_key-AreWithin :
      (fuel : ℕ) (key user_id : String) (c p n : ℕ)
      → AreWithin r p (scan_tasks_in_key fuel r key user_id c p n)
  unfolding scan_tasks_in_key
  scan_tasks_in_key-AreWithin zero key user_id c p n = tt
  scan_tasks_in_key-AreWithin (suc fuel) key user_id c p n =
      after_sscan-AreWithin user_id p (suc n)
        (λ c' p' m. scan_tasks_in_key fuel r key user_id c' p' m) (r.sscan n key c)
        (λ c' p' m. scan_tasks_in_key-AreWithin fuel key user_id c' p' m)

  after_key-AreWithin :
      (p : ℕ) (rest : ℕ → ℕ → Option Sent) (o : Option Sent)
      → ((q m : ℕ) → AreWithin r q (rest q m))
      → AreWithin r p o
      → AreWithin r p (after_key r p rest o)
  after_key-AreWithin p rest none f h = tt
  after_key-AreWithin p rest (some (jobs, n)) f h =
      elim (Bool-cases (is_full r (p + length jobs))) [
        | inl full ↦ simp full h
        | inr room ↦
            simp room
              (prepend-AreWithin p jobs (rest (p + length jobs) n) h (f (p + length jobs) n))
      ]

  scan_keys-AreWithin :
      (fuel : ℕ) (keys : List String) (p n : ℕ) → AreWithin r p (scan_keys fuel r keys p n)
  unfolding scan_keys
  scan_keys-AreWithin fuel [] p n = inl refl
  scan_keys-AreWithin fuel (key ∷ keys) p n =
      at (λ q m. scan_keys-AreWithin fuel keys q m)
        (parse_user_id_from_key key r.key_prefix r.key_suffix)
    where
      at :
          ((q m : ℕ) → AreWithin r q (scan_keys fuel r keys q m))
          → (u : Option String)
          → AreWithin r p (scan_if_user fuel r key p n (λ q m. scan_keys fuel r keys q m) u)
      at f none = f p n
      at f (some user_id) =
          after_key-AreWithin p (λ q m. scan_keys fuel r keys q m)
            (scan_tasks_in_key fuel r key user_id 0 p n) f
            (scan_tasks_in_key-AreWithin fuel key user_id 0 p n)

  after_scan-AreWithin :
      (fuel p n : ℕ) (rest : Rest) (answer : Page)
      → AllWithin rest
      → AreWithin r p (after_scan fuel r p n rest answer)
  after_scan-AreWithin fuel p n rest failed f = inl refl
  after_scan-AreWithin fuel p n rest (page keys next) f =
      at (scan_keys fuel r keys p n) (scan_keys-AreWithin fuel keys p n)
    where
      at : (o : Option Sent) → AreWithin r p o → AreWithin r p (after_keys r p next rest o)
      at none h = tt
      at (some (jobs, m)) h = elim (Bool-cases (is_full r (p + length jobs) || next == 0)) [
        | inl full ↦ simp full h
        | inr room ↦ simp room (
            prepend-AreWithin p jobs (rest next (p + length jobs) m) h (f next (p + length jobs) m))
      ]

  pub scan_redis_keys-AreWithin :
      (outer fuel c p n : ℕ) → AreWithin r p (scan_redis_keys outer fuel r c p n)
  unfolding scan_redis_keys
  scan_redis_keys-AreWithin zero fuel c p n = tt
  scan_redis_keys-AreWithin (suc outer) fuel c p n =
      let rest =
        after_scan-AreWithin fuel p (suc (suc n)) (λ c' p' m. scan_redis_keys outer fuel r c' p' m)
          (r.scan (suc n) c) (λ c' p' m. scan_redis_keys-AreWithin outer fuel c' p' m) in
      elim (Bool-cases (r.is_done n)) [ inl e ↦ simp e (inl refl) | inr e ↦ simp e rest ]
