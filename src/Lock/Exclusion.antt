-- ===== src/Lock/Exclusion.antt =====
-- A lock that has been acquired stays its holder's until it expires.
use genioai_wxmini_server.Base.{
  ℕ, String, suc, ◌+◌, ◌<◌, Bool, true, false, Option, none, some, List, [], ◌∷◌, ◌==◌, ==_iff,
  str_eq, str_eq_self, eq_iff, ◌≡◌, ◌≢◌, refl, sym, ap, subst, ◌∙◌, inl, inr, ◌⊎◌, arith,
  Bool-cases, some_eq,
}
use genioai_wxmini_server.Lock.{
  Entry, Call, answered, lost, Redis, acquire_lock_failed, redis_failed, Answer, ok, err,
  LockManager, lock_key, live, set_entry, after_call, call, write, set_nx_at, set_nx, of_set_nx,
  acquire_at, acquire_lock, if_owner, delete_script, expire_script, of_script, eval, release_lock,
  renew, pass,
}

-- What the other holders and time can do to Redis while the holder of `value` does nothing.
pub data Step (value : ℕ) (r : Redis) : Redis → Type 0 where
  acquires :
      (lm : LockManager) (resource_id : String) (ttl : ℕ)
      → Step value r (acquire_lock lm resource_id ttl r).1
  releases :
      (lm : LockManager) (resource_id : String) (other : ℕ)
      → other ≢ value
      → Step value r (release_lock lm resource_id other r).1
  renews :
      (lm : LockManager) (resource_id : String) (other : ℕ)
      → other ≢ value
      → Step value r (renew lm resource_id other r).1
  passes : (d : ℕ) → Step value r (pass d r)

pub data Reaches (value : ℕ) (r : Redis) : Redis → Type 0 where
  here : Reaches value r r
  then_step :
      {mid after : Redis} → Reaches value r mid → Step value mid after → Reaches value r after

-- The entry at the key, as long as it is not expired.
abbrev pub Holds : String → Entry → Redis → Type 0
Holds key e r = r.now < e.expires_at → r.entries key ≡ some e

live_held :
    (key : String) (e : Entry) (r : Redis)
    → Holds key e r
    → r.now < e.expires_at
    → live r.now (r.entries key) ≡ some e
live_held key e r h early = ap (live r.now) (h early) ∙ still
  where
    still : live r.now (some e) ≡ some e
    still = ground arith

-- Setting another key, or this one when it is taken, changes nothing at this key.
set_nx-Holds :
    (key k : String) (e : Entry) (value ttl : ℕ) (r : Redis)
    → Holds key e r
    → Holds key e (set_nx k value ttl r).1
set_nx-Holds key k e value ttl r h = at (live r.now (r.entries k)) refl
  where
    at :
        (o : Option Entry)
        → live r.now (r.entries k) ≡ o
        → Holds key e (set_nx_at k value ttl o r).1
    at (some f) q = h
    at none q = λ early. elim (Bool-cases (str_eq k key)) [
      | inl same ↦ absurd (
          clash (
            sym q
            ∙ (ap (λ z. live r.now (r.entries z)) ((eq_iff k key).0 same)
                ∙ live_held key e r h early)))
      | inr other ↦ simp other (h early)
    ]
      where
        clash : none ≡ some e → ⊥
        clash c = ground arith

-- A script of another value changes nothing at this key.
if_owner-Holds :
    (key k : String) (e : Entry) (other : ℕ) (r : Redis) (new : Entry → Option Entry)
    → other ≢ e.value
    → Holds key e r
    → Holds key e (if_owner other (live r.now (r.entries k)) (λ f. write k (new f) r) r).1
if_owner-Holds key k e other r new foreign h = at (live r.now (r.entries k)) refl
  where
    at :
        (o : Option Entry)
        → live r.now (r.entries k) ≡ o
        → Holds key e (if_owner other o (λ f. write k (new f) r) r).1
    at none q = h
    at (some f) q = elim (Bool-cases (f.value == other)) [
      | inr foreign_value ↦ simp foreign_value h
      | inl own ↦ simp own (λ early. elim (Bool-cases (str_eq k key)) [
        | inl same ↦ absurd (
            foreign (
              sym ((==_iff f.value other).0 own)
              ∙ ap (λ z. z.value)
                  (some_eq f e (
                    sym q
                    ∙ (ap (λ z. live r.now (r.entries z)) ((eq_iff k key).0 same)
                        ∙ live_held key e r h early)))))
        | inr apart ↦ simp apart (h early)
      ])
    ]

call-entries : (r : Redis) → ((call r).1.entries ≡ r.entries) × ((call r).1.now ≡ r.now)
unfolding call
call-entries r = at r.calls
  where
    at :
        (cs : List Call)
        → ((after_call cs r).1.entries ≡ r.entries) × ((after_call cs r).1.now ≡ r.now)
    at [] = (refl, refl)
    at (c ∷ rest) = (refl, refl)

call-Holds : (key : String) (e : Entry) (r : Redis) → Holds key e r → Holds key e (call r).1
call-Holds key e r h early =
    let (same, time) = call-entries r in
    ap (λ f. f key) same ∙ h (subst (λ n. n < e.expires_at) time early)

acquire_at-Holds :
    (key k : String) (e : Entry) (value ttl : ℕ) (x : Call × Redis)
    → Holds key e x.1
    → Holds key e (acquire_at k value ttl x).1
acquire_at-Holds key k e value ttl (answered, r) h =
    replied (set_nx k value ttl r) (set_nx-Holds key k e value ttl r h)
  where
    replied : (x : Bool × Redis) → Holds key e x.1 → Holds key e (of_set_nx value x).1
    replied (true, r) g = g
    replied (false, r) g = g
acquire_at-Holds key k e value ttl (lost true, r) h = set_nx-Holds key k e value ttl r h
acquire_at-Holds key k e value ttl (lost false, r) h = h

eval-Holds :
    (key : String) (e : Entry) (script : Redis → Bool × Redis) (x : Call × Redis)
    → ((r : Redis) → Holds key e r → Holds key e (script r).1)
    → Holds key e x.1
    → Holds key e (eval script x).1
eval-Holds key e script (answered, r) f h = replied (script r) (f r h)
  where
    replied : (x : Bool × Redis) → Holds key e x.1 → Holds key e (of_script x).1
    replied (true, r) g = g
    replied (false, r) g = g
eval-Holds key e script (lost true, r) f h = f r h
eval-Holds key e script (lost false, r) f h = h

Step-Holds :
    (key : String) (e : Entry) (r : Redis) {r' : Redis}
    → Step e.value r r'
    → Holds key e r
    → Holds key e r'
unfolding acquire_lock release_lock renew
Step-Holds key e r (acquires lm resource_id ttl) h =
    acquire_at-Holds key (lock_key lm resource_id) e r.drawn ttl
      (call (record r { drawn = suc r.drawn }))
      (call-Holds key e (record r { drawn = suc r.drawn }) h)
Step-Holds key e r (releases lm resource_id other foreign) h =
    eval-Holds key e (delete_script (lock_key lm resource_id) other) (call r)
      (λ s g. if_owner-Holds key (lock_key lm resource_id) e other s (λ f. none) foreign g)
      (call-Holds key e r h)
Step-Holds key e r (renews lm resource_id other foreign) h =
    eval-Holds key e (expire_script (lock_key lm resource_id) other lm.renewal_ttl) (call r)
      (λ s g.
        if_owner-Holds key (lock_key lm resource_id) e other s
          (λ f. some (record f { expires_at = s.now + lm.renewal_ttl })) foreign g)
      (call-Holds key e r h)
Step-Holds key e r (passes d) h = λ early. h (omega arith)

Reaches-Holds :
    (key : String) (e : Entry) (r : Redis) {r' : Redis}
    → Reaches e.value r r'
    → Holds key e r
    → Holds key e r'
Reaches-Holds key e r here h = h
Reaches-Holds key e r (then_step {mid} {after} rs s) h =
    Step-Holds key e mid s (Reaches-Holds key e r rs h)

set_entry_same :
    (key : String) (e : Option Entry) (entries : String → Option Entry)
    → set_entry key e entries key ≡ e
set_entry_same key e entries = rw (str_eq_self key) refl

-- What a successful call leaves at the key.
acquire_lock_ok :
    (lm : LockManager) (resource_id : String) (ttl : ℕ) (r : Redis) (v : ℕ) (r' : Redis)
    → acquire_lock lm resource_id ttl r ≡ (ok v, r')
    → r'.entries (lock_key lm resource_id) ≡ some (record { value = v; expires_at = r.now + ttl })
unfolding acquire_lock
acquire_lock_ok lm resource_id ttl r v r' h = at (call started) (call-entries started).1 h
  where
    started : Redis
    started = record r { drawn = suc r.drawn }

    key : String
    key = lock_key lm resource_id

    parts :
        (a b : ℕ) (s s' : Redis)
        → ◌≡◌ {A = Answer ℕ × Redis} (ok a, s) (ok b, s')
        → (a ≡ b) × (s ≡ s')
    parts a b s s' q = ground arith

    nx :
        (o : Option Entry) (s : Redis)
        → s.now ≡ r.now
        → of_set_nx r.drawn (set_nx_at key r.drawn ttl o s) ≡ (ok v, r')
        → r'.entries key ≡ some (record { value = v; expires_at = r.now + ttl })
    nx (some e) s t q = absurd (ground arith)
    nx none s t q =
        let e : Entry = record { value = r.drawn; expires_at = s.now + ttl } in
        let (drawn, whole) = parts r.drawn v (write key (some e) s) r' q in
        ap (λ z. z.entries key) (sym whole)
        ∙ (set_entry_same key (some e) s.entries
            ∙ (ap (λ n. some (record { value = n; expires_at = s.now + ttl })) drawn
                ∙ ap (λ n. some (record { value = v; expires_at = n + ttl })) t))

    at :
        (x : Call × Redis)
        → x.1.now ≡ r.now
        → acquire_at key r.drawn ttl x ≡ (ok v, r')
        → r'.entries key ≡ some (record { value = v; expires_at = r.now + ttl })
    at (answered, s) t q = nx (live s.now (s.entries key)) s t q
    at (lost executed, s) t q = absurd (ground arith)

-- A lock that a call has given is given to nobody else before its time is over: whatever other
-- clients acquire, release and renew, with calls that may be lost, and however time passes, another
-- call for the same key then ends in one of the two errors. Assumed: the holder itself makes no call,
-- nobody else uses its value, and the time to live has not passed.
pub acquire_lock-exclusive :
    (lm lm' : LockManager) (resource_id resource_id' : String) (ttl ttl' : ℕ) (r : Redis) (v : ℕ)
    (r1 r2 : Redis)
    → acquire_lock lm resource_id ttl r ≡ (ok v, r1)
    → Reaches v r1 r2
    → r2.now < r.now + ttl
    → lock_key lm' resource_id' ≡ lock_key lm resource_id
    → ((acquire_lock lm' resource_id' ttl' r2).0 ≡ err acquire_lock_failed)
      ⊎ ((acquire_lock lm' resource_id' ttl' r2).0 ≡ err redis_failed)
unfolding acquire_lock
acquire_lock-exclusive lm lm' resource_id resource_id' ttl ttl' r v r1 r2 given run early same =
    at (call started)
      (call-Holds key e started
        (Reaches-Holds key e r1 run (λ _. acquire_lock_ok lm resource_id ttl r v r1 given)))
      (call-entries started).1
  where
    key : String
    key = lock_key lm resource_id

    e : Entry
    e = record { value = v; expires_at = r.now + ttl }

    started : Redis
    started = record r2 { drawn = suc r2.drawn }

    refused :
        (s : Redis)
        → Holds key e s
        → s.now < e.expires_at
        → (of_set_nx r2.drawn (set_nx (lock_key lm' resource_id') r2.drawn ttl' s)).0
          ≡ err acquire_lock_failed
    refused s h soon =
        ap (λ o. (of_set_nx r2.drawn (set_nx_at (lock_key lm' resource_id') r2.drawn ttl' o s)).0)
          (ap (λ k. live s.now (s.entries k)) same ∙ live_held key e s h soon)

    at :
        (x : Call × Redis)
        → Holds key e x.1
        → x.1.now ≡ r2.now
        → ((acquire_at (lock_key lm' resource_id') r2.drawn ttl' x).0 ≡ err acquire_lock_failed)
          ⊎ ((acquire_at (lock_key lm' resource_id') r2.drawn ttl' x).0 ≡ err redis_failed)
    at (answered, s) h t = inl (refused s h (subst (λ n. n < e.expires_at) (sym t) early))
    at (lost executed, s) h t = inr refl
