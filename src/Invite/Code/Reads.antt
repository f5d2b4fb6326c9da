-- ===== src/Invite/Code/Reads.antt =====
-- What the statements that read leave alone.
use genioai_wxmini_server.Base.{
  ℕ, zero, suc, String, Bool, true, false, Option, none, some, List, [], ◌∷◌, ◌≡◌, refl, ◌∙◌,
  if◌then◌else◌,
}
use genioai_wxmini_server.Credit.Store.{Db, Result, ok, err, statement}
use genioai_wxmini_server.Invite.{
  InviteCode, Tables, Answer, done, refused, I, followed, lifted, query,
}
use genioai_wxmini_server.Invite.Code.{is_taken, has_own, one_attempt, generate_unique_code}

-- The two unique indexes.
abbrev pub IsUnique : List InviteCode → Type 0
IsUnique [] = Unit
IsUnique (c ∷ cs) =
    (is_taken c.code cs ≡ false) × (has_own c.project_id c.user_id cs ≡ false) × IsUnique cs

-- What a statement that reads leaves.
abbrev pub Read : {A : Type 0} → (Tables → A) → Tables → Answer A × Tables → Type 0
Read f s (done a, s') = (s'.codes ≡ s.codes) × (a ≡ f s')
Read f s (refused e, s') = s'.codes ≡ s.codes

pub query-Read : {A : Type 0} (f : Tables → A) (s : Tables) → Read f s (query f s)
query-Read {A} f s = at (statement s.credits)
  where
    at :
        (x : Result (Unit {0}) × Db)
        → Read f s (followed (λ (y : Unit {0}) t. (done (f t), t)) (lifted s x))
    at (ok y, db) = (refl, refl)
    at (err e, db) = refl

-- The generation touches no table.
abbrev pub Kept : {A : Type 0} → Tables → Answer A × Tables → Type 0
Kept s x = x.1.codes ≡ s.codes

pub generate_unique_code-Kept :
    (random : ℕ → Option String) (n : ℕ) (s : Tables) → Kept s (generate_unique_code random n s)
unfolding generate_unique_code
generate_unique_code-Kept random zero s = refl
generate_unique_code-Kept random (suc n) s =
    at (λ t. generate_unique_code-Kept random n t) (random n)
  where
    rest : I String
    rest = generate_unique_code random n

    counted :
        (code : String)
        → ((t : Tables) → Kept t (rest t))
        → (x : Answer Bool × Tables) → Read (λ t. is_taken code t.codes) s x
        → Kept s (followed (λ taken. if taken then rest else (λ t. (done code, t))) x)
    counted code ih (refused e, t) r = r
    counted code ih (done true, t) r = ih t ∙ r.0
    counted code ih (done false, t) r = r.0

    at : ((t : Tables) → Kept t (rest t)) → (o : Option String) → Kept s (one_attempt rest o s)
    at ih none = refl
    at ih (some code) =
        counted code ih (query (λ t. is_taken code t.codes) s)
          (query-Read (λ t. is_taken code t.codes) s)
