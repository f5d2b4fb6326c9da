-- ===== src/Invite/Code/Own.antt =====
-- The code that a user is given.
use genioai_wxmini_server.Base.{
  ℕ, String, true, Option, none, some, List, [], ◌≡◌, refl, sym, ap, subst, ◌∙◌, inl, inr, arith,
  Bool-cases, str_eq_self, if◌then◌else◌,
}
use genioai_wxmini_server.Credit.Store.{
  Error, insufficient_credits, duplicate_entry, statement_failed, malformed_info, Db, Result, ok,
  err, statement, statement_total,
}
use genioai_wxmini_server.Invite.{
  InviteCode, Tables, record_not_found, failed, Answer, done, refused, followed, lifted, query,
  find_code,
}
use genioai_wxmini_server.Invite.Code.{
  is_own, find_own, get_invite_code_by_user_id, is_taken, has_own, insert_code, create_invite_code,
  generate_unique_code, code_or, read_again, after_create, create_or_read, or_create,
  get_or_create_invite_code,
}
use genioai_wxmini_server.Invite.Code.Reads.{IsUnique, Read, query-Read, generate_unique_code-Kept}
use genioai_wxmini_server.Invite.Code.Found.{find_code-own}

module _ (project_id user_id : String) where
  abbrev own : List InviteCode → Option InviteCode
  own = find_own project_id user_id

  -- The code of the row of the user.
  abbrev pub IsGiven : String → Tables → Type 0
  IsGiven code s = (r : InviteCode) × (own s.codes ≡ some r) × (r.code ≡ code)

  abbrev Given : Answer String × Tables → Type 0
  Given (done code, s) = IsGiven code s × IsUnique s.codes
  Given (refused e, s) = IsUnique s.codes

  IsUnique-across : (s t : Tables) → t.codes ≡ s.codes → IsUnique s.codes → IsUnique t.codes
  IsUnique-across s t e u = subst IsUnique (sym e) u

  read_again-Given : (s : Tables) → IsUnique s.codes → Given (read_again project_id user_id s)
  unfolding read_again get_invite_code_by_user_id
  read_again-Given s u = at (query (λ t. own t.codes) s) (query-Read (λ t. own t.codes) s)
    where
      found :
          (o : Option InviteCode) (t : Tables)
          → t.codes ≡ s.codes
          → o ≡ own t.codes
          → Given (code_or record_not_found o t)
      found none t e f = IsUnique-across s t e u
      found (some c) t e f = ((c, sym f, refl), IsUnique-across s t e u)

      at :
          (x : Answer (Option InviteCode) × Tables)
          → Read (λ t. own t.codes) s x
          → Given (followed (code_or record_not_found) x)
      at (done o, t) r = found o t r.0 r.1
      at (refused e, t) r = IsUnique-across s t r u

  is_own_self :
      (code : String)
      → is_own project_id user_id
          (record { project_id = project_id; user_id = user_id; code = code })
        ≡ true
  is_own_self code = let a = str_eq_self project_id in let b = str_eq_self user_id in ground arith

  create_or_read-Given :
      (code : String) (s : Tables)
      → IsUnique s.codes
      → Given (create_or_read project_id user_id code s)
  unfolding create_invite_code
  create_or_read-Given code s u = at (statement s.credits)
    where
      c : InviteCode
      c = record { project_id = project_id; user_id = user_id; code = code }

      refusal :
          (e : Error) (t : Tables)
          → IsUnique t.codes
          → Given (after_create project_id user_id code (refused (failed e), t))
      refusal duplicate_entry t k = read_again-Given t k
      refusal insufficient_credits t k = k
      refusal statement_failed t k = k
      refusal malformed_info t k = k

      inserted :
          (t : Tables)
          → t.codes ≡ s.codes
          → Given (after_create project_id user_id code (insert_code c t))
      inserted t e = elim (Bool-cases (is_taken code t.codes)) [
        | inl taken ↦ simp taken (read_again-Given t (IsUnique-across s t e u))
        | inr free ↦ elim (Bool-cases (has_own project_id user_id t.codes)) [
          | inl has ↦ simp (free, has) (read_again-Given t (IsUnique-across s t e u))
          | inr fresh ↦
              simp (free, fresh)
                (
                  (c, ap (λ b. if b then some c else own t.codes) (is_own_self code), refl),
                  (refl, refl, IsUnique-across s t e u),
                )
        ]
      ]

      at :
          (x : Result (Unit {0}) × Db)
          → Given (
              after_create project_id user_id code
                (followed (λ (y : Unit {0}). insert_code c) (lifted s x)))
      at (ok y, db) = inserted (record s { credits = db }) refl
      at (err e, db) = refusal e (record s { credits = db }) u

  get_or_create-Given :
      (random : ℕ → Option String) (others : Tables → Tables) (s : Tables)
      → IsUnique s.codes
      → ((t : Tables) → IsUnique t.codes → IsUnique (others t).codes)
      → Given (get_or_create_invite_code random others project_id user_id s)
  unfolding get_or_create_invite_code get_invite_code_by_user_id
  get_or_create-Given random others s u k =
      at (query (λ t. own t.codes) s) (query-Read (λ t. own t.codes) s)
    where
      created :
          (x : Answer String × Tables)
          → IsUnique x.1.codes
          → Given (followed (λ code t. create_or_read project_id user_id code (others t)) x)
      created (done code, t) v = create_or_read-Given code (others t) (k t v)
      created (refused e, t) v = v

      read :
          (o : Option InviteCode) (t : Tables)
          → t.codes ≡ s.codes
          → o ≡ own t.codes
          → Given (or_create random others project_id user_id o t)
      read (some c) t e f = ((c, sym f, refl), IsUnique-across s t e u)
      read none t e f = created (generate_unique_code random 10 t) (
          IsUnique-across s (generate_unique_code random 10 t).1
            (generate_unique_code-Kept random 10 t ∙ e) u)

      at :
          (x : Answer (Option InviteCode) × Tables)
          → Read (λ t. own t.codes) s x
          → Given (followed (or_create random others project_id user_id) x)
      at (done o, t) r = read o t r.0 r.1
      at (refused e, t) r = IsUnique-across s t r u

  -- A later call that the database answers.
  get_or_create_again :
      (random : ℕ → Option String) (others : Tables → Tables) (code : String) (s : Tables)
      → s.credits.faults ≡ []
      → IsGiven code s
      → get_or_create_invite_code random others project_id user_id s ≡ (done code, s)
  unfolding get_or_create_invite_code get_invite_code_by_user_id
  get_or_create_again random others code s h (r, f, e) =
      ap
        (λ x.
          followed (or_create random others project_id user_id)
            (followed (λ (y : Unit {0}) t. (done (own t.codes), t)) (lifted s x)))
        (statement_total s.credits h)
      ∙ (ap (λ o. or_create random others project_id user_id o s) f ∙ ap (λ d. (done d, s)) e)

-- A user who is given a code has a row with it, the code leads UseInviteCode to that row, and a later
-- call gives the same code and changes nothing, whatever codes are drawn then; the two unique indexes
-- are kept. Assumed: the indexes hold before, what other clients do between the generation and the
-- insertion of the code keeps them, and the database answers the later call, with the codes as they
-- were left.
pub get_or_create_invite_code-again :
    (random random' : ℕ → Option String) (others others' : Tables → Tables)
    (project_id user_id code : String) (s s' later : Tables)
    → IsUnique s.codes
    → ((t : Tables) → IsUnique t.codes → IsUnique (others t).codes)
    → get_or_create_invite_code random others project_id user_id s ≡ (done code, s')
    → later.codes ≡ s'.codes
    → later.credits.faults ≡ []
    → IsUnique s'.codes
      × ((r : InviteCode) × (find_own project_id user_id s'.codes ≡ some r)
          × (find_code code s'.codes ≡ some r))
      × (get_or_create_invite_code random' others' project_id user_id later ≡ (done code, later))
get_or_create_invite_code-again random random' others others' project_id user_id code s s' later u k
      run same h =
    let ((r, f, e), after) : Given project_id user_id (done code, s') =
      subst (Given project_id user_id) run
        (get_or_create-Given project_id user_id random others s u k) in
    (
      after,
      (
        r,
        f,
        ap (λ c. find_code c s'.codes) (sym e)
            ∙ find_code-own project_id user_id s'.codes r after f,
      ),
      get_or_create_again project_id user_id random' others' code later h
          (r, ap (find_own project_id user_id) same ∙ f, e),
    )
