-- ===== src/Invite/Code/Found.antt =====
-- Codes and users lead to the same row.
use genioai_wxmini_server.Base.{
  String, Bool, true, false, Option, some, List, [], ◌∷◌, ◌≡◌, sym, ap, subst, ◌∙◌, inl, inr, arith,
  Bool-cases, ◌||◌, str_eq, str_eq_self, eq_iff, some_eq, if◌then◌else◌,
}
use genioai_wxmini_server.Invite.{InviteCode, find_code}
use genioai_wxmini_server.Invite.Code.{is_own, find_own, is_taken}
use genioai_wxmini_server.Invite.Code.Reads.{IsUnique}

or_true : (a : Bool) {b : Bool} → b ≡ true → (a || b) ≡ true
or_true a h = ground arith

-- A code of a later row is not that of the first.
other :
    (c : InviteCode) (cs : List InviteCode) (r : InviteCode)
    → is_taken c.code cs ≡ false
    → is_taken r.code cs ≡ true
    → str_eq c.code r.code ≡ false
other c cs r free taken = elim (Bool-cases (str_eq c.code r.code)) [
  | inl e ↦
      let same = subst (λ z. is_taken z cs ≡ false) ((eq_iff c.code r.code).0 e) free in
      absurd (ground arith)
  | inr e ↦ e
]

module _ (project_id user_id : String) where
  abbrev own : List InviteCode → Option InviteCode
  own = find_own project_id user_id

  own_first :
      (c : InviteCode) (cs : List InviteCode) (r : InviteCode)
      → is_own project_id user_id c ≡ true
      → own (c ∷ cs) ≡ some r
      → c ≡ r
  own_first c cs r e f = some_eq c r (ap (λ b. if b then some c else own cs) (sym e) ∙ f)

  own_later :
      (c : InviteCode) (cs : List InviteCode) (r : InviteCode)
      → is_own project_id user_id c ≡ false
      → own (c ∷ cs) ≡ some r
      → own cs ≡ some r
  own_later c cs r e f = ap (λ b. if b then some c else own cs) (sym e) ∙ f

  own-is_taken :
      (cs : List InviteCode) (r : InviteCode) → own cs ≡ some r → is_taken r.code cs ≡ true
  own-is_taken [] r f = absurd (ground arith)
  own-is_taken (c ∷ cs) r f = elim (Bool-cases (is_own project_id user_id c)) [
    | inl e ↦
        subst (λ z. is_taken z.code (c ∷ cs) ≡ true) (own_first c cs r e f)
          (ap (λ b. b || is_taken c.code cs) (str_eq_self c.code))
    | inr e ↦ or_true (str_eq c.code r.code) (own-is_taken cs r (own_later c cs r e f))
  ]

  -- The code leads to the row of its user.
  pub find_code-own :
      (cs : List InviteCode) (r : InviteCode)
      → IsUnique cs
      → own cs ≡ some r
      → find_code r.code cs ≡ some r
  find_code-own [] r u f = absurd (ground arith)
  find_code-own (c ∷ cs) r u f = elim (Bool-cases (is_own project_id user_id c)) [
    | inl e ↦
        subst (λ z. find_code z.code (c ∷ cs) ≡ some z) (own_first c cs r e f)
          (ap (λ b. if b then some c else find_code c.code cs) (str_eq_self c.code))
    | inr e ↦
        let later = own_later c cs r e f in
        ap (λ b. if b then some c else find_code r.code cs)
          (other c cs r u.0 (own-is_taken cs r later))
        ∙ find_code-own cs r u.2 later
  ]
