-- ===== src/Invite/Kept.antt =====
-- What the statements of an invitation keep of its record.
use genioai_wxmini_server.Base.{
  ℕ, ℤ, String, ◌+◌, Bool, true, false, some, List, [], ◌∷◌, ◌==◌, ◌≡◌, refl, str_eq, str_eq_self,
  arith, Bool-cases, inl, inr,
}
use genioai_wxmini_server.Credit.Store.{M, Db, Result, ok, err, statement}
use genioai_wxmini_server.Credit.Grants.{add_credits_with_tx}
use genioai_wxmini_server.Invite.{
  Tables, InviteCode, InviteRecord, Answer, I, done, refused, already_used_invite_code, followed,
  lift, lifted, find_record, mark_records, new_record, insert_record, create_invite_record,
  update_credit_status, grant_inviter, has_record, return, inviter_grant,
}

-- The user has used a code.
abbrev pub HasUsed : String → Tables → Type 0
HasUsed u s = (r : InviteRecord) × (find_record u s.records ≡ some r)

pub followed-eq-done :
    {A B : Type 0} (f : A → I B) (x : Answer A × Tables) {b : B} {s' : Tables}
    → followed f x ≡ (done b, s')
    → (a : A) × (mid : Tables) × (x ≡ (done a, mid)) × (f a mid ≡ (done b, s'))
followed-eq-done f (done a, mid) h = (a, mid, refl, h)
followed-eq-done f (refused e, mid) h = absurd (ground arith)

lifted_records :
    {A : Type 0} (s : Tables) (x : Result A × Db) {a : A} {s' : Tables}
    → lifted s x ≡ (done a, s')
    → s'.records ≡ s.records
lifted_records s (ok a, db) e = ground arith
lifted_records s (err e', db) e = absurd (ground arith)

pub lift_keeps :
    {A : Type 0} (m : M A) (u : String) (s : Tables) {a : A} {s' : Tables}
    → lift m s ≡ (done a, s')
    → HasUsed u s
    → HasUsed u s'
lift_keeps m u s h (r, k) = (r, rw (lifted_records s (m s.credits) h) k)

find_record-mark_records :
    (u : String) (id : ℕ) (granted : Bool) (rs : List InviteRecord) (r : InviteRecord)
    → find_record u rs ≡ some r
    → (r' : InviteRecord) × (find_record u (mark_records id granted rs) ≡ some r')
find_record-mark_records u id granted [] r h = absurd (ground arith)
find_record-mark_records u id granted (x ∷ xs) r h = elim (Bool-cases (x.id == id)) [
  | inl e ↦ elim (Bool-cases (str_eq x.invite_user_id u)) [
    | inl f ↦ (
      record x { inviter_credit_granted = granted; invite_credit_granted = true },
      simp (e, f) refl,
    )
    | inr f ↦ (r, simp (e, f) (simp f at h))
  ]
  | inr e ↦ elim (Bool-cases (str_eq x.invite_user_id u)) [
    | inl f ↦ (x, simp (e, f) refl)
    | inr f ↦
        let (r', k) = find_record-mark_records u id granted xs r (simp f at h) in
        (r', simp (e, f) k)
  ]
]

-- The record that is inserted is one of the user.
pub insert_record_used :
    (c : InviteCode) (u : String) (s : Tables) {id : ℕ} {s' : Tables}
    → insert_record c u s ≡ (done id, s')
    → HasUsed u s'
insert_record_used c u s {id} {s'} h = elim (Bool-cases (has_record c.project_id u s.records)) [
  | inl e ↦ absurd (not_done (simp e at h))
  | inr e ↦
      let same = inserted (simp e at h) in
      (new_record c u s.next_record, rw same (simp (str_eq_self u) refl))
]
  where
    not_done : ◌≡◌ {A = Answer ℕ × Tables} (refused already_used_invite_code, s) (done id, s') → ⊥
    not_done k = ground arith

    inserted :
        ◌≡◌ {A = Answer ℕ × Tables}
          (
            done s.next_record,
            record s {
              records = new_record c u s.next_record ∷ s.records;
              next_record = s.next_record + 1;
            },
          )
          (done id, s')
        → s'.records ≡ new_record c u s.next_record ∷ s.records
    inserted k = ground arith

pub create_invite_record_used :
    (c : InviteCode) (u : String) (s : Tables) {id : ℕ} {s' : Tables}
    → create_invite_record c u s ≡ (done id, s')
    → HasUsed u s'
unfolding create_invite_record
create_invite_record_used c u s h =
    let (_, mid, _, last) = followed-eq-done (λ _. insert_record c u) (lift statement s) h in
    insert_record_used c u mid last

pub update_credit_status_used :
    (u : String) (id : ℕ) (granted : Bool) (s : Tables) {x : Unit {0}} {s' : Tables}
    → update_credit_status id granted s ≡ (done x, s')
    → HasUsed u s
    → HasUsed u s'
unfolding update_credit_status
update_credit_status_used u id granted s {x} {s'} h k =
    let (_, mid, first, last) =
      followed-eq-done (λ _ t. (done tt, record t { records = mark_records id granted t.records }))
        (lift statement s) h in
    let (r, f) = lift_keeps statement u s first k in
    let (r', f') = find_record-mark_records u id granted mid.records r f in
    let same : s'.records ≡ mark_records id granted mid.records = marked mid last in
    (r', rw same f')
  where
    marked :
        (t : Tables)
        → ◌≡◌ {A = Answer (Unit {0}) × Tables}
            (done tt, record t { records = mark_records id granted t.records })
            (done x, s')
        → s'.records ≡ mark_records id granted t.records
    marked t e = ground arith

return_keeps :
    (u : String) (s : Tables) {x : Unit {0}} {s' : Tables}
    → return tt s ≡ (done x, s')
    → HasUsed u s
    → HasUsed u s'
return_keeps u s h (r, k) = (r, ground arith)

pub grant_inviter_used :
    (end_of_2099 : ℕ) (c : InviteCode) (invited u : String) (amount : ℤ) (granted : Bool)
    (s : Tables) {x : Unit {0}} {s' : Tables}
    → grant_inviter end_of_2099 c invited amount granted s ≡ (done x, s')
    → HasUsed u s
    → HasUsed u s'
unfolding grant_inviter
grant_inviter_used t c invited u amount true s h k =
    lift_keeps (add_credits_with_tx (inviter_grant t c invited amount)) u s h k
grant_inviter_used t c invited u amount false s h k = return_keeps u s h k
