-- ===== src/Invite/Once.antt =====
-- A user uses one invite code at most.
use genioai_wxmini_server.Base.{
  ℕ, ℤ, String, Bool, Option, none, some, [], ◌≡◌, refl, str_eq, arith, Bool-cases, inl, inr,
}
use genioai_wxmini_server.Credit.Store.{statement, statement_total}
use genioai_wxmini_server.Credit.Grants.{add_credits_with_tx}
use genioai_wxmini_server.Invite.{
  Tables, InviteCode, InviteRecord, Answer, I, done, refused, InviteError, already_used_invite_code,
  lift, query, find_record, create_invite_record, update_credit_status, grant_inviter,
  record_invite, in_transaction, undone, with_code, unless_used, use_invite_code, check_cap,
  invited_grant, ◌>>=◌, ◌>>◌, find_code, get_invite_credit_amount, get_invite_max_credits,
}
use genioai_wxmini_server.Invite.Kept.{
  HasUsed, followed-eq-done, lift_keeps, create_invite_record_used, update_credit_status_used,
  grant_inviter_used,
}

-- The statements that follow the insert of the record.
module _ (t : ℕ) (c : InviteCode) (project_id u : String) (amount : ℤ) (granted : Bool)
    (id : ℕ) where
  abbrev finish : I (Unit {0})
  finish = grant_inviter t c u amount granted >> update_credit_status id granted

  abbrev pay : I (Unit {0})
  pay = lift (add_credits_with_tx (invited_grant t c project_id u amount)) >> finish

  finish_used :
      (s : Tables) {x : Unit {0}} {s' : Tables}
      → finish s ≡ (done x, s')
      → HasUsed u s
      → HasUsed u s'
  finish_used s h k =
      let (_, mid, first, last) =
        followed-eq-done (λ _. update_credit_status id granted)
          (grant_inviter t c u amount granted s) h in
      update_credit_status_used u id granted mid last
        (grant_inviter_used t c u u amount granted s first k)

  pay_used :
      (s : Tables) {x : Unit {0}} {s' : Tables} → pay s ≡ (done x, s') → HasUsed u s → HasUsed u s'
  pay_used s h k =
      let m = add_credits_with_tx (invited_grant t c project_id u amount) in
      let (_, mid, first, last) = followed-eq-done (λ _. finish) (lift m s) h in
      finish_used mid last (lift_keeps m u s first k)

record_invite_used :
    (t : ℕ) (c : InviteCode) (project_id u : String) (amount cap : ℤ) (s : Tables) {x : Unit {0}}
    {s' : Tables}
    → record_invite t c project_id u amount cap s ≡ (done x, s')
    → HasUsed u s'
unfolding record_invite
record_invite_used t c project_id u amount cap s h =
    let (granted, s1, _, h1) =
      followed-eq-done (λ granted. create_invite_record c u >>= pay t c project_id u amount granted)
        (check_cap amount cap c.user_id s) h in
    let (id, s2, first, h2) =
      followed-eq-done (pay t c project_id u amount granted) (create_invite_record c u s1) h1 in
    pay_used t c project_id u amount granted id s2 h2 (create_invite_record_used c u s1 first)

undone-eq-done :
    (old : Tables) (y : Answer (Unit {0}) × Tables) {x : Unit {0}} {s' : Tables}
    → undone old y ≡ (done x, s')
    → y ≡ (done x, s')
undone-eq-done old (done y, s) h = h
undone-eq-done old (refused e, s) h = absurd (ground arith)

in_transaction_used :
    (f : I (Unit {0})) (u : String) (s : Tables) {x : Unit {0}} {s' : Tables}
    → ((s1 : Tables) (y : Unit {0}) (s2 : Tables) → f s1 ≡ (done y, s2) → HasUsed u s2)
    → in_transaction f s ≡ (done x, s')
    → HasUsed u s'
unfolding in_transaction
in_transaction_used f u s used h =
    let whole = undone-eq-done s ((lift statement >> f >> lift statement) s) h in
    let (_, s2, body, last) =
      followed-eq-done (λ _. lift statement) ((lift statement >> f) s) whole in
    let (_, s1, _, middle) = followed-eq-done (λ _. f) (lift statement s) body in
    lift_keeps statement u s2 last (used s1 _ s2 middle)

refused-ne-done :
    {e : InviteError} {s s' : Tables} {x : Unit {0}}
    → ◌≡◌ {A = Answer (Unit {0}) × Tables} (refused e, s) (done x, s')
    → ⊥
refused-ne-done h = ground arith

with_code_used :
    (t : ℕ) (a m : Option ℤ) (project_id u : String) (o : Option InviteCode) (s : Tables)
    {x : Unit {0}} {s' : Tables}
    → with_code t a m project_id u o s ≡ (done x, s')
    → HasUsed u s'
with_code_used t a m project_id u none s h = absurd (refused-ne-done h)
with_code_used t a m project_id u (some c) s h = elim (Bool-cases (str_eq c.user_id u)) [
  | inl e ↦ absurd (refused-ne-done (simp e at h))
  | inr e ↦
      in_transaction_used _ u s
        (λ s1 y s2 k.
          record_invite_used t c project_id u (get_invite_credit_amount a)
            (get_invite_max_credits m) s1 k)
        (simp e at h)
]

unless_used_used :
    (t : ℕ) (a m : Option ℤ) (project_id u code : String) (o : Option InviteRecord) (s : Tables)
    {x : Unit {0}} {s' : Tables}
    → unless_used t a m project_id u code o s ≡ (done x, s')
    → HasUsed u s'
unless_used_used t a m project_id u code (some r) s h = absurd (refused-ne-done h)
unless_used_used t a m project_id u code none s h =
    let (o, mid, _, last) =
      followed-eq-done (with_code t a m project_id u) (query (λ s1. find_code code s1.codes) s) h in
    with_code_used t a m project_id u o mid last

use_invite_code_used :
    (t : ℕ) (a m : Option ℤ) (project_id u code : String) (s : Tables) {x : Unit {0}} {s' : Tables}
    → use_invite_code t a m project_id u code s ≡ (done x, s')
    → HasUsed u s'
unfolding use_invite_code
use_invite_code_used t a m project_id u code s h =
    let (o, mid, _, last) =
      followed-eq-done (unless_used t a m project_id u code)
        (query (λ s1. find_record u s1.records) s) h in
    unless_used_used t a m project_id u code o mid last

-- A user who has used an invite code cannot use another: every later call, with any code in any
-- project, reports a used code and changes no table. Assumed: the first call succeeded, nothing came
-- between the two, and the query of the later one does not fail.
pub use_invite_code-once :
    (t : ℕ) (a m a' m' : Option ℤ) (project_id other_project u code other_code : String)
    (s : Tables) {x : Unit {0}} {s' : Tables}
    → use_invite_code t a m project_id u code s ≡ (done x, s')
    → s'.credits.faults ≡ []
    → use_invite_code t a' m' other_project u other_code s' ≡ (refused already_used_invite_code, s')
unfolding use_invite_code
use_invite_code-once t a m a' m' project_id other_project u code other_code s {x} {s'} h calm =
    let (r, f) = use_invite_code_used t a m project_id u code s h in
    rw (statement_total s'.credits calm, f) refl
