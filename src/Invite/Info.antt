-- ===== src/Invite/Info.antt =====
-- GetInviteInfo of internal/service/invite/service.go. A query that fails is tolerated.
use genioai_wxmini_server.Base.{
  ℕ, ℤ, suc, String, Bool, true, false, not, Option, none, some, List, [], ◌∷◌, ◌≡◌, refl, ap, ◌∙◌,
  inl, inr, ◌⊎◌, str_eq, times64, if◌then◌else◌,
}
use genioai_wxmini_server.Credit.Store.{statement, statement_total}
use genioai_wxmini_server.Invite.{
  InviteRecord, Tables, already_used_invite_code, Answer, done, refused, I, return, followed,
  lifted, ◌>>=◌, query, find_record, granted_count, get_invite_credit_amount, unless_used,
  use_invite_code,
}
use genioai_wxmini_server.Invite.Code.{get_or_create_invite_code}

pub record InviteInfo : Type 0 where
  pub invite_code : String
  pub invited_count : ℕ
  pub total_credits : ℤ
  pub has_used_invite_code : Bool
  pub used_invite_code : String
  pub can_use_invite_code : Bool

-- `GetInviteStatsByInviter`
abbrev pub invited_count_of : String → List InviteRecord → ℕ
invited_count_of inviter [] = 0
invited_count_of inviter (r ∷ rs) =
    if str_eq r.inviter_user_id inviter
    then suc (invited_count_of inviter rs)
    else invited_count_of inviter rs

abbrev pub or_default : {A : Type 0} → A → Answer A × Tables → Answer A × Tables
or_default d (done a, s) = (done a, s)
or_default d (refused e, s) = (done d, s)

abbrev pub tolerant : {A : Type 0} → A → (Tables → A) → I A
tolerant d f s = or_default d (query f s)

abbrev pub is_some : Option InviteRecord → Bool
is_some none = false
is_some (some r) = true

abbrev pub code_used : Option InviteRecord → String
code_used none = ""
code_used (some r) = r.invite_code

abbrev pub info_of : ℤ → String → ℕ → ℕ → Option InviteRecord → InviteInfo
info_of amount code count granted_count used = record {
  invite_code = code;
  invited_count = count;
  total_credits = times64 granted_count amount;
  has_used_invite_code = is_some used;
  used_invite_code = code_used used;
  can_use_invite_code = not (is_some used);
}

unfoldable pub describe : Option ℤ → String → String → I InviteInfo
unfolding statement
describe amount_config user_id code = do
  count ← tolerant 0 (λ s. invited_count_of user_id s.records)
  granted ← tolerant 0 (λ s. granted_count user_id s.records)
  used ← tolerant none (λ s. find_record user_id s.records)
  return (info_of (get_invite_credit_amount amount_config) code count granted used)

unfoldable pub get_invite_info :
    (ℕ → Option String) → (Tables → Tables) → Option ℤ → String → String → I InviteInfo
unfolding get_or_create_invite_code describe
get_invite_info random others amount_config project_id user_id =
    get_or_create_invite_code random others project_id user_id >>= describe amount_config user_id

tolerant_calm :
    {A : Type 0} (d : A) (f : Tables → A) (s : Tables)
    → s.credits.faults ≡ []
    → tolerant d f s ≡ (done (f s), s)
tolerant_calm d f s h =
    ap (λ x. or_default d (followed (λ (y : Unit {0}) t. (done (f t), t)) (lifted s x)))
      (statement_total s.credits h)

describe_calm :
    (amount_config : Option ℤ) (user_id code : String) (s : Tables)
    → s.credits.faults ≡ []
    → describe amount_config user_id code s ≡ (
      done (
          info_of
            (get_invite_credit_amount amount_config)
            code
            (invited_count_of user_id s.records)
            (granted_count user_id s.records)
            (find_record user_id s.records)),
      s,
    )
unfolding describe
describe_calm amount_config user_id code s h =
    let amount = get_invite_credit_amount amount_config in
    let count = invited_count_of user_id s.records in
    let granted = granted_count user_id s.records in
    ap
      (followed (λ n. tolerant 0 (λ t. granted_count user_id t.records) >>= λ m.
        tolerant none (λ t. find_record user_id t.records) >>= λ o.
        return (info_of amount code n m o)))
      (tolerant_calm 0 (λ t. invited_count_of user_id t.records) s h)
    ∙ (ap
          (followed (λ m. tolerant none (λ t. find_record user_id t.records) >>= λ o.
            return (info_of amount code count m o)))
          (tolerant_calm 0 (λ t. granted_count user_id t.records) s h)
        ∙ ap (followed (λ o. return (info_of amount code count granted o)))
            (tolerant_calm none (λ t. find_record user_id t.records) s h))

-- GetInviteInfo shows the code that GetOrCreateInviteCode gives, and whether UseInviteCode is open to
-- the user: it says so exactly when no record of the user is there, and otherwise UseInviteCode
-- refuses every code as used and changes no table. Assumed: the code is given, and from then on the
-- database answers.
pub get_invite_info-use_invite_code :
    (random : ℕ → Option String) (others : Tables → Tables) (amount_config a m : Option ℤ)
    (end_of_2099 : ℕ) (project_id other_project user_id code other_code : String) (s s' : Tables)
    → get_or_create_invite_code random others project_id user_id s ≡ (done code, s')
    → s'.credits.faults ≡ []
    → (info : InviteInfo) × (get_invite_info random others amount_config project_id user_id s
        ≡ (done info, s'))
      × (info.invite_code ≡ code)
      × (((info.can_use_invite_code ≡ true) × (find_record user_id s'.records ≡ none))
          ⊎ ((info.can_use_invite_code ≡ false)
              × (use_invite_code end_of_2099 a m other_project user_id other_code s'
                  ≡ (refused already_used_invite_code, s'))))
unfolding get_invite_info use_invite_code
get_invite_info-use_invite_code random others amount_config a m end_of_2099 project_id other_project
      user_id code other_code s s' run h =
    (
      info_of (get_invite_credit_amount amount_config) code (invited_count_of user_id s'.records)
          (granted_count user_id s'.records) (find_record user_id s'.records),
      ap (followed (describe amount_config user_id)) run
          ∙ describe_calm amount_config user_id code s' h,
      refl,
      at (find_record user_id s'.records) refl,
    )
  where
    used : Option InviteRecord → Answer (Unit {0}) × Tables
    used o = unless_used end_of_2099 a m other_project user_id other_code o s'

    looked_up :
        use_invite_code end_of_2099 a m other_project user_id other_code s'
        ≡ used (find_record user_id s'.records)
    looked_up =
        ap
          (λ x. followed (unless_used end_of_2099 a m other_project user_id other_code) (
            followed (λ (y : Unit {0}) t. (done (find_record user_id t.records), t)) (lifted s' x)))
          (statement_total s'.credits h)

    at :
        (o : Option InviteRecord)
        → find_record user_id s'.records ≡ o
        → ((not (is_some (find_record user_id s'.records)) ≡ true)
            × (find_record user_id s'.records ≡ none))
          ⊎ ((not (is_some (find_record user_id s'.records)) ≡ false)
              × (use_invite_code end_of_2099 a m other_project user_id other_code s'
                  ≡ (refused already_used_invite_code, s')))
    at none e = inl (ap (λ o. not (is_some o)) e, e)
    at (some r) e = inr (ap (λ o. not (is_some o)) e, looked_up ∙ ap used e)
