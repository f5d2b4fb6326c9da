-- ===== src/Invite.antt =====
-- internal/service/invite/service.go: UseInviteCode, in Code GetOrCreateInviteCode, in Info
-- GetInviteInfo, with the queries of internal/dao/invite.go that they make. The tables of
-- invitations stand beside those of the credits, in one database.
pub mod Code
pub mod Info
pub mod Kept
pub mod Once
mod Tests
use genioai_wxmini_server.Base.{
  ℕ, ℤ, String, suc, ◌+◌, Bool, true, false, Option, none, some, List, [], ◌∷◌, ◌==◌, ◌&&◌, ◌||◌,
  str_eq, leb_ℤ, ltb_ℤ, pos, if◌then◌else◌, append_text, times64,
}
use genioai_wxmini_server.Credit.Model.{event_grant, invite_reward}
use genioai_wxmini_server.Credit.Store.{Error, duplicate_entry, Result, ok, err, Db, M, statement}
use genioai_wxmini_server.Credit.Grants.{Grant, add_credits_with_tx}

-- `model.InviteCode` and `model.InviteRecord`
pub record InviteCode : Type 0 where
  pub project_id : String
  pub user_id : String
  pub code : String

pub record InviteRecord : Type 0 where
  pub id : ℕ
  pub project_id : String
  pub inviter_user_id : String
  pub invite_user_id : String
  pub invite_code : String
  pub inviter_credit_granted : Bool
  pub invite_credit_granted : Bool

pub record Tables : Type 0 where
  pub credits : Db
  pub codes : List InviteCode
  pub records : List InviteRecord
  pub next_record : ℕ

pub data InviteError : Type 0 where
  already_used_invite_code invite_code_not_found cannot_invite_self : InviteError
  record_not_found random_failed code_not_generated : InviteError
  failed : Error → InviteError

pub data Answer (A : Type 0) : Type 0 where
  done : A → Answer A
  refused : InviteError → Answer A

abbrev pub I : Type 0 → Type 0
I A = Tables → Answer A × Tables

abbrev pub return : {A : Type 0} → A → I A
return a s = (done a, s)

abbrev pub refuse : {A : Type 0} → InviteError → I A
refuse e s = (refused e, s)

abbrev pub followed : {A B : Type 0} → (A → I B) → Answer A × Tables → Answer B × Tables
followed f (done a, s) = f a s
followed f (refused e, s) = (refused e, s)

infixl 5 ◌>>=◌ ◌>>◌
abbrev pub ◌>>=◌ : {A B : Type 0} → I A → (A → I B) → I B
◌>>=◌ m f s = followed f (m s)

abbrev pub ◌>>◌ : {A B : Type 0} → I A → I B → I B
m >> k = m >>= λ _. k

-- A call on the credit tables.
abbrev pub lifted : {A : Type 0} → Tables → Result A × Db → Answer A × Tables
lifted s (ok a, db) = (done a, record s { credits = db })
lifted s (err e, db) = (refused (failed e), record s { credits = db })

abbrev pub lift : {A : Type 0} → M A → I A
lift m s = lifted s (m s.credits)

abbrev pub query : {A : Type 0} → (Tables → A) → I A
query f = lift statement >> λ s. (done (f s), s)

abbrev pub find_record : String → List InviteRecord → Option InviteRecord
find_record invite_user_id [] = none
find_record invite_user_id (r ∷ rs) =
    if str_eq r.invite_user_id invite_user_id then some r else find_record invite_user_id rs

abbrev pub find_code : String → List InviteCode → Option InviteCode
find_code code [] = none
find_code code (c ∷ cs) = if str_eq c.code code then some c else find_code code cs

-- `GetGrantedCreditsCountByInviterWithTx`
abbrev pub granted_count : String → List InviteRecord → ℕ
granted_count inviter [] = 0
granted_count inviter (r ∷ rs) =
    if str_eq r.inviter_user_id inviter && r.inviter_credit_granted
    then suc (granted_count inviter rs)
    else granted_count inviter rs

-- The unique index on the project and the invited user.
abbrev pub has_record : String → String → List InviteRecord → Bool
has_record project_id invite_user_id [] = false
has_record project_id invite_user_id (r ∷ rs) =
    (str_eq r.project_id project_id && str_eq r.invite_user_id invite_user_id)
    || has_record project_id invite_user_id rs

abbrev pub new_record : InviteCode → String → ℕ → InviteRecord
new_record c invite_user_id id = record {
  id = id;
  project_id = c.project_id;
  inviter_user_id = c.user_id;
  invite_user_id = invite_user_id;
  invite_code = c.code;
  inviter_credit_granted = false;
  invite_credit_granted = false;
}

-- `CreateInviteRecord`; a duplicate is the error of a used code.
abbrev pub insert_record : InviteCode → String → I ℕ
insert_record c invite_user_id s =
    if has_record c.project_id invite_user_id s.records
    then (refused already_used_invite_code, s)
    else (
      done s.next_record,
      record s {
        records = new_record c invite_user_id s.next_record ∷ s.records;
        next_record = s.next_record + 1;
      },
    )

unfoldable pub create_invite_record : InviteCode → String → I ℕ
unfolding statement
create_invite_record c invite_user_id = lift statement >> insert_record c invite_user_id

-- `UpdateInviteRecordCreditStatus`
abbrev pub mark_records : ℕ → Bool → List InviteRecord → List InviteRecord
mark_records id granted [] = []
mark_records id granted (r ∷ rs) =
    if r.id == id
    then record r { inviter_credit_granted = granted; invite_credit_granted = true } ∷ rs
    else r ∷ mark_records id granted rs

unfoldable pub update_credit_status : ℕ → Bool → I (Unit {0})
unfolding statement
update_credit_status id granted =
    lift statement >> λ s. (done tt, record s { records = mark_records id granted s.records })

-- `getInviteCreditAmount` and `getInviteMaxCredits`; an option for the answer of the config service,
-- `none` also where there is none.
abbrev pub get_invite_credit_amount : Option ℤ → ℤ
get_invite_credit_amount none = pos 300
get_invite_credit_amount (some a) = if ltb_ℤ (pos 0) a then a else pos 300

abbrev pub get_invite_max_credits : Option ℤ → ℤ
get_invite_max_credits none = pos 0
get_invite_max_credits (some m) = m

abbrev pub invite_source : String → String → String → String
invite_source project_id user_id code =
    append_text "invite_invite_"
      (append_text project_id (append_text "_" (append_text user_id (append_text "_" code))))

abbrev pub inviter_source : String → String → String → String → String
inviter_source project_id inviter_user_id invite_user_id code = append_text "invite_inviter_" (
    append_text project_id (
      append_text "_" (
        append_text inviter_user_id
          (append_text "_" (append_text invite_user_id (append_text "_" code))))))

-- The grant of either side; it expires at the end of 2099.
abbrev pub invite_grant : ℕ → String → String → String → String → ℤ → Grant
invite_grant end_of_2099 project_id user_id source description amount = record {
  project_id = project_id;
  user_id = user_id;
  source_id = source;
  credit_type = event_grant;
  transaction_type = invite_reward;
  amount = amount;
  expired_at = end_of_2099;
  description = description;
  subscribe_level = pos 0;
}

abbrev pub inviter_grant : ℕ → InviteCode → String → ℤ → Grant
inviter_grant end_of_2099 c invite_user_id amount =
    invite_grant end_of_2099 c.project_id c.user_id
      (inviter_source c.project_id c.user_id invite_user_id c.code) "邀请好友奖励" amount

abbrev pub invited_grant : ℕ → InviteCode → String → String → ℤ → Grant
invited_grant end_of_2099 c project_id invite_user_id amount =
    invite_grant end_of_2099 project_id invite_user_id
      (invite_source project_id invite_user_id c.code) "邀请码奖励" amount

-- Whether the inviter is below the cap.
abbrev pub is_below_cap : ℤ → ℤ → ℕ → Bool
is_below_cap credit_amount max_credits count = ltb_ℤ (times64 count credit_amount) max_credits

unfoldable pub check_cap : ℤ → ℤ → String → I Bool
unfolding statement
check_cap credit_amount max_credits inviter =
    if ltb_ℤ (pos 0) max_credits
    then query (λ s. is_below_cap credit_amount max_credits (granted_count inviter s.records))
    else return true

unfoldable pub grant_inviter : ℕ → InviteCode → String → ℤ → Bool → I (Unit {0})
unfolding add_credits_with_tx
grant_inviter end_of_2099 c invite_user_id amount granted =
    if granted
    then lift (add_credits_with_tx (inviter_grant end_of_2099 c invite_user_id amount))
    else return tt

-- The body of the transaction.
unfoldable pub record_invite : ℕ → InviteCode → String → String → ℤ → ℤ → I (Unit {0})
unfolding check_cap create_invite_record grant_inviter update_credit_status add_credits_with_tx
record_invite end_of_2099 c project_id invite_user_id credit_amount max_credits = do
  granted ← check_cap credit_amount max_credits c.user_id
  id ← create_invite_record c invite_user_id
  lift (add_credits_with_tx (invited_grant end_of_2099 c project_id invite_user_id credit_amount))
  grant_inviter end_of_2099 c invite_user_id credit_amount granted
  update_credit_status id granted

-- `db.Transaction`: an error restores the tables of both components.
abbrev pub undone : Tables → Answer (Unit {0}) × Tables → Answer (Unit {0}) × Tables
undone old (done x, s) = (done x, s)
undone old (refused e, s) = (
  refused e,
  record s {
    records = old.records;
    credits = record s.credits {
      amounts = old.credits.amounts;
      transactions = old.credits.transactions;
    };
  },
)

unfoldable pub in_transaction : I (Unit {0}) → I (Unit {0})
unfolding statement
in_transaction f s = undone s ((lift statement >> f >> lift statement) s)

-- Steps 2 to 5.
abbrev pub with_code : ℕ → Option ℤ → Option ℤ → String → String → Option InviteCode → I (Unit {0})
with_code end_of_2099 amount_config max_config project_id invite_user_id none =
    refuse invite_code_not_found
with_code end_of_2099 amount_config max_config project_id invite_user_id (some c) =
    if str_eq c.user_id invite_user_id
    then refuse cannot_invite_self
    else in_transaction (
        record_invite end_of_2099 c project_id invite_user_id
          (get_invite_credit_amount amount_config) (get_invite_max_credits max_config))

abbrev pub unless_used :
    ℕ → Option ℤ → Option ℤ → String → String → String → Option InviteRecord → I (Unit {0})
unless_used end_of_2099 amount_config max_config project_id invite_user_id code (some r) =
    refuse already_used_invite_code
unless_used end_of_2099 amount_config max_config project_id invite_user_id code none =
    query (λ s. find_code code s.codes)
    >>= with_code end_of_2099 amount_config max_config project_id invite_user_id

unfoldable pub use_invite_code : ℕ → Option ℤ → Option ℤ → String → String → String → I (Unit {0})
unfolding in_transaction record_invite statement
use_invite_code end_of_2099 amount_config max_config project_id invite_user_id code =
    query (λ s. find_record invite_user_id s.records)
    >>= unless_used end_of_2099 amount_config max_config project_id invite_user_id code
