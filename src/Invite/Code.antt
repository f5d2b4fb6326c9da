-- ===== src/Invite/Code.antt =====
-- GetOrCreateInviteCode of internal/service/invite/service.go, and GenerateUniqueCode of
-- internal/dao/invite.go. The random code of an one_attempt is an argument, and so is what other
-- clients do to the tables between the generation of a code and its insertion.
pub mod Reads
pub mod Found
pub mod Own
use genioai_wxmini_server.Base.{
  ℕ, zero, suc, String, Bool, true, false, Option, none, some, List, [], ◌∷◌, ◌&&◌, ◌||◌, str_eq,
  if◌then◌else◌,
}
use genioai_wxmini_server.Credit.Store.{duplicate_entry, statement}
use genioai_wxmini_server.Invite.{
  InviteCode, Tables, InviteError, failed, record_not_found, random_failed, code_not_generated,
  Answer, done, refused, I, return, refuse, ◌>>=◌, ◌>>◌, lift, query,
}

abbrev pub is_own : String → String → InviteCode → Bool
is_own project_id user_id c = str_eq c.project_id project_id && str_eq c.user_id user_id

-- `Where("project_id = ? AND user_id = ?").First`
abbrev pub find_own : String → String → List InviteCode → Option InviteCode
find_own project_id user_id [] = none
find_own project_id user_id (c ∷ cs) =
    if is_own project_id user_id c then some c else find_own project_id user_id cs

unfoldable pub get_invite_code_by_user_id : String → String → I (Option InviteCode)
unfolding statement
get_invite_code_by_user_id project_id user_id = query (λ s. find_own project_id user_id s.codes)

-- The unique index on the code; also the count of `GenerateUniqueCode` is positive.
abbrev pub is_taken : String → List InviteCode → Bool
is_taken code [] = false
is_taken code (c ∷ cs) = str_eq c.code code || is_taken code cs

-- The unique index on the project and the user.
abbrev pub has_own : String → String → List InviteCode → Bool
has_own project_id user_id [] = false
has_own project_id user_id (c ∷ cs) = is_own project_id user_id c || has_own project_id user_id cs

abbrev pub insert_code : InviteCode → I (Unit {0})
insert_code c s =
    if is_taken c.code s.codes || has_own c.project_id c.user_id s.codes
    then (refused (failed duplicate_entry), s)
    else (done tt, record s { codes = c ∷ s.codes })

unfoldable pub create_invite_code : InviteCode → I (Unit {0})
unfolding statement
create_invite_code c = lift statement >> insert_code c

-- One one_attempt, with the ones that are left.
abbrev pub one_attempt : I String → Option String → I String
one_attempt rest none = refuse random_failed
one_attempt rest (some code) =
    query (λ s. is_taken code s.codes) >>= λ taken. if taken then rest else return code

-- The attempts count down from 10.
unfoldable pub generate_unique_code : (ℕ → Option String) → ℕ → I String
unfolding statement
generate_unique_code random zero = refuse code_not_generated
generate_unique_code random (suc n) = one_attempt (generate_unique_code random n) (random n)

-- The code that is read, or the error of the query.
abbrev pub code_or : InviteError → Option InviteCode → I String
code_or e none = refuse e
code_or e (some c) = return c.code

unfoldable pub read_again : String → String → I String
unfolding get_invite_code_by_user_id
read_again project_id user_id =
    get_invite_code_by_user_id project_id user_id >>= code_or record_not_found

-- A duplicate key is a conflict with another call for the same user.
abbrev pub after_create :
    String → String → String → Answer (Unit {0}) × Tables → Answer String × Tables
after_create project_id user_id code (done x, s) = (done code, s)
after_create project_id user_id code (refused (failed duplicate_entry), s) =
    read_again project_id user_id s
after_create project_id user_id code (refused e, s) = (refused e, s)

abbrev pub create_or_read : String → String → String → I String
create_or_read project_id user_id code s =
    after_create project_id user_id code
      (create_invite_code (record { project_id = project_id; user_id = user_id; code = code }) s)

abbrev pub meanwhile : (Tables → Tables) → I (Unit {0})
meanwhile others s = (done tt, others s)

abbrev pub or_create :
    (ℕ → Option String) → (Tables → Tables) → String → String → Option InviteCode → I String
or_create random others project_id user_id (some c) = return c.code
or_create random others project_id user_id none = do
  code ← generate_unique_code random 10
  meanwhile others
  create_or_read project_id user_id code

unfoldable pub get_or_create_invite_code :
    (ℕ → Option String) → (Tables → Tables) → String → String → I String
unfolding get_invite_code_by_user_id generate_unique_code create_invite_code read_again
get_or_create_invite_code random others project_id user_id =
    get_invite_code_by_user_id project_id user_id >>= or_create random others project_id user_id
