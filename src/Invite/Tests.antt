-- ===== src/Invite/Tests.antt =====
-- A user who uses a code, and tries another.
use genioai_wxmini_server.Base.{
  ℕ, String, true, false, ◌⊎◌, Option, none, some, [], ◌∷◌, ◌==◌, ◌≡◌, refl, if◌then◌else◌,
}
use genioai_wxmini_server.Invite.{
  Tables, InviteCode, done, refused, already_used_invite_code, use_invite_code, find_code,
  find_record,
}
use genioai_wxmini_server.Invite.Code.{find_own, get_or_create_invite_code}
use genioai_wxmini_server.Invite.Code.Reads.{IsUnique}
use genioai_wxmini_server.Invite.Code.Own.{get_or_create_invite_code-again}
use genioai_wxmini_server.Invite.Info.{InviteInfo, get_invite_info, get_invite_info-use_invite_code}
use genioai_wxmini_server.Invite.Once.{use_invite_code-once}

abbrev code_of : String → String → String → InviteCode
code_of project_id user_id code = record { project_id = project_id; user_id = user_id; code = code }

abbrev tables : Tables
tables = record {
  credits = record { amounts = []; transactions = []; next_id = 1; drawn = 0; faults = [] };
  codes = code_of "p" "v" "AAAAAAAAAA" ∷ code_of "q" "w" "BBBBBBBBBB" ∷ [];
  records = [];
  next_record = 1;
}

abbrev after_first : Tables
after_first = (use_invite_code 99 none none "p" "u" "AAAAAAAAAA" tables).1

first_use : use_invite_code 99 none none "p" "u" "AAAAAAAAAA" tables ≡ (done tt, after_first)
unfolding use_invite_code
first_use = refl

use_invite_code-once_example :
    use_invite_code 99 none none "q" "u" "BBBBBBBBBB" after_first
    ≡ (refused already_used_invite_code, after_first)
unfolding use_invite_code
use_invite_code-once_example =
    use_invite_code-once 99 none none none none "p" "q" "u" "AAAAAAAAAA" "BBBBBBBBBB" tables
      first_use refl

-- The first code that is drawn is taken.
abbrev drawn : ℕ → Option String
drawn n = if n == 9 then some "AAAAAAAAAA" else some "CCCCCCCCCC"

abbrev given : Tables
given = record tables { codes = code_of "p" "u" "CCCCCCCCCC" ∷ tables.codes }

gives_code : get_or_create_invite_code drawn (λ t. t) "p" "u" tables ≡ (done "CCCCCCCCCC", given)
unfolding get_or_create_invite_code
gives_code = refl

get_or_create_invite_code-again_example :
    IsUnique given.codes
    × ((r : InviteCode) × (find_own "p" "u" given.codes ≡ some r)
        × (find_code "CCCCCCCCCC" given.codes ≡ some r))
    × (get_or_create_invite_code (λ n. none) (λ t. t) "p" "u" given ≡ (done "CCCCCCCCCC", given))
get_or_create_invite_code-again_example =
    get_or_create_invite_code-again drawn (λ n. none) (λ t. t) (λ t. t) "p" "u" "CCCCCCCCCC" tables
      given given (refl, refl, (refl, refl, tt)) (λ t u. u) gives_code refl refl

get_invite_info-use_invite_code_example :
    (info : InviteInfo) × (get_invite_info drawn (λ t. t) none "p" "u" tables ≡ (done info, given))
    × (info.invite_code ≡ "CCCCCCCCCC")
    × (((info.can_use_invite_code ≡ true) × (find_record "u" given.records ≡ none))
        ⊎ ((info.can_use_invite_code ≡ false)
            × (use_invite_code 99 none none "q" "u" "BBBBBBBBBB" given
                ≡ (refused already_used_invite_code, given))))
get_invite_info-use_invite_code_example =
    get_invite_info-use_invite_code drawn (λ t. t) none none none 99 "p" "q" "u" "CCCCCCCCCC"
      "BBBBBBBBBB" tables given gives_code refl
