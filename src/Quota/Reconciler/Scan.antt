-- ===== src/Quota/Reconciler/Scan.antt =====
-- scanRedisKeys, scanTasksInKey and ParseUserIDFromKey of internal/task/reconciler/adapter.go. What
-- Redis and the context answer is a sequence over the calls and checks of a round; the jobs come in
-- the order in which they are sent to the channel.
pub mod Bounded
pub mod Ends
use Prim.Native.String.{slice, len}
use text.Mathlib.Text.{starts_with}
use genioai_wxmini_server.Base.{
  ℕ, ℤ, String, zero, suc, ◌+◌, ◌-◌, Bool, true, false, not, Option, none, some, List, [], ◌∷◌,
  ◌++◌, length, leb, leb_ℤ, pos, str_eq, ◌==◌, ◌||◌, ◌&&◌, if◌then◌else◌,
}

abbrev pub ends_with : String → String → Bool
ends_with s t = leb (len t) (len s) && str_eq (slice s (len s - len t) (len s)) t

abbrev pub trim_suffix : String → String → String
trim_suffix s t = if ends_with s t then slice s 0 (len s - len t) else s

abbrev pub unless_empty : String → Option String
unless_empty s = if str_eq s "" then none else some s

unfoldable pub parse_user_id_from_key : String → String → String → Option String
parse_user_id_from_key key prefix suffix =
    if not (starts_with key prefix) || not (ends_with key suffix)
    then none
    else unless_empty (trim_suffix (slice key (len prefix) (len key)) suffix)

pub record Job : Type 0 where
  pub user_id : String
  pub task_id : String

-- The reply of SCAN or SSCAN: an error, or a page and the next cursor.
pub data Page : Type 0 where
  failed : Page
  page : List String → ℕ → Page

-- The configuration and the adapter of a round, and what happens at the n-th call or check.
pub record Round : Type 0 where
  pub max_tasks_per_round : ℤ
  pub key_prefix : String
  pub key_suffix : String
  pub scan : ℕ → ℕ → Page
  pub sscan : ℕ → String → ℕ → Page
  pub is_done : ℕ → Bool

-- Whether `processed` jobs are enough.
abbrev pub is_full : Round → ℕ → Bool
is_full r processed = leb_ℤ r.max_tasks_per_round (pos processed)

-- Jobs that were sent, whether the function returned, and the calls and checks so far.
pub record Batch : Type 0 where
  pub jobs : List Job
  pub returned : Bool
  pub ticks : ℕ

abbrev pub with_job : Job → Batch → Batch
with_job j b = record b { jobs = j ∷ b.jobs }

-- The range over the members of one page.
unfoldable pub send_members : Round → String → List String → ℕ → ℕ → Batch
send_members r user_id [] processed n = record { jobs = []; returned = false; ticks = n }
send_members r user_id (t ∷ ts) processed n =
    let rest = send_members r user_id ts (suc processed) (suc n) in
    if r.is_done n
    then record { jobs = []; returned = true; ticks = suc n }
    else if is_full r processed
    then record { jobs = []; returned = true; ticks = suc n }
    else with_job (record { user_id = user_id; task_id = t }) rest

abbrev pub Sent : Type 0
Sent = List Job × ℕ

abbrev pub prepend : List Job → Option Sent → Option Sent
prepend jobs none = none
prepend jobs (some (more, n)) = some (jobs ++ more, n)

-- One page of a key, and the rest of the loop.
abbrev pub after_members : Round → ℕ → ℕ → (ℕ → ℕ → ℕ → Option Sent) → Batch → Option Sent
after_members r processed next rest b =
    if b.returned
    then some (b.jobs, b.ticks)
    else if is_full r (processed + length b.jobs) || next == 0
    then some (b.jobs, b.ticks)
    else prepend b.jobs (rest next (processed + length b.jobs) b.ticks)

abbrev pub after_sscan : Round → String → ℕ → ℕ → (ℕ → ℕ → ℕ → Option Sent) → Page → Option Sent
after_sscan r user_id processed n rest failed = some ([], n)
after_sscan r user_id processed n rest (page members next) =
    after_members r processed next rest (send_members r user_id members processed n)

-- The loop over the pages of one key, on fuel; `processed` counts from the start of the round.
unfoldable pub scan_tasks_in_key : ℕ → Round → String → String → ℕ → ℕ → ℕ → Option Sent
unfolding send_members
scan_tasks_in_key zero r key user_id cursor processed n = none
scan_tasks_in_key (suc fuel) r key user_id cursor processed n =
    after_sscan r user_id processed (suc n) (λ c p m. scan_tasks_in_key fuel r key user_id c p m)
      (r.sscan n key cursor)

-- The jobs of one key, and the range over the other keys unless they are enough.
abbrev pub after_key : Round → ℕ → (ℕ → ℕ → Option Sent) → Option Sent → Option Sent
after_key r processed rest none = none
after_key r processed rest (some (jobs, n)) =
    if is_full r (processed + length jobs)
    then some (jobs, n)
    else prepend jobs (rest (processed + length jobs) n)

abbrev pub scan_if_user :
    ℕ → Round → String → ℕ → ℕ → (ℕ → ℕ → Option Sent) → Option String → Option Sent
scan_if_user fuel r key processed n rest none = rest processed n
scan_if_user fuel r key processed n rest (some user_id) =
    after_key r processed rest (scan_tasks_in_key fuel r key user_id 0 processed n)

unfoldable pub scan_keys : ℕ → Round → List String → ℕ → ℕ → Option Sent
unfolding scan_tasks_in_key parse_user_id_from_key
scan_keys fuel r [] processed n = some ([], n)
scan_keys fuel r (key ∷ keys) processed n =
    scan_if_user fuel r key processed n (λ p m. scan_keys fuel r keys p m)
      (parse_user_id_from_key key r.key_prefix r.key_suffix)

abbrev pub after_keys : Round → ℕ → ℕ → (ℕ → ℕ → ℕ → Option Sent) → Option Sent → Option Sent
after_keys r processed next rest none = none
after_keys r processed next rest (some (jobs, n)) =
    if is_full r (processed + length jobs) || next == 0
    then some (jobs, n)
    else prepend jobs (rest next (processed + length jobs) n)

abbrev pub after_scan : ℕ → Round → ℕ → ℕ → (ℕ → ℕ → ℕ → Option Sent) → Page → Option Sent
after_scan fuel r processed n rest failed = some ([], n)
after_scan fuel r processed n rest (page keys next) =
    after_keys r processed next rest (scan_keys fuel r keys processed n)

-- The loop over the pages of keys, on fuel.
unfoldable pub scan_redis_keys : ℕ → ℕ → Round → ℕ → ℕ → ℕ → Option Sent
unfolding scan_keys
scan_redis_keys zero fuel r cursor processed n = none
scan_redis_keys (suc outer) fuel r cursor processed n =
    let rest =
      after_scan fuel r processed (suc (suc n)) (λ c p m. scan_redis_keys outer fuel r c p m)
        (r.scan (suc n) cursor) in
    if r.is_done n then some ([], suc n) else rest
