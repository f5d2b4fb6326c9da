-- ===== src/Sync/Tests.antt =====
-- A task that no executor knows, and two processors.
use genioai_wxmini_server.Base.{
  ℕ, String, str_eq, if◌then◌else◌, true, false, none, some, [], ◌∷◌, pos, ◌≡◌, inr, refl,
}
use genioai_wxmini_server.Quota.World.{awaiting_provider_completion}
use genioai_wxmini_server.Credit.Refund.{no_info}
use genioai_wxmini_server.Chain.World.{PictureTask, no_result, World}
use genioai_wxmini_server.Chain.Partial.{Float64}
use genioai_wxmini_server.Chain.Settled.{IsSettled}
use genioai_wxmini_server.Lock.{Redis, acquire_lock, ok, pass}
use genioai_wxmini_server.Sync.{Polled, lock_mgr, handle_single_task, new_config, default_config}
use genioai_wxmini_server.Sync.Stuck.{handle_single_task-settles}

abbrev clip : PictureTask
clip = record {
  task_id = "a";
  project_id = "p";
  user_id = "u";
  workflow_id = "film";
  status = awaiting_provider_completion;
  error = "";
  failed_reason = "";
  failed_reason_full = "";
  progress = pos 50;
  can_retry = true;
  credit_points = pos 0;
  credit_deduction_info = no_info;
  is_refunded = false;
  result_json = no_result;
  param_json = [];
  user_picture_info = none;
  workflow_type = "WORKFLOW_KIND_TYPE_IMAGE";
  retry_count = pos 0;
  provider_sync_error_count = pos 0;
}

abbrev world : World
world = record {
  chains = [];
  tasks = clip ∷ [];
  workflows = [];
  guide_workflow_id = none;
  credits = record { amounts = []; transactions = []; next_id = 1; drawn = 0; faults = [] };
  activating = λ k. false;
  failing = λ k. false;
  user_lock = λ k. none;
  faults = [];
  redis_faults = [];
  sent = [];
  terminated = [];
  drawn = 0;
}

abbrev uuid : ℕ → String
uuid n = "x"

-- No partial refund takes place in these runs.
abbrev floats : Float64 ℕ
floats = record { of_int = λ z. 0; div = λ a b. a; mul = λ a b. a; to_int = λ a. pos a }

abbrev redis : Redis
redis = record { entries = λ k. none; now = 100; drawn = 0; calls = [] }

abbrev locked : Redis
locked = record {
  entries = λ k.
      if str_eq "visionai:provider_sync:task_status_sync:a" k
      then some (record { value = 0; expires_at = 115 })
      else none;
  now = 100;
  drawn = 1;
  calls = [];
}

abbrev polled : Polled
polled = record { task = clip; executor = none; waited = 1; took = 4 }

given : acquire_lock lock_mgr "task_status_sync:a" 15 redis ≡ (ok 0, locked)
unfolding acquire_lock
given = refl

handle_single_task-settles_example :
    let s = handle_single_task floats uuid 900 polled world redis in
    IsSettled "a" s.0 × (s.1 ≡ pass 4 locked)
handle_single_task-settles_example =
    handle_single_task-settles floats uuid 900 polled clip world redis locked 0 (inr refl)
      (refl, refl) refl given

-- Four seconds for the handling and ten more.
abbrev later : Redis
later = pass 10 (pass 4 locked)

defaults :
    new_config (some (record { poll_interval = 0; batch_size = 4; task_timeout = 0 }))
    ≡ record default_config { batch_size = 4 }
defaults = refl
