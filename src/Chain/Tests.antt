-- ===== src/Chain/Tests.antt =====
-- A chain in its tables, and the arithmetic of the runs: fractions of 1024.
mod Runs
mod Retries
use genioai_wxmini_server.Base.{
  ℕ, ℤ, ◌*◌, ◌/◌, ◌≤◌, String, true, false, none, some, [], ◌∷◌, pos, negsuc, ◌≡◌, subst, arith,
  ◌≤ℤ◌, ◌<ℤ◌,
}
use native.Mathlib.Nat.{div-le_of_le-mul, mul-le-mul_left}
use genioai_wxmini_server.Quota.World.{processing, pending_chain}
use genioai_wxmini_server.Credit.Model.{UserAmount, purchased}
use genioai_wxmini_server.Credit.Store.{Db}
use genioai_wxmini_server.Credit.Deduct.{DeductionInfo}
use genioai_wxmini_server.Credit.Refund.{parsed}
use genioai_wxmini_server.Chain.World.{
  PictureTaskResult, no_result, ids, PictureTask, TaskChain, Workflow, World,
}
use genioai_wxmini_server.Chain.Partial.{Float64}
use genioai_wxmini_server.Chain.Partial.Bounded.{IsExact, IsIeee}

abbrev natural : ℤ → ℕ
natural (pos n) = n
natural (negsuc n) = 0

abbrev pub fixed_point : Float64 ℕ
fixed_point = record {
  of_int = λ n. natural n * 1024;
  div = λ a b. a * 1024 / b;
  mul = λ a b. a * b / 1024;
  to_int = λ a. pos (a / 1024);
}

-- The laws can be met: whole numbers of 1/1024, rounded down.
pub fixed_point-IsIeee : IsIeee fixed_point
fixed_point-IsIeee = record {
  le = λ a b. a ≤ b;
  div_between = λ a b ea eb p q. (omega arith, quotient a b ea.0 p q);
  mul_between = λ d x e l h. (omega arith, below (natural d) x h);
  to_int_between = truncated;
}
  where
    below : (a x : ℕ) → x ≤ 1024 → a * 1024 * x / 1024 ≤ a * 1024
    below a x h =
        div-le_of_le-mul 1024
          (subst (λ z. a * 1024 * x ≤ z) (omega arith) (mul-le-mul_left (a * 1024) h))

    quotient :
        (a b : ℤ)
        → pos 0 ≤ℤ a
        → a ≤ℤ b
        → pos 0 <ℤ b
        → natural a * 1024 * 1024 / (natural b * 1024) ≤ 1024
    quotient (pos n) (pos m) p q r = div-le_of_le-mul (m * 1024) (omega arith)
    quotient (negsuc n) b p q r = absurd (omega arith)
    quotient (pos n) (negsuc m) p q r = absurd (omega arith)

    truncated :
        (d : ℤ) (x : ℕ)
        → IsExact d
        → 0 ≤ x
        → x ≤ natural d * 1024
        → (pos 0 ≤ℤ pos (x / 1024)) × (pos (x / 1024) ≤ℤ d)
    truncated (pos n) x h l r = (omega arith, omega arith)
    truncated (negsuc n) x h l r = absurd (omega arith)

abbrev pub info : DeductionInfo
info = (1, pos 7) ∷ []

abbrev pub picture : PictureTask
picture = record {
  task_id = "a";
  project_id = "p";
  user_id = "u";
  workflow_id = "paint";
  status = processing;
  error = "";
  failed_reason = "";
  failed_reason_full = "";
  progress = pos 50;
  can_retry = true;
  credit_points = pos 3;
  credit_deduction_info = parsed info;
  is_refunded = false;
  result_json = no_result;
  param_json = [];
  user_picture_info = none;
  workflow_type = "WORKFLOW_KIND_TYPE_IMAGE";
  retry_count = pos 0;
  provider_sync_error_count = pos 0;
}

-- The second task, as it is created with the first.
abbrev pub video : PictureTask
video = record picture {
  task_id = "b";
  workflow_id = "film";
  status = pending_chain;
  progress = pos 0;
  can_retry = false;
  credit_points = pos 4;
}

abbrev pub painted : PictureTaskResult
painted = record { result_url = "url"; aspect_ratio = 1; meta_prompt = some "a cat" }

abbrev pub workflow : String → ℕ → Workflow
workflow workflow_id price = record {
  workflow_id = workflow_id;
  status = pos 1;
  prompt = "";
  api_iden = "";
  effect_scene = "";
  provider = "kling";
  credit_points = pos price;
}

abbrev pub chain : TaskChain
chain = record {
  chain_id = "c";
  root_task_id = "a";
  next_task_id = "b";
  user_id = "u";
  project_id = "p";
  status = pos 0;
  current_step = pos 1;
  all_task_ids = ids ("a" ∷ "b" ∷ []);
  total_credit_cost = pos 7;
  credit_deduction_info = parsed info;
}

-- The row that the seven credits were taken from.
abbrev pub spent : UserAmount
spent = record {
  id = 1;
  source_id = "order";
  amount_iden = purchased;
  project_id = "p";
  user_id = "u";
  remaining_amount = pos 2;
  expired_at = 100;
  subscribe_level = pos 0;
}

abbrev pub credits : Db
credits = record { amounts = spent ∷ []; transactions = []; next_id = 2; drawn = 0; faults = [] }

abbrev pub world : World
world = record {
  chains = chain ∷ [];
  tasks = picture ∷ video ∷ [];
  workflows = workflow "paint" 3 ∷ workflow "film" 4 ∷ [];
  guide_workflow_id = some "film";
  credits = credits;
  activating = λ k. false;
  failing = λ k. false;
  user_lock = λ k. none;
  faults = [];
  redis_faults = [];
  sent = [];
  terminated = [];
  drawn = 0;
}

abbrev pub uuid : ℕ → String
uuid n = "x"
