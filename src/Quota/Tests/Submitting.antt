-- ===== src/Quota/Tests/Submitting.antt =====
-- A submission whose picture has no face.
use genioai_wxmini_server.Base.{String, true, false, none, [], pos, ◌≡◌, refl, ◌⊎◌}
use genioai_wxmini_server.Quota.World.{queue, pending, World, fails, eval}
use genioai_wxmini_server.Quota.Slot.{is_member}
use genioai_wxmini_server.Quota.Checker.{
  build_key, check_and_reserve_slot, check_with_redis, check_with_db, release_slot,
}
use genioai_wxmini_server.Quota.Submit.{
  Submission, refused, invalid_faces, submit_task_with_tx, check_active_tasks, reserve_queue_slot,
  verify_queue_size_with_db, prepare,
}
use genioai_wxmini_server.Quota.Submit.Leaks.{keeps_slot, submit_task_with_tx-leaks}

abbrev world : World
world = record {
  slots = λ key. record { current = 0; tasks = [] };
  lock_of = λ task_id. none;
  drawn = 0;
  redis_faults = [];
  tasks = [];
  database_faults = [];
  degrade_mode = false;
  health_check_running = false;
}

abbrev faceless : Submission
faceless = record {
  is_valid_user = true;
  user_id = "u";
  task_id = "a";
  is_model_direct = false;
  has_virtual_workflow = false;
  is_prepared = true;
  replacement = none;
  optimization = none;
  has_valid_faces = false;
  has_kind = true;
  has_valid_theme = true;
  row = record { task_id = "a"; user_id = "u"; status = pending; updated_at = 1 };
}

submit_task_with_tx-leaks_example :
    let (o, w') = submit_task_with_tx (pos 3) faceless world in
    ((keeps_slot o ≡ true) × (is_member "a" (w'.slots (build_key queue "u")).tasks ≡ true))
    ⊎ ((keeps_slot o ≡ false) × ((key : String) → w'.slots key ≡ world.slots key))
submit_task_with_tx-leaks_example = submit_task_with_tx-leaks (pos 3) faceless world refl refl refl

faceless_leaks :
    ((submit_task_with_tx (pos 3) faceless world).0 ≡ refused invalid_faces)
    × (((submit_task_with_tx (pos 3) faceless world).1.slots "visionai:queue:u").current ≡ 1)
unfolding submit_task_with_tx check_active_tasks reserve_queue_slot verify_queue_size_with_db
    prepare fails eval check_and_reserve_slot check_with_redis check_with_db release_slot
faceless_leaks = (refl, refl)
