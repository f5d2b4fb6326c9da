-- ===== src/Chain/Refunds.antt =====
-- The refund that FailTask makes itself, and what it tells the chain service.
use genioai_wxmini_server.Base.{
  ℕ, String, true, false, none, some, [], eq_iff, ◌≡◌, Bool-cases, inl, inr, refl, ap, ◌∙◌,
  if◌then◌else◌,
}
use genioai_wxmini_server.Credit.Refund.{refund_credits}
use genioai_wxmini_server.Chain.World.{
  PictureTask, World, Answer, ok, err, fails, first, has_task_id, store_task, send,
}
use genioai_wxmini_server.Chain.Frame.{first_holds}
use genioai_wxmini_server.Chain.Calm.{fails_calm, get_task_calm}
use genioai_wxmini_server.Chain.Partial.{Float64, refund}
use genioai_wxmini_server.Chain.Failed.{on_task_failed}
use genioai_wxmini_server.Chain.Failed.Credits.{refund-credits}
use genioai_wxmini_server.Chain.FailTask.{
  is_terminal, is_due, failed_row, with_reasons, refund_latest, refund_task_of, noted, announce,
  after_commit, after_save, after_refund, for_user, after_lookup, after_begin, fail_in_transaction,
  fail_task, trigger_on_task_terminated,
}
use genioai_wxmini_server.Chain.Settled.Once.{release_user_processing_lock-Same}

module _ {F : Type 0} (fl : Float64 F) (uuid : ℕ → String) where
  -- After the refund of the task itself.
  abbrev pub refunded_world : PictureTask → World → World
  refunded_world t w = record w {
    credits = (refund_credits (refund_task_of t) "任务执行失败退款" w.credits).1;
  }

  pub refund_latest_due :
      (t : PictureTask) (w : World)
      → is_due t ≡ true
      → (refund_latest fl t w).1 ≡ refunded_world t w
  unfolding refund_latest
  refund_latest_due t w due = simp due (
      at (refund fl (refund_task_of t) "任务执行失败退款" w)
      ∙ refund-credits fl (refund_task_of t) "任务执行失败退款" w)
    where
      at : (x : Answer (Unit {0}) × World) → (noted x).1 ≡ x.1
      at (ok y, v) = refl
      at (err e, v) = refl

  -- A refund makes no statement on the connection of the task.
  pub refund_latest-faults :
      (t : PictureTask) (w : World) → (refund_latest fl t w).1.faults ≡ w.faults
  unfolding refund_latest
  refund_latest-faults t w = elim (Bool-cases (is_due t)) [
    | inl e ↦ simp e (
        at (refund fl (refund_task_of t) "任务执行失败退款" w)
        ∙ ap (λ v. v.faults) (refund-credits fl (refund_task_of t) "任务执行失败退款" w))
    | inr e ↦ simp e refl
  ]
    where
      at : (x : Answer (Unit {0}) × World) → (noted x).1.faults ≡ x.1.faults
      at (ok y, v) = refl
      at (err e, v) = refl

  -- What is stored and announced, when the database answers.
  after_save_calm :
      (t : PictureTask) (w : World)
      → w.faults ≡ []
      → (after_save fl uuid t (fails w)).1 ≡ announce fl uuid t (store_task t w)
  after_save_calm t w h =
      ap (λ x. (after_save fl uuid t x).1) (fails_calm w h)
      ∙ ap (λ x. (after_commit fl uuid t x).1) (fails_calm w h)

  after_begin_calm :
      (err_msg : String) (task t : PictureTask) (w : World)
      → w.faults ≡ []
      → first (has_task_id task.task_id) w.tasks ≡ some t
      → is_terminal t.status ≡ false
      → (after_begin fl uuid err_msg task (fails w)).1.1
        ≡ (after_refund fl uuid err_msg
            (with_reasons task t)
            (refund_latest fl (with_reasons task t) w)).1
  after_begin_calm err_msg task t w h row running =
      ap (λ x. (after_begin fl uuid err_msg task x).1.1) (fails_calm w h)
      ∙ (ap (λ x. (after_lookup fl uuid err_msg task x).1.1) (get_task_calm task.task_id t w h row)
          ∙ ap
              (λ b.
                (if b
                  then (none, (t.user_id, w))
                  else for_user fl uuid t.user_id (
                      after_refund fl uuid err_msg (with_reasons task t)
                        (refund_latest fl (with_reasons task t) w))).1.1)
              running)

  -- The row and the world that the chain service is told of.
  abbrev pub failed_task : String → PictureTask → PictureTask → World → PictureTask
  failed_task err_msg task t w =
      let u = with_reasons task t in failed_row err_msg (refund_latest fl u w).0 u

  abbrev pub told : PictureTask → World → World
  told t w = trigger_on_task_terminated t (send t (store_task t w))

  -- The credits after FailTask are those after the failure of the chain, which follows the refund.
  pub fail_task-credits :
      (err_msg : String) (task t : PictureTask) (r w : World)
      → w.faults ≡ []
      → first (has_task_id task.task_id) w.tasks ≡ some t
      → is_terminal t.status ≡ false
      → (refund_latest fl (with_reasons task t) w).1 ≡ r
      → r.faults ≡ []
      → (fail_task fl uuid err_msg task w).1.credits
        ≡ (on_task_failed fl uuid task.task_id (told (failed_task err_msg task t w) r)).credits
  unfolding fail_task fail_in_transaction refund_latest announce
  fail_task-credits err_msg task t r w h row running refunded calm =
      let i = task.task_id in
      let same : t.task_id ≡ i =
        (eq_iff t.task_id i).0 (first_holds (has_task_id i) w.tasks t row) in
      let x = fail_in_transaction fl uuid err_msg task w in
      let stored = failed_task err_msg task t w in
      (release_user_processing_lock-Same x.1.0 i x.1.1).2
      ∙ (ap (λ z. z.credits) (after_begin_calm err_msg task t w h row running)
          ∙ (ap (λ z. (after_save fl uuid stored (fails z)).1.credits) refunded
              ∙ (ap (λ z. z.credits) (after_save_calm stored r calm)
                  ∙ ap (λ j. (on_task_failed fl uuid j (told stored r)).credits) same)))
