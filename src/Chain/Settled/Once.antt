-- ===== src/Chain/Settled/Once.antt =====
-- FailTask is carried out at most once.
use genioai_wxmini_server.Base.{
  ℕ, String, Bool, true, false, Option, none, some, str_eq, eq_iff, ◌≡◌, refl, sym, ap, subst, ◌∙◌,
  inl, inr, arith, Bool-cases, some_eq,
}
use genioai_wxmini_server.Chain.World.{
  PictureTask, World, Error, begin_failed, update_failed, commit_failed, Answer, ok, err, fails,
  first, has_task_id, store_task, get_task, redis_call, send,
}
use genioai_wxmini_server.Chain.Frame.{
  Same, Same-trans, fails-Same, redis_call-Same, get_task-Same, get_task_found, first-save_same,
  first_holds,
}
use genioai_wxmini_server.Chain.Partial.{Float64}
use genioai_wxmini_server.Chain.FailTask.{
  is_terminal, after_lock_read, del_if_own, after_del, release_user_processing_lock, failed_row,
  with_reasons, refund_latest, announce, after_commit, after_save, for_user, after_lookup,
  after_begin, fail_in_transaction, unlocked, fail_task, trigger_on_task_terminated,
}
use genioai_wxmini_server.Chain.Settled.{IsSettled, IsSettled-across}
use genioai_wxmini_server.Chain.Settled.Kept.{on_task_failed-IsSettled}

-- Releasing the lock of the user touches no table.
pub release_user_processing_lock-Same :
    (user_id task_id : String) (w : World) → Same w (release_user_processing_lock user_id task_id w)
unfolding release_user_processing_lock
release_user_processing_lock-Same user_id task_id w = got (redis_call w) (redis_call-Same w)
  where
    deleted : (u : World) (x : Option Bool × World) → Same u x.1 → Same u (after_del user_id x)
    deleted u (none, v) h = h
    deleted u (some true, v) h = h
    deleted u (some false, v) h = h

    held : (o : Option String) (v : World) → Same v (del_if_own user_id task_id o v)
    held none v = (refl, refl, refl)
    held (some s) v = elim (Bool-cases (str_eq s task_id)) [
      | inl e ↦ simp e (deleted v (redis_call v) (redis_call-Same v))
      | inr e ↦ simp e (refl, refl, refl)
    ]

    got : (x : Option Bool × World) → Same w x.1 → Same w (after_lock_read user_id task_id x)
    got (none, v) h =
        Same-trans w v (del_if_own user_id task_id (v.user_lock user_id) v) h
          (held (v.user_lock user_id) v)
    got (some b, v) h = h

module _ {F : Type 0} (fl : Float64 F) (uuid : ℕ → String) where
  -- A task that is settled is left alone.
  pub fail_task-settled :
      (err_msg : String) (task : PictureTask) (w : World)
      → IsSettled task.task_id w
      → Same w (fail_task fl uuid err_msg task w).1
  unfolding fail_task fail_in_transaction
  fail_task-settled err_msg task w h =
      let x = fail_in_transaction fl uuid err_msg task w in
      Same-trans w x.1.1 (release_user_processing_lock x.1.0 task.task_id x.1.1)
        (begun (fails w) (fails-Same w))
        (release_user_processing_lock-Same x.1.0 task.task_id x.1.1)
    where
      found :
          (v : World) (x : Answer PictureTask × World)
          → get_task task.task_id v ≡ x
          → Same w v
          → Same v x.1
          → Same w (after_lookup fl uuid err_msg task x).1.1
      found v (err e, u) r s k = Same-trans w v u s k
      found v (ok t, u) r s k =
          let (row, at_row, terminal) = h in
          let same =
            sym at_row
            ∙ (ap (first (has_task_id task.task_id)) (sym s.0)
                ∙ get_task_found task.task_id v t u r) in
          let settled = subst (λ z. is_terminal z.status ≡ true) (some_eq row t same) terminal in
          simp settled (Same-trans w v u s k)

      begun : (x : Bool × World) → Same w x.1 → Same w (after_begin fl uuid err_msg task x).1.1
      begun (true, v) s = s
      begun (false, v) s = found v (get_task task.task_id v) refl s (get_task-Same task.task_id v)

  -- A call that reports no error leaves its task settled.
  pub fail_task-settles :
      (err_msg : String) (task : PictureTask) (w w' : World)
      → fail_task fl uuid err_msg task w ≡ (none, w')
      → IsSettled task.task_id w'
  unfolding fail_task fail_in_transaction announce
  fail_task-settles err_msg task w w' h = begun (fails w) h
    where
      Settles : Option Error × (String × World) → Type 0
      Settles x = unlocked fl uuid task.task_id x ≡ (none, w') → IsSettled task.task_id w'

      released :
          (user_id : String) (v : World) → IsSettled task.task_id v → Settles (none, (user_id, v))
      released user_id v k e =
          let u = release_user_processing_lock user_id task.task_id v in
          IsSettled-across task.task_id u w' (ap (λ z. z.tasks) (pair_snd e)) (
            IsSettled-across task.task_id v u
              (release_user_processing_lock-Same user_id task.task_id v).0 k)
        where
          pair_snd : {a b : World} → ◌≡◌ {A = Option Error × World} (none, a) (none, b) → b ≡ a
          pair_snd q = ground arith

      refused : (e : Error) (y : String × World) → Settles (some e, y)
      refused e y q = absurd (ground arith)

      stored :
          (t : PictureTask) (user_id : String) (x : Bool × World)
          → t.task_id ≡ task.task_id
          → is_terminal t.status ≡ true
          → Settles (for_user fl uuid user_id (after_commit fl uuid t x))
      stored t user_id (true, v) i k = refused commit_failed (user_id, v)
      stored t user_id (false, v) i k = released user_id (announce fl uuid t (store_task t v)) (
          on_task_failed-IsSettled fl uuid task.task_id t.task_id
            (trigger_on_task_terminated t (send t (store_task t v)))
            (
              t,
              subst (λ j. first (has_task_id j) (store_task t v).tasks ≡ some t) i
                  (first-save_same t v.tasks),
              k,
            ))

      saved :
          (t : PictureTask) (user_id : String) (x : Bool × World)
          → t.task_id ≡ task.task_id
          → is_terminal t.status ≡ true
          → Settles (for_user fl uuid user_id (after_save fl uuid t x))
      saved t user_id (true, v) i k = refused update_failed (user_id, v)
      saved t user_id (false, v) i k = stored t user_id (fails v) i k

      found :
          (v : World) (x : Answer PictureTask × World)
          → get_task task.task_id v ≡ x
          → x.1.tasks ≡ v.tasks
          → Settles (after_lookup fl uuid err_msg task x)
      found v (err e, u) r same = refused e (task.user_id, u)
      found v (ok t, u) r same =
          let row = get_task_found task.task_id v t u r in
          elim (Bool-cases (is_terminal t.status)) [
            | inl e ↦
                simp e
                  (released t.user_id u (t, ap (first (has_task_id task.task_id)) same ∙ row, e))
            | inr e ↦
                let x = refund_latest fl (with_reasons task t) u in
                simp e (
                  saved (failed_row err_msg x.0 (with_reasons task t)) t.user_id (fails x.1)
                    ((eq_iff t.task_id task.task_id).0
                      (first_holds (has_task_id task.task_id) v.tasks t row))
                    refl)
          ]

      begun : (x : Bool × World) → Settles (after_begin fl uuid err_msg task x)
      begun (true, v) = refused begin_failed (task.user_id, v)
      begun (false, v) = found v (get_task task.task_id v) refl (get_task-Same task.task_id v).0

-- FailTask takes effect at most once: after a call that reports no error, a further call for the same
-- task, whatever its message and whatever faults it meets, leaves the tasks, the chains and the
-- credits as they are.
pub fail_task-once :
    {F : Type 0} (fl : Float64 F) (uuid : ℕ → String) (err_msg err_msg' : String)
    (task task' : PictureTask) (w w' : World)
    → task'.task_id ≡ task.task_id
    → fail_task fl uuid err_msg task w ≡ (none, w')
    → Same w' (fail_task fl uuid err_msg' task' w').1
fail_task-once fl uuid err_msg err_msg' task task' w w' i h =
    fail_task-settled fl uuid err_msg' task' w'
      (subst (λ j. IsSettled j w') (sym i) (fail_task-settles fl uuid err_msg task w w' h))
