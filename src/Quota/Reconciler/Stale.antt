-- ===== src/Quota/Reconciler/Stale.antt =====
-- Which slots a round of the reconciler frees.
use genioai_wxmini_server.Base.{
  ℕ, String, true, false, Option, none, some, [], ◌≡◌, refl, sym, ap, subst, ◌∙◌, arith, Bool-cases,
  inl, inr, ◌⊎◌, str_eq, str_eq_self, eq_iff,
}
use genioai_wxmini_server.Quota.World.{QuotaType, Task, World, fails, set_slot}
use genioai_wxmini_server.Quota.Slot.{Slot, is_member, srem, release_slot_script}
use genioai_wxmini_server.Quota.Slot.Bounds.{
  IsConsistent, release_slot_script-IsConsistent, srem-removes, srem-keeps,
}
use genioai_wxmini_server.Quota.Checker.{build_key, release_slot}
use genioai_wxmini_server.Quota.Checker.Limit.{eval_calm}
use genioai_wxmini_server.Quota.Checker.Undo.{IsAt, fails-IsAt}
use genioai_wxmini_server.Quota.Transition.{find_task}
use genioai_wxmini_server.Quota.Reconciler.{
  Adapter, is_active, awaiting_too_long, get_task, after_get, process_one,
}
use genioai_wxmini_server.Quota.Reconciler.Reasons.{
  unread, gone, idle, overdue, IsReason, IsHeld, IsFreed, true_ne, is_active-IsLive,
  IsLive-is_active, too_long-IsOverdue, IsOverdue-too_long,
}

-- An adapter with both fields, as the reconcilers build it.
abbrev pub adapter : QuotaType → Adapter
adapter q = record { quota_type = q; has_task_getter = true; has_releaser = true }

-- The release script on a consistent slot.
release_slot_script-IsFreed :
    (task_id : String) (s : Slot)
    → IsConsistent s
    → IsFreed task_id s (release_slot_script task_id s).1
release_slot_script-IsFreed task_id s c =
    let done = release_slot_script-IsConsistent task_id s c in
    elim (Bool-cases (is_member task_id s.tasks)) [
      | inr e ↦ rw e (record { out = e; others = λ y. inr refl; consistent = c })
      | inl e ↦
          let left : (release_slot_script task_id s).1.tasks ≡ srem task_id s.tasks =
            ground arith in
          record {
            out = rw left (srem-removes task_id s.tasks c.distinct);
            others = λ y. rw left (srem-keeps task_id y s.tasks);
            consistent = done;
          }
    ]

-- The slots after a release that Redis answers.
abbrev Frees : QuotaType → String → String → (String → Slot) → World → Type 0
Frees q user_id task_id slots after =
    IsFreed task_id (slots (build_key q user_id)) (after.slots (build_key q user_id))
    × ((k : String) → (build_key q user_id ≡ k) ⊎ (after.slots k ≡ slots k))

release_slot-Frees :
    (q : QuotaType) (user_id task_id : String) (w : World)
    → w.redis_faults ≡ []
    → w.degrade_mode ≡ false
    → IsConsistent (w.slots (build_key q user_id))
    → Frees q user_id task_id w.slots (release_slot q user_id task_id w).1
unfolding release_slot
release_slot-Frees q user_id task_id w calm d c =
    let key = build_key q user_id in
    simp (d, eval_calm (release_slot_script task_id) key w calm)
      (freed key (release_slot_script-IsFreed task_id (w.slots key) c), elsewhere key)
  where
    freed :
        (key : String)
        → IsFreed task_id (w.slots key) (release_slot_script task_id (w.slots key)).1
        → IsFreed task_id
            (w.slots key)
            (set_slot key (release_slot_script task_id (w.slots key)).1 w.slots key)
    freed key h = rw (str_eq_self key) h

    elsewhere :
        (key k : String)
        → (key ≡ k)
          ⊎ (set_slot key (release_slot_script task_id (w.slots key)).1 w.slots k ≡ w.slots k)
    elsewhere key k = elim (Bool-cases (str_eq key k)) [
      | inl e ↦ inl ((eq_iff key k).0 e)
      | inr e ↦ inr (rw e refl)
    ]

fails-tasks : (w : World) → (fails w).1.tasks ≡ w.tasks
unfolding fails
fails-tasks w = ground arith

module _ (q : QuotaType) (timeout now : ℕ) (user_id task_id : String) (w : World)
    (at : IsAt w.slots w) (c : IsConsistent (w.slots (build_key q user_id))) where
  abbrev Decided : World → Type 0
  Decided after =
      (IsReason q timeout now task_id w
        × IsFreed task_id (w.slots (build_key q user_id)) (after.slots (build_key q user_id))
        × ((k : String) → (build_key q user_id ≡ k) ⊎ (after.slots k ≡ w.slots k)))
      ⊎ (IsHeld q timeout now task_id w × ((k : String) → after.slots k ≡ w.slots k))

  -- The query only uses up its outcome.
  after_query-Frees : Frees q user_id task_id w.slots (release_slot q user_id task_id (fails w).1).1
  after_query-Frees =
      let (slots, calm, d) = fails-IsAt w.slots w at in
      let after = (release_slot q user_id task_id (fails w).1).1 in
      subst (λ f. Frees q user_id task_id f after) slots
        (release_slot-Frees q user_id task_id (fails w).1 calm d
          (subst (λ f. IsConsistent (f (build_key q user_id))) (sym slots) c))

  after_get-Decided :
      (o : Option Task)
      → (fails w).0 ≡ false
      → find_task task_id w.tasks ≡ o
      → Decided (after_get (adapter q) timeout now user_id task_id (o, (fails w).1))
  after_get-Decided none a f = inl (gone f, after_query-Frees.0, after_query-Frees.1)
  after_get-Decided (some t) a f = elim (Bool-cases (is_active q t.status)) [
    | inr n ↦ simp n (
        inl (
          idle t f (λ l. true_ne (sym (IsLive-is_active l) ∙ n)),
          after_query-Frees.0,
          after_query-Frees.1,
        ))
    | inl y ↦ elim (Bool-cases (awaiting_too_long timeout now t)) [
      | inl late ↦
          simp (y, late)
            (inl (
              overdue t f (too_long-IsOverdue timeout now t late),
              after_query-Frees.0,
              after_query-Frees.1,
            ))
      | inr early ↦
          simp (y, early)
            (inr (
              record {
                answered = a;
                task = t;
                found = f;
                live = is_active-IsLive q t.status y;
                in_time = λ o. true_ne (sym (IsOverdue-too_long timeout now t o) ∙ early);
              },
              λ k. ap (λ g. g k) (fails-IsAt w.slots w at).0,
            ))
    ]
  ]

-- A round of the reconciler frees the slot of a task when the query for the task failed, whatever the
-- task is then, or the task is gone, or its status takes up no slot of the quota, or it has awaited
-- its provider for longer than the timeout. The task is then out of the slot of its user, every other
-- task is in it as before, the counter is the number of tasks in it, and no other slot changes.
-- Otherwise, which is when the query was answered with a task that takes up a slot and is not
-- overdue, every slot stays as it was. This holds of every quota, whatever the outcome of the query.
-- Assumed: Redis answers, no degrade mode, and the counter of the slot was the number of the tasks in
-- it, each there once.
pub process_one_decides :
    (q : QuotaType) (timeout now : ℕ) (user_id task_id : String) (w : World)
    → w.redis_faults ≡ []
    → w.degrade_mode ≡ false
    → IsConsistent (w.slots (build_key q user_id))
    → let after = process_one (adapter q) timeout now user_id task_id w in
      (IsReason q timeout now task_id w
        × IsFreed task_id (w.slots (build_key q user_id)) (after.slots (build_key q user_id))
        × ((k : String) → (build_key q user_id ≡ k) ⊎ (after.slots k ≡ w.slots k)))
      ⊎ (IsHeld q timeout now task_id w × ((k : String) → after.slots k ≡ w.slots k))
unfolding process_one get_task
process_one_decides q timeout now user_id task_id w calm d c = elim (Bool-cases (fails w).0) [
  | inl e ↦
      simp (d, e)
        (let freed = after_query-Frees q timeout now user_id task_id w at c in
          inl (unread e, freed.0, freed.1))
  | inr e ↦
      simp (d, e)
        (subst
          (λ ts.
            Decided q timeout now user_id task_id w at c (
              after_get (adapter q) timeout now user_id task_id
                (find_task task_id ts, (fails w).1)))
          (sym (fails-tasks w))
          (after_get-Decided q timeout now user_id task_id w at c (find_task task_id w.tasks) e
            refl))
]
  where
    at : IsAt w.slots w
    at = (refl, calm, d)
