-- ===== src/Chain/RetryTask/Done.antt =====
-- What a retry does to the tables.
use genioai_wxmini_server.Base.{
  ℕ, ℤ, String, Bool, true, false, none, some, ◌≡◌, refl, sym, ap, ◌∙◌, inl, inr, ◌⊎◌, Bool-cases,
  pos, ltb_ℤ,
}
use genioai_wxmini_server.Credit.Store as Store
use genioai_wxmini_server.Credit.Store.{Db, Result}
use genioai_wxmini_server.Credit.Dao.{OrderBy}
use genioai_wxmini_server.Credit.Deduct.{DeductionInfo, deduct_credits_with_tx}
use genioai_wxmini_server.Credit.Refund.{no_info, parsed}
use genioai_wxmini_server.Chain.World.{
  PictureTask, World, Answer, ok, err, fails, get_task, first, save, has_task_id, store_task,
}
use genioai_wxmini_server.Chain.Frame.{Same, Same-trans, fails-Same, get_task-Same, get_task_found}
use genioai_wxmini_server.Chain.RetryTask.{
  is_retriable, retry_request, retried_row, Retried, undo_error, after_retry_commit,
  after_retry_save, save_retry, after_deduction, credit_cost, pay_and_save, after_row_read,
  after_retry_begin, retry_failed_task,
}

-- A retry without a price: the row is rewritten and no credit moves.
abbrev pub IsFree : ℤ → PictureTask → World → World → Type 0
IsFree cost t w w' =
    (ltb_ℤ (pos 0) cost ≡ false)
    × (w'.tasks ≡ save (has_task_id t.task_id) (retried_row cost no_info t) w.tasks)
    × (w'.credits ≡ w.credits)

abbrev pub IsUntouched : World → World → Type 0
IsUntouched w w' =
    (w'.tasks ≡ w.tasks)
    × (w'.credits.amounts ≡ w.credits.amounts)
    × (w'.credits.transactions ≡ w.credits.transactions)

-- What a successful save leaves.
abbrev Saved : PictureTask → World → Retried → Type 0
Saved u w (some e, w') = Unit
Saved u w (none, w') =
    (w'.tasks ≡ save (has_task_id u.task_id) u w.tasks) × (w'.credits ≡ w.credits)

save_retry-Saved : (u : PictureTask) (w : World) → Saved u w (save_retry u w)
unfolding save_retry
save_retry-Saved u w = saved (fails w) (fails-Same w)
  where
    committed :
        (v : World) (x : Bool × World)
        → Same w v
        → Same (store_task u v) x.1
        → Saved u w (after_retry_commit u x)
    committed v (true, y) s k = tt
    committed v (false, y) s k = (k.0 ∙ ap (save (has_task_id u.task_id) u) s.0, k.2 ∙ s.2)

    saved : (x : Bool × World) → Same w x.1 → Saved u w (after_retry_save u x)
    saved (true, v) s = tt
    saved (false, v) s = committed v (fails (store_task u v)) s (fails-Same (store_task u v))

module _ (order : OrderBy) (now : ℕ) (free_image_generation : Bool)
    (is_member : String → Bool) where
  abbrev pub cost_of : PictureTask → ℤ
  cost_of = credit_cost order now free_image_generation is_member

  -- A retry that was paid for by one deduction.
  abbrev pub IsCharged : PictureTask → World → World → Type 0
  IsCharged t w w' =
      (ltb_ℤ (pos 0) (cost_of t) ≡ true)
      × (info : DeductionInfo) × (deduct_credits_with_tx order now (retry_request t) (cost_of t)
            (is_member t.user_id) w.credits
          ≡ (Store.ok info, w'.credits))
      × (w'.tasks ≡ save (has_task_id t.task_id) (retried_row (cost_of t) (parsed info) t) w.tasks)

  abbrev pub IsChange : PictureTask → World → World → Type 0
  IsChange t w w' = IsFree (cost_of t) t w w' ⊎ IsCharged t w w'

  abbrev pub IsDone : String → World → Retried → Type 0
  IsDone task_id w (some e, w') = IsUntouched w w'
  IsDone task_id w (none, w') =
      (t : PictureTask) × (first (has_task_id task_id) w.tasks ≡ some t)
      × (is_retriable t ≡ true)
      × IsChange t w w'

  -- A change from a world with the same tables.
  IsChange-across : (t : PictureTask) (w u v : World) → Same w u → IsChange t u v → IsChange t w v
  IsChange-across t w u v s (inl (e, rows, credits)) = inl (
    e,
    rows ∙ ap (save (has_task_id t.task_id) (retried_row (cost_of t) no_info t)) s.0,
    credits ∙ s.2,
  )
  IsChange-across t w u v s (inr (e, info, run, rows)) = inr (
    e,
    info,
    ap (deduct_credits_with_tx order now (retry_request t) (cost_of t) (is_member t.user_id))
          (sym s.2)
        ∙ run,
    rows ∙ ap (save (has_task_id t.task_id) (retried_row (cost_of t) (parsed info) t)) s.0,
  )

  -- The body on the task that was read.
  abbrev Body : PictureTask → World → Retried → Type 0
  Body t w (some e, w') = Unit
  Body t w (none, w') = IsChange t w w'

  pay_and_save-Body :
      (t : PictureTask) (w : World)
      → Body t w (pay_and_save order now free_image_generation is_member (cost_of t) t w)
  unfolding pay_and_save
  pay_and_save-Body t w = elim (Bool-cases (ltb_ℤ (pos 0) (cost_of t))) [
    | inl e ↦ simp e (paid e (deduct w.credits) refl)
    | inr e ↦ simp e (free e (save_retry row w) (save_retry-Saved row w))
  ]
    where
      row : PictureTask
      row = retried_row (cost_of t) no_info t

      deduct : Db → Result DeductionInfo × Db
      deduct = deduct_credits_with_tx order now (retry_request t) (cost_of t) (is_member t.user_id)

      free : ltb_ℤ (pos 0) (cost_of t) ≡ false → (x : Retried) → Saved row w x → Body t w x
      free e (some r, v) s = tt
      free e (none, v) s = inl (e, s.0, s.1)

      charged :
          ltb_ℤ (pos 0) (cost_of t) ≡ true
          → (info : DeductionInfo) (db : Db) → deduct w.credits ≡ (Store.ok info, db)
          → (x : Retried)
          → Saved (retried_row (cost_of t) (parsed info) t) (record w { credits = db }) x
          → Body t w x
      charged e info db run (some r, v) s = tt
      charged e info db run (none, v) s =
          inr (e, info, run ∙ ap (λ d. (Store.ok info, d)) (sym s.1), s.0)

      paid :
          ltb_ℤ (pos 0) (cost_of t) ≡ true
          → (x : Result DeductionInfo × Db) → deduct w.credits ≡ x
          → Body t w (after_deduction (cost_of t) t w x)
      paid e (Store.ok info, db) run =
          charged e info db run _
            (save_retry-Saved (retried_row (cost_of t) (parsed info) t) (record w { credits = db }))
      paid e (Store.err r, db) run = tt

  pub retry_failed_task-IsDone :
      (task_id : String) (w : World)
      → IsDone task_id w (retry_failed_task order now free_image_generation is_member task_id w)
  unfolding retry_failed_task
  retry_failed_task-IsDone task_id w = begun (fails w) (fails-Same w)
    where
      settled :
          (t : PictureTask) (u : World)
          → Same w u
          → first (has_task_id task_id) w.tasks ≡ some t
          → is_retriable t ≡ true
          → (x : Retried) → Body t u x
          → IsDone task_id w (undo_error w x)
      settled t u s row may (some e, v) b = (refl, refl, refl)
      settled t u s row may (none, v) b = (t, row, may, IsChange-across t w u v s b)

      read :
          (v : World)
          → Same w v
          → (x : Answer PictureTask × World) → get_task task_id v ≡ x
          → Same v x.1
          → IsDone task_id w
              (undo_error w (after_row_read order now free_image_generation is_member x))
      read v s (err e, u) run k = (refl, refl, refl)
      read v s (ok t, u) run k =
          let row = ap (first (has_task_id task_id)) (sym s.0) ∙ get_task_found task_id v t u run in
          elim (Bool-cases (is_retriable t)) [
            | inl e ↦ simp e (
                settled t u (Same-trans w v u s k) row e
                  (pay_and_save order now free_image_generation is_member (cost_of t) t u)
                  (pay_and_save-Body t u))
            | inr e ↦ simp e (refl, refl, refl)
          ]

      begun :
          (x : Bool × World)
          → Same w x.1
          → IsDone task_id w
              (after_retry_begin order now free_image_generation is_member w task_id x)
      begun (true, v) s = (s.0, ap (λ (d : Db). d.amounts) s.2, ap (λ (d : Db). d.transactions) s.2)
      begun (false, v) s = read v s (get_task task_id v) refl (get_task-Same task_id v)
