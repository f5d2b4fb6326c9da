-- ===== src/Chain/RetryTask/Atomic.antt =====
-- A retry is all or nothing.
use genioai_wxmini_server.Base.{
  ℕ, ℤ, String, Bool, true, false, none, some, List, [], ◌∷◌, ◌≡◌, subst, inl, inr, ◌⊎◌, arith,
  Bool-cases, pos, negsuc, ltb_ℤ, ◌≤ℤ◌, ◌+ℤ◌, IsInt64, All, ◌&&◌, if◌then◌else◌,
}
use genioai_wxmini_server.Quota.World.{Status, failed}
use genioai_wxmini_server.Credit.Dao.{OrderBy}
use genioai_wxmini_server.Credit.Invariant.{IsOrder, IsSound}
use genioai_wxmini_server.Credit.Deduct.{DeductionInfo}
use genioai_wxmini_server.Credit.Deduct.Charges.{sum_remaining}
use genioai_wxmini_server.Credit.Deduct.Effect.{sum_changes}
use genioai_wxmini_server.Credit.Deduct.Conservation.{sum_info, deduct_credits_with_tx-conserves}
use genioai_wxmini_server.Credit.Refund.{parsed}
use genioai_wxmini_server.Chain.World.{PictureTask, World, first, save, has_task_id}
use genioai_wxmini_server.Chain.RetryTask.Done.{
  IsFree, IsUntouched, IsDone, retry_failed_task-IsDone,
}
use genioai_wxmini_server.Chain.RetryTask.{
  image_generation_cost, is_failed, retry_request, retried_row, Retried, credit_cost,
  retry_failed_task,
}

-- A retry that is paid for: the row has the map of exactly what was taken.
abbrev pub IsPaid : ℤ → PictureTask → World → World → Type 0
IsPaid cost t w w' =
    (ltb_ℤ (pos 0) cost ≡ true)
    × (info : DeductionInfo) × (w'.tasks
        ≡ save (has_task_id t.task_id) (retried_row cost (parsed info) t) w.tasks)
    × (sum_info info ≡ cost)
    × (sum_remaining w'.credits.amounts +ℤ cost ≡ sum_remaining w.credits.amounts)
    × (sum_changes w'.credits.transactions +ℤ cost ≡ sum_changes w.credits.transactions)
    × IsSound w'.credits

abbrev pub IsAtomic : (PictureTask → ℤ) → String → World → Retried → Type 0
IsAtomic cost task_id w (some e, w') = IsUntouched w w'
IsAtomic cost task_id w (none, w') =
    (t : PictureTask) × (first (has_task_id task_id) w.tasks ≡ some t)
    × (t.can_retry ≡ true)
    × (t.status ≡ failed)
    × (IsFree (cost t) t w w' ⊎ IsPaid (cost t) t w w')

retriable :
    (can_retry : Bool) (status : Status)
    → (can_retry && is_failed status) ≡ true
    → (can_retry ≡ true) × (status ≡ failed)
retriable can_retry status h = ground arith

pub positive : (a : ℤ) → ltb_ℤ (pos 0) a ≡ true → pos 0 ≤ℤ a
positive (pos n) h = omega arith
positive (negsuc n) h = absurd (ground arith)

pub first-All :
    {A : Type 0} (P : A → Type 0) (p : A → Bool) (xs : List A) (x : A)
    → All P xs
    → first p xs ≡ some x
    → P x
first-All P p [] x a h = absurd (ground arith)
first-All P p (y ∷ ys) x a h = elim (Bool-cases (p y)) [
  | inl e ↦ subst P (yes e h) a.0
  | inr e ↦ first-All P p ys x a.1 (no e h)
]
  where
    yes : p y ≡ true → (if p y then some y else first p ys) ≡ some x → y ≡ x
    yes e k = ground arith

    no : p y ≡ false → (if p y then some y else first p ys) ≡ some x → first p ys ≡ some x
    no e k = ground arith

-- The price is the stored one or 0.
pub image_generation_cost-IsInt64 :
    (free_image_generation : Bool) (amount : ℤ) (is_image : Bool)
    → IsInt64 amount
    → IsInt64 (image_generation_cost free_image_generation amount is_image false)
unfolding image_generation_cost
image_generation_cost-IsInt64 true amount true h = ground arith
image_generation_cost-IsInt64 false amount true h = h
image_generation_cost-IsInt64 b amount false h = h

-- RetryFailedTask is all or nothing, whatever faults it meets. On success the task was failed and
-- retriable, its row is the pending one with the price of the retry and is not marked as refunded, no
-- other row changes, and either the price is not positive and the credits are as before, or the
-- balances fall by exactly the price, the map of the row and the ledger entries sum to it and the
-- table of credits stays sound. On any error all three tables are as before. Assumed: a sound table
-- of credits, stored prices within int64, and an ORDER BY that returns the selected rows in some
-- order.
pub retry_failed_task-IsAtomic :
    (order : OrderBy) (now : ℕ) (free_image_generation : Bool) (is_member : String → Bool)
    (task_id : String) (w : World)
    → IsOrder order
    → IsSound w.credits
    → All (λ t. IsInt64 t.credit_points) w.tasks
    → IsAtomic
        (credit_cost order now free_image_generation is_member)
        task_id
        w
        (retry_failed_task order now free_image_generation is_member task_id w)
retry_failed_task-IsAtomic order now free_image_generation is_member task_id w o sound prices =
    at _ (retry_failed_task-IsDone order now free_image_generation is_member task_id w)
  where
    at :
        (x : Retried)
        → IsDone order now free_image_generation is_member task_id w x
        → IsAtomic (credit_cost order now free_image_generation is_member) task_id w x
    at (some e, v) d = d
    at (none, v) (t, row, may, inl c) =
        let (can, is) = retriable t.can_retry t.status may in (t, row, can, is, inl c)
    at (none, v) (t, row, may, inr (e, info, run, rows)) =
        let cost = credit_cost order now free_image_generation is_member t in
        let (balance, whole, ledger, after) =
          deduct_credits_with_tx-conserves order now (retry_request t) cost (is_member t.user_id)
            w.credits o sound (positive cost e)
            (image_generation_cost-IsInt64 free_image_generation t.credit_points _
              (first-All (λ z. IsInt64 z.credit_points) (has_task_id task_id) w.tasks t prices row))
            run in
        let (can, is) = retriable t.can_retry t.status may in
        (t, row, can, is, inr (e, info, rows, whole, balance, ledger, after))
