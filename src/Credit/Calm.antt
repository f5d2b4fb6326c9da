-- ===== src/Credit/Calm.antt =====
-- Sequences of statements that succeed on a database that answers.
use genioai_wxmini_server.Base.{
  ℕ, ℤ, String, Option, none, some, List, [], ◌∷◌, ◌≡◌, refl, sym, ap, subst, ◌∙◌,
}
use genioai_wxmini_server.Credit.Model.{UserAmount, CreditTransaction}
use genioai_wxmini_server.Credit.Store.{
  Db, ok, M, pure, continue, ◌>>=◌, ◌>>◌, modify, statement, statement_total, transaction,
  roll_back, find_row,
}
use genioai_wxmini_server.Credit.Dao.{
  get_user_amounts_by_ids, update_user_amount, create_transaction,
}
use genioai_wxmini_server.Credit.Deduct.{DeductionInfo, draw}
use genioai_wxmini_server.Credit.Refund.{
  RefundTask, parsed, refund_one, refund_entry, refund_loop, refund_map, refund_stored,
  refund_credits, keys,
}

-- It succeeds, and no fault is to come afterwards.
abbrev pub Runs : {A : Type 0} → M A → Type 0
Runs {A} m =
    (db : Db) → db.faults ≡ [] → (a : A) × (db' : Db) × (m db ≡ (ok a, db')) × (db'.faults ≡ [])

pure-Runs : {A : Type 0} (a : A) → Runs (pure a)
pure-Runs a db h = (a, db, refl, h)

bind-Runs :
    {A B : Type 0} (m : M A) (f : A → M B) → Runs m → ((a : A) → Runs (f a)) → Runs (m >>= f)
bind-Runs m f r k db h =
    let (a, mid, e, s) = r db h in
    let (b, db', e', s') = k a mid s in (b, db', ap (continue f) e ∙ e', s')

statement-Runs : Runs statement
statement-Runs db h = (tt, db, statement_total db h, h)

modify-Runs : (f : Db → Db) → ((db : Db) → (f db).faults ≡ db.faults) → Runs (modify f)
modify-Runs f k db h = (tt, f db, refl, k db ∙ h)

draw-Runs : Runs draw
draw-Runs db h = (_, _, refl, h)

update_user_amount-Runs : (u : UserAmount) → Runs (update_user_amount u)
unfolding update_user_amount
update_user_amount-Runs u = bind-Runs statement _ statement-Runs (λ x. modify-Runs _ (λ db. refl))

create_transaction-Runs : (t : CreditTransaction) → Runs (create_transaction t)
unfolding create_transaction
create_transaction-Runs t = bind-Runs statement _ statement-Runs (λ x. modify-Runs _ (λ db. refl))

transaction-Runs : {A : Type 0} (m : M A) → Runs m → Runs (transaction m)
unfolding transaction
transaction-Runs {A} m r db h =
    let body =
      bind-Runs statement (λ _. m >>= λ (a : A). statement >> pure a) statement-Runs
        (λ _.
          bind-Runs m (λ (a : A). statement >> pure a) r
            (λ a. bind-Runs statement (λ _. pure a) statement-Runs (λ _. pure-Runs a))) in
    let (a, db', e, k) = body db h in (a, db', ap (roll_back db) e, k)

refund_entry-Runs :
    (t : RefundTask) (description : String) (o : Option UserAmount) (x : ℤ)
    → Runs (refund_entry t description o x)
unfolding refund_entry refund_one
refund_entry-Runs t description none x = pure-Runs tt
refund_entry-Runs t description (some u) x =
    bind-Runs (update_user_amount _) _ (update_user_amount-Runs _)
      (λ y. bind-Runs draw _ draw-Runs (λ n. create_transaction-Runs _))

refund_loop-Runs :
    (t : RefundTask) (description : String) (found : List UserAmount) (m : DeductionInfo)
    → Runs (refund_loop t description found m)
unfolding refund_loop
refund_loop-Runs t description found [] = pure-Runs tt
refund_loop-Runs t description found ((k, x) ∷ m) =
    bind-Runs (refund_entry t description (find_row k found) x) _
      (refund_entry-Runs t description (find_row k found) x)
      (λ y. refund_loop-Runs t description found m)

get_user_amounts_by_ids-Runs : (ids : List ℕ) → Runs (get_user_amounts_by_ids ids)
unfolding get_user_amounts_by_ids
get_user_amounts_by_ids-Runs [] = pure-Runs []
get_user_amounts_by_ids-Runs (i ∷ ids) =
    bind-Runs statement _ statement-Runs (λ x. λ db h. (_, db, refl, h))

refund_stored-Runs :
    (t : RefundTask) (description : String) (m : DeductionInfo)
    → Runs (refund_stored t description (parsed m))
unfolding refund_stored refund_map
refund_stored-Runs t description [] = pure-Runs tt
refund_stored-Runs t description (e ∷ m) = transaction-Runs (refund_map t description (e ∷ m)) (
    bind-Runs (get_user_amounts_by_ids (keys (e ∷ m))) _
      (get_user_amounts_by_ids-Runs (keys (e ∷ m)))
      (λ found. refund_loop-Runs t description found (e ∷ m)))

-- A refund of a map that decodes succeeds.
pub refund_credits-Runs :
    (t : RefundTask) (description : String) (m : DeductionInfo)
    → t.deduction_info ≡ parsed m
    → Runs (refund_credits t description)
unfolding refund_credits
refund_credits-Runs t description m e =
    subst (λ i. Runs (refund_stored t description i)) (sym e) (refund_stored-Runs t description m)
