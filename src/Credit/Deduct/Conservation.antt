-- ===== src/Credit/Deduct/Conservation.antt =====
-- What a successful DeductCreditsWithTx does to balances, ledger and returned map.
use genioai_wxmini_server.Base.{
  ℕ, ℤ, Bool, true, false, List, [], ◌∷◌, ◌++◌, pos, ◌+ℤ◌, ◌≤ℤ◌, int_laws, IsInt64, add_zero_ℤ, ◌≡◌,
  ◌≢◌, ◌⊎◌, refl, sym, ap, subst, ◌∙◌, All, All-append, arith, inl, inr, IsInt64-between,
  parts_of_eq, sub64_within,
}
use mathlib.Core.List.{append-nil, append_assoc}
use genioai_wxmini_server.Credit.Model.{UserAmount, daily_free}
use genioai_wxmini_server.Credit.Store.{Db, ok, save_row}
use genioai_wxmini_server.Credit.Dao.{OrderBy, is_type, sum_of}
use genioai_wxmini_server.Credit.Table.{
  Distinct, IsStored, IsStable, All-save_row, Distinct-save_row,
}
use genioai_wxmini_server.Credit.Deduct.{
  Request, DeductionInfo, put, reduced, deduct_credits_with_tx,
}
use genioai_wxmini_server.Credit.Deduct.Charges.{
  Charges, IsCharge, charges, charge_amounts, charge_info, sum_charges, sum_charges-charges,
  charges-IsCharge, sum_remaining,
}
use genioai_wxmini_server.Credit.Deduct.Effect.{
  DistinctCharges, All-charges, charges-Distinct, taken, taken-All, taken_none, sum_changes,
  sum_of-charge_amounts, sum_changes-charge_ledger,
}
use genioai_wxmini_server.Credit.Deduct.Draw.{Draw, deduct_credits_with_tx-Draw}
use genioai_wxmini_server.Credit.Selection.{IsBalance, balances_nonneg, sum_of-true}
use genioai_wxmini_server.Credit.Invariant.{IsSound, IsOrder}

abbrev pub sum_info : DeductionInfo → ℤ
sum_info [] = pos 0
sum_info ((k, d) ∷ m) = d +ℤ sum_info m

-- The entries of the charges, in their order.
abbrev pub entries : Charges → DeductionInfo
entries [] = []
entries ((u, d) ∷ cs) = (u.id, d) ∷ entries cs

abbrev IsFresh : DeductionInfo → ℕ → Type 0
IsFresh m k = All (λ e. e.0 ≢ k) m

put_fresh : (k : ℕ) (v : ℤ) (m : DeductionInfo) → IsFresh m k → put k v m ≡ m ++ (k, v) ∷ []
put_fresh k v [] h = refl
put_fresh k v ((j, w) ∷ m) h = ground (arith, put_fresh k v m h.1)

still-IsFresh :
    (u : UserAmount) (d : ℤ) (info : DeductionInfo) (cs : Charges)
    → All (λ c. c.0.id ≢ u.id) cs
    → All (λ c. IsFresh info c.0.id) cs
    → All (λ c. IsFresh (info ++ (u.id, d) ∷ []) c.0.id) cs
still-IsFresh u d info [] a h = tt
still-IsFresh u d info ((v, e) ∷ cs) a h = (
  All-append (λ x. x.0 ≢ v.id) info ((u.id, d) ∷ []) h.0 ((λ q. a.0 (sym q)), tt),
  still-IsFresh u d info cs a.1 h.1,
)

charge_info-append :
    (cs : Charges) (info : DeductionInfo)
    → DistinctCharges cs
    → All (λ c. IsFresh info c.0.id) cs
    → charge_info cs info ≡ info ++ entries cs
charge_info-append [] info dist f = sym (append-nil info)
charge_info-append ((u, d) ∷ cs) info dist f =
    rw
      (
        put_fresh u.id d info f.0,
        charge_info-append cs (info ++ (u.id, d) ∷ []) dist.1
            (still-IsFresh u d info cs dist.0 f.1),
      )
      (append_assoc info ((u.id, d) ∷ []) (entries cs))

All-IsFresh : (cs : Charges) → All (λ c. IsFresh [] c.0.id) cs
All-IsFresh [] = tt
All-IsFresh (c ∷ cs) = (tt, All-IsFresh cs)

-- With one charge to a row the map holds the charges.
pub charge_info-entries : (cs : Charges) → DistinctCharges cs → charge_info cs [] ≡ entries cs
charge_info-entries cs h = charge_info-append cs [] h (All-IsFresh cs)

pub sum_info-entries : (cs : Charges) → sum_info (entries cs) ≡ sum_charges cs
sum_info-entries [] = refl
sum_info-entries ((u, d) ∷ cs) = ap (λ z. d +ℤ z) (sum_info-entries cs)

charges_balances :
    (cs : Charges) (rows : List UserAmount)
    → All IsCharge cs
    → All IsBalance rows
    → All IsBalance (charge_amounts cs rows)
charges_balances [] rows c h = h
charges_balances ((u, d) ∷ cs) rows c h =
    let (pos_d, le, funded) = c.0 in
    let (exact, in_range) = sub64_within u.remaining_amount d funded.1 (omega (arith, pos_d)) le in
    charges_balances cs (save_row (reduced u d) rows) c.1 (
      All-save_row IsBalance (reduced u d) rows
        (rw exact (omega int_laws), subst IsInt64 (sym exact) in_range) h)

charge_amounts-Distinct :
    (cs : Charges) (rows : List UserAmount) → Distinct rows → Distinct (charge_amounts cs rows)
charge_amounts-Distinct [] rows h = h
charge_amounts-Distinct ((u, d) ∷ cs) rows h =
    charge_amounts-Distinct cs (save_row (reduced u d) rows)
      (Distinct-save_row (reduced u d) rows h)

every_row : (xs : List UserAmount) → All (λ _. true ≡ true) xs
every_row [] = tt
every_row (x ∷ xs) = (refl, every_row xs)

-- Facts about the charges of a successful deduction, from the group that it draws on.
module _ {r : Request} {amount : ℤ} {is_member : Bool} {db : Db} {info : DeductionInfo} {db' : Db}
    (s : IsSound db) (p : pos 0 ≤ℤ amount) (d : Draw r amount is_member db info db') where
  abbrev cs : Charges
  cs = charges amount d.uas

  are_charges : All IsCharge cs
  are_charges = charges-IsCharge amount d.uas d.selection.funded p

  are_distinct : DistinctCharges cs
  are_distinct = charges-Distinct amount d.uas d.selection.distinct

  whole_amount : sum_charges cs ≡ amount
  whole_amount = sum_charges-charges amount d.uas d.selection.funded p d.covered

  pub Draw-sum_of :
      (q : UserAmount → Bool)
      → IsStable q
      → sum_of q db'.amounts +ℤ taken q cs ≡ sum_of q db.amounts
  Draw-sum_of q st = rw d.carried.amounts_eq (
      sum_of-charge_amounts q cs db.amounts st are_charges are_distinct
        (All-charges (IsStored db.amounts) amount d.uas d.selection.stored))

  all_taken : taken (λ _. true) cs ≡ amount
  all_taken =
      taken-All (λ _. true) cs (All-charges (λ _. true ≡ true) amount d.uas (every_row d.uas))
      ∙ whole_amount

  pub Draw-balance : sum_remaining db'.amounts +ℤ amount ≡ sum_remaining db.amounts
  Draw-balance =
      rw (← sum_of-true db'.amounts, ← sum_of-true db.amounts)
        (subst (λ a. sum_of (λ _. true) db'.amounts +ℤ a ≡ sum_of (λ _. true) db.amounts) all_taken
          (Draw-sum_of (λ _. true) (λ u x. refl)))

  pub Draw-info : sum_info info ≡ amount
  Draw-info =
      rw (d.carried.info_eq, charge_info-entries cs are_distinct, sum_info-entries cs) whole_amount

  pub Draw-ledger : sum_changes db'.transactions +ℤ amount ≡ sum_changes db.transactions
  Draw-ledger =
      subst (λ a. sum_changes db'.transactions +ℤ a ≡ sum_changes db.transactions) whole_amount
        (rw d.carried.transactions_eq
          (sum_changes-charge_ledger r cs db.drawn db.transactions are_charges))

  pub Draw-IsSound : IsSound db'
  Draw-IsSound =
      let after = charges_balances cs db.amounts are_charges s.balances in
      record {
        distinct = rw d.carried.amounts_eq (charge_amounts-Distinct cs db.amounts s.distinct);
        balances = rw d.carried.amounts_eq after;
        bounded =
            let total = parts_of_eq _ _ Draw-balance in
            let low = balances_nonneg db'.amounts (rw d.carried.amounts_eq after) in
            IsInt64-between _ _ s.bounded low (omega int_laws);
      }

-- A successful deduction of `amount` lowers the sum of all balances by exactly `amount`, returns a
-- map whose deductions sum to `amount`, and adds ledger rows that sum to `-amount`; the table stays
-- sound: keys stay unique and no balance becomes negative. Assumed: a sound table, an amount from 0
-- to the largest int64, and an ORDER BY that returns the selected rows in some order.
pub deduct_credits_with_tx-conserves :
    (order : OrderBy) (now : ℕ) (r : Request) (amount : ℤ) (is_member : Bool) (db : Db)
    {info : DeductionInfo} {db' : Db}
    → IsOrder order
    → IsSound db
    → pos 0 ≤ℤ amount
    → IsInt64 amount
    → deduct_credits_with_tx order now r amount is_member db ≡ (ok info, db')
    → (sum_remaining db'.amounts +ℤ amount ≡ sum_remaining db.amounts)
      × (sum_info info ≡ amount)
      × (sum_changes db'.transactions +ℤ amount ≡ sum_changes db.transactions)
      × IsSound db'
deduct_credits_with_tx-conserves order now r amount is_member db o s p i e =
    let d = deduct_credits_with_tx-Draw order now r amount is_member db o s p i e in
    (Draw-balance s p d, Draw-info s p d, Draw-ledger s p d, Draw-IsSound s p d)

-- A successful deduction never mixes daily free credits with the others: either the caller is no
-- member and the daily free balance falls by the whole amount, or the daily free balance is
-- untouched. Assumed: a sound table, an amount from 0 to the largest int64, and an ORDER BY that
-- returns the selected rows in some order.
pub deduct_credits_with_tx-unmixed :
    (order : OrderBy) (now : ℕ) (r : Request) (amount : ℤ) (is_member : Bool) (db : Db)
    {info : DeductionInfo} {db' : Db}
    → IsOrder order
    → IsSound db
    → pos 0 ≤ℤ amount
    → IsInt64 amount
    → deduct_credits_with_tx order now r amount is_member db ≡ (ok info, db')
    → let daily = is_type daily_free in
      ((is_member ≡ false) × (sum_of daily db'.amounts +ℤ amount ≡ sum_of daily db.amounts))
      ⊎ (sum_of daily db'.amounts ≡ sum_of daily db.amounts)
deduct_credits_with_tx-unmixed order now r amount is_member db {info} {db'} o s p i e =
    let d = deduct_credits_with_tx-Draw order now r amount is_member db o s p i e in
    let daily = is_type daily_free in
    let moved = Draw-sum_of s p d daily (λ u x. refl) in
    elim d.unmixed [
      | inl (not_member, all) ↦ inl (
        not_member,
        subst (λ a. sum_of daily db'.amounts +ℤ a ≡ sum_of daily db.amounts)
            (taken-All daily _ (All-charges (λ u. daily u ≡ true) amount d.uas all)
              ∙ whole_amount s p d)
            moved,
      )
      | inr none_daily ↦ inr (
          sym (add_zero_ℤ (sum_of daily db'.amounts))
          ∙ subst (λ a. sum_of daily db'.amounts +ℤ a ≡ sum_of daily db.amounts)
              (taken_none daily _ (All-charges (λ u. daily u ≡ false) amount d.uas none_daily))
              moved)
    ]
