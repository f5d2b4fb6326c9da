-- ===== src/Credit/Refund/RoundTrip.antt =====
-- A refund right after its deduction restores the sums.
use genioai_wxmini_server.Base.{
  ℕ, ℤ, String, Bool, List, [], ◌∷◌, ◌≡◌, ◌≢◌, refl, sym, ap, subst, ◌∙◌, All, pos, ◌+ℤ◌, ◌≤ℤ◌,
  int_laws, eq_of_parts, arith, IsInt64, sub64, sub64_within, ◌-ℤ◌,
}
use genioai_wxmini_server.Credit.Model.{UserAmount}
use genioai_wxmini_server.Credit.Store.{Db, ok, find_row, save_row}
use genioai_wxmini_server.Credit.Dao.{OrderBy}
use genioai_wxmini_server.Credit.Table.{find_row-save_row_ne, find_row-save_row_self}
use genioai_wxmini_server.Credit.Deduct.{Request, DeductionInfo, reduced, deduct_credits_with_tx}
use genioai_wxmini_server.Credit.Deduct.Charges.{
  Charges, IsCharge, charges, charge_amounts, charges-IsCharge, sum_remaining,
}
use genioai_wxmini_server.Credit.Deduct.Effect.{DistinctCharges, charges-Distinct, sum_changes}
use genioai_wxmini_server.Credit.Deduct.Draw.{deduct_credits_with_tx-Draw}
use genioai_wxmini_server.Credit.Deduct.Conservation.{
  entries, charge_info-entries, Draw-balance, Draw-info, Draw-ledger,
}
use genioai_wxmini_server.Credit.Invariant.{IsSound, IsOrder}
use genioai_wxmini_server.Credit.Refund.{RefundTask, parsed, refund_credits}
use genioai_wxmini_server.Credit.Refund.Returned.{DistinctKeys}
use genioai_wxmini_server.Credit.Refund.Restores.{IsRefundable, refund_credits-returns}

fresh_entries : (k : ℕ) (cs : Charges) → All (λ c. c.0.id ≢ k) cs → All (λ e. e.0 ≢ k) (entries cs)
fresh_entries k [] h = tt
fresh_entries k ((u, d) ∷ cs) h = (h.0, fresh_entries k cs h.1)

entries-DistinctKeys : (cs : Charges) → DistinctCharges cs → DistinctKeys (entries cs)
entries-DistinctKeys [] h = tt
entries-DistinctKeys ((u, d) ∷ cs) h = (fresh_entries u.id cs h.0, entries-DistinctKeys cs h.1)

-- Charges on other rows leave a row alone.
find_row-charge_amounts :
    (k : ℕ) (cs : Charges) (rows : List UserAmount)
    → All (λ c. c.0.id ≢ k) cs
    → find_row k (charge_amounts cs rows) ≡ find_row k rows
find_row-charge_amounts k [] rows h = refl
find_row-charge_amounts k ((u, d) ∷ cs) rows h =
    find_row-charge_amounts k cs (save_row (reduced u d) rows) h.1
    ∙ find_row-save_row_ne k (reduced u d) rows (λ e. h.0 (sym e))

-- A charged row has room for its deduction.
room_for_charge :
    (u : UserAmount) (d : ℤ) → IsCharge (u, d) → IsInt64 (sub64 u.remaining_amount d +ℤ d)
room_for_charge u d (p, le, funded) =
    let (exact, _) = sub64_within u.remaining_amount d funded.1 (omega (arith, p)) le in
    let back : u.remaining_amount -ℤ d +ℤ d ≡ u.remaining_amount =
      eq_of_parts (u.remaining_amount -ℤ d +ℤ d) u.remaining_amount (omega int_laws) in
    subst IsInt64 (sym (ap (λ z. z +ℤ d) exact ∙ back)) funded.1

entries-IsRefundable :
    (cs : Charges) (rows : List UserAmount)
    → DistinctCharges cs
    → All IsCharge cs
    → All (IsRefundable (charge_amounts cs rows)) (entries cs)
entries-IsRefundable [] rows dist c = tt
entries-IsRefundable ((u, d) ∷ cs) rows dist c =
    let saved = save_row (reduced u d) rows in
    (
      (
        reduced u d,
        find_row-charge_amounts u.id cs saved dist.0 ∙ find_row-save_row_self (reduced u d) rows,
        room_for_charge u d c.0,
      ),
      entries-IsRefundable cs saved dist.1 c.1,
    )

-- On any tables with the rows and the ledger that the deduction left.
pub refund_credits_later :
    (order : OrderBy) (now : ℕ) (r : Request) (amount : ℤ) (is_member : Bool) (db : Db)
    (t : RefundTask) (description : String) {info : DeductionInfo} {spent : Db} (later : Db)
    {y : Unit {0}} {restored : Db}
    → IsOrder order
    → IsSound db
    → pos 0 ≤ℤ amount
    → IsInt64 amount
    → deduct_credits_with_tx order now r amount is_member db ≡ (ok info, spent)
    → later.amounts ≡ spent.amounts
    → later.transactions ≡ spent.transactions
    → t.deduction_info ≡ parsed info
    → refund_credits t description later ≡ (ok y, restored)
    → (sum_remaining restored.amounts ≡ sum_remaining db.amounts)
      × (sum_changes restored.transactions ≡ sum_changes db.transactions)
refund_credits_later order now r amount is_member db t description {info} {spent} later o s p i run
      rows ledger stored back =
    let d = deduct_credits_with_tx-Draw order now r amount is_member db o s p i run in
    let cs = charges amount d.uas in
    let dist = charges-Distinct amount d.uas d.selection.distinct in
    let are = charges-IsCharge amount d.uas d.selection.funded p in
    let info_eq : info ≡ entries cs = d.carried.info_eq ∙ charge_info-entries cs dist in
    let due =
      subst (λ rows. All (IsRefundable rows) (entries cs)) (sym (rows ∙ d.carried.amounts_eq))
        (entries-IsRefundable cs db.amounts dist are) in
    let (a, b) =
      refund_credits-returns t description info later stored
        (subst DistinctKeys (sym info_eq) (entries-DistinctKeys cs dist))
        (subst (λ m. All (IsRefundable later.amounts) m) (sym info_eq) due) back in
    let whole = Draw-info s p d in
    (
      a
          ∙ (ap (λ z. sum_remaining later.amounts +ℤ z) whole
              ∙ (ap (λ rows. sum_remaining rows +ℤ amount) rows ∙ Draw-balance s p d)),
      b
          ∙ (ap (λ z. sum_changes later.transactions +ℤ z) whole
              ∙ (ap (λ rows. sum_changes rows +ℤ amount) ledger ∙ Draw-ledger s p d)),
    )

-- A refund of the map that a deduction returned, on the tables that it left, restores the sum of all
-- balances and the sum of the ledger. Assumed: both succeed, the deduction of an amount from 0 to the
-- largest int64 from a sound table, and an ORDER BY that returns the selected rows in some order.
pub refund_credits-deduct_credits_with_tx :
    (order : OrderBy) (now : ℕ) (r : Request) (amount : ℤ) (is_member : Bool) (db : Db)
    (t : RefundTask) (description : String) {info : DeductionInfo} {spent : Db} {y : Unit {0}}
    {restored : Db}
    → IsOrder order
    → IsSound db
    → pos 0 ≤ℤ amount
    → IsInt64 amount
    → deduct_credits_with_tx order now r amount is_member db ≡ (ok info, spent)
    → t.deduction_info ≡ parsed info
    → refund_credits t description spent ≡ (ok y, restored)
    → (sum_remaining restored.amounts ≡ sum_remaining db.amounts)
      × (sum_changes restored.transactions ≡ sum_changes db.transactions)
refund_credits-deduct_credits_with_tx order now r amount is_member db t description {info} {spent} o
      s p i run stored back =
    refund_credits_later order now r amount is_member db t description spent o s p i run refl refl
      stored back
