-- ===== src/Credit/Deduct/Loop.antt =====
-- The loop of performDeduction carries out exactly the charges of `charges`.
use genioai_wxmini_server.Base.{
  ℤ, ◌+◌, true, false, List, [], ◌∷◌, pos, ◌-ℤ◌, ◌≤ℤ◌, ◌<ℤ◌, is_zero, min64, min64-pos,
  min64_bounds, int_laws, IsInt64, ◌≡◌, refl, ◌∙◌, All, arith, Bool-cases, inl, inr, sub64,
  sub64_within, eq_of_parts,
}
use genioai_wxmini_server.Credit.Model.{UserAmount}
use genioai_wxmini_server.Credit.Store.{save_row, Db, ok, continue-eq-ok, Result, ◌>>◌, pure}
use genioai_wxmini_server.Credit.Deduct.{
  Request, DeductionInfo, put, reduced, usage_row, charge, perform_deduction,
}
use genioai_wxmini_server.Credit.Deduct.Charges.{
  Charges, charges, charges_nothing, charges-cons, charges-nil, IsFunded, charge_info,
  charge_amounts, charge_ledger,
}

-- What a successful charge does to the database.
pub charge_ok :
    (r : Request) (u : UserAmount) (d : ℤ) (db : Db) {x : Unit {0}} {db' : Db}
    → charge r u d db ≡ (ok x, db')
    → (db'.amounts ≡ save_row (reduced u d) db.amounts)
      × (db'.transactions ≡ usage_row r u d db.drawn ∷ db.transactions)
      × (db'.drawn ≡ db.drawn + 1)
      × (db'.next_id ≡ db.next_id)
unfolding charge
charge_ok r u d db h = ground arith

-- What a successful run has done, in terms of the charges.
pub record Carried (r : Request) (cs : Charges) (info info' : DeductionInfo) (db db' : Db)
    : Type 0 where
  pub info_eq : info' ≡ charge_info cs info
  pub amounts_eq : db'.amounts ≡ charge_amounts cs db.amounts
  pub transactions_eq : db'.transactions ≡ charge_ledger r cs db.drawn db.transactions
  pub next_id_eq : db'.next_id ≡ db.next_id

-- One round with something left to deduct from a funded row.
pub perform_deduction_step :
    (r : Request) (left : ℤ) (u : UserAmount) (uas : List UserAmount) (info : DeductionInfo)
    → is_zero left ≡ false
    → is_zero (min64 left u.remaining_amount) ≡ false
    → perform_deduction r left (u ∷ uas) info ≡ (
        charge r u (min64 left u.remaining_amount)
        >> perform_deduction r
            (sub64 left (min64 left u.remaining_amount))
            uas
            (put u.id (min64 left u.remaining_amount) info))
unfolding perform_deduction
perform_deduction_step r left u uas info nz nd = rw (nz, nd) refl

pub perform_deduction_done :
    (r : Request) (left : ℤ) (uas : List UserAmount) (info : DeductionInfo)
    → is_zero left ≡ true
    → perform_deduction r left uas info ≡ pure info
unfolding perform_deduction
perform_deduction_done r left [] info z = refl
perform_deduction_done r left (u ∷ uas) info z = rw z refl

pub perform_deduction_nil :
    (r : Request) (left : ℤ) (info : DeductionInfo) → perform_deduction r left [] info ≡ pure info
unfolding perform_deduction
perform_deduction_nil r left info = refl

pub positive_left : (left : ℤ) → pos 0 ≤ℤ left → is_zero left ≡ false → pos 0 <ℤ left
positive_left left p nz = ground arith

pure-Carried :
    (r : Request) (info : DeductionInfo) (db : Db) {info' : DeductionInfo} {db' : Db}
    → ◌≡◌ {A = Result DeductionInfo × Db} (ok info, db) (ok info', db')
    → Carried r [] info info' db db'
pure-Carried r info db e = ground arith

charge-Carried :
    (r : Request) (u : UserAmount) (d : ℤ) (cs : Charges) (info info' : DeductionInfo)
    (db mid db' : Db)
    → charge r u d db ≡ (ok tt, mid)
    → Carried r cs (put u.id d info) info' mid db'
    → Carried r ((u, d) ∷ cs) info info' db db'
charge-Carried r u d cs info info' db mid db' e c =
    let (a, t, n, i) = charge_ok r u d db e in
    record {
      info_eq = c.info_eq;
      amounts_eq = rw (← a) c.amounts_eq;
      transactions_eq = rw (← t, ← n) c.transactions_eq;
      next_id_eq = c.next_id_eq ∙ i;
    }

pub perform_deduction_ok :
    (r : Request) (left : ℤ) (uas : List UserAmount) (info : DeductionInfo) (db : Db)
    {info' : DeductionInfo} {db' : Db}
    → All IsFunded uas
    → pos 0 ≤ℤ left
    → IsInt64 left
    → perform_deduction r left uas info db ≡ (ok info', db')
    → Carried r (charges left uas) info info' db db'
unfolding perform_deduction
perform_deduction_ok r left [] info db h p i e =
    rw (charges-nil left) (pure-Carried r info db (rw e refl))
perform_deduction_ok r left (u ∷ uas) info db {info'} {db'} h p i e =
    elim (Bool-cases (is_zero left)) [
      | inl z ↦
          let zero_left : left ≡ pos 0 = eq_of_parts left (pos 0) (ground arith) in
          rw (zero_left, charges_nothing (u ∷ uas) h)
            (pure-Carried r info db (rw (perform_deduction_done r left (u ∷ uas) info z) at e))
      | inr nz ↦
          let d = min64 left u.remaining_amount in
          let d_pos = min64-pos left u.remaining_amount (positive_left left p nz) h.0.0 in
          let nd : is_zero d ≡ false = ground arith in
          let (_, mid, first, rest) =
            continue-eq-ok (λ _. perform_deduction r (sub64 left d) uas (put u.id d info))
              (charge r u d db) (rw (perform_deduction_step r left u uas info nz nd) at e) in
          let (within, _) = min64_bounds left u.remaining_amount in
          let (exact, in_range) = sub64_within left d i (omega arith) within in
          rw (charges-cons, nd)
            (charge-Carried r u d _ info info' db mid db' first (
              perform_deduction_ok r (left -ℤ d) uas (put u.id d info) mid h.1 (omega int_laws)
                in_range (rw exact at rest)))
    ]
