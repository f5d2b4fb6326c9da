-- ===== src/Credit/Grants/Upgrade.antt =====
-- What a membership upgrade does to the rows that are there.
use genioai_wxmini_server.Base.{
  ℕ, ℤ, String, ◌+◌, Bool, true, false, List, [], ◌∷◌, ◌≡◌, refl, sym, ap, ◌∙◌, ◌<◌, ◌<ℤ◌, ltb,
  ltb_ℤ, pos, ◌&&◌, ◌⊎◌, str_eq, eq_iff, arith, Bool-cases, inl, inr,
}
use genioai_wxmini_server.Credit.Model.{
  UserAmount, CreditTransaction, CreditType, membership_grant, type_eq,
}
use genioai_wxmini_server.Credit.Store.{
  Db, ok, continue-eq-ok, transaction_ok, ◌>>◌, ◌>>=◌, statement,
}
use genioai_wxmini_server.Credit.Dao.{
  is_active_gift, extend_rows, extend_active_gift_credits, create_user_amount, create_transaction,
}
use genioai_wxmini_server.Credit.Deduct.{draw}
use genioai_wxmini_server.Credit.Grants.{
  Grant, new_user_amount, grant_row, add_credits_with_tx, handle_membership_upgrade,
}

-- A gift of the user with a balance, not yet expired, that expires before the new end.
abbrev pub IsActiveGift : String → ℕ → ℕ → UserAmount → Type 0
IsActiveGift user_id now later r =
    (r.user_id ≡ user_id)
    × (r.amount_iden ≡ membership_grant)
    × (pos 0 <ℤ r.remaining_amount)
    × (now < r.expired_at)
    × (r.expired_at < later)

-- The same rows, in the same order: the active gifts expire at the new end, and all others stay.
abbrev pub AreUpgraded : String → ℕ → ℕ → List UserAmount → List UserAmount → Type 0
AreUpgraded user_id now later [] [] = Unit
AreUpgraded user_id now later [] (r' ∷ rs') = ⊥
AreUpgraded user_id now later (r ∷ rs) [] = ⊥
AreUpgraded user_id now later (r ∷ rs) (r' ∷ rs') =
    ((IsActiveGift user_id now later r × (r' ≡ record r { expired_at = later }))
      ⊎ ((¬ IsActiveGift user_id now later r) × (r' ≡ r)))
    × AreUpgraded user_id now later rs rs'

gift_of : (t : CreditType) → type_eq t membership_grant ≡ true → t ≡ membership_grant
gift_of t h = ground arith

gift_test : (t : CreditType) → t ≡ membership_grant → type_eq t membership_grant ≡ true
gift_test t h = ap (λ z. type_eq z membership_grant) h

IsActiveGift-of_test :
    (user_id : String) (now later : ℕ) (r : UserAmount)
    → is_active_gift user_id now later r ≡ true
    → IsActiveGift user_id now later r
IsActiveGift-of_test user_id now later r h =
    let a = both (str_eq r.user_id user_id) _ h in
    let b = both (type_eq r.amount_iden membership_grant) _ a.1 in
    let c = both (ltb_ℤ (pos 0) r.remaining_amount) _ b.1 in
    let d = both (ltb now r.expired_at) (ltb r.expired_at later) c.1 in
    (
      (eq_iff r.user_id user_id).0 a.0,
      gift_of r.amount_iden b.0,
      positive r.remaining_amount c.0,
      below now r.expired_at d.0,
      below r.expired_at later d.1,
    )
  where
    both : (x y : Bool) → (x && y) ≡ true → (x ≡ true) × (y ≡ true)
    both x y k = ground arith

    positive : (x : ℤ) → ltb_ℤ (pos 0) x ≡ true → pos 0 <ℤ x
    positive x k = ground arith

    below : (x y : ℕ) → ltb x y ≡ true → x < y
    below x y k = ground arith

is_active_gift_of :
    (user_id : String) (now later : ℕ) (r : UserAmount)
    → IsActiveGift user_id now later r
    → is_active_gift user_id now later r ≡ true
is_active_gift_of user_id now later r (u, g, p, a, b) =
    simp
      (
        (eq_iff r.user_id user_id).1 u,
        gift_test r.amount_iden g,
        positive r.remaining_amount p,
        below now r.expired_at a,
        below r.expired_at later b,
      )
      refl
  where
    positive : (x : ℤ) → pos 0 <ℤ x → ltb_ℤ (pos 0) x ≡ true
    positive x k = ground arith

    below : (x y : ℕ) → x < y → ltb x y ≡ true
    below x y k = ground arith

extend_rows-AreUpgraded :
    (user_id : String) (now later : ℕ) (rows : List UserAmount)
    → AreUpgraded user_id now later rows (extend_rows user_id now later rows)
extend_rows-AreUpgraded user_id now later [] = tt
extend_rows-AreUpgraded user_id now later (r ∷ rows) =
    let ih = extend_rows-AreUpgraded user_id now later rows in
    elim (Bool-cases (is_active_gift user_id now later r)) [
      | inl e ↦ rw e (inl (IsActiveGift-of_test user_id now later r e, refl), ih)
      | inr e ↦
          rw e
            (inr ((λ g. true_false (sym (is_active_gift_of user_id now later r g) ∙ e)), refl), ih)
    ]
  where
    true_false : true ≡ false → ⊥
    true_false q = ground arith

extend_ok :
    (now : ℕ) (user_id : String) (later : ℕ) (db : Db) {x : Unit {0}} {db' : Db}
    → extend_active_gift_credits now user_id later db ≡ (ok x, db')
    → (db'.amounts ≡ extend_rows user_id now later db.amounts)
      × (db'.transactions ≡ db.transactions)
unfolding extend_active_gift_credits statement
extend_ok now user_id later db h = ground arith

create_ok :
    (u : UserAmount) (db : Db) {x : Unit {0}} {db' : Db}
    → create_user_amount u db ≡ (ok x, db')
    → (db'.amounts ≡ record u { id = db.next_id } ∷ db.amounts)
      × (db'.transactions ≡ db.transactions)
      × (db'.next_id ≡ db.next_id + 1)
unfolding create_user_amount statement
create_ok u db h = ground arith

record_ok :
    (t : CreditTransaction) (db : Db) {x : Unit {0}} {db' : Db}
    → create_transaction t db ≡ (ok x, db')
    → (db'.amounts ≡ db.amounts) × (db'.transactions ≡ t ∷ db.transactions)
unfolding create_transaction statement
record_ok t db h = ground arith

-- The row and the ledger entry of a grant.
pub add_credits_with_tx_ok :
    (g : Grant) (db : Db) {x : Unit {0}} {db' : Db}
    → add_credits_with_tx g db ≡ (ok x, db')
    → (db'.amounts ≡ record (new_user_amount g) { id = db.next_id } ∷ db.amounts)
      × ((number : ℕ) × (db'.transactions ≡ grant_row g number ∷ db.transactions))
unfolding add_credits_with_tx
add_credits_with_tx_ok g db h =
    let (_, mid, first, rest) =
      continue-eq-ok (λ _. draw >>= λ number. create_transaction (grant_row g number))
        (create_user_amount (new_user_amount g) db) h in
    let (a, t, _) = create_ok (new_user_amount g) db first in
    let (a', t') = record_ok (grant_row g mid.drawn) (record mid { drawn = mid.drawn + 1 }) rest in
    (a' ∙ a, (mid.drawn, t' ∙ ap (λ ts. grant_row g mid.drawn ∷ ts) t))

-- The new row holds the granted amount, for the user and with the source, type and expiry of the
-- grant.
abbrev pub IsRowOf : Grant → UserAmount → Type 0
IsRowOf g u =
    (u.remaining_amount ≡ g.amount)
    × (u.project_id ≡ g.project_id)
    × (u.user_id ≡ g.user_id)
    × (u.source_id ≡ g.source_id)
    × (u.amount_iden ≡ g.credit_type)
    × (u.expired_at ≡ g.expired_at)

abbrev pub IsEntryOf : Grant → CreditTransaction → Type 0
IsEntryOf g t =
    (t.amount_change ≡ g.amount)
    × (t.project_id ≡ g.project_id)
    × (t.user_id ≡ g.user_id)
    × (t.source_id ≡ g.source_id)
    × (t.transaction_type ≡ g.transaction_type)

-- A successful upgrade of a membership adds one row and one ledger entry, both of the granted amount.
-- Of the rows that were there, exactly the gifts of the user that have a balance, have not expired
-- and expire before the subscription now expire with it; all others stay as they are.
pub handle_membership_upgrade_ok :
    (now : ℕ) (g : Grant) (sub_expires_at : ℕ) (db : Db) {x : Unit {0}} {db' : Db}
    → handle_membership_upgrade now g sub_expires_at db ≡ (ok x, db')
    → (u : UserAmount) × (rest : List UserAmount) × (t : CreditTransaction) × (db'.amounts
        ≡ u ∷ rest)
      × (db'.transactions ≡ t ∷ db.transactions)
      × IsRowOf g u
      × IsEntryOf g t
      × AreUpgraded g.user_id now sub_expires_at db.amounts rest
unfolding handle_membership_upgrade
handle_membership_upgrade_ok now g later db run =
    let body = extend_active_gift_credits now g.user_id later >> add_credits_with_tx g in
    let (s1, s2, inner, a1, t1, a2, t2) = transaction_ok body db run in
    let (_, mid, first, last) =
      continue-eq-ok (λ _. add_credits_with_tx g)
        (extend_active_gift_credits now g.user_id later s1) inner in
    let (am, tm) = extend_ok now g.user_id later s1 first in
    let (al, (number, tl)) = add_credits_with_tx_ok g mid last in
    let u = record (new_user_amount g) { id = mid.next_id } in
    (
      u,
      extend_rows g.user_id now later db.amounts,
      grant_row g number,
      a2 ∙ (al ∙ ap (λ rows. u ∷ rows) (am ∙ ap (extend_rows g.user_id now later) a1)),
      t2 ∙ (tl ∙ ap (λ ts. grant_row g number ∷ ts) (tm ∙ t1)),
      (refl, refl, refl, refl, refl, refl),
      (refl, refl, refl, refl, refl),
      extend_rows-AreUpgraded g.user_id now later db.amounts,
    )
