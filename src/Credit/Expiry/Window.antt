-- ===== src/Credit/Expiry/Window.antt =====
-- What ClearExpiredCredits can clear: its query returns only rows that have not expired yet.
use genioai_wxmini_server.Base.{
  ℕ, ℤ, String, true, false, List, [], ◌∷◌, ◌≤◌, pos, ◌≡◌, ◌⊎◌, refl, All, arith, where_rows,
}
use genioai_wxmini_server.Credit.Model.{UserAmount, CreditType}
use genioai_wxmini_server.Credit.Store.{Db, ok, statement_total, transaction, pure, M, ◌>>=◌}
use genioai_wxmini_server.Credit.Dao.{
  OrderBy, is_available, get_user_amounts, get_user_amounts_total,
}
use genioai_wxmini_server.Credit.Selection.{All-perm, All-where, All-where_test, All-map, All-both}
use genioai_wxmini_server.Credit.Invariant.{IsOrder}
use genioai_wxmini_server.Credit.Expiry.{is_clearable, clear_loop, clear_expired_credits}

-- The row does not expire strictly between the two readings of the clock.
abbrev pub IsOutside : ℕ → ℕ → UserAmount → Type 0
IsOutside query_now now u = (u.expired_at ≤ query_now) ⊎ (now ≤ u.expired_at)

not_clearable :
    (project_id user_id : String) (t : CreditType) (query_now now : ℕ) (u : UserAmount)
    → (is_available project_id user_id query_now u ≡ true) × IsOutside query_now now u
    → is_clearable t now u ≡ false
not_clearable project_id user_id t query_now now u h = ground arith

clear_loop_nothing :
    (stamp : ℕ → String) (project_id user_id : String) (t : CreditType) (now : ℕ)
    (uas : List UserAmount) (total : ℤ)
    → All (λ u. is_clearable t now u ≡ false) uas
    → clear_loop stamp project_id user_id t now uas total ≡ pure total
unfolding clear_loop
clear_loop_nothing stamp project_id user_id t now [] total h = refl
clear_loop_nothing stamp project_id user_id t now (u ∷ uas) total h =
    rw h.0 (clear_loop_nothing stamp project_id user_id t now uas total h.1)

-- A transaction whose query returns `rows` and whose loop on them does nothing.
nothing_done :
    (query : M (List UserAmount)) (db : Db) (rows : List UserAmount)
    → query db ≡ (ok rows, db)
    → (f : List UserAmount → M ℤ) → f rows ≡ pure (pos 0)
    → db.faults ≡ []
    → transaction (query >>= f) db ≡ (ok (pos 0), db)
unfolding transaction
nothing_done query db rows q f e h = rw (statement_total db h, q, e, statement_total db h) refl

-- `ClearExpiredCredits` clears nothing, whatever has expired before the call: with a working database
-- it returns 0 and leaves both tables as they are, unless a row expires strictly between the clock
-- reading of its query and the one of its loop. Assumed: no statement fails, and an ORDER BY that
-- returns the selected rows in some order.
pub clear_expired_credits_nothing :
    (order : OrderBy) (stamp : ℕ → String) (query_now now : ℕ) (project_id user_id : String)
    (t : CreditType) (db : Db)
    → IsOrder order
    → db.faults ≡ []
    → All (IsOutside query_now now) db.amounts
    → clear_expired_credits order stamp query_now now project_id user_id t db ≡ (ok (pos 0), db)
unfolding clear_expired_credits
clear_expired_credits_nothing order stamp query_now now project_id user_id t db o h out =
    let test = is_available project_id user_id query_now in
    let rows = where_rows test db.amounts in
    let none =
      All-perm (λ u. is_clearable t now u ≡ false) (o.perm rows)
        (All-map _ (λ u. is_clearable t now u ≡ false)
          (not_clearable project_id user_id t query_now now) rows
          (All-both (λ u. test u ≡ true) (IsOutside query_now now) rows
            (All-where_test test db.amounts)
            (All-where (IsOutside query_now now) test db.amounts out))) in
    let loop = clear_loop_nothing stamp project_id user_id t now (order rows) (pos 0) none in
    nothing_done (get_user_amounts order query_now project_id user_id) db (order rows)
      (get_user_amounts_total order query_now project_id user_id db h) _ loop h
