-- ===== src/Credit/Dao.antt =====
-- internal/dao/credit.go: the queries of `CreditDao`. The order in which MySQL returns rows of equal
-- `expired_at` is not fixed, so ORDER BY is a parameter. `expired_at` is NOT NULL
-- (internal/model/amount.go), so the clause's `OR expired_at IS NULL` never holds.
use genioai_wxmini_server.Base.{
  ℕ, ℤ, String, ◌+◌, Bool, List, [], ◌∷◌, ◌==◌, ◌&&◌, ◌||◌, str_eq, ltb, ltb_ℤ, pos, add64,
  if◌then◌else◌, where_rows, any, ◌+ℤ◌, ◌≡◌, arith,
}
use genioai_wxmini_server.Credit.Model.{
  CreditType, purchased, membership_grant, daily_free, event_grant, UserAmount, CreditTransaction,
  type_eq,
}
use genioai_wxmini_server.Credit.Store.{
  ok, err, Db, M, pure, ◌>>◌, modify, statement, save_row, has_source, duplicate_entry,
}

-- ORDER BY expired_at ASC.
abbrev pub OrderBy : Type 0
OrderBy = List UserAmount → List UserAmount

-- The WHERE clause of `GetUserAmounts`.
abbrev pub is_available : String → String → ℕ → UserAmount → Bool
is_available project_id user_id now r =
    str_eq r.project_id project_id
    && (str_eq r.user_id user_id && (ltb_ℤ (pos 0) r.remaining_amount && ltb now r.expired_at))

unfoldable pub get_user_amounts : OrderBy → ℕ → String → String → M (List UserAmount)
unfolding statement
get_user_amounts order now project_id user_id = do
  statement
  λ db. (ok (order (where_rows (is_available project_id user_id now) db.amounts)), db)

-- With no fault to come the query returns its rows.
pub get_user_amounts_total :
    (order : OrderBy) (now : ℕ) (project_id user_id : String) (db : Db)
    → db.faults ≡ []
    → get_user_amounts order now project_id user_id db
      ≡ (ok (order (where_rows (is_available project_id user_id now) db.amounts)), db)
unfolding get_user_amounts
get_user_amounts_total order now project_id user_id db h = ground arith

unfoldable pub create_transaction : CreditTransaction → M (Unit {0})
unfolding statement
create_transaction t = do statement; modify (λ db. record db { transactions = t ∷ db.transactions })

unfoldable pub update_user_amount : UserAmount → M (Unit {0})
unfolding statement
update_user_amount ua = do statement; modify (λ db. record db { amounts = save_row ua db.amounts })

-- The primary key comes from AUTO_INCREMENT; `source_id` is unique.
unfoldable pub create_user_amount : UserAmount → M (Unit {0})
unfolding statement
create_user_amount ua = do
  statement
  λ db. if has_source ua.source_id db.amounts then (err duplicate_entry, db) else (
    ok tt,
    record db { amounts = record ua { id = db.next_id } ∷ db.amounts; next_id = db.next_id + 1 },
  )

abbrev pub has_id : List ℕ → UserAmount → Bool
has_id ids r = any (λ i. r.id == i) ids

-- An empty list of ids makes no query.
unfoldable pub get_user_amounts_by_ids : List ℕ → M (List UserAmount)
unfolding statement
get_user_amounts_by_ids [] = pure []
get_user_amounts_by_ids (i ∷ ids) = do
  statement
  λ db. (ok (where_rows (has_id (i ∷ ids)) db.amounts), db)

-- The UPDATE of `ExtendActiveGiftCredits`.
abbrev pub is_active_gift : String → ℕ → ℕ → UserAmount → Bool
is_active_gift user_id now new_expires_at r =
    str_eq r.user_id user_id
    && (type_eq r.amount_iden membership_grant
        && (ltb_ℤ (pos 0) r.remaining_amount
            && (ltb now r.expired_at && ltb r.expired_at new_expires_at)))

abbrev pub extend_rows : String → ℕ → ℕ → List UserAmount → List UserAmount
extend_rows user_id now new_expires_at [] = []
extend_rows user_id now new_expires_at (r ∷ rows) =
    (if is_active_gift user_id now new_expires_at r
      then record r { expired_at = new_expires_at }
      else r)
    ∷ extend_rows user_id now new_expires_at rows

unfoldable pub extend_active_gift_credits : ℕ → String → ℕ → M (Unit {0})
unfolding statement
extend_active_gift_credits now user_id new_expires_at = do
  statement
  modify (λ db. record db { amounts = extend_rows user_id now new_expires_at db.amounts })

-- The WHERE clause of `GetUserCreditOverview`.
abbrev pub is_overview_row : String → String → ℕ → UserAmount → Bool
is_overview_row project_id user_id now r =
    str_eq r.project_id project_id && (str_eq r.user_id user_id && ltb now r.expired_at)

-- SUM(CASE WHEN … THEN remaining_amount ELSE 0 END), which MySQL adds exactly.
abbrev pub sum_of : (UserAmount → Bool) → List UserAmount → ℤ
sum_of p [] = pos 0
sum_of p (r ∷ rows) = (if p r then r.remaining_amount else pos 0) +ℤ sum_of p rows

abbrev pub is_type : CreditType → UserAmount → Bool
is_type t r = type_eq r.amount_iden t

-- Total, membership, purchased, daily free with event grants.
unfoldable pub get_user_credit_overview : ℕ → String → String → M (ℤ × ℤ × ℤ × ℤ)
unfolding statement
get_user_credit_overview now project_id user_id = do
  statement
  λ db.
      let rows = where_rows (is_overview_row project_id user_id now) db.amounts in
      let membership_amount = sum_of (is_type membership_grant) rows in
      let purchased_amount = sum_of (is_type purchased) rows in
      let daily_free_amount = sum_of (λ r. is_type daily_free r || is_type event_grant r) rows in
      (
        ok (
          add64 (add64 membership_amount purchased_amount) daily_free_amount,
          membership_amount,
          purchased_amount,
          daily_free_amount,
        ),
        db,
      )
