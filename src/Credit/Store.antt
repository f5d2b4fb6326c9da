-- ===== src/Credit/Store.antt =====
-- The two tables behind internal/dao/credit.go, and the calls of gorm that the code makes on them. A
-- statement may fail: `faults` lists what happens to the statements to come (`none` is success, and
-- so is the end of the list). An error aborts the enclosing transaction, which restores both tables.
use genioai_wxmini_server.Base.{
  ℕ, String, Bool, false, Option, none, some, List, [], ◌∷◌, ◌==◌, ◌||◌, str_eq, if◌then◌else◌, ◌≡◌,
  refl, arith,
}
use genioai_wxmini_server.Credit.Model.{UserAmount, CreditTransaction}

-- `insufficient_credits` is `ErrInsufficientCredits`; `duplicate_entry` is a violated unique index.
-- `errors.Wrap` keeps the cause and its text, so the wrapped error is the error.
pub data Error : Type 0 where
  insufficient_credits duplicate_entry statement_failed malformed_info : Error

pub data Result (A : Type 0) : Type 0 where
  ok : A → Result A
  err : Error → Result A

pub record Db : Type 0 where
  pub amounts : List UserAmount
  pub transactions : List CreditTransaction
  pub next_id : ℕ
  pub drawn : ℕ  -- calls of `uuid.NewString` so far
  pub faults : List (Option Error)

abbrev pub M : Type 0 → Type 0
M A = Db → Result A × Db

module _ {A : Type 0} where
  abbrev pub pure : A → M A
  pure a db = (ok a, db)

  abbrev pub raise : Error → M A
  raise e db = (err e, db)

abbrev pub continue : {A B : Type 0} → (A → M B) → Result A × Db → Result B × Db
continue f (ok a, db) = f a db
continue f (err e, db) = (err e, db)

infixl 5 ◌>>=◌ ◌>>◌
abbrev pub ◌>>=◌ : {A B : Type 0} → M A → (A → M B) → M B
◌>>=◌ m f db = continue f (m db)

abbrev pub ◌>>◌ : {A B : Type 0} → M A → M B → M B
m >> k = m >>= λ _. k

abbrev pub modify : (Db → Db) → M (Unit {0})
modify f db = (ok tt, f db)

-- One round trip to the database.
unfoldable pub statement : M (Unit {0})
statement db = elim db.faults [
  | [] ↦ (ok tt, db)
  | none ∷ fs ↦ (ok tt, record db { faults = fs })
  | some e ∷ fs ↦ (err e, record db { faults = fs })
]

-- With no fault to come a statement does nothing else.
pub statement_total : (db : Db) → db.faults ≡ [] → statement db ≡ (ok tt, db)
unfolding statement
statement_total db h = ground arith

-- `db.Transaction(f)`: begin, run `f`, commit; on any error the tables are as before.
abbrev pub roll_back : {A : Type 0} → Db → Result A × Db → Result A × Db
roll_back old (ok a, db) = (ok a, db)
roll_back old (err e, db) =
    (err e, record db { amounts = old.amounts; transactions = old.transactions })

unfoldable pub transaction : {A : Type 0} → M A → M A
unfolding statement
transaction f db = roll_back db ((do statement; a ← f; statement; pure a) db)

-- The row of an id.
abbrev pub find_row : ℕ → List UserAmount → Option UserAmount
find_row i [] = none
find_row i (r ∷ rows) = if r.id == i then some r else find_row i rows

-- `Save`: all columns of the row with this primary key are written; with no such row it is inserted.
abbrev pub save_row : UserAmount → List UserAmount → List UserAmount
save_row u [] = u ∷ []
save_row u (r ∷ rows) = if r.id == u.id then u ∷ rows else r ∷ save_row u rows

-- The unique index on `source_id`.
abbrev pub has_source : String → List UserAmount → Bool
has_source s [] = false
has_source s (r ∷ rows) = str_eq r.source_id s || has_source s rows

-- A successful sequence is two successful parts.
pub continue-eq-ok :
    {A B : Type 0} (f : A → M B) (x : Result A × Db) {b : B} {db' : Db}
    → continue f x ≡ (ok b, db')
    → (a : A) × (mid : Db) × (x ≡ (ok a, mid)) × (f a mid ≡ (ok b, db'))
continue-eq-ok f (ok a, mid) h = (a, mid, refl, h)
continue-eq-ok f (err e, mid) h = ground arith

statement_keeps :
    (db : Db) {x : Unit {0}} {db' : Db}
    → statement db ≡ (ok x, db')
    → (db'.amounts ≡ db.amounts) × (db'.transactions ≡ db.transactions)
unfolding statement
statement_keeps db h = ground arith

-- A transaction that succeeds is one success of its body, on the same tables.
pub transaction_ok :
    {A : Type 0} (f : M A) (db : Db) {a : A} {db' : Db}
    → transaction f db ≡ (ok a, db')
    → (s1 : Db) × (s2 : Db) × (f s1 ≡ (ok a, s2))
      × (s1.amounts ≡ db.amounts)
      × (s1.transactions ≡ db.transactions)
      × (db'.amounts ≡ s2.amounts)
      × (db'.transactions ≡ s2.transactions)
unfolding transaction
transaction_ok {A} f db {a} {db'} h =
    let finish = λ (x : A). statement >> pure x in
    let (_, s1, first, rest) =
      continue-eq-ok (λ _. f >>= finish) (statement db)
        (committed (continue (λ _. f >>= finish) (statement db)) h) in
    let (b, s2, body, last) = continue-eq-ok finish (f s1) rest in
    let (_, s3, second, done) = continue-eq-ok (λ _. pure b) (statement s2) last in
    let (a1, t1) = statement_keeps db first in
    let (a2, t2) = statement_keeps s2 second in
    let (same, after) = pure_eq b s3 done in
    (s1, s2, rw (← same) body, a1, t1, rw after a2, rw after t2)
  where
    committed : (x : Result A × Db) → roll_back db x ≡ (ok a, db') → x ≡ (ok a, db')
    committed (ok b, s) e = e
    committed (err x, s) e = absurd (ground arith)

    pure_eq : (b : A) (s : Db) → ◌≡◌ {A = Result A × Db} (ok b, s) (ok a, db') → (b ≡ a) × (db' ≡ s)
    pure_eq b s e = ground arith

-- A transaction that fails leaves both tables.
pub transaction_err :
    {A : Type 0} (f : M A) (db : Db) {e : Error} {db' : Db}
    → transaction f db ≡ (err e, db')
    → (db'.amounts ≡ db.amounts) × (db'.transactions ≡ db.transactions)
unfolding transaction
transaction_err {A} f db {e} {db'} h =
    restored (continue (λ _. f >>= λ (x : A). statement >> pure x) (statement db)) h
  where
    restored :
        (x : Result A × Db)
        → roll_back db x ≡ (err e, db')
        → (db'.amounts ≡ db.amounts) × (db'.transactions ≡ db.transactions)
    restored (ok a, s) k = absurd (ground arith)
    restored (err e', s) k = ground arith
