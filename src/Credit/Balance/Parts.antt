-- ===== src/Credit/Balance/Parts.antt =====
-- The sums of the kinds of credits in a balance, and their whole.
use genioai_wxmini_server.Base.{
  ℤ, Bool, true, false, List, [], ◌∷◌, ◌≡◌, All, where_rows, pos, ◌+ℤ◌, ◌≤ℤ◌, int_laws, add64,
  add64_exact, IsInt64, IsInt64-between, eq_of_parts, Bool-cases, inl, inr, if◌then◌else◌, ◌||◌,
}
use genioai_wxmini_server.Credit.Model.{
  UserAmount, CreditType, purchased, membership_grant, daily_free, event_grant, type_eq,
}
use genioai_wxmini_server.Credit.Dao.{is_type, sum_of}
use genioai_wxmini_server.Credit.Deduct.Charges.{sum_remaining}
use genioai_wxmini_server.Credit.Selection.{IsBalance}

abbrev pub is_grant : UserAmount → Bool
is_grant r = is_type daily_free r || is_type event_grant r

-- The types that the code does not know.
abbrev pub is_unlisted : CreditType → Bool
is_unlisted (CreditType.unlisted s) = true
is_unlisted _ = false

-- The sums of four kinds make up the whole of some rows, which is part of the balance of all rows.
pub record Parts (m pu d other whole balance : ℤ) : Type 0 where
  m_nonneg : pos 0 ≤ℤ m
  pu_nonneg : pos 0 ≤ℤ pu
  d_nonneg : pos 0 ≤ℤ d
  other_nonneg : pos 0 ≤ℤ other
  below : m +ℤ pu +ℤ d +ℤ other ≤ℤ whole
  above : whole ≤ℤ m +ℤ pu +ℤ d +ℤ other
  within : whole ≤ℤ balance

pub Parts-cons :
    (t : CreditType) (x : ℤ) {m pu d other whole balance : ℤ}
    → pos 0 ≤ℤ x
    → Parts m pu d other whole balance
    → Parts
        ((if type_eq t membership_grant then x else pos 0) +ℤ m)
        ((if type_eq t purchased then x else pos 0) +ℤ pu)
        ((if type_eq t daily_free || type_eq t event_grant then x else pos 0) +ℤ d)
        ((if is_unlisted t then x else pos 0) +ℤ other)
        (x +ℤ whole)
        (x +ℤ balance)
Parts-cons t x {m} {pu} {d} {other} {whole} {balance} h p = at t
  where
    a : pos 0 ≤ℤ m
    a = p.m_nonneg

    b : pos 0 ≤ℤ pu
    b = p.pu_nonneg

    c : pos 0 ≤ℤ d
    c = p.d_nonneg

    e : pos 0 ≤ℤ other
    e = p.other_nonneg

    f : m +ℤ pu +ℤ d +ℤ other ≤ℤ whole
    f = p.below

    f' : whole ≤ℤ m +ℤ pu +ℤ d +ℤ other
    f' = p.above

    g : whole ≤ℤ balance
    g = p.within

    at :
        (t : CreditType)
        → Parts
            ((if type_eq t membership_grant then x else pos 0) +ℤ m)
            ((if type_eq t purchased then x else pos 0) +ℤ pu)
            ((if type_eq t daily_free || type_eq t event_grant then x else pos 0) +ℤ d)
            ((if is_unlisted t then x else pos 0) +ℤ other)
            (x +ℤ whole)
            (x +ℤ balance)
    at purchased = record {
      m_nonneg = omega int_laws;
      pu_nonneg = omega int_laws;
      d_nonneg = omega int_laws;
      other_nonneg = omega int_laws;
      below = omega int_laws;
      above = omega int_laws;
      within = omega int_laws;
    }
    at membership_grant = record {
      m_nonneg = omega int_laws;
      pu_nonneg = omega int_laws;
      d_nonneg = omega int_laws;
      other_nonneg = omega int_laws;
      below = omega int_laws;
      above = omega int_laws;
      within = omega int_laws;
    }
    at daily_free = record {
      m_nonneg = omega int_laws;
      pu_nonneg = omega int_laws;
      d_nonneg = omega int_laws;
      other_nonneg = omega int_laws;
      below = omega int_laws;
      above = omega int_laws;
      within = omega int_laws;
    }
    at event_grant = record {
      m_nonneg = omega int_laws;
      pu_nonneg = omega int_laws;
      d_nonneg = omega int_laws;
      other_nonneg = omega int_laws;
      below = omega int_laws;
      above = omega int_laws;
      within = omega int_laws;
    }
    at (CreditType.unlisted s) = record {
      m_nonneg = omega int_laws;
      pu_nonneg = omega int_laws;
      d_nonneg = omega int_laws;
      other_nonneg = omega int_laws;
      below = omega int_laws;
      above = omega int_laws;
      within = omega int_laws;
    }

pub Parts-wider :
    (x : ℤ) {m pu d other whole balance : ℤ}
    → pos 0 ≤ℤ x
    → Parts m pu d other whole balance
    → Parts m pu d other whole (x +ℤ balance)
Parts-wider x {m} {pu} {d} {other} {whole} {balance} h p = record {
  m_nonneg = p.m_nonneg;
  pu_nonneg = p.pu_nonneg;
  d_nonneg = p.d_nonneg;
  other_nonneg = p.other_nonneg;
  below = p.below;
  above = p.above;
  within = wider p.within;
}
  where
    wider : whole ≤ℤ balance → whole ≤ℤ x +ℤ balance
    wider g = omega int_laws

-- The total of the query is exact, and falls short of the whole by the unlisted types.
pub total_added_up :
    {m pu d other whole balance : ℤ}
    → Parts m pu d other whole balance
    → IsInt64 balance
    → whole ≡ add64 (add64 m pu) d +ℤ other
total_added_up {m} {pu} {d} {other} {whole} {balance} p i =
    rw (sum_eq, all_eq) (eq_of_parts whole (m +ℤ pu +ℤ d +ℤ other) (omega int_laws))
  where
    a : pos 0 ≤ℤ m
    a = p.m_nonneg

    b : pos 0 ≤ℤ pu
    b = p.pu_nonneg

    c : pos 0 ≤ℤ d
    c = p.d_nonneg

    e : pos 0 ≤ℤ other
    e = p.other_nonneg

    f : m +ℤ pu +ℤ d +ℤ other ≤ℤ whole
    f = p.below

    f' : whole ≤ℤ m +ℤ pu +ℤ d +ℤ other
    f' = p.above

    g : whole ≤ℤ balance
    g = p.within

    sum_eq : add64 m pu ≡ m +ℤ pu
    sum_eq =
        add64_exact m pu (IsInt64-between (m +ℤ pu) balance i (omega int_laws) (omega int_laws))

    all_eq : add64 (m +ℤ pu) d ≡ m +ℤ pu +ℤ d
    all_eq =
        add64_exact (m +ℤ pu) d
          (IsInt64-between (m +ℤ pu +ℤ d) balance i (omega int_laws) (omega int_laws))

pub sums-Parts :
    (q : UserAmount → Bool) (rows : List UserAmount)
    → All IsBalance rows
    → Parts
        (sum_of (is_type membership_grant) (where_rows q rows))
        (sum_of (is_type purchased) (where_rows q rows))
        (sum_of is_grant (where_rows q rows))
        (sum_of (λ r. is_unlisted r.amount_iden) (where_rows q rows))
        (sum_of (λ r. true) (where_rows q rows))
        (sum_remaining rows)
sums-Parts q [] h = record {
  m_nonneg = omega int_laws;
  pu_nonneg = omega int_laws;
  d_nonneg = omega int_laws;
  other_nonneg = omega int_laws;
  below = omega int_laws;
  above = omega int_laws;
  within = omega int_laws;
}
sums-Parts q (r ∷ rows) h =
    let ih = sums-Parts q rows h.1 in
    elim (Bool-cases (q r)) [
      | inl e ↦ rw e (Parts-cons r.amount_iden r.remaining_amount h.0.0 ih)
      | inr e ↦ rw e (Parts-wider r.remaining_amount h.0.0 ih)
    ]
