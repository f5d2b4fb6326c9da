-- ===== src/Credit/Grouping.antt =====
-- Rows of different types are different rows, and their balances add up.
use genioai_wxmini_server.Base.{
  Bool, true, false, not, List, [], ◌∷◌, ◌++◌, ◌||◌, ◌+ℤ◌, int_laws, ◌≡◌, ◌≢◌, refl, sym, ap, ◌∙◌,
  All, All-append, Bool-cases, inl, inr, parts_of_eq, where_rows, some_eq, eq_iff,
}
use genioai_wxmini_server.Credit.Model.{
  UserAmount, CreditType, purchased, membership_grant, daily_free, event_grant, type_eq,
}
use genioai_wxmini_server.Credit.Store.{find_row}
use genioai_wxmini_server.Credit.Dao.{is_type}
use genioai_wxmini_server.Credit.Table.{IsStored}
use genioai_wxmini_server.Credit.Deduct.Charges.{IsFunded, sum_remaining}
use genioai_wxmini_server.Credit.Selection.{IsSelection, All-where, Distinct-where, Distinct-append}

-- The test is equality.
pub type_eq_sound : (s t : CreditType) → type_eq s t ≡ true → s ≡ t
type_eq_sound purchased purchased h = refl
type_eq_sound membership_grant membership_grant h = refl
type_eq_sound daily_free daily_free h = refl
type_eq_sound event_grant event_grant h = refl
type_eq_sound (CreditType.unlisted a) (CreditType.unlisted b) h =
    ap CreditType.unlisted ((eq_iff a b).0 h)
type_eq_sound _ _ h = cc

pub type_disjoint :
    (s t : CreditType) (x : UserAmount)
    → type_eq s t ≡ false
    → is_type s x ≡ true
    → is_type t x ≡ false
type_disjoint s t x d h = rw (type_eq_sound x.amount_iden s h) d

abbrev pub one_of_paid : UserAmount → Bool
one_of_paid x = (is_type purchased x || is_type membership_grant x) || is_type event_grant x

pub sum_remaining-disjoint :
    (p q : UserAmount → Bool) (xs : List UserAmount)
    → ((x : UserAmount) → p x ≡ true → q x ≡ false)
    → sum_remaining (where_rows p xs) +ℤ sum_remaining (where_rows q xs)
      ≡ sum_remaining (where_rows (λ x. p x || q x) xs)
sum_remaining-disjoint p q [] d = omega int_laws
sum_remaining-disjoint p q (x ∷ xs) d =
    let ih = parts_of_eq _ _ (sum_remaining-disjoint p q xs d) in
    elim (Bool-cases (p x)) [
      | inl e ↦ rw (e, d x e) (omega int_laws)
      | inr e ↦ elim (Bool-cases (q x)) [
        | inl f ↦ rw (e, f) (omega int_laws)
        | inr f ↦ rw (e, f) (omega int_laws)
      ]
    ]

-- Two stored rows with one key are one row.
stored_unique :
    (rows : List UserAmount) (x y : UserAmount)
    → IsStored rows x
    → IsStored rows y
    → y.id ≡ x.id
    → x ≡ y
stored_unique rows x y h k e = some_eq x y (sym h ∙ (ap (λ i. find_row i rows) (sym e) ∙ k))

apart_one :
    (rows : List UserAmount) (p : UserAmount → Bool) (b : Bool) (x : UserAmount)
    (ys : List UserAmount)
    → IsStored rows x
    → p x ≡ b
    → All (IsStored rows) ys
    → All (λ y. p y ≡ not b) ys
    → All (λ y. y.id ≢ x.id) ys
apart_one rows p b x [] h e k f = tt
apart_one rows p b x (y ∷ ys) h e k f = (
  (λ q. not_self b (sym e ∙ (ap p (stored_unique rows x y h k.0 q) ∙ f.0))),
  apart_one rows p b x ys h e k.1 f.1,
)
  where
    not_self : (c : Bool) → c ≡ not c → ⊥
    not_self true q = cc
    not_self false q = cc

pub apart :
    (rows : List UserAmount) (p : UserAmount → Bool) (b : Bool) (xs ys : List UserAmount)
    → All (IsStored rows) xs
    → All (λ x. p x ≡ b) xs
    → All (IsStored rows) ys
    → All (λ y. p y ≡ not b) ys
    → All (λ x. All (λ y. y.id ≢ x.id) ys) xs
apart rows p b [] ys h e k f = tt
apart rows p b (x ∷ xs) ys h e k f =
    (apart_one rows p b x ys h.0 e.0 k f, apart rows p b xs ys h.1 e.1 k f)

-- A group of a selection is a selection.
pub IsSelection-where :
    (rows : List UserAmount) (p : UserAmount → Bool) (uas : List UserAmount)
    → IsSelection rows uas
    → IsSelection rows (where_rows p uas)
IsSelection-where rows p uas s = record {
  funded = All-where IsFunded p uas s.funded;
  stored = All-where (IsStored rows) p uas s.stored;
  distinct = Distinct-where p uas s.distinct;
}

pub IsSelection-append :
    (rows : List UserAmount) (p : UserAmount → Bool) (b : Bool) (xs ys : List UserAmount)
    → IsSelection rows xs
    → IsSelection rows ys
    → All (λ x. p x ≡ b) xs
    → All (λ y. p y ≡ not b) ys
    → IsSelection rows (xs ++ ys)
IsSelection-append rows p b xs ys s t e f = record {
  funded = All-append IsFunded xs ys s.funded t.funded;
  stored = All-append (IsStored rows) xs ys s.stored t.stored;
  distinct =
      Distinct-append xs ys s.distinct t.distinct (apart rows p b xs ys s.stored e t.stored f);
}
