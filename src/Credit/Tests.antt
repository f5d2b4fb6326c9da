-- ===== src/Credit/Tests.antt =====
-- A small table of credits, and runs of the credit code on it.
mod Deduction
mod Granting
use genioai_wxmini_server.Base.{
  ℕ, ℤ, String, add64, wrap64, min64, sub64, neg64, false, List, [], ◌∷◌, ◌≡◌, ◌⊎◌, refl, pos,
  negsuc, ◌+ℤ◌, ◌-ℤ◌, arith, Permᴰ, ◌<ℤ◌, ◌++◌, ◌+◌,
}
use genioai_wxmini_server.Credit.Model.{
  UserAmount, CreditTransaction, CreditType, purchased, membership_grant, daily_free,
  usage_deduction,
}
use genioai_wxmini_server.Credit.Store.{Db, ok, ◌>>=◌}
use genioai_wxmini_server.Credit.Dao.{OrderBy, get_user_amounts}
use genioai_wxmini_server.Credit.Deduct.{
  Request, DeductionInfo, perform_deduction, charge, deduct_credits_with_tx,
}
use genioai_wxmini_server.Credit.Invariant.{IsSound, IsOrder}

abbrev pub row : ℕ → String → CreditType → ℕ → ℕ → UserAmount
row id source_id t remaining expired_at = record {
  id = id;
  source_id = source_id;
  amount_iden = t;
  project_id = "p";
  user_id = "u";
  remaining_amount = pos remaining;
  expired_at = expired_at;
  subscribe_level = pos 0;
}

abbrev pub bought : UserAmount
bought = row 1 "order" purchased 5 100

abbrev pub gift : UserAmount
gift = row 2 "day" daily_free 3 50

abbrev pub membership : UserAmount
membership = row 3 "member" membership_grant 4 20

abbrev pub db_of : List UserAmount → Db
db_of rows = record { amounts = rows; transactions = []; next_id = 4; drawn = 0; faults = [] }

abbrev pub three_rows : Db
three_rows = db_of (bought ∷ gift ∷ membership ∷ [])

abbrev pub as_stored : OrderBy
as_stored rows = rows

same_order : (rows : List UserAmount) → Permᴰ rows rows
same_order [] = Permᴰ.nil
same_order (r ∷ rows) = Permᴰ.cons refl (same_order rows)

pub as_stored-IsOrder : IsOrder as_stored
as_stored-IsOrder = record { perm = same_order }

pub three_rows-IsSound : IsSound three_rows
unfolding ◌+ℤ◌
three_rows-IsSound = record {
  distinct =
      (((λ h. ground arith), ((λ h. ground arith), tt)), (((λ h. ground arith), tt), (tt, tt)));
  balances =
      ((omega arith, omega arith), ((omega arith, omega arith), ((omega arith, omega arith), tt)));
  bounded = omega arith;
}

abbrev pub request : Request
request = record {
  project_id = "p";
  user_id = "u";
  source_id = "task";
  transaction_type = usage_deduction;
  description = "";
}

abbrev pub seven : DeductionInfo
seven = (1, pos 5) ∷ (3, pos 2) ∷ []

abbrev pub spent : ℕ → ℤ → CreditType → ℤ → CreditTransaction
spent number change t balance = record {
  project_id = "p";
  user_id = "u";
  transaction_id = number;
  transaction_type = usage_deduction;
  amount_change = change;
  credit_type = t;
  balance_after = balance;
  source_id = "task";
  description = "";
}

abbrev pub seven_spent : Db
seven_spent = record {
  amounts = row 1 "order" purchased 0 100 ∷ gift ∷ row 3 "member" membership_grant 2 20 ∷ [];
  transactions =
      spent 1 (negsuc 1) membership_grant (pos 2) ∷ spent 0 (negsuc 4) purchased (pos 0) ∷ [];
  next_id = 4;
  drawn = 2;
  faults = [];
}

pub deduct_seven :
    deduct_credits_with_tx as_stored 10 request (pos 7) false three_rows ≡ (ok seven, seven_spent)
unfolding deduct_credits_with_tx get_user_amounts add64 wrap64 ◌+ℤ◌ perform_deduction min64 charge
    sub64 ◌-ℤ◌ neg64
deduct_seven = refl
