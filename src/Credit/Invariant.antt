-- ===== src/Credit/Invariant.antt =====
-- What holds of the amounts table between two operations, and what is assumed of ORDER BY.
use genioai_wxmini_server.Base.{List, All, IsInt64, Permᴰ}
use genioai_wxmini_server.Credit.Model.{UserAmount}
use genioai_wxmini_server.Credit.Store.{Db}
use genioai_wxmini_server.Credit.Dao.{OrderBy}
use genioai_wxmini_server.Credit.Table.{Distinct}
use genioai_wxmini_server.Credit.Deduct.Charges.{sum_remaining}
use genioai_wxmini_server.Credit.Selection.{IsBalance}

-- Primary keys are unique, no balance is negative, and the balances together fit an int64.
pub record IsSound (db : Db) : Type 0 where
  pub distinct : Distinct db.amounts
  pub balances : All IsBalance db.amounts
  pub bounded : IsInt64 (sum_remaining db.amounts)

-- ORDER BY returns the selected rows in some order.
pub record IsOrder (order : OrderBy) : Type 0 where
  pub perm : (rows : List UserAmount) → Permᴰ rows (order rows)
