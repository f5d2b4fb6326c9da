-- ===== src/Credit/Membership/Expired.antt =====
-- What the expiry of a membership does to the tables.
use genioai_wxmini_server.Base.{String, [], ◌≡◌, refl, pos, All}
use genioai_wxmini_server.Credit.Model.{membership_grant}
use genioai_wxmini_server.Credit.Store.{Db, ok}
use genioai_wxmini_server.Credit.Dao.{OrderBy}
use genioai_wxmini_server.Credit.Invariant.{IsOrder}
use genioai_wxmini_server.Credit.Expiry.Window.{IsOutside, clear_expired_credits_nothing}
use genioai_wxmini_server.Credit.Membership.{
  Clock, clear_expired_membership_credits, process_membership_expiry,
}

-- The processing of an expired membership takes no credits: with a working database it reports 0 and
-- leaves both tables as they are, unless a row expires strictly between the two readings of the clock
-- in `ClearExpiredCredits`. Assumed: no statement fails, and an ORDER BY that returns the selected
-- rows in some order.
pub process_membership_expiry_nothing :
    (order : OrderBy) (c : Clock) (project_id user_id : String) (db : Db)
    → IsOrder order
    → db.faults ≡ []
    → All (IsOutside c.query_now c.now) db.amounts
    → process_membership_expiry order c project_id user_id db ≡ (ok (pos 0), db)
unfolding process_membership_expiry clear_expired_membership_credits
process_membership_expiry_nothing order c project_id user_id db o h out =
    rw
      (clear_expired_credits_nothing order c.stamp c.query_now c.now project_id user_id
        membership_grant db o h out)
      refl
