-- ===== src/Approval.antt =====
-- internal/handler/approvalorder.go: orders that ask an administrator for something, such as a longer
-- lock of a job, and the approval that the system gives by itself. A deleted order is not seen by
-- any query, and stands in the table no more. The ids of gorm are not used again.

pub mod Jobs
pub mod Review
pub mod Spacing
pub mod Check
use crater_backend.Prelude.{
  ℕ, zero, suc, ◌+◌, ◌*◌, Bool, true, false, not, ◌&&◌, ◌||◌, Option, none, some, List, [], ◌∷◌,
  ◌++◌, String, if◌then◌else◌, length, ◌==◌, nat_eq, string_eq, ltb, leb,
}
use crater_backend.Prelude.Dict.{get}
use crater_backend.Prelude.Int.{ℤ, pos, ◌+ℤ◌, ◌-ℤ◌, ltb_ℤ, eqb_ℤ}
use crater_backend.Server.{
  M, Result, ok, err, pure, refuse, require, ask, first, write, attempt, ◌>>=◌, ◌>>◌,
}
use crater_backend.Model.Roles.{role_admin}
use crater_backend.Lock.{Job, JobTable, change_job, hour}

abbrev pub type_job : String
type_job = "job"

abbrev pub pending : String
pending = "Pending"

abbrev pub approved : String
approved = "Approved"

abbrev pub cancelled : String
cancelled = "Canceled"

-- ApprovalOrderContent of dao/model/approvalorder.go
pub record Content : Type 0 where
  pub type_id : ℕ
  pub extension_hours : ℕ
  pub reason : String

-- ApprovalOrder of dao/model/approvalorder.go
pub record Order : Type 0 where
  pub id : ℕ
  pub name : String
  pub kind : String
  pub status : String
  pub content : Content
  pub review_notes : String
  pub creator_id : ℕ
  pub reviewer_id : ℕ
  pub created_at : ℤ

-- The tables: orders in the order of their ids, and jobs.
pub record Tables : Type 0 where
  pub orders : List Order
  pub next_id : ℕ
  pub jobs : JobTable

-- What the handlers read of the token.
pub record Caller : Type 0 where
  pub user_id : ℕ
  pub role_platform : ℕ

-- The time at which a handler starts, that of a row that it creates, and the one that stands for a
-- permanent lock.
pub record Clock : Type 0 where
  pub now : ℤ
  pub created : ℤ
  pub permanent : ℤ

-- ApprovalOrderreq
pub record OrderRequest : Type 0 where
  pub name : String
  pub kind : String
  pub content : Content

-- UpdateApprovalOrder
pub record UpdateRequest : Type 0 where
  pub name : String
  pub kind : String
  pub status : String
  pub content : Content
  pub reviewer_id : ℕ
  pub review_notes : String

abbrev pub find_order : ℕ → List Order → Option Order
find_order id [] = none
find_order id (o ∷ os) = if o.id == id then some o else find_order id os

unfoldable pub change_order : (Order → Order) → ℕ → List Order → List Order
change_order f id [] = []
change_order f id (o ∷ os) = (if o.id == id then f o else o) ∷ change_order f id os

unfoldable pub remove_order : ℕ → List Order → List Order
remove_order id [] = []
remove_order id (o ∷ os) = let rest = remove_order id os in if o.id == id then rest else o ∷ rest

abbrev pub auto_approval_reason : String
auto_approval_reason = "whitout review，approved due to system"

-- 48 hours before a time.
abbrev pub two_days_before : ℤ → ℤ
two_days_before t = t -ℤ pos (48 * hour)

-- The loop of checkAutoApprovalEligibility over the rows that its query finds.
unfoldable pub recently_auto_approved : ℕ → ℤ → List Order → Bool
recently_auto_approved user since [] = false
recently_auto_approved user since (o ∷ os) =
    (o.creator_id == user && (ltb_ℤ since o.created_at && o.review_notes == auto_approval_reason))
    || recently_auto_approved user since os

unfoldable pub check_auto_approval_eligibility : ℤ → ℕ → OrderRequest → M Tables Bool
unfolding recently_auto_approved
check_auto_approval_eligibility now user req =
    if not (req.kind == type_job) || leb 12 req.content.extension_hours
    then pure false
    else ask "failed to check recent orders"
        (λ d. not (recently_auto_approved user (two_days_before now) d.orders))

abbrev pub max_hours : ℕ
max_hours = 1440

-- The time to which the lock of a job is moved.
unfoldable pub extended_lock : ℤ → ℕ → Job → ℤ
extended_lock now hours j =
    let start = if ltb_ℤ now j.locked_timestamp then j.locked_timestamp else now in
    start +ℤ pos (hours * hour)

unfoldable pub lock_job_for_approval : Clock → String → ℕ → M Tables (Unit {0})
unfolding extended_lock
lock_job_for_approval clock name hours = do
  j ← first "job not found" (λ d. get name d.jobs)
  require "job is already permanently locked" (not (eqb_ℤ j.locked_timestamp clock.permanent))
  require "extension hours exceeds maximum allowed value" (leb hours max_hours)
  write "update failed" (λ d. record d {
    jobs =
        change_job (λ row. record row { locked_timestamp = extended_lock clock.now hours j }) name
          d.jobs;
  })

abbrev pub succeeded : {A : Type 0} → Result A → Bool
succeeded (ok _) = true
succeeded (err _) = false

-- The attempt to lock the job, whose errors leave the order to a review.
unfoldable pub lock_if : Bool → Clock → OrderRequest → M Tables Bool
unfolding lock_job_for_approval
lock_if false clock req = pure false
lock_if true clock req = do
  r ← attempt (lock_job_for_approval clock req.name req.content.extension_hours)
  pure (succeeded r)

unfoldable pub auto_approve : Clock → ℕ → OrderRequest → M Tables Bool
unfolding check_auto_approval_eligibility lock_if
auto_approve clock user req = do
  can ← check_auto_approval_eligibility clock.now user req
  lock_if can clock req

unfoldable pub new_order : Clock → ℕ → OrderRequest → Bool → ℕ → Order
new_order clock user req auto id = record {
  id = id;
  name = req.name;
  kind = req.kind;
  status = if auto then approved else pending;
  content = req.content;
  review_notes = if auto then auto_approval_reason else "";
  creator_id = user;
  reviewer_id = 0;
  created_at = clock.created;
}

unfoldable pub store_order : Clock → ℕ → OrderRequest → Bool → M Tables Bool
unfolding new_order
store_order clock user req auto = do
  write "failed to create approval order" (λ d. record d {
    orders = d.orders ++ new_order clock user req auto d.next_id ∷ [];
    next_id = suc d.next_id;
  })
  pure auto

-- The answer is whether the order is approved already. A user id of 0 is that of no user.
unfoldable pub create_approval_order : Clock → Caller → OrderRequest → M Tables Bool
unfolding store_order
create_approval_order clock caller req = do
  require "cannot get user id" (not (caller.user_id == 0))
  auto ← auto_approve clock caller.user_id req
  store_order clock caller.user_id req auto

abbrev pub text_or : String → String → String
text_or new old = if new == "" then old else new

abbrev pub number_or : ℕ → ℕ → ℕ
number_or new old = if new == 0 then old else new

abbrev pub content_or : Content → Content → Content
content_or new old =
    if new.type_id == 0 && (new.extension_hours == 0 && new.reason == "") then old else new

-- `Updates` of gorm writes the fields that are not zero.
unfoldable pub updates : UpdateRequest → Order → Order
updates req o = record o {
  name = text_or req.name o.name;
  kind = text_or req.kind o.kind;
  status = text_or req.status o.status;
  content = content_or req.content o.content;
  reviewer_id = number_or req.reviewer_id o.reviewer_id;
  review_notes = text_or req.review_notes o.review_notes;
}

unfoldable pub update_approval_order : Caller → ℕ → UpdateRequest → M Tables (Unit {0})
unfolding change_order updates
update_approval_order caller id req = do
  require "cannot get user id" (not (caller.user_id == 0))
  require "permission denied: only admins can approve orders"
      (not (req.status == approved && not (caller.role_platform == role_admin)))
  write "failed to update approval order"
      (λ d. record d { orders = change_order (updates req) id d.orders })

-- The rows that the deletion finds none of, because another request was faster, are not told apart from
-- those that it finds: each handler runs in one piece here.
unfoldable pub delete_approval_order : Caller → ℕ → M Tables (Unit {0})
unfolding remove_order
delete_approval_order caller id = do
  require "cannot get user id" (not (caller.user_id == 0))
  o ← first "approval order not found" (λ d. find_order id d.orders)
  require "permission denied to delete this approval order" (o.creator_id == caller.user_id)
  write "failed to delete approval order" (λ d. record d { orders = remove_order id d.orders })

unfoldable pub get_approval_order : Caller → ℕ → M Tables Order
get_approval_order caller id = do
  require "can not get user ID" (not (caller.user_id == 0))
  o ← first "approval order not found" (λ d. find_order id d.orders)
  require "permission denied to view this approval order" (o.creator_id == caller.user_id)
  pure o

unfoldable pub get_approval_order_admin : Caller → ℕ → M Tables Order
get_approval_order_admin caller id = do
  require "can not get user ID" (not (caller.user_id == 0))
  require "permission denied" (caller.role_platform == role_admin)
  first "approval order not found" (λ d. find_order id d.orders)

abbrev pub orders_of : ℕ → List Order → List Order
orders_of user [] = []
orders_of user (o ∷ os) =
    let rest = orders_of user os in if o.creator_id == user then o ∷ rest else rest

unfoldable pub get_my_approval_orders : Caller → M Tables (List Order)
get_my_approval_orders caller = do
  require "cannot get user id" (not (caller.user_id == 0))
  ask "failed to get my approval orders" (λ d. orders_of caller.user_id d.orders)
