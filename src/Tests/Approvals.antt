-- ===== src/Tests/Approvals.antt =====
-- Requests of internal/handler/approvalorder.go about two orders, on a table with one job.
use crater_backend.Prelude.{
  ℕ, ◌≡◌, refl, true, false, List, [], ◌∷◌, String, length, string_eq, nat_eq, arith,
}
use mathlib.Core.Option
use crater_backend.Prelude.Int.{pos}
use crater_backend.Server.{State, ok}
use crater_backend.Lock.{Job}
use crater_backend.Approval.{
  Content, Order, Tables, Caller, Clock, UpdateRequest, auto_approval_reason, pending, approved,
  type_job, find_order, create_approval_order, update_approval_order,
}
use crater_backend.Approval.Jobs.{update_approval_order_by_job_status, pending_job_orders}
use crater_backend.Approval.Review.{ApprovedBefore, update_approval_order-admin}
use crater_backend.Approval.Spacing.{Spaced, create_approval_order-Spaced}
use crater_backend.Approval.Check.{checked, reliable, update_by_job_status-checked}

abbrev content : Content
content = record { type_id = 0; extension_hours = 6; reason = "a long run" }

abbrev order : ℕ → String → Order
order id name = record {
  id = id;
  name = name;
  kind = type_job;
  status = pending;
  content = content;
  review_notes = "";
  creator_id = 1;
  reviewer_id = 0;
  created_at = pos 100;
}

abbrev job : Job
job = record {
  job_name = "train";
  job_type = "jupyter";
  status = "Running";
  creation_timestamp = pos 0;
  running_timestamp = pos 0;
  alert_enabled = true;
  keep_when_low_resource_usage = false;
  locked_timestamp = pos 0;
}

abbrev tables : Tables
tables = record {
  orders = order 1 "train" ∷ order 2 "gone" ∷ [];
  next_id = 3;
  jobs = ("train", job) ∷ [];
}

abbrev start : State Tables
start = record { faults = []; tables = tables }

abbrev user : Caller
user = record { user_id = 1; role_platform = 2 }

abbrev approval : UpdateRequest
approval = record {
  name = "";
  kind = "";
  status = approved;
  content = content;
  review_notes = "";
  reviewer_id = 0;
}

abbrev clock : Clock
clock = record { now = pos 200; created = pos 201; permanent = pos 0 }

update_approval_order-admin_example :
    ApprovedBefore tables (update_approval_order user 1 approval start).1.tables
update_approval_order-admin_example = update_approval_order-admin user 1 approval start refl

create_approval_order-Spaced_example :
    Spaced
      (create_approval_order clock user
        (record { name = "train"; kind = type_job; content = content })
        start).1.tables.orders
create_approval_order-Spaced_example =
    create_approval_order-Spaced clock user
      (record { name = "train"; kind = type_job; content = content }) start refl
      (
        ((λ a b c. absurd (ground (arith, a, string_eq.beq_iff "" auto_approval_reason))), tt),
        (tt, tt),
      )

update_by_job_status-checked_example :
    (n : ℕ) × (os : List Order) × (update_approval_order_by_job_status
        (λ s. s)
        (reliable (λ s. s) tables)
      ≡ (
        ok (length (pending_job_orders tables.orders), n),
        reliable (λ s. s) (record tables { orders = os }),
      ))
    × ((i : ℕ)
        → find_order i os ≡ Option.map (checked (λ s. s) tables.jobs) (find_order i tables.orders))
update_by_job_status-checked_example =
    update_by_job_status-checked (λ s. s) tables (refl, (refl, tt))
