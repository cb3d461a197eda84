-- ===== src/Approval/Jobs.antt =====
-- UpdateApprovalOrderByJobStatus of internal/handler/approvalorder.go: the orders of jobs that do not run.
use crater_backend.Prelude.{
  ℕ, ◌+◌, Bool, ◌&&◌, List, [], ◌∷◌, String, if◌then◌else◌, length, ◌==◌, nat_eq, string_eq,
}
use crater_backend.Prelude.Dict.{get}
use crater_backend.Server.{M, Result, ok, err, pure, ask, first, write, attempt, ◌>>=◌}
use crater_backend.Lock.{Job}
use crater_backend.Approval.{Order, Tables, cancelled, change_order, pending, succeeded, type_job}

-- isJobRunning
abbrev pub is_job_running : String → Bool
is_job_running status = status == "Running"

unfoldable pub cancel_approval_order : ℕ → String → M Tables (Unit {0})
unfolding change_order
cancel_approval_order id reason = write "failed to update approval order status" (λ d. record d {
  orders = change_order (λ o. record o { status = cancelled; review_notes = reason }) id d.orders;
})

abbrev pub pending_job_orders : List Order → List Order
pending_job_orders [] = []
pending_job_orders (o ∷ os) =
    let rest = pending_job_orders os in
    if o.status == pending && o.kind == type_job then o ∷ rest else rest

abbrev pub one_if : Bool → ℕ
one_if b = if b then 1 else 0

-- One round of the check: how many orders it cancels. `status_text` prints the status of a job. A query
-- for the job that fails is taken for a job that is not there.
unfoldable pub cancel_counted : ℕ → String → M Tables ℕ
unfolding cancel_approval_order
cancel_counted id reason = do
  done ← attempt (cancel_approval_order id reason)
  pure (one_if (succeeded done))

unfoldable pub judge_order : (String → String) → Order → Result Job → M Tables ℕ
unfolding cancel_counted
judge_order status_text o (err _) = cancel_counted o.id "Job not found"
judge_order status_text o (ok j) =
    if is_job_running j.status then pure 0 else cancel_counted o.id (status_text j.status)

unfoldable pub check_order : (String → String) → Order → M Tables ℕ
unfolding judge_order
check_order status_text o = do
  r ← attempt (first "Job not found" (λ d. get o.name d.jobs))
  judge_order status_text o r

unfoldable pub check_orders : (String → String) → List Order → M Tables ℕ
unfolding check_order
check_orders status_text [] = pure 0
check_orders status_text (o ∷ os) =
    check_order status_text o >>= λ n. check_orders status_text os >>= λ m. pure (n + m)

-- UpdateApprovalOrderByJobStatus: the orders that it checked and those that it canceled.
unfoldable pub update_approval_order_by_job_status : (String → String) → M Tables (ℕ × ℕ)
unfolding check_orders
update_approval_order_by_job_status status_text = do
  os ← ask "failed to query pending job orders" (λ d. pending_job_orders d.orders)
  n ← check_orders status_text os
  pure (length os, n)
