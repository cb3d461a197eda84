-- ===== src/Tests.antt =====
-- The data on which the tests and examples of the other modules below this one run: two accounts of
-- one resource, tasks of both service levels, and a database and a cluster that answer.
mod Queues
mod Quotas
mod Controllers
mod Jobs
mod Crons
mod Tasks
mod Reconcilers
mod Sessions
mod Logins
mod Accounts
mod Shares
mod Approvals
mod Contexts
use crater_backend.Prelude.{
  ℕ, ◌+◌, ◌-◌, ◌≡◌, refl, ap, ◌∙◌, sym, Bool, true, false, Option, none, some, List, [], ◌∷◌,
  String, if◌then◌else◌, ◌==◌, string_eq, nat_eq, nat_beq_iff, nat_beq, ltb, arith, Distinct,
  Bool-cases, inl, inr, All,
}
use crater_backend.Prelude.Dict.{keys, get}
use crater_backend.Prelude.Int.{ℤ, pos}
use crater_backend.Resources.{Quantity, ResourceList}
use crater_backend.Model.{AiTask, queueing_status, running_status, un_profiled}
use crater_backend.Quota.{Decoder}
use crater_backend.Controller.{Account, Created, job_created, Services, AccountTable}
use crater_backend.Controller.Valid.{ListsOwn}

instance abbrev pub whole : Quantity ℕ
whole = record {
  none_left = 0;
  add = λ a b. a + b;
  sub = λ a b. a - b;
  is_more = λ a b. ltb b a;
  value = λ a. pos a;
  same = nat_beq;
  add_comm = λ a b. omega arith;
  add_assoc = λ a b c. omega arith;
  add_none_left = λ a. omega arith;
  sub-add = λ a b. omega arith;
  same_eq = λ a b h. (nat_beq_iff a b).0 h;
}

abbrev pub two_gpus : ResourceList ℕ
two_gpus = ("gpu", 2) ∷ []

abbrev pub read_request : String → Option (ResourceList ℕ)
read_request s = if s == "two gpus" then some two_gpus else none

pub read_request-Distinct :
    (s : String) {r : ResourceList ℕ} → read_request s ≡ some r → Distinct (keys r)
read_request-Distinct s {r} h = elim (Bool-cases (s == "two gpus")) [
  | inr e ↦ absurd (ground arith)
  | inl e ↦ let same : two_gpus ≡ r = ground arith in rw (← same) (refl, tt)
]

instance abbrev pub requests : Decoder ℕ
requests = record { decode = read_request; decode_distinct = read_request-Distinct }

abbrev pub task : ℕ → String → ℕ → String → AiTask
task id user slo status = record {
  id = id;
  created_at = 100 - id;
  task_name = "train";
  user_name = user;
  task_type = "training";
  started_at = none;
  admitted_at = none;
  finish_at = none;
  duration = 0;
  jct = 0;
  resource_request = "two gpus";
  command = "";
  slo = slo;
  status = status;
  status_reason = "";
  job_name = "";
  is_deleted = false;
  profile_status = un_profiled;
  profile_stat = "";
  token = "";
  node_port = 0;
  node = "";
}

abbrev pub first_task : AiTask
first_task = task 1 "alice" 1 queueing_status

abbrev pub second_task : AiTask
second_task = task 2 "alice" 0 queueing_status

abbrev pub alice : Account ℕ
alice = record { name = "alice"; deserved = ("gpu", 3) ∷ []; capability = ("gpu", 4) ∷ [] }

-- The world counts the calls that change it.
instance abbrev pub services : Services ℕ
services = record {
  get_by_id = λ id w. (some (task id "alice" (if id == 1 then 1 else 0) queueing_status), w);
  update_status = λ id status reason w. (true, w + 1);
  update_job_name = λ id name w. (true, w + 1);
  update_node_name = λ id name w. (true, w + 1);
  list_by_user_and_statuses = λ user statuses w.
      (some (task 1 user 1 queueing_status ∷ task 2 user 0 queueing_status ∷ []), w);
  create_job = λ t w. (job_created "job", w + 1);
  delete_job = λ t w. (true, w + 1);
  node_of_task = λ t w. (some "node", w);
  submit_profile_task = λ id w. w + 1;
  delete_profile_pod = λ id w. w + 1;
}

pub services-ListsOwn : ListsOwn services
services-ListsOwn = record { own = λ user statuses w {ts} h. owned user h }
  where
    owned :
        (user : String) {ts : List AiTask}
        → some (task 1 user 1 queueing_status ∷ task 2 user 0 queueing_status ∷ []) ≡ some ts
        → All (λ t. t.user_name ≡ user) ts
    owned user {ts} h =
        let same : (task 1 user 1 queueing_status ∷ task 2 user 0 queueing_status ∷ []) ≡ ts =
          ground arith in
        rw (← same) (refl, (refl, tt))

instance abbrev pub accounts : AccountTable ℕ ℕ
accounts = record {
  list_accounts = λ w. (some (alice ∷ []), w);
  find_account = λ user w. (if user == "alice" then some alice else none, w);
}
