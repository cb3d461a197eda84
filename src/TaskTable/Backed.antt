-- ===== src/TaskTable/Backed.antt =====
-- The task controller of pkg/aitaskctl/controller.go on the rows of pkg/aitaskctl/task.go, as
-- NewTaskController puts them together: its database is the table, and only the cluster and the
-- profiler stay outside.
use crater_backend.Prelude.{ℕ, ◌≡◌, Bool, Option, some, List, [], ◌∷◌, String, All}
use crater_backend.Resources.{Quantity}
use crater_backend.Model.{AiTask}
use crater_backend.Quota.{Decoder}
use crater_backend.TaskTable.{TaskTable, Access}
use crater_backend.TaskTable
use crater_backend.TaskTable.Rows.{Listed, list_by_user_and_statuses-Listed}
use crater_backend.Controller.{Created, Services, AccountTable, State}
use crater_backend.Controller.Valid.{ListsOwn, IsController}
use crater_backend.Controller.Schedule.{schedule}
use crater_backend.Controller.Reach.{started, Reach, Reach-IsController, Reach-schedule}

-- What lies outside the table: JobControl of pkg/crclient and the profiler, the clock, and whether
-- a query succeeds now.
pub record Cluster (W : Type 0) : Type 0 where
  pub create_job : AiTask → W → Created × W
  pub delete_job : AiTask → W → Bool × W
  pub node_of_task : AiTask → W → Option String × W
  pub submit_profile_task : ℕ → W → W
  pub delete_profile_pod : ℕ → W → W
  pub now : W → ℕ
  pub access : W → Access

abbrev pub Backed : Type 0 → Type 0
Backed W = TaskTable × W

abbrev pub outside : {A W : Type 0} → (W → A × W) → Backed W → A × Backed W
outside f (rows, w) = ((f w).0, (rows, (f w).1))

abbrev pub inside : {A W : Type 0} → (TaskTable → A × TaskTable) → Backed W → A × Backed W
inside f (rows, w) = ((f rows).0, ((f rows).1, w))

-- The services of the controller on a table.
unfoldable pub on_table : {W : Type 0} → Cluster W → Services (Backed W)
on_table c = record {
  get_by_id = λ id s. (TaskTable.get_by_id (c.access s.1) id s.0, s);
  update_status = λ id status reason s.
      inside (TaskTable.update_status (c.access s.1) (c.now s.1) id status reason) s;
  update_job_name = λ id name s. inside (TaskTable.update_job_name (c.access s.1) id name) s;
  update_node_name = λ id name s. inside (TaskTable.update_node_name (c.access s.1) id name) s;
  list_by_user_and_statuses =
      λ user statuses s. (TaskTable.list_by_user_and_statuses (c.access s.1) user statuses s.0, s);
  create_job = λ t. outside (c.create_job t);
  delete_job = λ t. outside (c.delete_job t);
  node_of_task = λ t. outside (c.node_of_task t);
  submit_profile_task = λ id s. (s.0, c.submit_profile_task id s.1);
  delete_profile_pod = λ id s. (s.0, c.delete_profile_pod id s.1);
}

owned :
    (user : String) (statuses : List String) (ts : List AiTask)
    → All (Listed user statuses) ts
    → All (λ t. t.user_name ≡ user) ts
owned user statuses [] h = tt
owned user statuses (t ∷ ts) h = (h.0.0, owned user statuses ts h.1)

module _ {W : Type 0} (c : Cluster W) where
  -- The table fills the promise that the controller asks of its database.
  pub on_table-ListsOwn : ListsOwn (on_table c)
  unfolding on_table
  on_table-ListsOwn = record {
    own = λ user statuses s {ts} h.
        owned user statuses ts
          (list_by_user_and_statuses-Listed (c.access s.1) user statuses s.0 h);
  }

  module _ {Q : Type 0} ⦃n : Quantity Q⦄ ⦃d : Decoder Q⦄ (a : AccountTable Q (Backed W)) where
    -- On the table nothing is left to assume of the database: in every state that a run of a new
    -- controller reaches, whatever rows the table starts with, whichever queries fail and whatever
    -- the cluster answers, the controller is valid, and the scheduler can run and leaves it valid.
    pub Reach-on_table :
        (has_profiler : Bool) (s : Backed W) {t : State Q (Backed W)}
        → Reach ⦃v = on_table c⦄ ⦃a = a⦄ (started ⦃v = on_table c⦄ ⦃a = a⦄ has_profiler s) t
        → IsController t
          × ((u : State Q (Backed W)) × (schedule ⦃v = on_table c⦄ ⦃a = a⦄ t ≡ some u)
              × IsController u)
    Reach-on_table has_profiler s r = (
      Reach-IsController ⦃v = on_table c⦄ ⦃a = a⦄ on_table-ListsOwn has_profiler s r,
      Reach-schedule ⦃v = on_table c⦄ ⦃a = a⦄ on_table-ListsOwn has_profiler s r,
    )
