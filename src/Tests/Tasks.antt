-- ===== src/Tests/Tasks.antt =====
-- Runs of the table of tasks and of the profiler of pkg/aitaskctl.
use crater_backend.Prelude.{
  ℕ, ◌+◌, ◌≡◌, ◌⊎◌, refl, true, Option, none, some, List, [], ◌∷◌, if◌then◌else◌, nat_eq, string_eq,
  list_eq, ◌==◌,
}
use crater_backend.Model.{AiTask}
use crater_backend.Model.Key.{key_func}
use crater_backend.Queue.{new, push_or_update}
use crater_backend.Queue.Valid.{IsValid, new-IsValid, push_or_update-IsValid}
use crater_backend.Queue.Remove.{Popped}
use crater_backend.TaskQueue.{QueueBase, fifo_ordering}
use crater_backend.TaskTable.{TaskTable, Access}
use crater_backend.TaskTable.Backed.{Cluster, Backed, on_table, Reach-on_table}
use crater_backend.Profiler.{Pod, running, Monitors, Profiler, run_tick}
use crater_backend.Profiler.Valid.{Answered, run_tick_total}
use crater_backend.Controller.{job_created, AccountTable, State, init}
use crater_backend.Controller.Schedule.{schedule}
use crater_backend.Controller.Valid.{IsController}
use crater_backend.Controller.Reach.{started, here, next, start}
use crater_backend.Tests.{whole, requests, alice, first_task, second_task}

abbrev rows : TaskTable
rows = (1, first_task) ∷ (2, second_task) ∷ []

abbrev up : Access
up = record { reads = true; writes = true }

abbrev cluster : Cluster ℕ
cluster = record {
  create_job = λ t w. (job_created "job", w + 1);
  delete_job = λ t w. (true, w + 1);
  node_of_task = λ t w. (some "node", w);
  submit_profile_task = λ id w. w + 1;
  delete_profile_pod = λ id w. w + 1;
  now = λ w. w;
  access = λ w. up;
}

abbrev owners : AccountTable ℕ (Backed ℕ)
owners = record {
  list_accounts = λ w. (some (alice ∷ []), w);
  find_account = λ user w. (if user == "alice" then some alice else none, w);
}

abbrev first_state : State ℕ (Backed ℕ)
first_state = started ⦃v = on_table cluster⦄ ⦃a = owners⦄ true (rows, 0)

abbrev running_state : State ℕ (Backed ℕ)
running_state = init ⦃v = on_table cluster⦄ ⦃a = owners⦄ first_state

Reach-on_table_example :
    IsController running_state
    × ((u : State ℕ (Backed ℕ)) × (schedule ⦃v = on_table cluster⦄ ⦃a = owners⦄ running_state
          ≡ some u)
        × IsController u)
Reach-on_table_example = Reach-on_table cluster owners true (rows, 0) (next here start)

abbrev pod : Pod
pod = record { name = "profile-1"; phase = running; start_time = 0 }

abbrev monitors : Monitors ℕ
monitors = record {
  get_by_id = λ id w. some first_task;
  update_profiling_stat = λ id profile stat status w. w + 1;
  create_pod = λ t w. (true, w + 1);
  delete_pod_of_task = λ t w. w + 1;
  delete_pod = λ p w. w + 1;
  list_pods = λ w. pod ∷ [];
  task_id_of = λ p. some 1;
  pod_profile = λ p w. some "{}";
  now = λ w. 900;
  hash = λ kind command. 7;
}

known : (pods : List Pod) (p : Profiler ℕ) → Answered monitors pods p
unfolding Answered
known [] p = tt
known (_ ∷ pods) p = ((λ e. known pods p), (λ id e. (first_task, refl, λ p' h. known pods p')))

abbrev waiting : QueueBase
waiting = push_or_update first_task (new key_func fifo_ordering)

waiting-IsValid : IsValid waiting
waiting-IsValid =
    push_or_update-IsValid first_task (new key_func fifo_ordering)
      (new-IsValid key_func fifo_ordering)

abbrev profiler : Profiler ℕ
profiler = record { task_queue = waiting; profiling_timeout = 100; profile_cache = []; world = 0 }

run_tick_total_example :
    (p' : Profiler ℕ) × (run_tick monitors profiler ≡ some p')
    × IsValid p'.task_queue
    × ((p'.task_queue ≡ waiting)
        ⊎ ((xs : List AiTask) × (o : Option AiTask) × Popped waiting xs (o, p'.task_queue)))
run_tick_total_example =
    run_tick_total monitors profiler waiting-IsValid
      (λ r h. known (monitors.list_pods r.1.world) r.1)
