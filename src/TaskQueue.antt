-- ===== src/TaskQueue.antt =====
-- pkg/aitaskctl/userqueue.go and pkg/aitaskctl/taskqueue.go: for each user a queue of guaranteed
-- tasks and one of best-effort tasks. Each method of TaskQueue holds its mutex and is one step here.
-- The tasks are fetched from the database for the call, so a queue shares none with other state.
pub mod UserValid
pub mod Valid
pub mod Moves
use crater_backend.Prelude.{
  ℕ, Bool, Option, none, some, List, [], ◌∷◌, String, if◌then◌else◌, ltb, ◌==◌, nat_eq, string_eq,
  list_eq,
}
use crater_backend.Prelude.Dict.{Dict, get, put}
use crater_backend.Queue.{Queue, new, push_or_update, push_if_not_present, delete, delete_by_key}
use crater_backend.Model.{AiTask, high_slo, low_slo}
use crater_backend.Model.Key.{Text, key_func}

-- queueBase
abbrev pub QueueBase : Type 0
QueueBase = Queue Text AiTask

pub record UserQueue : Type 0 where
  pub username : String
  pub gauranteed_queue : QueueBase
  pub best_effort_queue : QueueBase

-- `tA.CreatedAt.After(tB.CreatedAt)`
unfoldable pub fifo_ordering : AiTask → AiTask → Bool
fifo_ordering a b = ltb b.created_at a.created_at

unfoldable pub new_user_queue : String → UserQueue
unfolding new
new_user_queue username = record {
  username = username;
  gauranteed_queue = new key_func fifo_ordering;
  best_effort_queue = new key_func fifo_ordering;
}

-- The map `userQueues`.
abbrev pub TaskQueue : Type 0
TaskQueue = Dict String UserQueue

unfoldable pub new_task_queue : TaskQueue
new_task_queue = []

-- One round of the loop of InitUserQueue.
unfoldable pub init_task : AiTask → UserQueue → UserQueue
init_task t q =
    if t.slo == high_slo
    then record q { gauranteed_queue = (push_if_not_present t q.gauranteed_queue).1 }
    else if t.slo == low_slo
    then record q { best_effort_queue = (push_if_not_present t q.best_effort_queue).1 }
    else q

unfoldable pub init_tasks : List AiTask → UserQueue → UserQueue
unfolding init_task
init_tasks [] q = q
init_tasks (t ∷ ts) q = init_tasks ts (init_task t q)

unfoldable pub init_user_queue : String → List AiTask → TaskQueue → TaskQueue
unfolding init_tasks new_user_queue
init_user_queue username tasks tq = put username (init_tasks tasks (new_user_queue username)) tq

-- The switch of AddTask.
unfoldable pub enqueue : AiTask → UserQueue → UserQueue
enqueue t q =
    if t.slo == high_slo
    then record q { gauranteed_queue = push_or_update t q.gauranteed_queue }
    else if t.slo == low_slo
    then record q { best_effort_queue = push_or_update t q.best_effort_queue }
    else q

-- The switch of DeleteTask.
unfoldable pub dequeue : AiTask → UserQueue → UserQueue
dequeue t q =
    if t.slo == high_slo
    then record q { gauranteed_queue = (delete t q.gauranteed_queue).1 }
    else if t.slo == low_slo
    then record q { best_effort_queue = (delete t q.best_effort_queue).1 }
    else q

-- The two deletions of DeleteTaskByUserNameAndTaskID.
unfoldable pub drop_id : Text → UserQueue → UserQueue
drop_id id q = record q {
  gauranteed_queue = (delete_by_key id q.gauranteed_queue).1;
  best_effort_queue = (delete_by_key id q.best_effort_queue).1;
}

-- The switch of UpdateTask.
unfoldable pub requeue : AiTask → UserQueue → UserQueue
requeue t q =
    if t.slo == high_slo
    then record q {
      gauranteed_queue = push_or_update t q.gauranteed_queue;
      best_effort_queue = (delete t q.best_effort_queue).1;
    }
    else if t.slo == low_slo
    then record q {
      best_effort_queue = push_or_update t q.best_effort_queue;
      gauranteed_queue = (delete t q.gauranteed_queue).1;
    }
    else q

-- The methods do nothing for a user that has no queue.
unfoldable pub at_user : String → (UserQueue → UserQueue) → TaskQueue → TaskQueue
at_user user change tq = elim (get user tq) [ none ↦ tq | some q ↦ put user (change q) tq ]

unfoldable pub add_task : AiTask → TaskQueue → TaskQueue
unfolding at_user enqueue
add_task t = at_user t.user_name (enqueue t)

unfoldable pub delete_task : AiTask → TaskQueue → TaskQueue
unfolding at_user dequeue
delete_task t = at_user t.user_name (dequeue t)

unfoldable pub delete_task_by_user_name_and_task_id : String → Text → TaskQueue → TaskQueue
unfolding at_user drop_id
delete_task_by_user_name_and_task_id username id = at_user username (drop_id id)

unfoldable pub update_task : AiTask → TaskQueue → TaskQueue
unfolding at_user requeue
update_task t = at_user t.user_name (requeue t)
