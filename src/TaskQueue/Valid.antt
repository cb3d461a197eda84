-- ===== src/TaskQueue/Valid.antt =====
-- The invariant of the map of user queues of pkg/aitaskctl/taskqueue.go.
use crater_backend.Prelude.{
  ◌≡◌, refl, some, List, String, ◌==◌, nat_eq, string_eq, list_eq, All, Distinct, Bool-cases,
  Option-cases, inl, inr, arith,
}
use crater_backend.Prelude.Dict.{get, put, keys, get-put, Distinct-put}
use crater_backend.Model.{AiTask}
use crater_backend.Model.Key.{Text}
use crater_backend.TaskQueue.{
  UserQueue, TaskQueue, init_user_queue, enqueue, dequeue, drop_id, requeue, at_user, add_task,
  delete_task, delete_task_by_user_name_and_task_id, update_task,
}
use crater_backend.TaskQueue.UserValid.{
  IsUserQueue, new-IsQueueOf, enqueue-IsUserQueue, requeue-IsUserQueue, dequeue-IsUserQueue,
  drop_id-IsUserQueue, init_tasks-IsUserQueue,
}

-- A map of user queues: it has each user once, as every Go map does, and each user's queues are
-- valid.
pub record IsTaskQueue (tq : TaskQueue) : Type 0 where
  pub users : Distinct (keys tq)
  pub each : (user : String) (q : UserQueue) → get user tq ≡ some q → IsUserQueue user q

put-IsTaskQueue :
    (user : String) (q : UserQueue) (tq : TaskQueue)
    → IsUserQueue user q
    → IsTaskQueue tq
    → IsTaskQueue (put user q tq)
put-IsTaskQueue user q tq v w = record {
  users = Distinct-put user q tq w.users;
  each = λ other r g. elim (Bool-cases (user == other)) [
    | inl e ↦
        let same : user ≡ other = (string_eq.beq_iff user other).0 e in
        let found : q ≡ r = ground (arith, get-put user other q tq) in rw (← same, ← found) v
    | inr e ↦ w.each other r (ground (arith, get-put user other q tq))
  ];
}

at_user-IsTaskQueue :
    (user : String) (change : UserQueue → UserQueue) (tq : TaskQueue)
    → ((q : UserQueue) → IsUserQueue user q → IsUserQueue user (change q))
    → IsTaskQueue tq
    → IsTaskQueue (at_user user change tq)
unfolding at_user
at_user-IsTaskQueue user change tq keep w = elim (Option-cases (get user tq)) [
  | inl e ↦ rw (e, at_user) w
  | inr (q, e) ↦ rw (e, at_user) (put-IsTaskQueue user (change q) tq (keep q (w.each user q e)) w)
]

module _ (tq : TaskQueue) (w : IsTaskQueue tq) where
  -- InitUserQueue keeps the user queues valid, if the tasks that it is given are the user's.
  pub init_user_queue-IsTaskQueue :
      (username : String) (tasks : List AiTask)
      → All (λ t. t.user_name ≡ username) tasks
      → IsTaskQueue (init_user_queue username tasks tq)
  unfolding init_user_queue
  init_user_queue-IsTaskQueue username tasks own =
      put-IsTaskQueue username _ tq
        (init_tasks-IsUserQueue tasks own
          (record { named = refl; gauranteed = new-IsQueueOf; best_effort = new-IsQueueOf }))
        w

  -- AddTask, DeleteTask, DeleteTaskByUserNameAndTaskID and UpdateTask keep the user queues valid,
  -- whatever the task's SLO is and whether its user has a queue or not.
  pub add_task-IsTaskQueue : (t : AiTask) → IsTaskQueue (add_task t tq)
  unfolding add_task
  add_task-IsTaskQueue t =
      at_user-IsTaskQueue t.user_name (enqueue t) tq (λ q. enqueue-IsUserQueue t refl) w

  pub delete_task-IsTaskQueue : (t : AiTask) → IsTaskQueue (delete_task t tq)
  unfolding delete_task
  delete_task-IsTaskQueue t =
      at_user-IsTaskQueue t.user_name (dequeue t) tq (λ q. dequeue-IsUserQueue t) w

  pub delete_by_id-IsTaskQueue :
      (username : String) (k : Text)
      → IsTaskQueue (delete_task_by_user_name_and_task_id username k tq)
  unfolding delete_task_by_user_name_and_task_id
  delete_by_id-IsTaskQueue username k =
      at_user-IsTaskQueue username (drop_id k) tq (λ q. drop_id-IsUserQueue k) w

  pub update_task-IsTaskQueue : (t : AiTask) → IsTaskQueue (update_task t tq)
  unfolding update_task
  update_task-IsTaskQueue t =
      at_user-IsTaskQueue t.user_name (requeue t) tq (λ q. requeue-IsUserQueue t refl) w
