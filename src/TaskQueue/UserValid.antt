-- ===== src/TaskQueue/UserValid.antt =====
-- The invariant of one user's queues of pkg/aitaskctl/userqueue.go: each is valid, and holds only tasks of
-- the user and its SLO.
use crater_backend.Prelude.{
  ℕ, ◌≡◌, refl, ◌∙◌, List, [], ◌∷◌, String, ◌==◌, nat_eq, string_eq, list_eq, All, Bool-cases, inl,
  inr, arith,
}
use crater_backend.Queue.{new, push_or_update, push_if_not_present, delete, delete_by_key}
use crater_backend.Queue.Valid.{
  IsValid, new-IsValid, push_or_update-IsValid, push_if_not_present-IsValid, delete_by_key-IsValid,
}
use crater_backend.Queue.Holds.{
  Holds, new-Holds, push_or_update-Holds, push_if_not_present-Holds, delete_by_key-Holds,
  key_func-push_or_update, key_func-push_if_not_present, key_func-delete_by_key,
}
use crater_backend.Model.{AiTask, high_slo, low_slo}
use crater_backend.Model.Key.{Text, key_func}
use crater_backend.TaskQueue.{
  QueueBase, UserQueue, fifo_ordering, init_task, init_tasks, enqueue, dequeue, drop_id, requeue,
}

-- A queue for one user's tasks of one SLO.
pub record IsQueueOf (user : String) (s : ℕ) (q : QueueBase) : Type 0 where
  pub valid : IsValid q
  pub key : q.key_func ≡ key_func
  pub own : Holds (λ t. (t.user_name ≡ user) × (t.slo ≡ s)) q

pub record IsUserQueue (user : String) (q : UserQueue) : Type 0 where
  pub named : q.username ≡ user
  pub gauranteed : IsQueueOf user high_slo q.gauranteed_queue
  pub best_effort : IsQueueOf user low_slo q.best_effort_queue

module _ {user : String} {s : ℕ} where
  pub new-IsQueueOf : IsQueueOf user s (new key_func fifo_ordering)
  unfolding new
  new-IsQueueOf = record {
    valid = unfold new in new-IsValid key_func fifo_ordering;
    key = refl;
    own = new-Holds _ key_func fifo_ordering;
  }

  pub push_or_update-IsQueueOf :
      (t : AiTask) {q : QueueBase}
      → t.user_name ≡ user
      → t.slo ≡ s
      → IsQueueOf user s q
      → IsQueueOf user s (push_or_update t q)
  push_or_update-IsQueueOf t {q} u e v = record {
    valid = push_or_update-IsValid t q v.valid;
    key = key_func-push_or_update t q ∙ v.key;
    own = push_or_update-Holds _ t q (u, e) v.own;
  }

  pub push_if_not_present-IsQueueOf :
      (t : AiTask) {q : QueueBase}
      → t.user_name ≡ user
      → t.slo ≡ s
      → IsQueueOf user s q
      → IsQueueOf user s (push_if_not_present t q).1
  push_if_not_present-IsQueueOf t {q} u e v = record {
    valid = push_if_not_present-IsValid t q v.valid;
    key = key_func-push_if_not_present t q ∙ v.key;
    own = push_if_not_present-Holds _ t q (u, e) v.own;
  }

  pub delete_by_key-IsQueueOf :
      (k : Text) {q : QueueBase} → IsQueueOf user s q → IsQueueOf user s (delete_by_key k q).1
  delete_by_key-IsQueueOf k {q} v = record {
    valid = delete_by_key-IsValid k q v.valid;
    key = key_func-delete_by_key k q ∙ v.key;
    own = delete_by_key-Holds _ k q v.own;
  }

  pub delete-IsQueueOf :
      (t : AiTask) {q : QueueBase} → IsQueueOf user s q → IsQueueOf user s (delete t q).1
  unfolding delete
  delete-IsQueueOf t {q} v = delete_by_key-IsQueueOf (q.key_func t) v

module _ {user : String} (t : AiTask) {q : UserQueue} (own : t.user_name ≡ user)
    (v : IsUserQueue user q) where
  pub enqueue-IsUserQueue : IsUserQueue user (enqueue t q)
  unfolding enqueue
  enqueue-IsUserQueue = elim (Bool-cases (t.slo == high_slo)) [
    | inl e ↦ rw e (record {
      named = v.named;
      gauranteed = push_or_update-IsQueueOf t own (ground arith) v.gauranteed;
      best_effort = v.best_effort;
    })
    | inr e ↦ rw e (elim (Bool-cases (t.slo == low_slo)) [
      | inl f ↦ rw f (record {
        named = v.named;
        gauranteed = v.gauranteed;
        best_effort = push_or_update-IsQueueOf t own (ground arith) v.best_effort;
      })
      | inr f ↦ rw f v
    ])
  ]

  pub requeue-IsUserQueue : IsUserQueue user (requeue t q)
  unfolding requeue
  requeue-IsUserQueue = elim (Bool-cases (t.slo == high_slo)) [
    | inl e ↦ rw e (record {
      named = v.named;
      gauranteed = push_or_update-IsQueueOf t own (ground arith) v.gauranteed;
      best_effort = delete-IsQueueOf t v.best_effort;
    })
    | inr e ↦ rw e (elim (Bool-cases (t.slo == low_slo)) [
      | inl f ↦ rw f (record {
        named = v.named;
        gauranteed = delete-IsQueueOf t v.gauranteed;
        best_effort = push_or_update-IsQueueOf t own (ground arith) v.best_effort;
      })
      | inr f ↦ rw f v
    ])
  ]

  pub init_task-IsUserQueue : IsUserQueue user (init_task t q)
  unfolding init_task
  init_task-IsUserQueue = elim (Bool-cases (t.slo == high_slo)) [
    | inl e ↦ rw e (record {
      named = v.named;
      gauranteed = push_if_not_present-IsQueueOf t own (ground arith) v.gauranteed;
      best_effort = v.best_effort;
    })
    | inr e ↦ rw e (elim (Bool-cases (t.slo == low_slo)) [
      | inl f ↦ rw f (record {
        named = v.named;
        gauranteed = v.gauranteed;
        best_effort = push_if_not_present-IsQueueOf t own (ground arith) v.best_effort;
      })
      | inr f ↦ rw f v
    ])
  ]

module _ {user : String} where
  pub dequeue-IsUserQueue :
      (t : AiTask) {q : UserQueue} → IsUserQueue user q → IsUserQueue user (dequeue t q)
  unfolding dequeue
  dequeue-IsUserQueue t v = elim (Bool-cases (t.slo == high_slo)) [
    | inl e ↦ rw e (record {
      named = v.named;
      gauranteed = delete-IsQueueOf t v.gauranteed;
      best_effort = v.best_effort;
    })
    | inr e ↦ rw e (elim (Bool-cases (t.slo == low_slo)) [
      | inl f ↦ rw f (record {
        named = v.named;
        gauranteed = v.gauranteed;
        best_effort = delete-IsQueueOf t v.best_effort;
      })
      | inr f ↦ rw f v
    ])
  ]

  pub drop_id-IsUserQueue :
      (k : Text) {q : UserQueue} → IsUserQueue user q → IsUserQueue user (drop_id k q)
  unfolding drop_id
  drop_id-IsUserQueue k v = record {
    named = v.named;
    gauranteed = delete_by_key-IsQueueOf k v.gauranteed;
    best_effort = delete_by_key-IsQueueOf k v.best_effort;
  }

  pub init_tasks-IsUserQueue :
      (ts : List AiTask) {q : UserQueue}
      → All (λ t. t.user_name ≡ user) ts
      → IsUserQueue user q
      → IsUserQueue user (init_tasks ts q)
  unfolding init_tasks
  init_tasks-IsUserQueue [] own v = v
  init_tasks-IsUserQueue (t ∷ ts) own v =
      init_tasks-IsUserQueue ts own.1 (init_task-IsUserQueue t own.0 v)
