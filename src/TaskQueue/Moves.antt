-- ===== src/TaskQueue/Moves.antt =====
-- Where the methods of pkg/aitaskctl/taskqueue.go leave a task: in which of its user's queues it is
-- found by its key.
use crater_backend.Prelude.{
  ◌≡◌, ◌⊎◌, refl, ap, ◌∙◌, true, false, none, some, String, if◌then◌else◌, ◌==◌, nat_eq, string_eq,
  list_eq, Eq, ==_refl, Bool-cases, Option-cases, inl, inr, arith,
}
use crater_backend.Prelude.Dict.{get, get-put, get-put_self, get-remove}
use crater_backend.Queue.{Queue, push, push_or_update, delete, delete_by_key, get_by_key}
use crater_backend.Model.{AiTask, high_slo, low_slo}
use crater_backend.Model.Key.{Text, key_func}
use crater_backend.TaskQueue.{
  UserQueue, TaskQueue, requeue, drop_id, at_user, update_task,
  delete_task_by_user_name_and_task_id,
}
use crater_backend.TaskQueue.Valid.{IsTaskQueue}

module _ {ℓ κ} {K : Type κ} {A : Type ℓ} ⦃e : Eq K⦄ where
  get_by_key-push_or_update :
      (x : A) (q : Queue K A) → get_by_key (q.key_func x) (push_or_update x q) ≡ some x
  unfolding get_by_key push_or_update push
  get_by_key-push_or_update x q = elim (Option-cases (get (q.key_func x) q.items)) [
    | inl h ↦ rw (h, push_or_update, get-put_self (q.key_func x) _ q.items) refl
    | inr (it, h) ↦ rw (h, push_or_update, get-put_self (q.key_func x) _ q.items) refl
  ]

  get_by_key-delete_by_key :
      (k j : K) (q : Queue K A)
      → get_by_key j (delete_by_key k q).1 ≡ (if k == j then none else get_by_key j q)
  unfolding get_by_key delete_by_key
  get_by_key-delete_by_key k j q = elim (Option-cases (get k q.items)) [
    | inl h ↦
        rw (h, delete_by_key)
          (elim (Bool-cases (k == j)) [
            | inl f ↦ let same : k ≡ j = (e.beq_iff k j).0 f in rw (f, ← same, h) refl
            | inr f ↦ rw f refl
          ])
    | inr (it, h) ↦
        rw (h, delete_by_key, get-remove k j q.items)
          (elim (Bool-cases (k == j)) [ inl f ↦ rw f refl | inr f ↦ rw f refl ])
  ]

  get_by_key-delete : (x : A) (q : Queue K A) → get_by_key (q.key_func x) (delete x q).1 ≡ none
  unfolding delete
  get_by_key-delete x q =
      get_by_key-delete_by_key (q.key_func x) (q.key_func x) q ∙ rw (==_refl (q.key_func x)) refl

-- What the key of a task finds in the queues of a user: the task in the queue of its service level,
-- and nothing in the other.
abbrev pub Stands : AiTask → UserQueue → Type 0
Stands t q =
    (get_by_key (key_func t) q.gauranteed_queue ≡ (if t.slo == high_slo then some t else none))
    × (get_by_key (key_func t) q.best_effort_queue ≡ (if t.slo == low_slo then some t else none))

requeue-Stands :
    (t : AiTask) (q : UserQueue)
    → q.gauranteed_queue.key_func ≡ key_func
    → q.best_effort_queue.key_func ≡ key_func
    → ((t.slo ≡ high_slo) ⊎ (t.slo ≡ low_slo))
    → Stands t (requeue t q)
unfolding requeue
requeue-Stands t q g b (inl h) =
    let own = ap (λ key. key t) g in
    let other = ap (λ key. key t) b in
    let high : (t.slo == high_slo) ≡ true = ground arith in
    let low : (t.slo == low_slo) ≡ false = ground arith in
    rw (high, low)
      (
        rw own at (get_by_key-push_or_update t q.gauranteed_queue),
        rw other at (get_by_key-delete t q.best_effort_queue),
      )
requeue-Stands t q g b (inr h) =
    let own = ap (λ key. key t) b in
    let other = ap (λ key. key t) g in
    let high : (t.slo == high_slo) ≡ false = ground arith in
    let low : (t.slo == low_slo) ≡ true = ground arith in
    rw (high, low)
      (
        rw other at (get_by_key-delete t q.gauranteed_queue),
        rw own at (get_by_key-push_or_update t q.best_effort_queue),
      )

get-at_user :
    (user : String) (change : UserQueue → UserQueue) (tq : TaskQueue) {q : UserQueue}
    → get user tq ≡ some q
    → get user (at_user user change tq) ≡ some (change q)
unfolding at_user
get-at_user user change tq {q} h = rw (h, at_user) (get-put_self user (change q) tq)

module _ (tq : TaskQueue) (w : IsTaskQueue tq) where
  -- If the user of a task has queues and the task is guaranteed or best-effort, then after UpdateTask
  -- its key finds the task as it is now in the queue of its service level, and nothing in the other:
  -- a task whose level was changed does not stay behind in its old queue.
  pub update_task-Stands :
      (t : AiTask) {q : UserQueue}
      → get t.user_name tq ≡ some q
      → ((t.slo ≡ high_slo) ⊎ (t.slo ≡ low_slo))
      → (after : UserQueue) × (get t.user_name (update_task t tq) ≡ some after) × Stands t after
  unfolding update_task
  update_task-Stands t {q} h level =
      let v = w.each t.user_name q h in
      (
        requeue t q,
        get-at_user t.user_name (requeue t) tq h,
        requeue-Stands t q v.gauranteed.key v.best_effort.key level,
      )

-- After DeleteTaskByUserNameAndTaskID the id finds nothing in either queue of the user, every other
-- id finds what it found, and so does every id in the queues of another user.
pub delete_by_id-gone :
    (tq : TaskQueue) (user : String) (id : Text) {q : UserQueue}
    → get user tq ≡ some q
    → ((after : UserQueue) × (get user (delete_task_by_user_name_and_task_id user id tq)
          ≡ some after)
        × ((j : Text)
            → (get_by_key j after.gauranteed_queue
                ≡ (if id == j then none else get_by_key j q.gauranteed_queue))
              × (get_by_key j after.best_effort_queue
                  ≡ (if id == j then none else get_by_key j q.best_effort_queue))))
      × ((other : String)
          → (user == other) ≡ false
          → get other (delete_task_by_user_name_and_task_id user id tq) ≡ get other tq)
unfolding delete_task_by_user_name_and_task_id drop_id at_user
delete_by_id-gone tq user id {q} h = (
  (
    drop_id id q,
    get-at_user user (drop_id id) tq h,
    λ j. (
      get_by_key-delete_by_key id j q.gauranteed_queue,
      get_by_key-delete_by_key id j q.best_effort_queue,
    ),
  ),
  λ other f. rw (h, at_user) (get-put user other (drop_id id q) tq ∙ rw f refl),
)
