-- ===== src/Tests/Queues.antt =====
-- Runs of the queue of pkg/util/queue/queue.go and of the user queues of pkg/aitaskctl.
use crater_backend.Prelude.{
  ℕ, ◌≡◌, refl, Bool, some, inr, List, [], ◌∷◌, ltb, nat_eq, list_eq, string_eq, arith, ◌>>=◌,
}
use crater_backend.Prelude.Dict.{get, put}
use crater_backend.Queue.{
  Queue, new, push, push_or_update, delete_by_key, list, list_keys, reorder, sift, sort_from, less,
  swap, set_index,
}
use crater_backend.Queue.Valid.{IsValid, new-IsValid, push_or_update-IsValid}
use crater_backend.Queue.Entries.{list-delete_by_key}
use crater_backend.Queue.Listing.{without, find_key}
use crater_backend.Queue.Sorting.{IsWeakOrder, Sorted}
use crater_backend.Queue.Ranked.{reorder-Sorted}
use mathlib.Core.List.{Perm}
use crater_backend.TaskQueue.Valid.{IsTaskQueue, init_user_queue-IsTaskQueue}
use crater_backend.TaskQueue.{
  TaskQueue, new_task_queue, init_user_queue, UserQueue, new_user_queue, init_tasks, update_task,
}
use crater_backend.TaskQueue.Moves.{Stands, update_task-Stands}
use crater_backend.Model.{AiTask}
use crater_backend.Tests.{first_task, second_task}

abbrev key : ℕ × ℕ → ℕ
key x = x.0

abbrev older : ℕ × ℕ → ℕ × ℕ → Bool
older a b = ltb a.1 b.1

abbrev empty : Queue ℕ (ℕ × ℕ)
empty = new key older

abbrev two : Queue ℕ (ℕ × ℕ)
two = push_or_update (7, 30) (push_or_update (5, 40) empty)

two-IsValid : IsValid two
two-IsValid =
    push_or_update-IsValid (7, 30) (push_or_update (5, 40) empty)
      (push_or_update-IsValid (5, 40) empty (new-IsValid key older))

abbrev both : List (ℕ × ℕ)
both = (5, 40) ∷ (7, 30) ∷ []

listed : list two ≡ some both
unfolding list list_keys push_or_update push new get put
listed = refl

list-delete_by_key_example :
    ((delete_by_key 5 two).0 ≡ find_key two.key_func 5 both)
    × (list (delete_by_key 5 two).1 ≡ some (without two.key_func 5 both))
list-delete_by_key_example = list-delete_by_key two two-IsValid both listed 5

-- The order of creation decides after Reorder.
older-IsWeakOrder : IsWeakOrder older
older-IsWeakOrder = record {
  asymmetric = λ x y h. ground arith;
  transitive = λ x y z h g. ground arith;
}

reorder-Sorted_example :
    (r : Queue ℕ (ℕ × ℕ)) × (ys : List (ℕ × ℕ)) × (reorder two ≡ some r)
    × IsValid r
    × (r.key_func ≡ two.key_func)
    × (r.less_func ≡ two.less_func)
    × (list r ≡ some ys)
    × Sorted two.less_func ys
    × Perm ys both
unfolding push_or_update get new put
reorder-Sorted_example = reorder-Sorted two two-IsValid both listed older-IsWeakOrder

reordered : (reorder two >>= list) ≡ some ((7, 30) ∷ (5, 40) ∷ [])
unfolding reorder sort_from sift less swap set_index list list_keys push_or_update push new get put
reordered = refl

abbrev queues : TaskQueue
queues = init_user_queue "alice" (first_task ∷ second_task ∷ []) new_task_queue

queues-IsTaskQueue : IsTaskQueue queues
unfolding new_task_queue get
queues-IsTaskQueue =
    init_user_queue-IsTaskQueue new_task_queue
      (record { users = tt; each = λ user q g. absurd (ground arith) }) "alice"
      (first_task ∷ second_task ∷ []) (refl, (refl, tt))

abbrev alices : UserQueue
alices = init_tasks (first_task ∷ second_task ∷ []) (new_user_queue "alice")

has_alice : get "alice" queues ≡ some alices
unfolding init_user_queue new_task_queue get put
has_alice = refl

-- The guaranteed task becomes a best-effort one.
abbrev moved : AiTask
moved = record first_task { slo = 0 }

update_task-Stands_example :
    (after : UserQueue) × (get "alice" (update_task moved queues) ≡ some after) × Stands moved after
update_task-Stands_example = update_task-Stands queues queues-IsTaskQueue moved has_alice (inr refl)
