-- ===== src/TaskTable.antt =====
-- pkg/aitaskctl/task.go: the rows of the tasks in the database, by their ids. gorm's soft deletion
-- takes a row out of every later query, and so out of this table; the column is_deleted is an own
-- mark of the program. Whether a query succeeds is an argument of each call. A time is a number of
-- nanoseconds, and the clock does not run backwards.
pub mod Rows
pub mod Backed
use crater_backend.Prelude.{
  ℕ, ◌-◌, ◌/◌, Bool, true, false, not, ◌&&◌, ◌||◌, Option, none, some, List, [], ◌∷◌, String,
  if◌then◌else◌, ◌==◌, nat_eq, string_eq, contains, ltb, length, take,
}
use crater_backend.Prelude.Dict.{Dict, get, put, remove, values}
use crater_backend.Model.{AiTask, profile_finish}

abbrev pub TaskTable : Type 0
TaskTable = Dict ℕ AiTask

-- Whether the reads and the writes of a call succeed.
pub record Access : Type 0 where
  pub reads : Bool
  pub writes : Bool

-- `First`, an error if there is no row.
unfoldable pub get_by_id : Access → ℕ → TaskTable → Option AiTask
get_by_id db id rows = if db.reads then get id rows else none

-- `Updates` under a condition on the id: no row is no error.
unfoldable pub change_row : Access → (AiTask → AiTask) → ℕ → TaskTable → Bool × TaskTable
change_row db f id rows =
    if db.writes
    then (true, elim (get id rows) [ none ↦ rows | some t ↦ put id (f t) rows ])
    else (false, rows)

-- Create, with the id that the database gives.
unfoldable pub create : Access → ℕ → AiTask → TaskTable → Bool × TaskTable
create db id t rows =
    if db.writes then (true, put id (record t { id = id }) rows) else (false, rows)

-- Save
unfoldable pub update : Access → AiTask → TaskTable → Bool × TaskTable
update db t rows = if db.writes then (true, put t.id t rows) else (false, rows)

abbrev pub seconds : ℕ → ℕ
seconds n = n / 1000000000

abbrev pub set_duration : ℕ → Option ℕ → AiTask → AiTask
set_duration now none t = t
set_duration now (some started) t = record t { duration = seconds (now - started) }

-- The times that UpdateStatus writes with a status, from the row that it has read.
unfoldable pub stamp : ℕ → String → AiTask → AiTask
stamp now status t =
    if status == "Created"
    then record t { admitted_at = some now }
    else if status == "Running"
    then record t { started_at = some now }
    else if status == "Succeeded" || status == "Failed"
    then record (set_duration now t.started_at t) {
      finish_at = some now;
      jct = seconds (now - t.created_at);
    }
    else t

-- `false` is an error.
unfoldable pub update_status : Access → ℕ → ℕ → String → String → TaskTable → Bool × TaskTable
unfolding get_by_id change_row stamp
update_status db now id status reason rows = elim (get_by_id db id rows) [
  | none ↦ (false, rows)
  | some t ↦
      if t.status == status
      then (true, rows)
      else change_row db
          (λ row. record (stamp now status row) { status = status; status_reason = reason }) id rows
]

unfoldable pub update_job_name : Access → ℕ → String → TaskTable → Bool × TaskTable
unfolding change_row
update_job_name db id name rows = change_row db (λ t. record t { job_name = name }) id rows

unfoldable pub update_node_name : Access → ℕ → String → TaskTable → Bool × TaskTable
unfolding change_row
update_node_name db id name rows = change_row db (λ t. record t { node = name }) id rows

-- The mark is set only if the row is the user's.
unfoldable pub delete_by_queue_and_id : Access → String → ℕ → TaskTable → Bool × TaskTable
unfolding change_row
delete_by_queue_and_id db user id rows =
    change_row db (λ t. if t.user_name == user then record t { is_deleted = true } else t) id rows

unfoldable pub force_delete_by_user_and_id : Access → String → ℕ → TaskTable → Bool × TaskTable
force_delete_by_user_and_id db user id rows =
    if db.writes
    then (
      true,
      elim (get id rows) [
        | none ↦ rows
        | some t ↦ if t.user_name == user then remove id rows else rows
      ],
    )
    else (false, rows)

unfoldable pub delete_by_id : Access → ℕ → TaskTable → Bool × TaskTable
delete_by_id db id rows = if db.writes then (true, remove id rows) else (false, rows)

-- The rows of a user: all of them if no status is given, or else those that have one of the
-- statuses and no mark.
unfoldable pub is_listed : String → List String → AiTask → Bool
is_listed user [] t = t.user_name == user
is_listed user (s ∷ statuses) t =
    t.user_name == user && (contains (s ∷ statuses) t.status && not t.is_deleted)

unfoldable pub listed_tasks : String → List String → List AiTask → List AiTask
unfolding is_listed
listed_tasks user statuses [] = []
listed_tasks user statuses (t ∷ ts) =
    let rest = listed_tasks user statuses ts in if is_listed user statuses t then t ∷ rest else rest

unfoldable pub list_by_user_and_statuses :
    Access → String → List String → TaskTable → Option (List AiTask)
unfolding listed_tasks
list_by_user_and_statuses db user statuses rows =
    if db.reads then some (listed_tasks user statuses (values rows)) else none

unfoldable pub get_by_queue_and_id : Access → String → ℕ → TaskTable → Option AiTask
unfolding get_by_id
get_by_queue_and_id db user id rows = elim (get_by_id db id rows) [
  | none ↦ none
  | some t ↦ if t.user_name == user then some t else none
]

-- The status is written only with the end of a profile, and only if it is not empty.
unfoldable pub update_profiling_stat :
    Access → ℕ → ℕ → String → String → TaskTable → Bool × TaskTable
unfolding change_row
update_profiling_stat db id profile stat status rows =
    change_row db
      (λ t.
        let marked = record t { profile_status = profile } in
        if profile == profile_finish
        then (let shown = record marked { profile_stat = stat } in
            if status == "" then shown else record shown { status = status })
        else marked)
      id rows

unfoldable pub update_token : Access → ℕ → String → TaskTable → Bool × TaskTable
unfolding change_row
update_token db id token rows = change_row db (λ t. record t { token = token }) id rows

unfoldable pub update_node_port : Access → ℕ → ℕ → TaskTable → Bool × TaskTable
unfolding change_row
update_node_port db id port rows = change_row db (λ t. record t { node_port = port }) id rows
