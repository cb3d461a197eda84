-- ===== src/Reconciler.antt =====
-- Reconcile of pkg/reconciler/vcjob-reconciler.go: the row of one Volcano job in the database follows
-- the job in the cluster. What the call reads from the cluster, from Prometheus and of the events is an
-- argument, and so is whether its query and its write succeed. A phase is a text; a time of 0 is Go's
-- zero time, which gorm does not write.
pub mod Settled
use crater_backend.Prelude.{
  ℕ, Bool, true, false, not, ◌&&◌, ◌||◌, Option, none, some, List, [], ◌∷◌, ◌++◌, String,
  if◌then◌else◌, ◌==◌, nat_eq, string_eq, is_some, is_none, contains,
}
use crater_backend.Alert.{Mail, job_running, job_failure, job_complete}

abbrev pub running : String
running = "Running"

abbrev pub completed : String
completed = "Completed"

abbrev pub failed : String
failed = "Failed"

abbrev pub aborted : String
aborted = "Aborted"

abbrev pub terminated : String
terminated = "Terminated"

-- The two statuses that dao/model/job.go adds to the phases of Volcano.
abbrev pub deleted : String
deleted = "Deleted"

abbrev pub freed : String
freed = "Freed"

-- The columns of model.Job that Reconcile writes, and alert_enabled. The data that is collected is
-- the text that is stored.
pub record JobRow : Type 0 where
  pub status : String
  pub running_timestamp : ℕ
  pub completed_timestamp : ℕ
  pub nodes : List String
  pub alert_enabled : Bool
  pub profile_data : Option String
  pub schedule_data : Option String
  pub events : Option String
  pub terminated_states : Option String

-- A condition of the job in the cluster.
pub record JobCondition : Type 0 where
  pub status : String
  pub last_transition_time : ℕ

-- The job in the cluster. `running_nodes` are the nodes of its pods that run; `pulled` holds for the
-- first of the new events whose reason is Pulled and whose message can be parsed what it says.
pub record VcJob : Type 0 where
  pub phase : String
  pub conditions : List JobCondition
  pub running_nodes : List String
  pub new_events : Option String
  pub pulled : Option String
  pub new_terminated_states : Option String

pub data Fetched : Type 0 where
  fetch_failed absent : Fetched
  present : VcJob → Fetched

-- What a call meets. `new_row` is what generateCreateJobModel makes of the job, none for its errors.
pub record Surroundings : Type 0 where
  pub reads : Bool
  pub writes : Bool
  pub now : ℕ
  pub profile : Option String
  pub new_row : Option JobRow

-- The outcome: whether the request is queued again, the mails asked for, and the row.
abbrev pub Reconciled : Type 0
Reconciled = Bool × List Mail × Option JobRow

unfoldable pub is_terminal : String → Bool
is_terminal s =
    s == deleted
    || (s == freed || (s == failed || (s == completed || (s == aborted || s == terminated))))

-- The JSON text of a profile, which may be nil.
abbrev pub profile_text : Option String → String
profile_text none = "null"
profile_text (some s) = s

-- The branch for a job that is gone from the cluster, on its row.
unfoldable pub job_gone : Surroundings → JobRow → Bool × JobRow
unfolding is_terminal
job_gone env row =
    let profiled = record row { profile_data = some (profile_text env.profile) } in
    if is_terminal row.status
    then (if is_none row.profile_data
        then (if env.writes then (false, profiled) else (true, row))
        else (false, row))
    else if env.writes
    then (false, record profiled { status = freed; completed_timestamp = env.now })
    else (true, row)

-- One mail of the block on a change of the phase.
abbrev pub on_change : String → Mail → VcJob → JobRow → List Mail
on_change phase mail job row =
    if job.phase == phase && not (row.status == phase) then mail ∷ [] else []

unfoldable pub change_mails : VcJob → JobRow → List Mail
change_mails job row =
    if row.alert_enabled
    then on_change running job_running job row
      ++ (on_change failed job_failure job row ++ on_change completed job_complete job row)
    else []

-- The loop over the conditions: the last running time and the last time of an end.
unfoldable pub timestamps : List JobCondition → ℕ × ℕ → ℕ × ℕ
timestamps [] t = t
timestamps (c ∷ cs) (started, ended) =
    let ends =
      c.status == completed
      || (c.status == failed || (c.status == aborted || c.status == terminated)) in
    timestamps cs (
      if c.status == running
      then (c.last_transition_time, ended)
      else if ends
      then (started, c.last_transition_time)
      else (started, ended))

abbrev pub unless_zero : ℕ → ℕ → ℕ
unless_zero new old = if new == 0 then old else new

abbrev pub or_kept : Option String → Option String → Option String
or_kept none old = old
or_kept (some s) old = some s

-- `Updates` with the status and the times, which each of the models has.
unfoldable pub write_status : VcJob → JobRow → JobRow
unfolding timestamps
write_status job row =
    let (started, ended) = timestamps job.conditions (0, 0) in
    record row {
      status = if job.phase == "" then row.status else job.phase;
      running_timestamp = unless_zero started row.running_timestamp;
      completed_timestamp = unless_zero ended row.completed_timestamp;
    }

-- The data that is collected of a job that runs on no node, once it has ended.
unfoldable pub collect_ended : Surroundings → VcJob → JobRow → JobRow → JobRow
collect_ended env job old row =
    let profiled =
      if is_none old.profile_data
      then record row { profile_data = or_kept env.profile row.profile_data }
      else row in
    if job.phase == failed
    then record profiled {
      events = or_kept job.new_events row.events;
      terminated_states = or_kept job.new_terminated_states row.terminated_states;
    }
    else profiled

-- generateUpdateJobModel and the write of its model.
unfoldable pub update_row : Surroundings → VcJob → JobRow → JobRow
unfolding write_status collect_ended
update_row env job old =
    let row = write_status job old in
    elim job.running_nodes [
      | [] ↦
          if (timestamps job.conditions (0, 0)).1 == 0 then row else collect_ended env job old row
      | node ∷ rest ↦
          let placed = record row { nodes = node ∷ rest } in
          if job.phase == running
          then record placed {
            schedule_data = or_kept job.pulled row.schedule_data;
            events = or_kept job.new_events row.events;
          }
          else placed
    ]

-- Reconcile after a fetch that found the job, with what its query for the row found.
unfoldable pub job_present : Surroundings → VcJob → Option JobRow → Reconciled
unfolding change_mails update_row
job_present env job none = elim env.new_row [
  | none ↦ (false, [], none)
  | some row ↦ if env.writes then (false, [], some row) else (true, [], none)
]
job_present env job (some row) =
    if env.writes
    then (false, change_mails job row, some (update_row env job row))
    else (true, change_mails job row, some row)

unfoldable pub reconcile_gone : Surroundings → Option JobRow → Reconciled
unfolding job_gone
reconcile_gone env none = (false, [], none)
reconcile_gone env (some row) = let (again, after) = job_gone env row in (again, [], some after)

unfoldable pub reconcile : Surroundings → Fetched → Option JobRow → Reconciled
unfolding job_present reconcile_gone
reconcile env fetch_failed row = (false, [], row)
reconcile env absent row = if env.reads then reconcile_gone env row else (true, [], row)
reconcile env (present job) row = if env.reads then job_present env job row else (true, [], row)
