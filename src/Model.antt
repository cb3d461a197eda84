-- ===== src/Model.antt =====
-- dao/model/emias.go: the tasks that the controller schedules, and the decimal texts of their ids,
-- which name them in queues and in job labels. A text is the list of its bytes where the program
-- parses it, a String where it is only compared, and a time is a number of nanoseconds.
pub mod Key
pub mod Roles
use crater_backend.Prelude.{ℕ, Bool, String, List, [], ◌∷◌, Option}

-- The columns that the modelled code reads or writes; ID and CreatedAt come with gorm.Model.
pub record AiTask : Type 0 where
  pub id : ℕ
  pub created_at : ℕ
  pub task_name : String
  pub user_name : String
  pub task_type : String
  pub started_at : Option ℕ
  pub admitted_at : Option ℕ
  pub finish_at : Option ℕ
  pub duration : ℕ
  pub jct : ℕ
  pub resource_request : String
  pub command : String
  pub slo : ℕ
  pub status : String
  pub status_reason : String
  pub job_name : String
  pub is_deleted : Bool
  pub profile_status : ℕ
  pub profile_stat : String
  pub token : String
  pub node_port : ℕ
  pub node : String

abbrev pub high_slo : ℕ
high_slo = 1

abbrev pub low_slo : ℕ
low_slo = 0

abbrev pub queueing_status : String
queueing_status = "Queueing"

abbrev pub created_status : String
created_status = "Created"

abbrev pub pending_status : String
pending_status = "Pending"

abbrev pub running_status : String
running_status = "Running"

abbrev pub failed_status : String
failed_status = "Failed"

abbrev pub succeeded_status : String
succeeded_status = "Succeeded"

abbrev pub preempted_status : String
preempted_status = "Preempted"

abbrev pub freed_status : String
freed_status = "Freed"

abbrev pub un_profiled : ℕ
un_profiled = 0

abbrev pub profile_queued : ℕ
profile_queued = 1

abbrev pub profiling : ℕ
profiling = 2

abbrev pub profile_finish : ℕ
profile_finish = 3

abbrev pub profile_failed : ℕ
profile_failed = 4

abbrev pub profile_skipped : ℕ
profile_skipped = 5

abbrev pub occupied_quota_statuses : List String
occupied_quota_statuses = created_status ∷ pending_status ∷ running_status ∷ preempted_status ∷ []

abbrev pub queueing_statuses : List String
queueing_statuses = queueing_status ∷ []
