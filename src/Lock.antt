-- ===== src/Lock.antt =====
-- internal/handler/operations/lock.go: the lock of a job, which keeps the cleaner away from it. The
-- table of jobs is the part of the database that the handlers read and write; the bound request is
-- an argument, and so are the faults of the two queries of a handler. A time is an integer of
-- nanoseconds; the null that ClearLockTime writes reads as the zero time.
pub mod Locked
use crater_backend.Prelude.{
  ℕ, Bool, true, false, not, Option, none, some, List, [], ◌∷◌, String, if◌then◌else◌, ◌==◌,
  string_eq, suc, ◌*◌, ◌%◌, ◌^◌, ◌-◌, ltb,
}
use crater_backend.Prelude.Dict.{Dict, get, put}
use crater_backend.Prelude.Int.{ℤ, pos, ◌+ℤ◌, negsuc, ◌-ℤ◌, ltb_ℤ, eqb_ℤ}

-- The columns of model.Job that this code and the cleaner of pkg/cleaner read.
pub record Job : Type 0 where
  pub job_name : String
  pub job_type : String
  pub status : String
  pub creation_timestamp : ℤ
  pub running_timestamp : ℤ
  pub alert_enabled : Bool
  pub keep_when_low_resource_usage : Bool
  pub locked_timestamp : ℤ

abbrev pub JobTable : Type 0
JobTable = Dict String Job

-- SetLockTimeRequest
pub record SetLockTimeRequest : Type 0 where
  pub name : String
  pub is_permanent : Bool
  pub days : ℤ
  pub hours : ℤ
  pub minutes : ℤ

-- The error responses of the handlers.
pub data Failure : Type 0 where
  query_failed already_locked update_failed : Failure

-- Whether the reads and writes of the handler's queries succeed.
pub record Database : Type 0 where
  pub reads : Bool
  pub writes : Bool

abbrev pub find_job : Database → String → JobTable → Option Job
find_job db name jobs = if db.reads then get name jobs else none

-- `Update` of one column: a row that is not there is not an error.
abbrev pub change_job : (Job → Job) → String → JobTable → JobTable
change_job f name jobs = elim (get name jobs) [ none ↦ jobs | some j ↦ put name (f j) jobs ]

abbrev pub update_job : Database → (Job → Job) → String → JobTable → Option Failure × JobTable
update_job db f name jobs =
    if db.writes then (none, change_job f name jobs) else (some update_failed, jobs)

unfoldable pub set_keep_when_low_resource_usage :
    Database → String → JobTable → Option Failure × JobTable
set_keep_when_low_resource_usage db name jobs = elim (find_job db name jobs) [
  | none ↦ (some query_failed, jobs)
  | some j ↦
      update_job db
        (λ row. record row { keep_when_low_resource_usage = not j.keep_when_low_resource_usage })
        name jobs
]

-- Go's integer times a constant.
abbrev pub times : ℕ → ℤ → ℤ
times n (pos a) = pos (n * a)
times n (negsuc a) = pos 0 -ℤ pos (n * suc a)

abbrev pub minute : ℕ
minute = 60000000000

abbrev pub hour : ℕ
hour = 3600000000000

-- An integer taken to the 64 bits of int64, in which a time.Duration is computed.
unfoldable pub int64 : ℤ → ℤ
int64 (pos n) = let m = n % 2 ^ 64 in if ltb m (2 ^ 63) then pos m else negsuc (2 ^ 64 - 1 - m)
int64 (negsuc n) = let m = n % 2 ^ 64 in if ltb m (2 ^ 63) then negsuc m else pos (2 ^ 64 - 1 - m)

-- The duration that a request asks for. Wrapping once at the end is wrapping at each step.
unfoldable pub requested_duration : SetLockTimeRequest → ℤ
unfolding int64
requested_duration req =
    int64 ((times (24 * hour) req.days +ℤ times hour req.hours) +ℤ times minute req.minutes)

-- The time that AddLockTime writes.
unfoldable pub lock_time : ℤ → ℤ → SetLockTimeRequest → Job → ℤ
unfolding requested_duration
lock_time permanent now req j =
    let start = if ltb_ℤ now j.locked_timestamp then j.locked_timestamp else now in
    if req.is_permanent then permanent else start +ℤ requested_duration req

unfoldable pub add_lock_time :
    Database → ℤ → ℤ → SetLockTimeRequest → JobTable → Option Failure × JobTable
unfolding lock_time
add_lock_time db permanent now req jobs = elim (find_job db req.name jobs) [
  | none ↦ (some query_failed, jobs)
  | some j ↦
      if eqb_ℤ j.locked_timestamp permanent
      then (some already_locked, jobs)
      else update_job db (λ row. record row { locked_timestamp = lock_time permanent now req j })
          req.name jobs
]

-- The zero time, long before every time that the clock shows.
abbrev pub zero_time : ℤ
zero_time = negsuc 62135596799999999999

unfoldable pub clear_lock_time : Database → String → JobTable → Option Failure × JobTable
clear_lock_time db name jobs =
    update_job db (λ row. record row { locked_timestamp = zero_time }) name jobs

-- The query of getJobWhiteList, here and in pkg/cleaner/low_gpu_usage.go.
unfoldable pub locked_names : ℤ → JobTable → List String
locked_names now [] = []
locked_names now ((name, j) ∷ jobs) =
    let rest = locked_names now jobs in if ltb_ℤ now j.locked_timestamp then name ∷ rest else rest

unfoldable pub get_job_white_list : Database → ℤ → JobTable → Option (List String)
unfolding locked_names
get_job_white_list db now jobs = if db.reads then some (locked_names now jobs) else none
