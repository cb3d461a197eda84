-- ===== src/Tests/Jobs.antt =====
-- Runs of the conditions of pkg/util, the locks, the mails of pkg/alert and the cleaners of
-- pkg/cleaner.
use crater_backend.Prelude.{
  ◌+◌, ◌≤◌, ◌≡◌, refl, true, false, Option, none, some, List, [], ◌∷◌, String, nat_eq, string_eq,
  ◌==◌, contains, if◌then◌else◌, inr, arith,
}
use crater_backend.Prelude.Dict.{get}
use crater_backend.Prelude.Int.{pos}
use crater_backend.Conditions.{
  JobStatus, running_condition, succeeded_condition, is_failed, has_condition, holds, new_condition,
  update_job_conditions_and_status, set_condition, get_condition, replace_condition,
  filter_out_condition,
}
use crater_backend.Lock.{
  Job, JobTable, Database, SetLockTimeRequest, add_lock_time, requested_duration, int64,
  locked_names,
}
use crater_backend.Lock.Locked.{add_lock_time-white_list}
use crater_backend.Alert.{Faults, remind_low_usage_job}
use crater_backend.Alert.Once.{Call, notify, allow, allowed, run, empty_mailbox, sent_bound}
use crater_backend.Cleaner.{Clients, Pod}
use crater_backend.Cleaner.LongTime.{clean_long_time_jobs}
use crater_backend.Cleaner.Spared.{SparesOthers, long_time_spares}

abbrev running_status : JobStatus
running_status = record {
  phase = "Running";
  conditions = new_condition running_condition "JobRunning" "" 1 1 ∷ [];
}

-- After its success a job does not count as running.
not_running :
    has_condition running_condition (
      update_job_conditions_and_status "Succeeded" succeeded_condition "JobSucceeded" "" 3 3
        running_status)
    ≡ false
unfolding has_condition holds update_job_conditions_and_status set_condition is_failed get_condition
    replace_condition filter_out_condition
not_running = refl

abbrev long_job : Job
long_job = record {
  job_name = "long";
  job_type = "training";
  status = "Running";
  creation_timestamp = pos 0;
  running_timestamp = pos 10;
  alert_enabled = true;
  keep_when_low_resource_usage = false;
  locked_timestamp = pos 0;
}

abbrev jobs : JobTable
jobs = ("long", long_job) ∷ []

abbrev up : Database
up = record { reads = true; writes = true }

abbrev one_day : SetLockTimeRequest
one_day = record {
  name = "long";
  is_permanent = false;
  days = pos 1;
  hours = pos 0;
  minutes = pos 0;
}

add_lock_time-white_list_example :
    contains (locked_names (pos 100) (add_lock_time up (pos 9000) (pos 100) one_day jobs).1) "long"
    ≡ true
unfolding add_lock_time get requested_duration int64
add_lock_time-white_list_example =
    add_lock_time-white_list up (pos 9000) (pos 100) one_day jobs (refl, tt) refl refl
      (inr (refl, refl)) refl

abbrev fine : Faults
fine = record {
  initialized = true;
  job = some (record { creation_timestamp = pos 0; running_timestamp = pos 10 });
  reads = true;
  sends = true;
  writes = true;
  now = pos 20;
}

abbrev calls : List Call
calls = notify fine ∷ notify fine ∷ allow true true ∷ notify fine ∷ notify fine ∷ []

sent_bound_example : (run remind_low_usage_job calls empty_mailbox).sent ≤ 1 + allowed calls
sent_bound_example = sent_bound remind_low_usage_job calls (refl, (refl, (refl, (refl, tt))))

abbrev pod : Pod
pod = record {
  pod_name = "long-0";
  owner_references =
      record { kind = "Job"; api_version = "batch.volcano.sh/v1alpha1"; name = "long" } ∷ [];
  conditions = record { type = "PodScheduled"; status = "True" } ∷ [];
}

-- A cluster with one job, and the white list that the database returns.
-- The world of the cleaners: the names of the jobs in the cluster.
abbrev taken_out : String → List String → List String
taken_out name [] = []
taken_out name (n ∷ ns) = let rest = taken_out name ns in if n == name then rest else n ∷ rest

contains-taken_out :
    (j name : String) (ns : List String)
    → (j == name) ≡ false
    → contains (taken_out j ns) name ≡ contains ns name
contains-taken_out j name [] h = refl
contains-taken_out j name (n ∷ ns) h = ground (
  arith,
  contains-taken_out j name ns h,
  string_eq.beq_iff n j,
  string_eq.beq_iff j name,
  string_eq.beq_iff n name,
)

abbrev stray_job : Job
stray_job = record long_job { job_name = "stray" }

abbrev cluster : Option (List String) → Clients (List String)
cluster white_list = record {
  running_jobs = λ w. some (stray_job ∷ long_job ∷ []);
  waiting_jupyter_jobs = λ t w. some [];
  job_white_list = λ w. white_list;
  job_of = λ name w. if name == "long" then some long_job else none;
  gpu_pods = λ w. "long-0" ∷ [];
  get_pod = λ name w. some pod;
  pods_of_job = λ name w. some (pod ∷ []);
  least_used_gpu = λ name duration util w. pos 1;
  now = λ w. pos 1000000;
  get_vcjob = λ name w. contains w name;
  delete_vcjob = λ name w. (true, taken_out name w);
  clean_job_mail = λ name w. (true, w);
  delete_job_mail = λ name w. (true, w);
  remind_long_time_mail = λ name w. (true, w);
  remind_low_usage_mail = λ name w. (true, w);
  allow_repeat = λ name w. (true, w);
}

abbrev locking : Clients (List String)
locking = cluster (some ("long" ∷ []))

abbrev there : List String
there = "stray" ∷ "long" ∷ []

sparing : SparesOthers locking
sparing = record {
  delete_other = λ j name w h. contains-taken_out j name w h;
  clean_mail = λ j name w. refl;
  remind_mail = λ j name w. refl;
}

long_time_spares_example :
    (contains (clean_long_time_jobs locking (pos 500) (pos 300) (pos 100) there).0.0 "long" ≡ false)
    × (contains (clean_long_time_jobs locking (pos 500) (pos 300) (pos 100) there).0.1 "long"
        ≡ false)
    × (locking.get_vcjob "long" (clean_long_time_jobs locking (pos 500) (pos 300) (pos 100) there).1
        ≡ true)
long_time_spares_example =
    long_time_spares locking sparing (pos 500) (pos 300) (pos 100) there "long" refl refl
