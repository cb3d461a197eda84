-- ===== src/Cleaner/LongTime.antt =====
-- pkg/cleaner/long_time_running.go: jobs that run for too long. A duration is an integer of
-- nanoseconds.
use crater_backend.Prelude.{
  Bool, true, false, ◌||◌, Option, none, some, List, [], ◌∷◌, String, if◌then◌else◌, ◌==◌,
  string_eq, contains,
}
use crater_backend.Prelude.Int.{ℤ, pos, ◌-ℤ◌, ltb_ℤ}
use crater_backend.Lock.{Job, times, int64}
use crater_backend.Cleaner.{Clients, job_names, not_among, each_job, delete_vcjob_in_cluster}

-- The days of CleanLongTimeRunningJobsRequest, nil where they are not given.
pub record LongTimeRequest : Type 0 where
  pub batch_days : Option ℤ
  pub interactive_days : Option ℤ

abbrev pub day : ℤ
day = pos 86400000000000

abbrev pub days_or : ℤ → Option ℤ → ℤ
unfolding int64
days_or default none = default
days_or default (some n) = int64 (times 86400000000000 n)

abbrev pub jupyter_type : String
jupyter_type = "jupyter"

abbrev pub web_ide_type : String
web_ide_type = "webide"

-- The check of getLongTimeVCjobs on the age of a job.
unfoldable pub too_old : ℤ → ℤ → ℤ → Job → Bool
too_old batch interactive now j =
    let age = now -ℤ j.running_timestamp in
    if j.job_type == jupyter_type || j.job_type == web_ide_type
    then ltb_ℤ interactive age
    else ltb_ℤ batch age

unfoldable pub old_jobs : ℤ → ℤ → ℤ → List String → List Job → List Job
unfolding too_old
old_jobs batch interactive now white_list [] = []
old_jobs batch interactive now white_list (j ∷ js) =
    let rest = old_jobs batch interactive now white_list js in
    if contains white_list j.job_name
    then rest
    else if too_old batch interactive now j
    then j ∷ rest
    else rest

module _ {W : Type 0} (v : Clients W) where
  -- Without the white list no job is returned.
  unfoldable pub get_long_time_vcjobs : ℤ → ℤ → W → List Job
  unfolding old_jobs
  get_long_time_vcjobs batch interactive w = elim (v.running_jobs w) [
    | none ↦ []
    | some running ↦ elim (v.job_white_list w) [
      | none ↦ []
      | some white_list ↦ old_jobs batch interactive (v.now w) white_list running
    ]
  ]

  -- The jobs to delete and the jobs to remind.
  unfoldable pub classify_long_time_jobs : ℤ → ℤ → ℤ → W → List Job × List Job
  unfolding get_long_time_vcjobs not_among
  classify_long_time_jobs batch interactive remind w =
      let deletion = get_long_time_vcjobs batch interactive w in
      let to_remind = get_long_time_vcjobs (batch -ℤ remind) (interactive -ℤ remind) w in
      (deletion, not_among (job_names deletion) to_remind)

  unfoldable pub free_long_time_vcjob : Job → W → Bool × W
  unfolding delete_vcjob_in_cluster
  free_long_time_vcjob j w =
      let (deleted, w') = delete_vcjob_in_cluster v j w in
      if deleted
      then (if j.alert_enabled then v.clean_job_mail j.job_name w' else (true, w'))
      else (false, w')

  unfoldable pub remind_long_time_vcjob : Job → W → Bool × W
  remind_long_time_vcjob j w =
      if j.alert_enabled then v.remind_long_time_mail j.job_name w else (true, w)

  -- The names reminded and deleted.
  unfoldable pub clean_long_time_jobs : ℤ → ℤ → ℤ → W → (List String × List String) × W
  unfolding classify_long_time_jobs each_job free_long_time_vcjob remind_long_time_vcjob
  clean_long_time_jobs batch interactive remind w =
      let (deletion, reminding) = classify_long_time_jobs batch interactive remind w in
      let (deleted, w') = each_job free_long_time_vcjob deletion w in
      let (reminded, w'') = each_job remind_long_time_vcjob reminding w' in
      ((reminded, deleted), w'')

  -- The exported cleaner, with `none` for its error.
  unfoldable pub clean_long_time_running_jobs :
      Option LongTimeRequest → W → Option (List String × List String) × W
  unfolding clean_long_time_jobs
  clean_long_time_running_jobs none w = (none, w)
  clean_long_time_running_jobs (some req) w =
      let batch = days_or (pos 345600000000000) req.batch_days in
      let (names, w') = clean_long_time_jobs batch (days_or day req.interactive_days) day w in
      (some names, w')
