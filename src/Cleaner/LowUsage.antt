-- ===== src/Cleaner/LowUsage.antt =====
-- pkg/cleaner/low_gpu_usage.go: jobs that hardly use the GPUs that they hold.
use crater_backend.Prelude.{
  Bool, true, false, ◌&&◌, ◌||◌, Option, none, some, List, [], ◌∷◌, String, if◌then◌else◌, ◌==◌,
  string_eq, contains,
}
use crater_backend.Prelude.Int.{ℤ, pos, ◌+ℤ◌, leb_ℤ}
use crater_backend.Lock.{Job}
use crater_backend.Cleaner.{Pod, Clients, job_names, not_among, each_job, delete_vcjob_in_cluster}

-- CleanLowGPUUsageRequest
pub record LowUsageRequest : Type 0 where
  pub time_range : ℤ
  pub wait_time : ℤ
  pub util : ℤ

abbrev pub vcjob_kind : String
vcjob_kind = "Job"

abbrev pub vcjob_api_version : String
vcjob_api_version = "batch.volcano.sh/v1alpha1"

-- The owner of a pod, if it is a job of Volcano.
unfoldable pub vcjob_owner : Pod → Option String
vcjob_owner p = elim p.owner_references [
  | [] ↦ none
  | owner ∷ _ ↦
      if owner.kind == vcjob_kind && owner.api_version == vcjob_api_version
      then some owner.name
      else none
]

-- An error of the query leaves no job.
abbrev pub or_no_jobs : Option (List Job) → List Job
or_no_jobs none = []
or_no_jobs (some js) = js

module _ {W : Type 0} (v : Clients W) where
  -- The loop of getLowGPUUsagePods.
  unfoldable pub low_pods : ℤ → ℤ → List String → W → List Pod
  low_pods duration util [] w = []
  low_pods duration util (name ∷ names) w =
      let rest = low_pods duration util names w in
      elim (v.get_pod name w) [
        | none ↦ rest
        | some p ↦ if leb_ℤ (v.least_used_gpu name duration util w) (pos 0) then rest else p ∷ rest
      ]

  -- The loop of getLowGPUUsageVCjobs.
  unfoldable pub jobs_of_pods : List String → List Pod → W → List Job
  unfolding vcjob_owner
  jobs_of_pods white_list [] w = []
  jobs_of_pods white_list (p ∷ ps) w =
      let rest = jobs_of_pods white_list ps w in
      elim (vcjob_owner p) [
        | none ↦ rest
        | some name ↦
            if contains white_list name
            then rest
            else elim (v.job_of name w) [ none ↦ rest | some j ↦ j ∷ rest ]
      ]

  -- Without the white list no job is returned.
  unfoldable pub get_low_gpu_usage_vcjobs : ℤ → ℤ → W → List Job
  unfolding low_pods jobs_of_pods
  get_low_gpu_usage_vcjobs duration util w = elim (v.job_white_list w) [
    | none ↦ []
    | some white_list ↦ jobs_of_pods white_list (low_pods duration util (v.gpu_pods w) w) w
  ]

  -- The jobs to delete, to remind, and the rest of those that run.
  unfoldable pub classify_low_gpu_usage_jobs : ℤ → ℤ → ℤ → W → List Job × List Job × List Job
  unfolding get_low_gpu_usage_vcjobs not_among
  classify_low_gpu_usage_jobs range wait util w =
      let deletion = get_low_gpu_usage_vcjobs (range +ℤ wait) util w in
      let reminding = not_among (job_names deletion) (get_low_gpu_usage_vcjobs range util w) in
      (
        deletion,
        reminding,
        not_among (job_names reminding)
            (not_among (job_names deletion) (or_no_jobs (v.running_jobs w))),
      )

  -- The mail may fail.
  unfoldable pub free_low_gpu_usage_vcjob : Job → W → Bool × W
  unfolding delete_vcjob_in_cluster
  free_low_gpu_usage_vcjob j w =
      let (deleted, w') = delete_vcjob_in_cluster v j w in
      if deleted
      then (if j.alert_enabled then (true, (v.delete_job_mail j.job_name w').1) else (true, w'))
      else (false, w')

  unfoldable pub remind_low_gpu_usage_vcjob : Job → W → Bool × W
  remind_low_gpu_usage_vcjob j w =
      if j.alert_enabled then v.remind_low_usage_mail j.job_name w else (true, w)

  -- The names reminded and deleted.
  unfoldable pub clean_low_gpu_usage : ℤ → ℤ → ℤ → W → (List String × List String) × W
  unfolding classify_low_gpu_usage_jobs each_job free_low_gpu_usage_vcjob remind_low_gpu_usage_vcjob
  clean_low_gpu_usage range wait util w =
      let (deletion, reminding, normal) = classify_low_gpu_usage_jobs range wait util w in
      let (deleted, w') = each_job free_low_gpu_usage_vcjob deletion w in
      let (reminded, w'') = each_job remind_low_gpu_usage_vcjob reminding w' in
      let (allowed, last) = each_job (λ j u. v.allow_repeat j.job_name u) normal w'' in
      ((reminded, deleted), last)

  -- The exported cleaner, with `none` for its errors.
  unfoldable pub clean_low_gpu_usage_jobs :
      Option LowUsageRequest → W → Option (List String × List String) × W
  unfolding clean_low_gpu_usage
  clean_low_gpu_usage_jobs none w = (none, w)
  clean_low_gpu_usage_jobs (some req) w =
      if leb_ℤ req.time_range (pos 0) || leb_ℤ req.wait_time (pos 0)
      then (none, w)
      else (let (names, w') = clean_low_gpu_usage req.time_range req.wait_time req.util w in
          (some names, w'))
