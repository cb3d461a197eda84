-- ===== src/Cleaner.antt =====
-- pkg/cleaner: the jobs that the periodic cleaners remind and delete. Each cleaner reads the database
-- and the cluster through `Clients`, whose calls may change the world and may fail.
pub mod LongTime
pub mod LowUsage
pub mod Waiting
pub mod Classes
pub mod Spared
use crater_backend.Prelude.{
  ℕ, Bool, true, false, not, Option, none, some, List, [], ◌∷◌, ◌++◌, String, if◌then◌else◌, ◌==◌,
  string_eq, contains,
}
use crater_backend.Prelude.Int.{ℤ}
use crater_backend.Lock.{Job}

-- An owner reference of a pod.
pub record Owner : Type 0 where
  pub kind : String
  pub api_version : String
  pub name : String

-- A condition of a pod.
pub record PodCondition : Type 0 where
  pub type : String
  pub status : String

pub record Pod : Type 0 where
  pub pod_name : String
  pub owner_references : List Owner
  pub conditions : List PodCondition

-- What the cleaners call: gorm, the clients of the cluster and of Prometheus, and the alert manager.
-- The query for low usage answers with a number that is positive for a pod below the limit.
pub record Clients (W : Type 0) : Type 0 where
  pub running_jobs : W → Option (List Job)
  pub waiting_jupyter_jobs : ℤ → W → Option (List Job)
  pub job_white_list : W → Option (List String)
  pub job_of : String → W → Option Job
  pub gpu_pods : W → List String
  pub get_pod : String → W → Option Pod
  pub pods_of_job : String → W → Option (List Pod)
  pub least_used_gpu : String → ℤ → ℤ → W → ℤ
  pub now : W → ℤ
  pub get_vcjob : String → W → Bool
  pub delete_vcjob : String → W → Bool × W
  pub clean_job_mail : String → W → Bool × W
  pub delete_job_mail : String → W → Bool × W
  pub remind_long_time_mail : String → W → Bool × W
  pub remind_low_usage_mail : String → W → Bool × W
  pub allow_repeat : String → W → Bool × W

abbrev pub job_names : List Job → List String
job_names [] = []
job_names (j ∷ js) = j.job_name ∷ job_names js

-- The loop that drops the jobs whose name a map holds.
unfoldable pub not_among : List String → List Job → List Job
not_among names [] = []
not_among names (j ∷ js) =
    let rest = not_among names js in if contains names j.job_name then rest else j ∷ rest

-- The loops that treat one job after the other and list those where this went well.
unfoldable pub each_job : {W : Type 0} → (Job → W → Bool × W) → List Job → W → List String × W
each_job f [] w = ([], w)
each_job f (j ∷ js) w =
    let (done, w') = f j w in
    let (names, w'') = each_job f js w' in (if done then j.job_name ∷ names else names, w'')

-- deleteVCjobInCluster
unfoldable pub delete_vcjob_in_cluster : {W : Type 0} → Clients W → Job → W → Bool × W
delete_vcjob_in_cluster v j w =
    if v.get_vcjob j.job_name w then v.delete_vcjob j.job_name w else (false, w)
