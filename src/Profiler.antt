-- ===== src/Profiler.antt =====
-- pkg/aitaskctl/profiler.go: tasks that wait for a profile, the cache of the profiles that were made,
-- and the loop that starts and watches the profiling pods. `none` is a panic: of Top on the queue, and
-- of a read through the nil task of a pod whose task the database does not return.
pub mod Valid
use crater_backend.Prelude.{
  ℕ, Bool, true, false, not, ◌&&◌, ◌||◌, Option, none, some, List, [], ◌∷◌, String, if◌then◌else◌,
  ◌==◌, ◌>>=◌, nat_eq, string_eq, list_eq, ltb, ◌-◌,
}
use crater_backend.Prelude.Dict.{Dict, get, put}
use crater_backend.Model.{
  AiTask, un_profiled, profile_queued, profiling, profile_finish, profile_failed, failed_status,
  succeeded_status,
}
use crater_backend.Model.Key.{Text, key_func}
use crater_backend.Queue.{Queue, new, len, top, delete, push_if_not_present}
use crater_backend.TaskQueue.{QueueBase, fifo_ordering}

-- The phases of a pod that the loop tells apart, and any other text.
pub data Phase : Type 0 where
  pending running succeeded failed unknown other : Phase

pub record Pod : Type 0 where
  pub name : String
  pub phase : Phase
  pub start_time : ℕ

-- What the profiler calls: DBService, ProfilingPodControl and Prometheus. `hash` is the FNV hash of a
-- task's type and command; a profile is the JSON text of what Prometheus measured.
pub record Monitors (W : Type 0) : Type 0 where
  pub get_by_id : ℕ → W → Option AiTask
  pub update_profiling_stat : ℕ → ℕ → String → String → W → W
  pub create_pod : AiTask → W → Bool × W
  pub delete_pod_of_task : AiTask → W → W
  pub delete_pod : Pod → W → W
  pub list_pods : W → List Pod
  pub task_id_of : Pod → Option ℕ
  pub pod_profile : Pod → W → Option String
  pub now : W → ℕ
  pub hash : String → String → ℕ

pub record Profiler (W : Type 0) : Type 0 where
  pub task_queue : QueueBase
  pub profiling_timeout : ℕ
  pub profile_cache : Dict ℕ String
  pub world : W

unfoldable pub new_profiler : {W : Type 0} → ℕ → W → Profiler W
unfolding new
new_profiler timeout w = record {
  task_queue = new key_func fifo_ordering;
  profiling_timeout = timeout;
  profile_cache = [];
  world = w;
}

module _ {W : Type 0} (v : Monitors W) where
  unfoldable pub check_and_get_cache : AiTask → Profiler W → Option String
  check_and_get_cache t p = get (v.hash t.task_type t.command) p.profile_cache

  unfoldable pub store_profile_cache : AiTask → String → Profiler W → Profiler W
  store_profile_cache t profile p = record p {
    profile_cache = put (v.hash t.task_type t.command) profile p.profile_cache;
  }

  -- A write to the database or the cluster; the caller logs an error and goes on.
  abbrev pub does : (W → W) → Profiler W → Profiler W
  does f p = record p { world = f p.world }

  unfoldable pub submit_profile_task : ℕ → Profiler W → Profiler W
  unfolding check_and_get_cache
  submit_profile_task id p = elim (v.get_by_id id p.world) [
    | none ↦ p
    | some t ↦ elim (check_and_get_cache t p) [
      | some profile ↦ does (v.update_profiling_stat t.id profile_finish profile "") p
      | none ↦
          if t.profile_status == un_profiled
          then record (does (v.update_profiling_stat t.id profile_queued "" "") p) {
            task_queue = (push_if_not_present t p.task_queue).1;
          }
          else p
    ]
  ]

  unfoldable pub delete_profile_pod_from_task : ℕ → Profiler W → Profiler W
  delete_profile_pod_from_task id p = elim (v.get_by_id id p.world) [
    | none ↦ p
    | some t ↦ record (does (v.delete_pod_of_task t) p) { task_queue = (delete t p.task_queue).1 }
  ]

  -- The first half of a tick, for the task that Top returned, with the queue that it left.
  unfoldable pub start_profiling : AiTask → QueueBase → Profiler W → Profiler W
  start_profiling t q p =
      let (created, w) = v.create_pod t p.world in
      record p {
        task_queue = (delete t q).1;
        world =
            v.update_profiling_stat t.id (if created then profiling else profile_failed) "" "" w;
      }

  -- Whether the tick goes on to the second half, which it does not after a nil of Top.
  unfoldable pub start_next : Profiler W → Option (Bool × Profiler W)
  unfolding start_profiling
  start_next p =
      if ltb 0 (len p.task_queue)
      then (top p.task_queue >>= λ (found, q). elim found [
        | none ↦ some (false, record p { task_queue = q })
        | some t ↦ some (true, start_profiling t q p)
      ])
      else some (true, p)

  -- The status of the job that a pod's end gives.
  abbrev pub job_status : Phase → String
  job_status failed = failed_status
  job_status succeeded = succeeded_status
  job_status _ = ""

  -- The end of a round of the second half: the profile is read, stored and cached, and the pod
  -- deleted.
  unfoldable pub finish_pod : ℕ → Option AiTask → Pod → Profiler W → Option (Profiler W)
  unfolding store_profile_cache
  finish_pod id task pod p = elim (v.pod_profile pod p.world) [
    | none ↦ some (
        does (v.delete_pod pod)
          (does (v.update_profiling_stat id profile_failed "" (job_status pod.phase)) p))
    | some profile ↦ task >>= λ t.
        let p' =
          does (v.update_profiling_stat id profile_finish profile (job_status pod.phase)) p in
        some (does (v.delete_pod pod) (store_profile_cache t profile p'))
  ]

  -- A round of the second half for a pod with its task.
  unfoldable pub poll_pod : ℕ → Option AiTask → Pod → Profiler W → Option (Profiler W)
  unfolding check_and_get_cache finish_pod
  poll_pod id task pod p = elim pod.phase [
    | pending ↦ task >>= λ t. elim (check_and_get_cache t p) [
      | none ↦ some p
      | some profile ↦ some (
          does (v.delete_pod pod) (does (v.update_profiling_stat t.id profile_finish profile "") p))
    ]
    | running ↦
        if ltb (v.now p.world - pod.start_time) p.profiling_timeout
        then some p
        else finish_pod id task pod p
    | unknown ↦ some (does (v.delete_pod pod) p)
    | succeeded ↦ finish_pod id task pod p
    | failed ↦ finish_pod id task pod p
    | other ↦ finish_pod id task pod p
  ]

  unfoldable pub poll_pods : List Pod → Profiler W → Option (Profiler W)
  unfolding poll_pod
  poll_pods [] p = some p
  poll_pods (pod ∷ pods) p = elim (v.task_id_of pod) [
    | none ↦ poll_pods pods p
    | some id ↦ poll_pod id (v.get_by_id id p.world) pod p >>= poll_pods pods
  ]

  -- One tick of run.
  unfoldable pub run_tick : Profiler W → Option (Profiler W)
  unfolding start_next poll_pods
  run_tick p =
      start_next p >>= λ (on, p'). if on then poll_pods (v.list_pods p'.world) p' else some p'
