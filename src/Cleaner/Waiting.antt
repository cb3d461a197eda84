-- ===== src/Cleaner/Waiting.antt =====
-- pkg/cleaner/waiting_jupyter.go: notebooks that wait for too long to be scheduled.
use crater_backend.Prelude.{
  Bool, true, false, not, ◌&&◌, Option, none, some, List, [], ◌∷◌, String, if◌then◌else◌, ◌==◌,
  string_eq,
}
use crater_backend.Prelude.Int.{ℤ, ◌-ℤ◌}
use crater_backend.Lock.{Job, times, minute}
use crater_backend.Cleaner.{PodCondition, Pod, Clients, each_job, delete_vcjob_in_cluster}

-- What the loop over a pod's conditions finds: `none` for the return of the caller.
unfoldable pub scheduled_by : List PodCondition → Option Bool
scheduled_by [] = some false
scheduled_by (c ∷ cs) =
    let rest = scheduled_by cs in
    if not (c.type == "PodScheduled")
    then rest
    else if c.status == "True"
    then some true
    else if c.status == "False"
    then none
    else rest

-- The loop over the pods.
unfoldable pub all_scheduled : List Pod → Bool → Bool
unfolding scheduled_by
all_scheduled [] result = result
all_scheduled (p ∷ ps) result = elim (scheduled_by p.conditions) [
  | none ↦ false
  | some this ↦ all_scheduled ps (result && this)
]

module _ {W : Type 0} (v : Clients W) where
  unfoldable pub is_job_scheduled : String → W → Bool
  unfolding all_scheduled
  is_job_scheduled name w = elim (v.pods_of_job name w) [
    | none ↦ false
    | some [] ↦ false
    | some (p ∷ ps) ↦ all_scheduled (p ∷ ps) true
  ]

  unfoldable pub delete_if_unscheduled : Job → W → Bool × W
  unfolding is_job_scheduled delete_vcjob_in_cluster
  delete_if_unscheduled j w =
      if is_job_scheduled j.job_name w then (false, w) else delete_vcjob_in_cluster v j w

  unfoldable pub delete_unscheduled_jupyter_jobs : ℤ → W → List String × W
  unfolding each_job delete_if_unscheduled
  delete_unscheduled_jupyter_jobs minutes w =
      elim (v.waiting_jupyter_jobs (v.now w -ℤ times minute minutes) w) [
        | none ↦ ([], w)
        | some jobs ↦ each_job delete_if_unscheduled jobs w
      ]

  -- The exported cleaner, with `none` for its error.
  unfoldable pub clean_waiting_jupyter_jobs : Option ℤ → W → Option (List String) × W
  unfolding delete_unscheduled_jupyter_jobs
  clean_waiting_jupyter_jobs none w = (none, w)
  clean_waiting_jupyter_jobs (some minutes) w =
      let (deleted, w') = delete_unscheduled_jupyter_jobs minutes w in (some deleted, w')
