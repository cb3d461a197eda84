-- ===== src/Tests/Reconcilers.antt =====
-- Runs of the reconciler of Volcano jobs, pkg/reconciler.
use crater_backend.Prelude.{◌≡◌, refl, true, false, none, some, [], ◌∷◌, if◌then◌else◌, string_eq}
use crater_backend.Alert.{job_failure}
use crater_backend.Reconciler.{
  JobRow, VcJob, present, absent, Surroundings, is_terminal, reconcile, freed, running, failed,
}
use crater_backend.Reconciler.Settled.{IsSettled, reconcile_settles}

abbrev reached : Surroundings
reached = record { reads = true; writes = true; now = 50; profile = some "profile"; new_row = none }

abbrev running_row : JobRow
running_row = record {
  status = running;
  running_timestamp = 10;
  completed_timestamp = 0;
  nodes = "node" ∷ [];
  alert_enabled = true;
  profile_data = none;
  schedule_data = none;
  events = none;
  terminated_states = none;
}

abbrev failed_job : VcJob
failed_job = record {
  phase = failed;
  conditions =
      record { status = running; last_transition_time = 10 }
      ∷ record { status = failed; last_transition_time = 40 }
      ∷ [];
  running_nodes = [];
  new_events = some "events";
  pulled = none;
  new_terminated_states = some "exit 1";
}

failed_row : (reconcile reached (present failed_job) (some running_row)) ≡ (
  false,
  job_failure ∷ [],
  some (record {
    status = failed;
    running_timestamp = 10;
    completed_timestamp = 40;
    nodes = "node" ∷ [];
    alert_enabled = true;
    profile_data = some "profile";
    schedule_data = none;
    events = some "events";
    terminated_states = some "exit 1";
  }),
)
unfolding reconcile
failed_row = refl

reconcile_settles_example :
    (after : JobRow) × (reconcile reached absent (some running_row) ≡ (false, [], some after))
    × IsSettled after
    × (after.status ≡ (if is_terminal running then running else freed))
    × (after.completed_timestamp ≡ (if is_terminal running then 0 else 50))
    × (reconcile reached absent (some after) ≡ (false, [], some after))
reconcile_settles_example = reconcile_settles reached reached running_row refl refl refl
