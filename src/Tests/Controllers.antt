-- ===== src/Tests/Controllers.antt =====
-- Runs of the task controller of pkg/aitaskctl.
use crater_backend.Prelude.{
  ℕ, ◌≡◌, ◌⊎◌, refl, true, false, some, [], ◌∷◌, String, nat_eq, list_eq, string_eq, ◌==◌,
}
use crater_backend.Prelude.Dict.{get}
use crater_backend.Resources.Exceed.{Within}
use crater_backend.Quota.{QuotaInfo}
use crater_backend.Controller.{State, init, new_quota_info}
use crater_backend.Controller.Admit.{admit_task}
use crater_backend.Controller.Schedule.{schedule}
use crater_backend.Controller.Handlers.{create, task_updated}
use crater_backend.Controller.Valid.{IsController, new_quota_info-IsBalanced}
use crater_backend.Controller.Admission.{Outcome, admit_task-Outcome, admit_task_safe}
use crater_backend.Controller.Reach.{
  started, Reach, here, next, start, updated, Reach-IsController, Reach-schedule,
}
use crater_backend.Tests.{whole, requests, services, services-ListsOwn, accounts, alice, first_task}

abbrev fresh : State ℕ ℕ
fresh = started true 0

abbrev running : State ℕ ℕ
running =
    task_updated (record { task_id = 3; user_name = "alice"; operation = create }) (init fresh)

reached : Reach fresh running
reached =
    next (next here start)
      (updated (record { task_id = 3; user_name = "alice"; operation = create }))

Reach-IsController_example : IsController running
Reach-IsController_example = Reach-IsController services-ListsOwn true 0 reached

Reach-schedule_example : (u : State ℕ ℕ) × (schedule running ≡ some u) × IsController u
Reach-schedule_example = Reach-schedule services-ListsOwn true 0 reached

abbrev account : QuotaInfo ℕ
account = new_quota_info alice

abbrev one_account : State ℕ ℕ
one_account = record {
  ctl = record { task_queue = []; quota_infos = ("alice", account) ∷ []; has_profiler = false };
  world = 0;
}

known : get first_task.user_name one_account.ctl.quota_infos ≡ some account
unfolding get
known = refl

admit_task-Outcome_example :
    Outcome first_task account one_account (admit_task first_task one_account)
admit_task-Outcome_example = admit_task-Outcome first_task one_account known

admit_task_safe_example :
    ((after : QuotaInfo ℕ) × (get first_task.user_name
          (admit_task first_task one_account).1.ctl.quota_infos
        ≡ some after)
      × ((after.hard_used ≡ account.hard_used) ⊎ Within after.hard after.hard_used))
    × ((user : String)
        → (first_task.user_name == user) ≡ false
        → get user (admit_task first_task one_account).1.ctl.quota_infos
          ≡ get user one_account.ctl.quota_infos)
admit_task_safe_example =
    admit_task_safe first_task one_account known (new_quota_info-IsBalanced alice)
