-- ===== src/Tests/Quotas.antt =====
-- Runs of the resource lists and the accounts of pkg/aitaskctl.
use crater_backend.Prelude.{
  ℕ, ◌≡◌, ◌↔◌, refl, true, false, some, [], ◌∷◌, String, nat_eq, list_eq, string_eq,
}
use crater_backend.Prelude.Dict.{get, put}
use crater_backend.Resources.{
  ResourceList, over, add_resource_list, check_resource_list_exceed, any_over,
}
use crater_backend.Resources.Amounts.{both}
use crater_backend.Resources.Exceed.{check_resource_list_exceed_iff}
use crater_backend.Model.Key.{key_func, format_uint}
use crater_backend.Quota.{
  QuotaInfo, requested, json_to_resource_list, charge, add_task, delete_task,
  check_hard_quota_exceed, snapshot_check_hard_quota_exceed, snapshot_add_task,
}
use crater_backend.Quota.Balanced.{IsBalanced, add_task-IsBalanced, delete_task-IsBalanced}
use crater_backend.Quota.Limit.{SameBooks, delete_task-add_task}
use crater_backend.Controller.{new_quota_info}
use crater_backend.Controller.Valid.{new_quota_info-IsBalanced}
use crater_backend.Controller.Selection.{Spent, Fitting, charged, select_gauranteed_safe}
use crater_backend.Controller.Schedule.{select_gauranteed}
use crater_backend.Tests.{whole, requests, two_gpus, task, first_task, alice}

abbrev one_gpu : ResourceList ℕ
one_gpu = ("gpu", 1) ∷ []

check_resource_list_exceed_iff_example :
    (check_resource_list_exceed (("gpu", 3) ∷ []) one_gpu two_gpus ≡ false) ↔ (
      (k : String) (v : ℕ)
      → both (get k one_gpu) (get k two_gpus) ≡ some v
      → over (get k (("gpu", 3) ∷ [])) v ≡ false)
check_resource_list_exceed_iff_example =
    check_resource_list_exceed_iff (("gpu", 3) ∷ []) one_gpu two_gpus (refl, tt) (refl, tt)

abbrev account : QuotaInfo ℕ
account = new_quota_info alice

account-IsBalanced : IsBalanced account
account-IsBalanced = new_quota_info-IsBalanced alice

add_task-IsBalanced_example : IsBalanced (add_task first_task account)
add_task-IsBalanced_example = add_task-IsBalanced first_task account account-IsBalanced

delete_task-IsBalanced_example : IsBalanced (delete_task first_task (add_task first_task account))
delete_task-IsBalanced_example =
    delete_task-IsBalanced first_task (add_task first_task account)
      (add_task-IsBalanced first_task account account-IsBalanced)

passes : check_hard_quota_exceed first_task account ≡ false
unfolding check_hard_quota_exceed check_resource_list_exceed any_over add_resource_list requested
    json_to_resource_list get put
passes = refl

-- A third task of two GPUs does not fit beside the first.
exceeds : check_hard_quota_exceed (task 3 "alice" 1 "Queueing") (add_task first_task account) ≡ true
unfolding check_hard_quota_exceed check_resource_list_exceed any_over add_resource_list requested
    json_to_resource_list add_task charge get put key_func format_uint
exceeds = refl

delete_task-add_task_example :
    SameBooks account (delete_task first_task (add_task first_task account))
unfolding get
delete_task-add_task_example = delete_task-add_task first_task account refl

select_gauranteed_safe_example :
    Spent account (charged (first_task ∷ []) account)
    × Fitting (first_task ∷ task 3 "alice" 1 "Queueing" ∷ []) (first_task ∷ []) account
unfolding add_task select_gauranteed get snapshot_check_hard_quota_exceed check_resource_list_exceed
    add_resource_list requested put snapshot_add_task
select_gauranteed_safe_example =
    select_gauranteed_safe (first_task ∷ task 3 "alice" 1 "Queueing" ∷ []) account tt
