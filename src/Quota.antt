-- ===== src/Quota.antt =====
-- pkg/aitaskctl/quota.go: what an account may use, what its admitted tasks use, and which tasks
-- these are. Each method holds the mutex of its QuotaInfo, so it is one step here.
pub mod Totals
pub mod Ledger
pub mod Balanced
pub mod Limit
use crater_backend.Prelude.{
  ℕ, ◌≡◌, Bool, true, false, not, Option, none, some, List, [], ◌∷◌, String, if◌then◌else◌, ◌==◌,
  nat_eq, string_eq, list_eq, Distinct,
}
use crater_backend.Prelude.Dict.{Dict, get, put, remove, keys}
use crater_backend.Resources.{
  Quantity, ResourceList, add_resource_list, sub_resource_list, cmp_resource_list_same,
  check_resource_list_exceed,
}
use crater_backend.Model.{AiTask, high_slo, low_slo}
use crater_backend.Model.Key.{Text, key_func}

-- json.Unmarshal into a resource list, `none` for its errors. A Go map has each key once.
pub record Decoder (Q : Type 0) : Type 0 where
  pub decode : String → Option (ResourceList Q)
  pub decode_distinct : (s : String) {r : ResourceList Q} → decode s ≡ some r → Distinct (keys r)

module _ {Q : Type 0} ⦃d : Decoder Q⦄ where
  -- JSONToResourceList of dao/model/util.go
  unfoldable pub json_to_resource_list : String → Option (ResourceList Q)
  json_to_resource_list s = if s == "" then some [] else d.decode s

  abbrev pub or_empty : Option (ResourceList Q) → ResourceList Q
  or_empty none = []
  or_empty (some r) = r

  -- The callers drop the error, with which the list is nil.
  unfoldable pub requested : AiTask → ResourceList Q
  unfolding json_to_resource_list
  requested t = or_empty (json_to_resource_list t.resource_request)

pub record QuotaInfo (Q : Type 0) : Type 0 where
  pub name : String
  pub hard : ResourceList Q
  pub soft : ResourceList Q
  pub hard_used : ResourceList Q
  pub soft_used : ResourceList Q
  pub used_tasks : Dict Text AiTask

-- QuotaInfoSnapshot has the same fields, without the mutex.
abbrev pub QuotaInfoSnapshot : Type 0 → Type 0
QuotaInfoSnapshot Q = QuotaInfo Q

-- The copy starts with no used tasks.
unfoldable pub snapshot : {Q : Type 0} → QuotaInfo Q → QuotaInfoSnapshot Q
snapshot info = record info { used_tasks = [] }

-- The step of UpdateQuotaInfoHard on the QuotaInfo that it finds.
unfoldable pub update_hard :
    {Q : Type 0} ⦃n : Quantity Q⦄ → ResourceList Q → QuotaInfo Q → QuotaInfo Q
update_hard hard info =
    if not (cmp_resource_list_same info.hard hard) then record info { hard = hard } else info

module _ {Q : Type 0} ⦃n : Quantity Q⦄ ⦃d : Decoder Q⦄ where
  -- The switch of AddTask on the task's SLO.
  unfoldable pub charge : AiTask → QuotaInfo Q → QuotaInfo Q
  charge t info =
      if t.slo == high_slo
      then record info { hard_used = add_resource_list info.hard_used (requested t) }
      else if t.slo == low_slo
      then record info { soft_used = add_resource_list info.soft_used (requested t) }
      else info

  unfoldable pub add_task : AiTask → QuotaInfo Q → QuotaInfo Q
  unfolding charge
  add_task t info = elim (get (key_func t) info.used_tasks) [
    | some _ ↦ info
    | none ↦ charge t (record info { used_tasks = put (key_func t) t info.used_tasks })
  ]

  -- The switch of DeleteTask, on the task that was stored.
  unfoldable pub discharge : AiTask → QuotaInfo Q → QuotaInfo Q
  discharge t info =
      if t.slo == high_slo
      then record info { hard_used = sub_resource_list info.hard_used (requested t) }
      else if t.slo == low_slo
      then record info { soft_used = sub_resource_list info.soft_used (requested t) }
      else info

  unfoldable pub delete_task : AiTask → QuotaInfo Q → QuotaInfo Q
  unfolding discharge
  delete_task t info = elim (get (key_func t) info.used_tasks) [
    | none ↦ info
    | some stored ↦
        discharge stored (record info { used_tasks = remove (key_func t) info.used_tasks })
  ]

  unfoldable pub check_hard_quota_exceed : AiTask → QuotaInfo Q → Bool
  check_hard_quota_exceed t info =
      if t.slo == low_slo
      then false
      else check_resource_list_exceed info.hard info.hard_used (requested t)

  -- The methods of the snapshot have the bodies of those of QuotaInfo, without the mutex.
  unfoldable pub snapshot_add_task : AiTask → QuotaInfoSnapshot Q → QuotaInfoSnapshot Q
  unfolding add_task
  snapshot_add_task t info = add_task t info

  unfoldable pub snapshot_check_hard_quota_exceed : AiTask → QuotaInfoSnapshot Q → Bool
  unfolding check_hard_quota_exceed
  snapshot_check_hard_quota_exceed t info = check_hard_quota_exceed t info
