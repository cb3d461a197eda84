-- ===== src/Controller/Selection.antt =====
-- Which candidates schedule of pkg/aitaskctl/controller.go takes, and in which order it admits them.
use crater_backend.Prelude.{
  ◌≡◌, ◌⊎◌, ◌≤◌, refl, ◌∙◌, subst, true, false, List, [], ◌∷◌, ltb, ◌==◌, nat_eq, string_eq,
  list_eq, Distinct, Option-cases, Bool-cases, inl, inr, arith,
}
use crater_backend.Prelude.Dict.{get, keys}
use crater_backend.Resources.{Quantity}
use crater_backend.Resources.Exceed.{Within, Distinct-add_resource_list}
use crater_backend.Model.{AiTask, high_slo}
use crater_backend.Model.Key.{key_func}
use crater_backend.Quota.{
  Decoder, QuotaInfo, QuotaInfoSnapshot, requested, add_task, check_hard_quota_exceed,
  snapshot_add_task, snapshot_check_hard_quota_exceed,
}
use crater_backend.Quota.Limit.{hard_used-add_task, hard-add_task, add_task_safe}
use crater_backend.Controller.Schedule.{select_gauranteed, insert_by_created, sort_by_created}
use mathlib.Core.List.Perm
use mathlib.Core.List.{Perm}

module _ {Q : Type 0} ⦃n : Quantity Q⦄ ⦃d : Decoder Q⦄ where
  Distinct-add_task :
      (t : AiTask) (info : QuotaInfo Q)
      → Distinct (keys info.hard_used)
      → Distinct (keys (add_task t info).hard_used)
  Distinct-add_task t info u =
      rw (hard_used-add_task t info) (elim (Option-cases (get (key_func t) info.used_tasks)) [
        | inr (_, e) ↦ rw e u
        | inl e ↦ rw e (elim (Bool-cases (t.slo == high_slo)) [
          | inl f ↦ rw f (Distinct-add_resource_list info.hard_used (requested t) u)
          | inr f ↦ rw f u
        ])
      ])

  -- An account charged with each of the tasks.
  abbrev pub charged : List AiTask → QuotaInfo Q → QuotaInfo Q
  charged [] info = info
  charged (t ∷ ts) info = charged ts (add_task t info)

  select_gauranteed-charged :
      (ts : List AiTask) (info : QuotaInfoSnapshot Q)
      → (select_gauranteed ts info).1 ≡ charged (select_gauranteed ts info).0 info
  unfolding select_gauranteed snapshot_add_task snapshot_check_hard_quota_exceed
  select_gauranteed-charged [] info = refl
  select_gauranteed-charged (t ∷ ts) info = elim (Bool-cases (check_hard_quota_exceed t info)) [
    | inl e ↦ rw e (select_gauranteed-charged ts info)
    | inr e ↦ rw e (select_gauranteed-charged ts (add_task t info))
  ]

  -- A choice from a list of tasks in their order: of each task whether the account, as the tasks chosen
  -- before it leave it, has room for it.
  pub data Fitting : List AiTask → List AiTask → QuotaInfo Q → Type 0 where
    end : {info : QuotaInfo Q} → Fitting [] [] info
    take :
        {t : AiTask} {ts chosen : List AiTask} {info : QuotaInfo Q}
        → check_hard_quota_exceed t info ≡ false
        → Fitting ts chosen (add_task t info)
        → Fitting (t ∷ ts) (t ∷ chosen) info
    skip :
        {t : AiTask} {ts chosen : List AiTask} {info : QuotaInfo Q}
        → check_hard_quota_exceed t info ≡ true
        → Fitting ts chosen info
        → Fitting (t ∷ ts) chosen info

  select_gauranteed-Fitting :
      (ts : List AiTask) (info : QuotaInfoSnapshot Q)
      → Fitting ts (select_gauranteed ts info).0 info
  unfolding select_gauranteed snapshot_add_task snapshot_check_hard_quota_exceed
  select_gauranteed-Fitting [] info = end
  select_gauranteed-Fitting (t ∷ ts) info = elim (Bool-cases (check_hard_quota_exceed t info)) [
    | inl e ↦ rw e (skip e (select_gauranteed-Fitting ts info))
    | inr e ↦ rw e (take e (select_gauranteed-Fitting ts (add_task t info)))
  ]

  -- What a selection does to the account it charges.
  abbrev pub Spent : QuotaInfo Q → QuotaInfo Q → Type 0
  Spent before after =
      (after.hard ≡ before.hard)
      × ((after.hard_used ≡ before.hard_used) ⊎ Within after.hard after.hard_used)

  select_gauranteed-Spent :
      (ts : List AiTask) (info : QuotaInfoSnapshot Q)
      → Distinct (keys info.hard_used)
      → Spent info (select_gauranteed ts info).1
  unfolding select_gauranteed snapshot_add_task snapshot_check_hard_quota_exceed
  select_gauranteed-Spent [] info u = (refl, inl refl)
  select_gauranteed-Spent (t ∷ ts) info u = elim (Bool-cases (check_hard_quota_exceed t info)) [
    | inl e ↦ rw e (select_gauranteed-Spent ts info u)
    | inr e ↦
        let (limit, spent) =
          select_gauranteed-Spent ts (add_task t info) (Distinct-add_task t info u) in
        let more : (select_gauranteed ts (add_task t info)).1.hard ≡ info.hard =
          limit ∙ hard-add_task t info in
        rw e (
          more,
          elim spent [
            | inr within ↦ inr within
            | inl same ↦ elim (add_task_safe t info u e) [
              | inl kept ↦ inl (same ∙ kept)
              | inr within ↦ inr (rw (same, limit) within)
            ]
          ],
        )
  ]

  -- The guaranteed tasks that one run takes for an account fit into its hard limit together: if the used
  -- resources are named once each, charging the account with every chosen task leaves its limit as it
  -- was, and its hard usage as it was or within the limit; and a task is chosen exactly if it passes the
  -- check with the tasks chosen before it charged.
  pub select_gauranteed_safe :
      (ts : List AiTask) (info : QuotaInfoSnapshot Q)
      → Distinct (keys info.hard_used)
      → Spent info (charged (select_gauranteed ts info).0 info)
        × Fitting ts (select_gauranteed ts info).0 info
  select_gauranteed_safe ts info u = (
    subst (Spent info) (select_gauranteed-charged ts info) (select_gauranteed-Spent ts info u),
    select_gauranteed-Fitting ts info,
  )

-- No task stands before one that was created earlier.
pub Ordered : List AiTask → Type 0
Ordered [] = Unit
Ordered (t ∷ []) = Unit
Ordered (t ∷ u ∷ us) = (t.created_at ≤ u.created_at) × Ordered (u ∷ us)

insert_by_created-Perm : (t : AiTask) (us : List AiTask) → Perm (insert_by_created t us) (t ∷ us)
unfolding insert_by_created
insert_by_created-Perm t [] = Perm.refl _
insert_by_created-Perm t (u ∷ us) = elim (Bool-cases (ltb u.created_at t.created_at)) [
  | inl e ↦ rw e (Perm.trans (Perm.cons u (insert_by_created-Perm t us)) (Perm.swap _ _ _))
  | inr e ↦ rw e (Perm.refl _)
]

insert_by_created-Ordered :
    (t : AiTask) (us : List AiTask) → Ordered us → Ordered (insert_by_created t us)
unfolding insert_by_created Ordered
insert_by_created-Ordered t [] o = tt
insert_by_created-Ordered t (u ∷ []) o = elim (Bool-cases (ltb u.created_at t.created_at)) [
  | inl e ↦ rw e (ground arith, tt)
  | inr e ↦ rw e (ground arith, tt)
]
insert_by_created-Ordered t (u ∷ v ∷ us) o = elim (Bool-cases (ltb u.created_at t.created_at)) [
  | inr e ↦ rw e (ground arith, o)
  | inl e ↦
      let rest = insert_by_created-Ordered t (v ∷ us) o.1 in
      rw e (elim (Bool-cases (ltb v.created_at t.created_at)) [
        | inl f ↦ rw f (o.0, rw f at rest)
        | inr f ↦ rw f (ground arith, rw f at rest)
      ])
]

-- The candidates are admitted in the order of their creation, each of them as often as the queues
-- gave it.
pub sort_by_created-Ordered :
    (ts : List AiTask) → Ordered (sort_by_created ts) × Perm (sort_by_created ts) ts
unfolding sort_by_created Ordered
sort_by_created-Ordered [] = (tt, Perm.refl _)
sort_by_created-Ordered (t ∷ ts) =
    let (o, p) = sort_by_created-Ordered ts in
    (
      insert_by_created-Ordered t (sort_by_created ts) o,
      Perm.trans (insert_by_created-Perm t (sort_by_created ts)) (Perm.cons t p),
    )
