-- ===== src/Controller/Valid.antt =====
-- The invariant of the task controller of pkg/aitaskctl: every user queue is valid, and the books of
-- every account are balanced. The methods on the accounts keep it.
use crater_backend.Prelude.{
  ◌≡◌, refl, some, List, [], ◌∷◌, String, ◌==◌, string_eq, All, Option-cases, Bool-cases, inl, inr,
  arith, subst,
}
use crater_backend.Prelude.Dict.{Dict, get, put, get-put, get-remove}
use crater_backend.Resources.{Quantity, ResourceList, cmp_resource_list_same}
use crater_backend.Model.{AiTask, occupied_quota_statuses, queueing_statuses}
use crater_backend.Quota.{Decoder, QuotaInfo, update_hard}
use crater_backend.Quota.Balanced.{IsBalanced, add_task-IsBalanced}
use crater_backend.TaskQueue.{TaskQueue, init_user_queue}
use crater_backend.TaskQueue.Valid.{IsTaskQueue, init_user_queue-IsTaskQueue}
use crater_backend.Controller.{
  Account, Services, AccountTable, State, with_queue, set_quota, new_quota_info, add_tasks,
  or_no_tasks, update_quota_info_hard, delete_quota_info, add_or_update_quota_info, get_quota_info,
  init_account, init_accounts, init,
}

-- What the database promises: a query for a user's tasks returns tasks of that user.
pub record ListsOwn {W : Type 0} (v : Services W) : Type 0 where
  pub own :
      (user : String) (statuses : List String) (w : W) {ts : List AiTask}
      → (v.list_by_user_and_statuses user statuses w).0 ≡ some ts
      → All (λ t. t.user_name ≡ user) ts

module _ {Q : Type 0} ⦃n : Quantity Q⦄ ⦃d : Decoder Q⦄ where
  abbrev pub AreBalanced : Dict String (QuotaInfo Q) → Type 0
  AreBalanced infos =
      (user : String) (info : QuotaInfo Q) → get user infos ≡ some info → IsBalanced info

  pub put-AreBalanced :
      (user : String) {info : QuotaInfo Q} (infos : Dict String (QuotaInfo Q))
      → IsBalanced info
      → AreBalanced infos
      → AreBalanced (put user info infos)
  put-AreBalanced user {info} infos b v other found g = elim (Bool-cases (user == other)) [
    | inl e ↦
        let same : info ≡ found = ground (arith, get-put user other info infos) in
        subst IsBalanced same b
    | inr e ↦ v other found (ground (arith, get-put user other info infos))
  ]

  add_tasks-IsBalanced :
      (ts : List AiTask) {info : QuotaInfo Q} → IsBalanced info → IsBalanced (add_tasks ts info)
  unfolding add_tasks
  add_tasks-IsBalanced [] b = b
  add_tasks-IsBalanced (t ∷ ts) {info} b = add_tasks-IsBalanced ts (add_task-IsBalanced t info b)

  pub new_quota_info-IsBalanced : (a : Account Q) → IsBalanced (new_quota_info a)
  unfolding get
  new_quota_info-IsBalanced a = record {
    listed = tt;
    high = record { exact = λ k. refl; covered = λ j t g. absurd (ground arith); distinct = tt };
    low = record { exact = λ k. refl; covered = λ j t g. absurd (ground arith); distinct = tt };
  }

  update_hard-IsBalanced :
      (hard : ResourceList Q) {info : QuotaInfo Q}
      → IsBalanced info
      → IsBalanced (update_hard hard info)
  unfolding update_hard
  update_hard-IsBalanced hard {info} b = elim (Bool-cases (cmp_resource_list_same info.hard hard)) [
    | inl e ↦ rw e b
    | inr e ↦ rw e (record { listed = b.listed; high = b.high; low = b.low })
  ]

module _ {Q W : Type 0} ⦃n : Quantity Q⦄ ⦃d : Decoder Q⦄ where
  pub record IsController (s : State Q W) : Type 0 where
    pub queues : IsTaskQueue s.ctl.task_queue
    pub books : AreBalanced s.ctl.quota_infos

  pub with_queue-IsController :
      (change : TaskQueue → TaskQueue) {s : State Q W}
      → IsTaskQueue (change s.ctl.task_queue)
      → IsController s
      → IsController (with_queue change s)
  with_queue-IsController change q c = record { queues = q; books = c.books }

  pub set_quota-IsController :
      (user : String) {info : QuotaInfo Q} {s : State Q W}
      → IsBalanced info
      → IsController s
      → IsController (set_quota user info s)
  set_quota-IsController user {s = s} b c = record {
    queues = c.queues;
    books = put-AreBalanced user s.ctl.quota_infos b c.books;
  }

  pub world-IsController :
      (w : W) {s : State Q W} → IsController s → IsController (record s { world = w })
  world-IsController w c = record { queues = c.queues; books = c.books }

  pub update_quota_info_hard-IsController :
      (user : String) (hard : ResourceList Q) {s : State Q W}
      → IsController s
      → IsController (update_quota_info_hard user hard s)
  unfolding update_quota_info_hard
  update_quota_info_hard-IsController user hard {s} c =
      elim (Option-cases (get user s.ctl.quota_infos)) [
        | inl e ↦ rw (e, update_quota_info_hard) c
        | inr (info, e) ↦
            rw (e, update_quota_info_hard)
              (set_quota-IsController user {s = s}
                (update_hard-IsBalanced hard (c.books user info e)) c)
      ]

  pub delete_quota_info-IsController :
      (user : String) {s : State Q W} → IsController s → IsController (delete_quota_info user s)
  unfolding delete_quota_info
  delete_quota_info-IsController user {s} c = record {
    queues = c.queues;
    books = λ other info g.
        c.books other info (ground (arith, get-remove user other s.ctl.quota_infos));
  }

module _ {Q W : Type 0} ⦃n : Quantity Q⦄ ⦃d : Decoder Q⦄ ⦃v : Services W⦄ where
  pub add_or_update_quota_info-IsController :
      (acc : Account Q) {s : State Q W}
      → IsController s
      → IsController (add_or_update_quota_info acc s).1
  unfolding add_or_update_quota_info
  add_or_update_quota_info-IsController acc {s} c =
      elim (Option-cases (get acc.name s.ctl.quota_infos)) [
        | inl e ↦
            rw (e, add_or_update_quota_info)
              (set_quota-IsController acc.name
                (add_tasks-IsBalanced
                  (or_no_tasks
                    (v.list_by_user_and_statuses acc.name occupied_quota_statuses s.world).0)
                  (new_quota_info-IsBalanced acc))
                (world-IsController _ c))
        | inr (info, e) ↦
            rw (e, add_or_update_quota_info)
              (update_quota_info_hard-IsController acc.name acc.deserved c)
      ]

  module _ (lists : ListsOwn v) where
    init_account-IsController :
        (acc : Account Q) {s : State Q W} → IsController s → IsController (init_account acc s)
    unfolding init_account
    init_account-IsController acc {s} c =
        let s' = (add_or_update_quota_info acc s).1 in
        let c' = add_or_update_quota_info-IsController acc c in
        let asked = v.list_by_user_and_statuses acc.name queueing_statuses s'.world in
        elim (Option-cases asked.0) [
          | inl e ↦ rw (e, init_account) (world-IsController _ c')
          | inr (ts, e) ↦
              rw (e, init_account)
                (with_queue-IsController (init_user_queue acc.name ts)
                  (init_user_queue-IsTaskQueue s'.ctl.task_queue c'.queues acc.name ts
                    (lists.own acc.name queueing_statuses s'.world e))
                  (world-IsController asked.1 c'))
        ]

module _ {Q W : Type 0} ⦃n : Quantity Q⦄ ⦃d : Decoder Q⦄ ⦃v : Services W⦄
    ⦃a : AccountTable Q W⦄ where
  -- A QuotaInfo that GetQuotaInfo returns is balanced, and the state is valid after it.
  pub get_quota_info-IsController :
      (user : String) {s : State Q W}
      → IsController s
      → IsController (get_quota_info user s).1
        × ((info : QuotaInfo Q) → (get_quota_info user s).0 ≡ some info → IsBalanced info)
  unfolding get_quota_info
  get_quota_info-IsController user {s} c = elim (Option-cases (get user s.ctl.quota_infos)) [
    | inr (info, e) ↦
        rw (e, get_quota_info)
          (
            c,
            λ found g.
                let same : info ≡ found = ground arith in
                subst IsBalanced same (c.books user info e),
          )
    | inl e ↦
        let asked = a.find_account user s.world in
        let s' : State Q W = record s { world = asked.1 } in
        elim (Option-cases asked.0) [
          | inl f ↦
              rw (e, get_quota_info, f)
                (world-IsController asked.1 c, λ found g. absurd (ground arith))
          | inr (acc, f) ↦
              let c' = add_or_update_quota_info-IsController acc (world-IsController asked.1 c) in
              rw (e, get_quota_info, f) (c', c'.books acc.name)
        ]
  ]

  module _ (lists : ListsOwn v) where
    init_accounts-IsController :
        (accs : List (Account Q)) {s : State Q W}
        → IsController s
        → IsController (init_accounts accs s)
    unfolding init_accounts
    init_accounts-IsController [] c = c
    init_accounts-IsController (acc ∷ accs) c =
        init_accounts-IsController accs (init_account-IsController lists acc c)

    -- Init keeps the controller valid, whichever of its queries fail.
    pub init-IsController : {s : State Q W} → IsController s → IsController (init s)
    unfolding init
    init-IsController {s} c =
        let asked = a.list_accounts s.world in
        elim (Option-cases asked.0) [
          | inl e ↦ rw (e, init) (world-IsController asked.1 c)
          | inr (accs, e) ↦
              rw (e, init) (init_accounts-IsController accs (world-IsController asked.1 c))
        ]
