-- ===== src/Controller.antt =====
-- pkg/aitaskctl/controller.go, and the methods of TaskController in pkg/aitaskctl/quota.go: the
-- state of the task controller and what it asks of the database, the cluster and the profiler.
pub mod Valid
pub mod Admit
pub mod Schedule
pub mod Handlers
pub mod Steps
pub mod Scheduling
pub mod Reach
pub mod Admission
pub mod Selection
use crater_backend.Prelude.{
  ℕ, Bool, true, false, Option, none, some, List, [], ◌∷◌, ◌++◌, String, if◌then◌else◌, ◌==◌,
  string_eq, is_some,
}
use crater_backend.Prelude.Dict.{Dict, get, put, remove, values}
use crater_backend.Resources.{Quantity, ResourceList}
use crater_backend.Model.{
  AiTask, occupied_quota_statuses, queueing_statuses, failed_status, created_status,
}
use crater_backend.Quota.{Decoder, QuotaInfo, QuotaInfoSnapshot, snapshot, update_hard}
use crater_backend.Quota
use crater_backend.TaskQueue.{TaskQueue, init_user_queue}
use crater_backend.TaskQueue

-- The columns of model.Account that the controller reads.
pub record Account (Q : Type 0) : Type 0 where
  pub name : String
  pub deserved : ResourceList Q
  pub capability : ResourceList Q

-- What CreateJobFromTask returns: the name of the job, or the text of its error.
pub data Created : Type 0 where
  job_created create_failed : String → Created

-- What the controller calls: DBService of pkg/aitaskctl/task.go, JobControl of pkg/crclient and the
-- profiler. A call changes the world `W` and may fail, with
-- `none` or `false`.
pub record Services (W : Type 0) : Type 0 where
  pub get_by_id : ℕ → W → Option AiTask × W
  pub update_status : ℕ → String → String → W → Bool × W
  pub update_job_name : ℕ → String → W → Bool × W
  pub update_node_name : ℕ → String → W → Bool × W
  pub list_by_user_and_statuses : String → List String → W → Option (List AiTask) × W
  pub create_job : AiTask → W → Created × W
  pub delete_job : AiTask → W → Bool × W
  pub node_of_task : AiTask → W → Option String × W
  pub submit_profile_task : ℕ → W → W
  pub delete_profile_pod : ℕ → W → W

-- The queries on the accounts in the database.
pub record AccountTable (Q W : Type 0) : Type 0 where
  pub list_accounts : W → Option (List (Account Q)) × W
  pub find_account : String → W → Option (Account Q) × W

-- TaskController. The profiler is part of the world; the flag says whether there is one.
pub record Controller (Q : Type 0) : Type 0 where
  pub task_queue : TaskQueue
  pub quota_infos : Dict String (QuotaInfo Q)
  pub has_profiler : Bool

pub record State (Q W : Type 0) : Type 0 where
  pub ctl : Controller Q
  pub world : W

abbrev pub snapshots : {Q : Type 0} → List (QuotaInfo Q) → List (QuotaInfoSnapshot Q)
snapshots [] = []
snapshots (info ∷ infos) = snapshot info ∷ snapshots infos

abbrev pub new_quota_info : {Q : Type 0} → Account Q → QuotaInfo Q
new_quota_info a = record {
  name = a.name;
  hard = a.deserved;
  soft = a.capability;
  hard_used = [];
  soft_used = [];
  used_tasks = [];
}

unfoldable pub add_tasks :
    {Q : Type 0} ⦃n : Quantity Q⦄ ⦃d : Decoder Q⦄ → List AiTask → QuotaInfo Q → QuotaInfo Q
add_tasks [] info = info
add_tasks (t ∷ ts) info = add_tasks ts (Quota.add_task t info)

-- An error of the query leaves the list of tasks nil.
abbrev pub or_no_tasks : Option (List AiTask) → List AiTask
or_no_tasks none = []
or_no_tasks (some ts) = ts

module _ {Q W : Type 0} where
  abbrev pub with_queue : (TaskQueue → TaskQueue) → State Q W → State Q W
  with_queue change s = record s { ctl = record (s.ctl) { task_queue = change s.ctl.task_queue } }

  abbrev pub with_quotas :
      (Dict String (QuotaInfo Q) → Dict String (QuotaInfo Q)) → State Q W → State Q W
  with_quotas change s = record s {
    ctl = record (s.ctl) { quota_infos = change s.ctl.quota_infos };
  }

  -- A write through the pointer to an account's QuotaInfo.
  abbrev pub set_quota : String → QuotaInfo Q → State Q W → State Q W
  set_quota user info s = with_quotas (put user info) s

  unfoldable pub delete_quota_info : String → State Q W → State Q W
  delete_quota_info user s = with_quotas (remove user) s

  unfoldable pub get_quota_info_snapshot : String → State Q W → Option (QuotaInfoSnapshot Q)
  get_quota_info_snapshot user s = elim (get user s.ctl.quota_infos) [
    | none ↦ none
    | some info ↦ some (snapshot info)
  ]

  unfoldable pub list_quota_info_snapshot : State Q W → List (QuotaInfoSnapshot Q)
  list_quota_info_snapshot s = snapshots (values s.ctl.quota_infos)

module _ {Q W : Type 0} ⦃n : Quantity Q⦄ where
  unfoldable pub update_quota_info_hard : String → ResourceList Q → State Q W → State Q W
  update_quota_info_hard user hard s = elim (get user s.ctl.quota_infos) [
    | none ↦ s
    | some info ↦ set_quota user (update_hard hard info) s
  ]

module _ {Q W : Type 0} ⦃n : Quantity Q⦄ ⦃d : Decoder Q⦄ ⦃v : Services W⦄ where
  -- Whether the account was new, and the state; the QuotaInfo returned is the one of the map.
  unfoldable pub add_or_update_quota_info : Account Q → State Q W → Bool × State Q W
  unfolding add_tasks
  add_or_update_quota_info acc s = elim (get acc.name s.ctl.quota_infos) [
    | none ↦
        let (running, w) = v.list_by_user_and_statuses acc.name occupied_quota_statuses s.world in
        (
          true,
          set_quota acc.name (add_tasks (or_no_tasks running) (new_quota_info acc))
              (record s { world = w }),
        )
    | some _ ↦ (false, update_quota_info_hard acc.name acc.deserved s)
  ]

  -- One round of the loop of Init.
  unfoldable pub init_account : Account Q → State Q W → State Q W
  unfolding add_or_update_quota_info
  init_account acc s =
      let s' = (add_or_update_quota_info acc s).1 in
      let (queueing, w) = v.list_by_user_and_statuses acc.name queueing_statuses s'.world in
      let s'' : State Q W = record s' { world = w } in
      elim queueing [ none ↦ s'' | some ts ↦ with_queue (init_user_queue acc.name ts) s'' ]

  unfoldable pub init_accounts : List (Account Q) → State Q W → State Q W
  unfolding init_account
  init_accounts [] s = s
  init_accounts (acc ∷ accs) s = init_accounts accs (init_account acc s)

module _ {Q W : Type 0} ⦃n : Quantity Q⦄ ⦃d : Decoder Q⦄ ⦃v : Services W⦄
    ⦃a : AccountTable Q W⦄ where
  unfoldable pub get_quota_info : String → State Q W → Option (QuotaInfo Q) × State Q W
  unfolding add_or_update_quota_info
  get_quota_info user s = elim (get user s.ctl.quota_infos) [
    | some info ↦ (some info, s)
    | none ↦
        let (account, w) = a.find_account user s.world in
        elim account [
          | none ↦ (none, record s { world = w })
          | some acc ↦
              let s' = (add_or_update_quota_info acc (record s { world = w })).1 in
              (get acc.name s'.ctl.quota_infos, s')
        ]
  ]

  -- An error of the query leaves no account to go through.
  unfoldable pub init : State Q W → State Q W
  unfolding init_accounts
  init s =
      let (accounts, w) = a.list_accounts s.world in
      elim accounts [
        | none ↦ record s { world = w }
        | some accs ↦ init_accounts accs (record s { world = w })
      ]
