-- ===== src/Controller/Reach.antt =====
-- The runs of the task controller of pkg/aitaskctl: it is set up empty, and then its methods are
-- called in any order. The scheduler's thread and the others take each step whole.
use crater_backend.Prelude.{◌≡◌, Bool, some, [], String, arith, subst}
use crater_backend.Prelude.Dict.{get}
use crater_backend.Resources.{Quantity, ResourceList}
use crater_backend.Quota.{Decoder}
use crater_backend.TaskQueue.{new_task_queue}
use crater_backend.Controller.{
  Account, Services, AccountTable, Controller, State, init, add_or_update_quota_info,
  update_quota_info_hard, delete_quota_info, get_quota_info,
}
use crater_backend.Controller.Schedule.{schedule}
use crater_backend.Controller.Handlers.{
  JobStatusEvent, TaskUpdateEvent, job_status_changed, task_updated,
}
use crater_backend.Controller.Valid.{
  ListsOwn, IsController, init-IsController, add_or_update_quota_info-IsController,
  update_quota_info_hard-IsController, delete_quota_info-IsController, get_quota_info-IsController,
}
use crater_backend.Controller.Steps.{job_status_changed-IsController, task_updated-IsController}
use crater_backend.Controller.Scheduling.{schedule_total}

-- NewTaskController and SetProfiler
unfoldable pub new_task_controller : {Q : Type 0} → Bool → Controller Q
unfolding new_task_queue
new_task_controller has_profiler = record {
  task_queue = new_task_queue;
  quota_infos = [];
  has_profiler = has_profiler;
}

module _ {Q W : Type 0} ⦃n : Quantity Q⦄ ⦃d : Decoder Q⦄ ⦃v : Services W⦄
    ⦃a : AccountTable Q W⦄ where
  -- The methods of TaskControllerInterface that change the state, the events of the status channel
  -- and the ticks of the scheduler. The world may change on its own between two of them.
  pub data Step (s : State Q W) : State Q W → Type 0 where
    start : Step s (init s)
    account : (acc : Account Q) → Step s (add_or_update_quota_info acc s).1
    hard_limit :
        (user : String) (hard : ResourceList Q) → Step s (update_quota_info_hard user hard s)
    account_gone : (user : String) → Step s (delete_quota_info user s)
    quota_read : (user : String) → Step s (get_quota_info user s).1
    status : (ev : JobStatusEvent) → Step s (job_status_changed ev s)
    updated : (ev : TaskUpdateEvent) → Step s (task_updated ev s)
    tick : {s' : State Q W} → schedule s ≡ some s' → Step s s'
    outside : (w : W) → Step s (record s { world = w })

  pub data Reach (s : State Q W) : State Q W → Type 0 where
    here : Reach s s
    next : {t u : State Q W} → Reach s t → Step t u → Reach s u

  pub started : Bool → W → State Q W
  started has_profiler w = record { ctl = new_task_controller has_profiler; world = w }

  started-IsController : (has_profiler : Bool) (w : W) → IsController (started has_profiler w)
  unfolding started new_task_controller get
  started-IsController has_profiler w = record {
    queues = record { users = tt; each = λ user q g. absurd (ground arith) };
    books = λ user info g. absurd (ground arith);
  }

  Step-IsController :
      (lists : ListsOwn v) {s t : State Q W} → Step s t → IsController s → IsController t
  Step-IsController lists start c = init-IsController lists c
  Step-IsController lists (account acc) c = add_or_update_quota_info-IsController acc c
  Step-IsController lists (hard_limit user hard) c = update_quota_info_hard-IsController user hard c
  Step-IsController lists (account_gone user) c = delete_quota_info-IsController user c
  Step-IsController lists (quota_read user) c = (get_quota_info-IsController user c).0
  Step-IsController lists (status ev) c = job_status_changed-IsController ev c
  Step-IsController lists (updated ev) c = task_updated-IsController ev c
  Step-IsController lists {s = s} (tick run) c =
      let (s', found, c') = schedule_total s c in
      let same : s' ≡ _ = cc in subst IsController same c'
  Step-IsController lists (outside w) c = record { queues = c.queues; books = c.books }

  module _ (lists : ListsOwn v) (has_profiler : Bool) (w : W) where
    -- In every state that a run of a new controller reaches, whatever the database and the cluster
    -- answer, the user queues are valid and hold only their user's tasks of their SLO, and what
    -- counts as used of an account is the sum of what the tasks on its books ask for.
    pub Reach-IsController : {t : State Q W} → Reach (started has_profiler w) t → IsController t
    Reach-IsController here = started-IsController has_profiler w
    Reach-IsController (next r step) = Step-IsController lists step (Reach-IsController r)

    -- In every such state the scheduler can run: it does not panic.
    pub Reach-schedule :
        {t : State Q W}
        → Reach (started has_profiler w) t
        → (u : State Q W) × (schedule t ≡ some u) × IsController u
    Reach-schedule {t} r = schedule_total t (Reach-IsController r)
