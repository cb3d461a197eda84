-- ===== src/Controller/Steps.antt =====
-- Every step of the task controller of pkg/aitaskctl keeps its invariant, and the scheduler does not
-- panic.
use crater_backend.Prelude.{
  ◌&&◌, ◌||◌, Option, String, ◌==◌, nat_eq, string_eq, list_eq, Option-cases, Bool-cases, inl, inr,
}
use crater_backend.Resources.{Quantity}
use crater_backend.Model.{
  AiTask, failed_status, created_status, queueing_status, profile_queued, profiling,
}
use crater_backend.Model.Key.{format_uint}
use crater_backend.Quota.{Decoder, QuotaInfo, check_hard_quota_exceed}
use crater_backend.Quota.Balanced.{IsBalanced, add_task-IsBalanced, delete_task-IsBalanced}
use crater_backend.TaskQueue.{TaskQueue, UserQueue}
use crater_backend.TaskQueue
use crater_backend.TaskQueue.Valid.{
  delete_task-IsTaskQueue, add_task-IsTaskQueue, update_task-IsTaskQueue, delete_by_id-IsTaskQueue,
}
use crater_backend.Controller.{
  Services, AccountTable, Created, job_created, create_failed, State, with_queue, get_quota_info,
}
use crater_backend.Controller.Admit.{AdmitError, reject_task, record_job, admit_with, admit_task}
use crater_backend.Controller.Handlers.{
  JobStatusEvent, TaskUpdateEvent, Operation, create, update, delete, other, is_completed_status,
  update_task_status, release, job_status_changed, task_deleted, dispatch, task_updated,
}
use crater_backend.Controller.Valid.{
  IsController, with_queue-IsController, set_quota-IsController, world-IsController,
  get_quota_info-IsController,
}

module _ {Q W : Type 0} ⦃n : Quantity Q⦄ ⦃d : Decoder Q⦄ ⦃v : Services W⦄ (t : AiTask) where
  -- A task leaves its queue.
  dequeued :
      {s : State Q W} → IsController s → IsController (with_queue (TaskQueue.delete_task t) s)
  dequeued {s} c =
      with_queue-IsController (TaskQueue.delete_task t) {s = s}
        (delete_task-IsTaskQueue s.ctl.task_queue c.queues t) c

  reject_task-IsController :
      (reason : String) {s : State Q W} → IsController s → IsController (reject_task t reason s).1
  unfolding reject_task
  reject_task-IsController reason {s} c =
      let asked = v.update_status t.id failed_status reason s.world in
      elim (Bool-cases asked.0) [
        | inl e ↦ rw e (dequeued (world-IsController asked.1 c))
        | inr e ↦ rw e (world-IsController asked.1 c)
      ]

  record_job-IsController :
      (job : String) {info : QuotaInfo Q} {s : State Q W}
      → IsBalanced info
      → IsController s
      → IsController (record_job t job info s).1
  unfolding record_job
  record_job-IsController job {info} {s} b c =
      let status = v.update_status t.id created_status "AIJob created" s.world in
      let named = v.update_job_name t.id job status.1 in
      elim (Bool-cases status.0) [
        | inl e ↦ rw e (elim (Bool-cases named.0) [
          | inl f ↦ rw f (
              dequeued (
                set_quota-IsController t.user_name (add_task-IsBalanced t info b)
                  (world-IsController named.1 c)))
          | inr f ↦ rw f (world-IsController named.1 c)
        ])
        | inr e ↦ rw e (world-IsController status.1 c)
      ]

  admit_with-IsController :
      {info : QuotaInfo Q} {s : State Q W}
      → IsBalanced info
      → IsController s
      → IsController (admit_with t info s).1
  unfolding admit_with
  admit_with-IsController {info} {s} b c =
      let made = v.create_job t s.world in
      elim (Bool-cases (check_hard_quota_exceed t info)) [
        | inl e ↦ rw e c
        | inr e ↦ rw e (created made.0 made.1)
      ]
    where
      created :
          (job : Created) (w : W)
          → IsController
              (elim job as (λ _. Option AdmitError × State Q W) [
                | create_failed reason ↦ reject_task t reason (record s { world = w })
                | job_created name ↦ record_job t name info (record s { world = w })
              ]).1
      created (create_failed reason) w = reject_task-IsController reason (world-IsController w c)
      created (job_created name) w = record_job-IsController name b (world-IsController w c)

module _ {Q W : Type 0} ⦃n : Quantity Q⦄ ⦃d : Decoder Q⦄ ⦃v : Services W⦄
    ⦃a : AccountTable Q W⦄ where
  -- admitTask keeps the controller valid on every path, whatever fails on the way.
  pub admit_task-IsController :
      (t : AiTask) {s : State Q W} → IsController s → IsController (admit_task t s).1
  unfolding admit_task
  admit_task-IsController t {s} c =
      let (c', balanced) = get_quota_info-IsController t.user_name c in
      elim (Option-cases (get_quota_info t.user_name s).0) [
        | inl e ↦ rw (e, admit_task) c'
        | inr (info, e) ↦ rw (e, admit_task) (admit_with-IsController t (balanced info e) c')
      ]

  release-IsController : (t : AiTask) {s : State Q W} → IsController s → IsController (release t s)
  unfolding release
  release-IsController t {s} c =
      let (c', balanced) = get_quota_info-IsController t.user_name c in
      elim (Option-cases (get_quota_info t.user_name s).0) [
        | inl e ↦ rw (e, release) c'
        | inr (info, e) ↦
            rw (e, release)
              (set_quota-IsController t.user_name (delete_task-IsBalanced t info (balanced info e))
                c')
      ]

  -- A change of a job's status keeps the controller valid.
  pub job_status_changed-IsController :
      (ev : JobStatusEvent) {s : State Q W}
      → IsController s
      → IsController (job_status_changed ev s)
  unfolding job_status_changed
  job_status_changed-IsController ev {s} c =
      let asked = update_task_status ev.task_id ev.new_status ev.reason s.world in
      let c' = world-IsController asked.1 c in
      elim (Option-cases asked.0) [
        | inl e ↦ rw (e, job_status_changed) c'
        | inr (t, e) ↦
            rw (e, job_status_changed)
              (elim (Bool-cases (is_completed_status ev.new_status)) [
                | inl f ↦ rw f (release-IsController t c')
                | inr f ↦ rw f (elim (Bool-cases (ev.new_status == queueing_status)) [
                  | inl g ↦ rw g (
                      with_queue-IsController (TaskQueue.add_task t)
                        (add_task-IsTaskQueue s.ctl.task_queue c.queues t) c')
                  | inr g ↦ rw g c'
                ])
              ])
      ]

  task_deleted-IsController :
      (t : AiTask) (ev : TaskUpdateEvent) {s : State Q W}
      → IsController s
      → IsController (task_deleted t ev s)
  unfolding task_deleted
  task_deleted-IsController t ev {s} c =
      let dropped =
        TaskQueue.delete_task_by_user_name_and_task_id ev.user_name (format_uint ev.task_id) in
      let c' = release-IsController t (
        with_queue-IsController dropped {s = s}
          (delete_by_id-IsTaskQueue s.ctl.task_queue c.queues ev.user_name (format_uint ev.task_id))
          c) in
      elim (Bool-cases (
        (release t (with_queue dropped s)).ctl.has_profiler
        && (t.profile_status == profile_queued || t.profile_status == profiling))) [
          | inl e ↦ rw e (world-IsController _ c')
          | inr e ↦ rw e (world-IsController _ c')
        ]

  dispatch-IsController :
      (op : Operation) (t : AiTask) (ev : TaskUpdateEvent) {s : State Q W}
      → IsController s
      → IsController (dispatch op t ev s)
  unfolding dispatch
  dispatch-IsController create t ev {s} c =
      with_queue-IsController (TaskQueue.add_task t)
        (add_task-IsTaskQueue s.ctl.task_queue c.queues t) c
  dispatch-IsController update t ev {s} c =
      with_queue-IsController (TaskQueue.update_task t)
        (update_task-IsTaskQueue s.ctl.task_queue c.queues t) c
  dispatch-IsController delete t ev c = task_deleted-IsController t ev c
  dispatch-IsController other t ev c = c

  -- TaskUpdated keeps the controller valid, for every operation.
  pub task_updated-IsController :
      (ev : TaskUpdateEvent) {s : State Q W} → IsController s → IsController (task_updated ev s)
  unfolding task_updated
  task_updated-IsController ev {s} c =
      let asked = v.get_by_id ev.task_id s.world in
      elim (Option-cases asked.0) [
        | inl e ↦ rw (e, task_updated) (world-IsController asked.1 c)
        | inr (t, e) ↦
            rw (e, task_updated)
              (dispatch-IsController ev.operation t ev (world-IsController asked.1 c))
      ]
