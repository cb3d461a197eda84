-- ===== src/Controller/Admit.antt =====
-- admitTask of pkg/aitaskctl/controller.go: a candidate becomes a job in the cluster.
use crater_backend.Prelude.{Option, none, some, String, if◌then◌else◌, string_eq}
use crater_backend.Resources.{Quantity}
use crater_backend.Model.{AiTask, failed_status, created_status}
use crater_backend.Quota.{Decoder, QuotaInfo, check_hard_quota_exceed}
use crater_backend.Quota
use crater_backend.TaskQueue.{TaskQueue}
use crater_backend.TaskQueue
use crater_backend.Controller.{
  Services, AccountTable, job_created, create_failed, State, with_queue, set_quota, get_quota_info,
}

pub data AdmitError : Type 0 where
  quota_not_found quota_exceed db_failed : AdmitError

module _ {Q W : Type 0} ⦃n : Quantity Q⦄ ⦃d : Decoder Q⦄ ⦃v : Services W⦄ where
  -- CreateJobFromTask failed: the error that it returned is overwritten by that of UpdateStatus,
  -- so that nil is returned when the status was written.
  unfoldable pub reject_task : AiTask → String → State Q W → Option AdmitError × State Q W
  reject_task t reason s =
      let (written, w) = v.update_status t.id failed_status reason s.world in
      let s' : State Q W = record s { world = w } in
      if written then (none, with_queue (TaskQueue.delete_task t) s') else (some db_failed, s')

  -- The job was created: its status and name are written, then the task is charged and leaves its
  -- queue.
  unfoldable pub record_job :
      AiTask → String → QuotaInfo Q → State Q W → Option AdmitError × State Q W
  record_job t job info s =
      let (status_written, w) = v.update_status t.id created_status "AIJob created" s.world in
      if status_written
      then (let (name_written, w') = v.update_job_name t.id job w in
          let s' : State Q W = record s { world = w' } in
          if name_written
          then (
            none,
            with_queue (TaskQueue.delete_task t) (set_quota t.user_name (Quota.add_task t info) s'),
          )
          else (some db_failed, s'))
      else (some db_failed, record s { world = w })

  unfoldable pub admit_with : AiTask → QuotaInfo Q → State Q W → Option AdmitError × State Q W
  unfolding reject_task record_job
  admit_with t info s =
      if check_hard_quota_exceed t info
      then (some quota_exceed, s)
      else (let (job, w) = v.create_job t s.world in
          let s' : State Q W = record s { world = w } in
          elim job [
            | create_failed reason ↦ reject_task t reason s'
            | job_created name ↦ record_job t name info s'
          ])

module _ {Q W : Type 0} ⦃n : Quantity Q⦄ ⦃d : Decoder Q⦄ ⦃v : Services W⦄
    ⦃a : AccountTable Q W⦄ where
  unfoldable pub admit_task : AiTask → State Q W → Option AdmitError × State Q W
  unfolding admit_with
  admit_task t s =
      let (found, s') = get_quota_info t.user_name s in
      elim found [ none ↦ (some quota_not_found, s') | some info ↦ admit_with t info s' ]
