-- ===== src/Controller/Handlers.antt =====
-- The events that reach the controller of pkg/aitaskctl/controller.go: changes of a job's status,
-- and the hook that the server calls when a user changes a task.
use crater_backend.Prelude.{
  ℕ, Bool, ◌&&◌, ◌||◌, Option, none, some, String, if◌then◌else◌, ◌==◌, nat_eq, string_eq,
}
use crater_backend.Resources.{Quantity}
use crater_backend.Model.{
  AiTask, queueing_status, running_status, failed_status, succeeded_status, profile_queued,
  profiling,
}
use crater_backend.Model.Key.{Text, parse_uint, format_uint}
use crater_backend.Quota.{Decoder}
use crater_backend.Quota
use crater_backend.TaskQueue
use crater_backend.Controller.{Services, AccountTable, State, with_queue, set_quota, get_quota_info}

-- IsCompletedStatus of pkg/util/status.go
unfoldable pub is_completed_status : String → Bool
is_completed_status status = status == failed_status || status == succeeded_status

-- JobStatusChan of pkg/util
pub record JobStatusEvent : Type 0 where
  pub task_id : Text
  pub new_status : String
  pub reason : String

-- TaskOperation, a text: `other` stands for one that is none of its constants.
pub data Operation : Type 0 where
  create update delete other : Operation

-- TaskUpdateChan of pkg/util
pub record TaskUpdateEvent : Type 0 where
  pub task_id : ℕ
  pub user_name : String
  pub operation : Operation

module _ {W : Type 0} ⦃v : Services W⦄ where
  -- The end of updateTaskStatus: the node of a running task is looked up once. If that fails, the
  -- task is returned with its old status.
  unfoldable pub set_node : AiTask → String → W → Option AiTask × W
  set_node t status w =
      if t.node == "" && status == running_status
      then (let (node, w') = v.node_of_task t w in
          elim node [
            | none ↦ (some t, w')
            | some name ↦
                let (written, w'') = v.update_node_name t.id name w' in
                (if written then some (record t { node = name; status = status }) else none, w'')
          ])
      else (some (record t { status = status }), w)

  -- updateTaskStatus, with `none` for an error.
  unfoldable pub update_task_status : Text → String → String → W → Option AiTask × W
  unfolding set_node
  update_task_status id status reason w =
      let tid = parse_uint id in
      let (found, w') = v.get_by_id tid w in
      elim found [
        | none ↦ (none, w')
        | some t ↦
            if t.status == status
            then set_node t status w'
            else (let (written, w'') = v.update_status tid status reason w' in
                if written then set_node t status w'' else (none, w''))
      ]

module _ {Q W : Type 0} ⦃n : Quantity Q⦄ ⦃d : Decoder Q⦄ ⦃v : Services W⦄
    ⦃a : AccountTable Q W⦄ where
  -- `quotaInfo.DeleteTask(task)` if the account of the task's user has a quota.
  unfoldable pub release : AiTask → State Q W → State Q W
  release t s =
      let (found, s') = get_quota_info t.user_name s in
      elim found [ none ↦ s' | some info ↦ set_quota t.user_name (Quota.delete_task t info) s' ]

  -- What watchJobStatus does with an event from its channel.
  unfoldable pub job_status_changed : JobStatusEvent → State Q W → State Q W
  unfolding update_task_status release
  job_status_changed ev s =
      let (found, w) = update_task_status ev.task_id ev.new_status ev.reason s.world in
      let s' : State Q W = record s { world = w } in
      elim found [
        | none ↦ s'
        | some t ↦
            if is_completed_status ev.new_status
            then release t s'
            else if ev.new_status == queueing_status
            then with_queue (TaskQueue.add_task t) s'
            else s'
      ]

  -- The case DeleteTask of TaskUpdated.
  unfoldable pub task_deleted : AiTask → TaskUpdateEvent → State Q W → State Q W
  unfolding release
  task_deleted t ev s =
      let s' = release t (
        with_queue
          (TaskQueue.delete_task_by_user_name_and_task_id ev.user_name (format_uint ev.task_id))
          s) in
      let (_, w) = v.delete_job t s'.world in
      let s'' : State Q W = record s' { world = w } in
      if s''.ctl.has_profiler
        && (t.profile_status == profile_queued || t.profile_status == profiling)
      then record s'' { world = v.delete_profile_pod t.id s''.world }
      else s''

  unfoldable pub dispatch : Operation → AiTask → TaskUpdateEvent → State Q W → State Q W
  unfolding task_deleted
  dispatch create t ev s = with_queue (TaskQueue.add_task t) s
  dispatch update t ev s = with_queue (TaskQueue.update_task t) s
  dispatch delete t ev s = task_deleted t ev s
  dispatch other t ev s = s

  unfoldable pub task_updated : TaskUpdateEvent → State Q W → State Q W
  unfolding dispatch
  task_updated ev s =
      let (found, w) = v.get_by_id ev.task_id s.world in
      let s' : State Q W = record s { world = w } in
      elim found [ none ↦ s' | some t ↦ dispatch ev.operation t ev s' ]
