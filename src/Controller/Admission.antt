-- ===== src/Controller/Admission.antt =====
-- What admitTask of pkg/aitaskctl/controller.go does to the queue and the books of an account that
-- the controller knows.
use crater_backend.Prelude.{
  ◌≡◌, ◌⊎◌, refl, sym, ◌∙◌, false, Option, none, some, String, if◌then◌else◌, ◌==◌, string_eq,
  ==_refl, Bool-cases, inl, inr, subst,
}
use crater_backend.Prelude.Dict.{get, put, get-put}
use crater_backend.Resources.{Quantity}
use crater_backend.Resources.Exceed.{Within}
use crater_backend.Model.{AiTask, failed_status, created_status}
use crater_backend.Quota.{Decoder, QuotaInfo, check_hard_quota_exceed}
use crater_backend.Quota
use crater_backend.Quota.Balanced.{IsBalanced}
use crater_backend.Quota.Limit.{add_task_safe}
use crater_backend.TaskQueue
use crater_backend.Controller.{
  Services, AccountTable, Created, job_created, create_failed, Controller, State, get_quota_info,
}
use crater_backend.Controller.Admit.{
  AdmitError, quota_exceed, db_failed, reject_task, record_job, admit_with, admit_task,
}

module _ {Q : Type 0} ⦃n : Quantity Q⦄ ⦃d : Decoder Q⦄ where
  -- The controller after a task has left its queue.
  abbrev pub left : AiTask → Controller Q → Controller Q
  left t c = record c { task_queue = TaskQueue.delete_task t c.task_queue }

  -- The controller after a task has left its queue and was charged to its account.
  abbrev pub charged : AiTask → QuotaInfo Q → Controller Q → Controller Q
  charged t info c =
      left t (record c { quota_infos = put t.user_name (Quota.add_task t info) c.quota_infos })

  quota_infos-charged :
      (t : AiTask) (info : QuotaInfo Q) (c : Controller Q) (user : String)
      → get user (charged t info c).quota_infos
        ≡ (if t.user_name == user then some (Quota.add_task t info) else get user c.quota_infos)
  quota_infos-charged t info c user = get-put t.user_name user (Quota.add_task t info) c.quota_infos

Created-cases :
    (c : Created)
    → ((reason : String) × (c ≡ create_failed reason)) ⊎ ((job : String) × (c ≡ job_created job))
Created-cases (create_failed reason) = inl (reason, refl)
Created-cases (job_created job) = inr (job, refl)

module _ {Q W : Type 0} ⦃n : Quantity Q⦄ ⦃d : Decoder Q⦄ ⦃v : Services W⦄ where
  -- The ends of an admission: an error leaves the controller as it was; without one the task has
  -- left its queue, and was charged if its job was made.
  pub data Outcome (t : AiTask) (info : QuotaInfo Q) (s : State Q W)
      (r : Option AdmitError × State Q W) : Type 0 where
    refused : (e : AdmitError) → r.0 ≡ some e → r.1.ctl ≡ s.ctl → Outcome t info s r
    dropped :
        (reason : String)
        → (v.create_job t s.world).0 ≡ create_failed reason
        → r.0 ≡ none
        → r.1.ctl ≡ left t s.ctl
        → Outcome t info s r
    admitted :
        (job : String)
        → (v.create_job t s.world).0 ≡ job_created job
        → check_hard_quota_exceed t info ≡ false
        → r.0 ≡ none
        → r.1.ctl ≡ charged t info s.ctl
        → Outcome t info s r

  reject_task-Outcome :
      (t : AiTask) (info : QuotaInfo Q) (reason : String) (s : State Q W)
      → (v.create_job t s.world).0 ≡ create_failed reason
      → Outcome t info s (reject_task t reason (record s { world = (v.create_job t s.world).1 }))
  unfolding reject_task
  reject_task-Outcome t info reason s made =
      let asked = v.update_status t.id failed_status reason (v.create_job t s.world).1 in
      elim (Bool-cases asked.0) [
        | inl e ↦ rw e (dropped reason made refl refl)
        | inr e ↦ rw e (refused db_failed refl refl)
      ]

  record_job-Outcome :
      (t : AiTask) (info : QuotaInfo Q) (job : String) (s : State Q W)
      → check_hard_quota_exceed t info ≡ false
      → (v.create_job t s.world).0 ≡ job_created job
      → Outcome t info s (record_job t job info (record s { world = (v.create_job t s.world).1 }))
  unfolding record_job
  record_job-Outcome t info job s passed made =
      let status = v.update_status t.id created_status "AIJob created" (v.create_job t s.world).1 in
      let named = v.update_job_name t.id job status.1 in
      elim (Bool-cases status.0) [
        | inr e ↦ rw e (refused db_failed refl refl)
        | inl e ↦ rw e (elim (Bool-cases named.0) [
          | inl f ↦ rw f (admitted job made passed refl refl)
          | inr f ↦ rw f (refused db_failed refl refl)
        ])
      ]

  admit_with-Outcome :
      (t : AiTask) (info : QuotaInfo Q) (s : State Q W) → Outcome t info s (admit_with t info s)
  unfolding admit_with
  admit_with-Outcome t info s = elim (Bool-cases (check_hard_quota_exceed t info)) [
    | inl e ↦ rw e (refused quota_exceed refl refl)
    | inr e ↦ rw e (elim (Created-cases (v.create_job t s.world).0) [
      | inl (reason, f) ↦ rw (f, admit_with) (reject_task-Outcome t info reason s f)
      | inr (job, f) ↦ rw (f, admit_with) (record_job-Outcome t info job s e f)
    ])
  ]

module _ {Q W : Type 0} ⦃n : Quantity Q⦄ ⦃d : Decoder Q⦄ ⦃v : Services W⦄
    ⦃a : AccountTable Q W⦄ where
  get_quota_info_known :
      (user : String) {info : QuotaInfo Q} (s : State Q W)
      → get user s.ctl.quota_infos ≡ some info
      → ((get_quota_info user s).0 ≡ some info) × ((get_quota_info user s).1 ≡ s)
  unfolding get_quota_info
  get_quota_info_known user s known = rw (known, get_quota_info) (refl, refl)

  -- For an account on the controller, admitTask either returns an error and leaves the controller as
  -- it was; or it returns none because the job could not be made, and the task has left its queue
  -- without being charged; or it returns none with the job made, and the task has passed the check
  -- of the quota, left its queue and been charged.
  pub admit_task-Outcome :
      (t : AiTask) {info : QuotaInfo Q} (s : State Q W)
      → get t.user_name s.ctl.quota_infos ≡ some info
      → Outcome t info s (admit_task t s)
  unfolding admit_task
  admit_task-Outcome t {info} s known =
      let (found, same) = get_quota_info_known t.user_name s known in
      rw (found, admit_task)
        (subst (λ s'. Outcome t info s (admit_with t info s')) (sym same)
          (admit_with-Outcome t info s))

  -- An admission takes no account over its hard limit: the account of the task still has a quota,
  -- whose hard usage is what it was or within its limit; the quota of every other account is what
  -- it was.
  pub admit_task_safe :
      (t : AiTask) {info : QuotaInfo Q} (s : State Q W)
      → get t.user_name s.ctl.quota_infos ≡ some info
      → IsBalanced info
      → ((after : QuotaInfo Q) × (get t.user_name (admit_task t s).1.ctl.quota_infos ≡ some after)
          × ((after.hard_used ≡ info.hard_used) ⊎ Within after.hard after.hard_used))
        × ((user : String)
            → (t.user_name == user) ≡ false
            → get user (admit_task t s).1.ctl.quota_infos ≡ get user s.ctl.quota_infos)
  admit_task_safe t {info} s known b = elim (admit_task-Outcome t s known) [
    | refused e r c ↦ ((info, rw c known, inl refl), λ user other. rw c)
    | dropped reason made r c ↦ ((info, rw c known, inl refl), λ user other. rw c)
    | admitted job made passed r c ↦ (
      (
        Quota.add_task t info,
        rw c (quota_infos-charged t info s.ctl t.user_name ∙ rw (==_refl t.user_name)),
        add_task_safe t info b.high.distinct passed,
      ),
      λ user other. rw c (quota_infos-charged t info s.ctl user ∙ rw other),
    )
  ]
