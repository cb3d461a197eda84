-- ===== src/Reconciler/Settled.antt =====
-- What Reconcile of pkg/reconciler/vcjob-reconciler.go leaves of a job's row, and which mails it asks
-- for.
use crater_backend.Prelude.{
  ◌≡◌, refl, ◌∙◌, Bool, true, false, not, ◌&&◌, some, List, [], ◌∷◌, String, if◌then◌else◌, ◌==◌,
  nat_eq, string_eq, is_none, Bool-cases, inl, inr, arith,
}
use crater_backend.Alert.{Mail}
use crater_backend.Reconciler.{
  JobRow, VcJob, present, absent, Surroundings, Reconciled, is_terminal, job_gone, change_mails,
  update_row, write_status, collect_ended, job_present, reconcile_gone, reconcile, freed, running,
  failed, completed, profile_text,
}

-- A row of a job that is gone, once it is settled: it is in a terminal status and has its profile.
abbrev pub IsSettled : JobRow → Type 0
IsSettled row = (is_terminal row.status ≡ true) × (is_none row.profile_data ≡ false)

-- A settled row stays as it is in a call for a job that is gone, whether its write would succeed or
-- not.
reconcile_settled :
    (env : Surroundings) (row : JobRow)
    → env.reads ≡ true
    → IsSettled row
    → reconcile env absent (some row) ≡ (false, [], some row)
unfolding reconcile reconcile_gone job_gone
reconcile_settled env row reads (e, f) = rw (reads, e, f) refl

-- If the job is gone from the cluster and the query and the write succeed, its row is settled
-- afterwards and the request is not queued again. A terminal status and its time stay as they
-- were; any other becomes Freed, with the present time. A later call whose query succeeds leaves the
-- row as it is.
pub reconcile_settles :
    (env later : Surroundings) (row : JobRow)
    → env.reads ≡ true
    → env.writes ≡ true
    → later.reads ≡ true
    → (after : JobRow) × (reconcile env absent (some row) ≡ (false, [], some after))
      × IsSettled after
      × (after.status ≡ (if is_terminal row.status then row.status else freed))
      × (after.completed_timestamp
          ≡ (if is_terminal row.status then row.completed_timestamp else env.now))
      × (reconcile later absent (some after) ≡ (false, [], some after))
unfolding reconcile_gone job_gone
reconcile_settles env later row reads writes again =
    let profiled = record row { profile_data = some (profile_text env.profile) } in
    elim (Bool-cases (is_terminal row.status)) [
      | inr e ↦
          let released = record profiled { status = freed; completed_timestamp = env.now } in
          let settled : IsSettled released = (unfold is_terminal in refl, refl) in
          (
            released,
            unfold reconcile in rw (reads, e, writes) refl,
            settled,
            rw e refl,
            rw e refl,
            reconcile_settled later released again settled,
          )
      | inl e ↦ elim (Bool-cases (is_none row.profile_data)) [
        | inl f ↦ (
          profiled,
          unfold reconcile in rw (reads, e, f, writes) refl,
          (e, refl),
          rw e refl,
          rw e refl,
          reconcile_settled later profiled again (e, refl),
        )
        | inr f ↦ (
          row,
          unfold reconcile in rw (reads, e, f) refl,
          (e, f),
          rw e refl,
          rw e refl,
          reconcile_settled later row again (e, f),
        )
      ]
    ]

and_not_self : (b : Bool) → (b && not b) ≡ false
and_not_self true = refl
and_not_self false = refl

if_both : (b : Bool) (x : List Mail) → (if b then x else x) ≡ x
if_both true x = refl
if_both false x = refl

if-no_mails : (b : Bool) (x y : Reconciled) → x.1 ≡ [] → y.1 ≡ [] → (if b then x else y).1 ≡ []
if-no_mails true x y p q = p
if-no_mails false x y p q = q

change_mails-same :
    (job : VcJob) (row : JobRow) → row.status ≡ job.phase → change_mails job row ≡ []
unfolding change_mails
change_mails-same job row same =
    rw
      (
        same,
        and_not_self (job.phase == running),
        and_not_self (job.phase == failed),
        and_not_self (job.phase == completed),
        if_both row.alert_enabled [],
      )
      refl

collect_ended-status :
    (env : Surroundings) (job : VcJob) (old row : JobRow)
    → (collect_ended env job old row).status ≡ row.status
unfolding collect_ended
collect_ended-status env job old row = ground arith

if-status :
    (b : Bool) (x y : JobRow) (s : String)
    → x.status ≡ s
    → y.status ≡ s
    → (if b then x else y).status ≡ s
if-status true x y s p q = p
if-status false x y s p q = q

write_status-status :
    (job : VcJob) (row : JobRow)
    → (job.phase == "") ≡ false
    → (write_status job row).status ≡ job.phase
unfolding write_status
write_status-status job row phase = rw phase refl

update_row-status :
    (env : Surroundings) (job : VcJob) (row : JobRow)
    → (job.phase == "") ≡ false
    → (update_row env job row).status ≡ job.phase
unfolding update_row
update_row-status env job row phase =
    elim job.running_nodes
      as (λ nodes. (update_row env (record job { running_nodes = nodes }) row).status ≡ job.phase) [
        | [] ↦
            let idle = record job { running_nodes = [] } in
            let written = write_status-status idle row phase in
            if-status _ _ _ _ written
              (collect_ended-status env idle row (write_status idle row) ∙ written)
        | node ∷ rest ↦
            let placed =
              write_status-status (record job { running_nodes = node ∷ rest }) row phase in
            if-status (job.phase == running) _ _ _ placed placed
      ]

module _ (env : Surroundings) (job : VcJob) (row : JobRow) where
  -- A call for a job whose phase the row already has asks for no mail, whatever it reads and whether
  -- its queries and its write succeed or not.
  pub reconcile_no_repeat : row.status ≡ job.phase → (reconcile env (present job) (some row)).1 ≡ []
  unfolding reconcile job_present change_mails
  reconcile_no_repeat same =
      if-no_mails env.reads _ _
        (if-no_mails env.writes _ _ (change_mails-same job row same)
          (change_mails-same job row same))
        refl

  -- After a call whose query and write succeed, the row has the phase of the job, if the job has one,
  -- so that a second call for the same job asks for no mail.
  pub reconcile_mails_once :
      env.reads ≡ true
      → env.writes ≡ true
      → (job.phase == "") ≡ false
      → (after : JobRow) × (reconcile env (present job) (some row)
          ≡ (false, change_mails job row, some after))
        × (after.status ≡ job.phase)
        × ((reconcile env (present job) (some after)).1 ≡ [])
  unfolding reconcile job_present
  reconcile_mails_once reads writes phase =
      let stays = update_row-status env job row phase in
      rw (reads, writes)
        (update_row env job row, refl, stays, change_mails-same job (update_row env job row) stays)
