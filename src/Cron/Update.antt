-- ===== src/Cron/Update.antt =====
-- What UpdateJobConfig of pkg/cronjob/config.go does to the row of a job and to the entries of the
-- scheduler.
use crater_backend.Prelude.{
  ◌≡◌, ◌⊎◌, refl, ap, ◌∙◌, Bool, true, false, Option, none, some, String, if◌then◌else◌, string_eq,
  Bool-cases, Option-cases, inl, inr, arith,
}
use crater_backend.Prelude.Dict.{get, get-put_self}
use crater_backend.Prelude.Int.{ℤ, pos, negsuc, eqb_ℤ}
use crater_backend.Cron.{
  CronJobConfig, get_suspend, Job, Scheduler, CronError, Change, prepare_update_config, updates,
  or_kept, filled, Cron, Added, added, refused, add_cron_job, new_cron_job_func,
  update_suspended_job_config, drop_old_entry, update_active_job_config, update_job_config,
  should_suspend_job, write_row, transact,
}

eqb_ℤ_refl : (i : ℤ) → eqb_ℤ i i ≡ true
eqb_ℤ_refl i = ground arith

eqb_ℤ_sound : (i k : ℤ) → eqb_ℤ i k ≡ true → i ≡ k
eqb_ℤ_sound (pos a) (pos b) e = ground arith
eqb_ℤ_sound (pos a) (negsuc b) e = absurd (ground arith)
eqb_ℤ_sound (negsuc a) (pos b) e = absurd (ground arith)
eqb_ℤ_sound (negsuc a) (negsuc b) e = ground arith

or_kept_twice : {A : Type 0} (a b : Option A) → or_kept (or_kept a b) b ≡ or_kept a b
or_kept_twice none none = refl
or_kept_twice none (some y) = refl
or_kept_twice (some x) b = refl

module _ {C : Type 0} (v : Scheduler C) where
  abbrev pub job : String → CronJobConfig → Job
  job name u = record { job_name = name; config = u.config }

  abbrev adding : String → CronJobConfig → C → Added v × C
  adding name u c = add_cron_job v name u.spec u.kind u.config c

  -- AddCronJob adds no entry when it refuses, and one under a fresh id otherwise.
  add_cron_job-cases :
      (name : String) (u : CronJobConfig) (c : C)
      → ((e : CronError) × ((adding name u c).0 ≡ refused e) × ((adding name u c).1 ≡ c))
        ⊎ ((i : ℤ) × ((adding name u c).0 ≡ added i)
            × (v.entry i c ≡ none)
            × (eqb_ℤ i (pos 0) ≡ false)
            × ((k : ℤ)
                → v.entry k (adding name u c).1
                  ≡ (if eqb_ℤ i k then some (job name u) else v.entry k c)))
  unfolding add_cron_job
  add_cron_job-cases name u c = elim (Option-cases (new_cron_job_func v name u.kind u.config)) [
    | inr (e, f) ↦ rw (f, add_cron_job) (inl (e, refl, refl))
    | inl f ↦
        rw (f, add_cron_job)
          (elim (Option-cases (v.add u.spec (job name u) c).0) [
            | inl g ↦ rw (g, add_cron_job) (inl (_, refl, v.add_none u.spec (job name u) c g))
            | inr (i, g) ↦
                rw (g, add_cron_job)
                  (inr (
                    i,
                    refl,
                    v.add_fresh u.spec (job name u) c g,
                    v.add_positive u.spec (job name u) c g,
                    v.entry_add u.spec (job name u) c g,
                  ))
          ])
  ]

  -- Suspending an active job takes its entry away, and its row says that it is suspended and has no
  -- entry.
  pub update_job_config-suspended :
      (name : String) (ch : Change) (s : Cron C) {cur : CronJobConfig}
      → get name s.rows ≡ some cur
      → get_suspend cur ≡ false
      → ch.suspend ≡ some true
      → let (failed, after) = update_job_config v true name ch s in
        (failed ≡ none)
        × (v.entry cur.entry_id after.entries ≡ none)
        × ((row : CronJobConfig) × (get name after.rows ≡ some row)
            × (row.suspend ≡ some true)
            × (row.entry_id ≡ negsuc 0))
  unfolding update_job_config transact update_suspended_job_config should_suspend_job updates
      prepare_update_config
  update_job_config-suspended name ch s {cur} found active suspending =
      rw (found, update_job_config, suspending, active, transact)
        (
          refl,
          v.entry_remove cur.entry_id s.entries cur.entry_id ∙ rw (eqb_ℤ_refl cur.entry_id) refl,
          (_, get-put_self name _ s.rows, rw suspending refl, refl),
        )

  Kept : Cron C → Option CronError × Cron C → Type 0
  Kept s r = (r.0 ≡ none) ⊎ (r.1.rows ≡ s.rows)

  write_row-Kept :
      (writes : Bool) (name : String) (cur u : CronJobConfig) (s : Cron C)
      → Kept s (write_row v writes name cur u s)
  unfolding write_row Kept
  write_row-Kept true name cur u s = inl refl
  write_row-Kept false name cur u s = inr refl

  update_suspended-Kept :
      (writes : Bool) (name : String) (cur u : CronJobConfig) (s : Cron C)
      → Kept s (update_suspended_job_config v writes name cur u s)
  unfolding update_suspended_job_config Kept
  update_suspended-Kept true name cur u s = inl refl
  update_suspended-Kept false name cur u s = inr refl

  update_active-Kept :
      (writes : Bool) (name : String) (cur u : CronJobConfig) (s : Cron C)
      → Kept s (update_active_job_config v writes name cur u s)
  unfolding update_active_job_config Kept
  update_active-Kept writes name cur u s =
      elim (add_cron_job-cases name u (drop_old_entry v cur u s.entries)) [
        | inl (e, f, _) ↦ rw (f, update_active_job_config) (inr refl)
        | inr (i, f, _, _, _) ↦
            rw (f, update_active_job_config)
              (elim (Bool-cases writes) [ inl g ↦ rw g (inl refl) | inr g ↦ rw g (inr refl) ])
      ]

  transact-Kept :
      (writes : Bool) (name : String) (cur u : CronJobConfig) (suspend : Option Bool) (s : Cron C)
      → Kept s (transact v writes name cur u suspend s)
  unfolding transact
  transact-Kept writes name cur u none s = write_row-Kept writes name cur u s
  transact-Kept writes name cur u (some false) s = update_active-Kept writes name cur u s
  transact-Kept writes name cur u (some true) s =
      elim (Bool-cases (should_suspend_job (get_suspend cur) true)) [
        | inl e ↦ rw e (update_suspended-Kept writes name cur u s)
        | inr e ↦ rw e (write_row-Kept writes name cur u s)
      ]

  update_job_config-Kept :
      (writes : Bool) (name : String) (ch : Change) (s : Cron C)
      → Kept s (update_job_config v writes name ch s)
  unfolding update_job_config Kept
  update_job_config-Kept writes name ch s = elim (Option-cases (get name s.rows)) [
    | inl e ↦ rw (e, update_job_config) (inr refl)
    | inr (cur, e) ↦
        rw (e, update_job_config)
          (transact-Kept writes name cur (prepare_update_config cur ch) ch.suspend s)
  ]

  -- Whatever fails, an error leaves the rows as they were.
  pub update_job_config-failed :
      (writes : Bool) (name : String) (ch : Change) (s : Cron C) (e : CronError)
      → (update_job_config v writes name ch s).0 ≡ some e
      → (update_job_config v writes name ch s).1.rows ≡ s.rows
  unfolding Kept
  update_job_config-failed writes name ch s e h = elim (update_job_config-Kept writes name ch s) [
    | inl f ↦ absurd (ground arith)
    | inr f ↦ f
  ]

  drop_old_entry-active :
      (cur u : CronJobConfig) (c : C) → get_suspend cur ≡ false → drop_old_entry v cur u c ≡ c
  unfolding drop_old_entry
  drop_old_entry-active cur u c e = rw e refl

  -- What a job has after an update that sets it active: a row that names a new entry, which runs
  -- the job as it is now configured, next to every entry that there was.
  abbrev pub Doubled : String → Cron C → Cron C → Type 0
  Doubled name before after =
      (row : CronJobConfig) × (get name after.rows ≡ some row)
      × (v.entry row.entry_id before.entries ≡ none)
      × (v.entry row.entry_id after.entries ≡ some (job name row))
      × ((k : ℤ) (j : Job) → v.entry k before.entries ≡ some j → v.entry k after.entries ≡ some j)

  update_active-Doubled :
      (name : String) (ch : Change) (cur : CronJobConfig) (s : Cron C)
      → get_suspend cur ≡ false
      → let r = update_active_job_config v true name cur (prepare_update_config cur ch) s in
        r.0 ≡ none → Doubled name s r.1
  unfolding update_active_job_config updates prepare_update_config
  update_active-Doubled name ch cur s active done =
      let u = prepare_update_config cur ch in
      let c = drop_old_entry v cur u s.entries in
      let same = drop_old_entry-active cur u s.entries active in
      elim (add_cron_job-cases name u c) [
        | inl (e, f, _) ↦
            let failed : (update_active_job_config v true name cur u s).0 ≡ some e =
              rw (f, update_active_job_config) refl in
            absurd (ground arith)
        | inr (i, f, fresh, positive, entries) ↦
            let fresh_id : v.entry i s.entries ≡ none = rw same at fresh in
            rw (f, update_active_job_config)
              (
                _,
                get-put_self name _ s.rows,
                rw positive fresh_id,
                rw positive (
                    entries i
                    ∙ rw (eqb_ℤ_refl i, or_kept_twice (filled ch.config) cur.config) refl),
                λ k j g. entries k ∙ elim (Bool-cases (eqb_ℤ i k)) [
                  | inl h ↦
                      let equal : i ≡ k = eqb_ℤ_sound i k h in
                      let none_there : v.entry k s.entries ≡ none = rw equal at fresh_id in
                      absurd (ground arith)
                  | inr h ↦ rw (h, same) g
                ],
              )
      ]

  -- Setting a job active that is not suspended, its write succeeding, gives it a second entry: the
  -- row names a new entry, which runs the job as it is now configured, and every entry that there
  -- was, its old one among them, still runs.
  pub update_active-leaks :
      (name : String) (ch : Change) (s : Cron C) {cur : CronJobConfig}
      → get name s.rows ≡ some cur
      → get_suspend cur ≡ false
      → ch.suspend ≡ some false
      → (update_job_config v true name ch s).0 ≡ none
      → Doubled name s (update_job_config v true name ch s).1
  unfolding update_job_config transact
  update_active-leaks name ch s {cur} found active resuming done =
      let same : update_job_config v true name ch s
          ≡ update_active_job_config v true name cur (prepare_update_config cur ch) s =
        rw (found, update_job_config) refl
        ∙ ap (λ x. transact v true name cur (prepare_update_config cur ch) x s) resuming in
      let ended : (update_active_job_config v true name cur (prepare_update_config cur ch) s).0
          ≡ none =
        rw same at done in
      rw same (update_active-Doubled name ch cur s active ended)
