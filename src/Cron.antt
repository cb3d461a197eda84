-- ===== src/Cron.antt =====
-- pkg/cronjob/config.go: the configurations of the cron jobs in the database, and the entries of the
-- scheduler that run them. The mutex of the manager makes each operation one step, and a failed
-- transaction leaves the row as it was; the entries are not rolled back.
pub mod Update
use crater_backend.Prelude.{
  ℕ, ◌≡◌, Bool, true, false, not, ◌&&◌, ◌||◌, Option, none, some, List, [], ◌∷◌, String,
  if◌then◌else◌, ◌==◌, string_eq, Eq, is_some,
}
use crater_backend.Prelude.Dict.{Dict, get, put}
use crater_backend.Prelude.Int.{ℤ, pos, negsuc, eqb_ℤ}

-- model.CronJobConfig: a configuration of `none` and a suspension of `none` are nil.
pub record CronJobConfig : Type 0 where
  pub name : String
  pub kind : String
  pub spec : String
  pub suspend : Option Bool
  pub config : Option String
  pub entry_id : ℤ

-- GetSuspend of dao/model/cron_job.go
abbrev pub get_suspend : CronJobConfig → Bool
get_suspend c = elim c.suspend [ none ↦ false | some b ↦ b ]

-- What an entry runs: the cleaner of a name with its configuration.
pub record Job : Type 0 where
  pub job_name : String
  pub config : Option String

abbrev pub cleaner_func_type : String
cleaner_func_type = "cleaner_function"

-- The scheduler of robfig/cron: `add` refuses a specification that it cannot parse, and gives each
-- entry an id from 1 on that no entry has; `remove` of an id that no entry has does nothing. `valid_config`
-- says whether the configuration of a cleaner is read by GetWrapCleanerFunc.
pub record Scheduler (C : Type 0) : Type 0 where
  pub add : String → Job → C → Option ℤ × C
  pub remove : ℤ → C → C
  pub entry : ℤ → C → Option Job
  pub valid_config : String → Option String → Bool
  pub add_none : (spec : String) (j : Job) (c : C) → (add spec j c).0 ≡ none → (add spec j c).1 ≡ c
  pub add_fresh :
      (spec : String) (j : Job) (c : C) {i : ℤ} → (add spec j c).0 ≡ some i → entry i c ≡ none
  pub add_positive :
      (spec : String) (j : Job) (c : C) {i : ℤ}
      → (add spec j c).0 ≡ some i
      → eqb_ℤ i (pos 0) ≡ false
  pub entry_add :
      (spec : String) (j : Job) (c : C) {i : ℤ}
      → (add spec j c).0 ≡ some i
      → (k : ℤ) → entry k (add spec j c).1 ≡ (if eqb_ℤ i k then some j else entry k c)
  pub entry_remove :
      (i : ℤ) (c : C) (k : ℤ) → entry k (remove i c) ≡ (if eqb_ℤ i k then none else entry k c)

pub data CronError : Type 0 where
  not_found unsupported_type bad_config bad_spec write_failed : CronError

-- The changes that a call of UpdateJobConfig asks for, nil where it asks for none.
pub record Change : Type 0 where
  pub kind : Option String
  pub spec : Option String
  pub suspend : Option Bool
  pub config : Option String

abbrev pub or_else : {A : Type 0} → Option A → A → A
or_else none a = a
or_else (some b) a = b

-- A text that is nil or empty changes nothing.
abbrev pub filled : Option String → Option String
filled none = none
filled (some s) = if s == "" then none else some s

abbrev pub or_kept : {A : Type 0} → Option A → Option A → Option A
or_kept none a = a
or_kept (some b) a = some b

-- The update has no id of an entry yet, which is 0.
unfoldable pub prepare_update_config : CronJobConfig → Change → CronJobConfig
prepare_update_config cur ch = record {
  name = cur.name;
  kind = or_else ch.kind cur.kind;
  spec = or_else (filled ch.spec) cur.spec;
  suspend = or_kept ch.suspend cur.suspend;
  config = or_kept (filled ch.config) cur.config;
  entry_id = pos 0;
}

-- `Updates` of gorm writes the fields that are not zero.
unfoldable pub updates : CronJobConfig → CronJobConfig → CronJobConfig
updates row u = record {
  name = if u.name == "" then row.name else u.name;
  kind = if u.kind == "" then row.kind else u.kind;
  spec = if u.spec == "" then row.spec else u.spec;
  suspend = or_kept u.suspend row.suspend;
  config = or_kept u.config row.config;
  entry_id = if eqb_ℤ u.entry_id (pos 0) then row.entry_id else u.entry_id;
}

unfoldable pub should_suspend_job : Bool → Bool → Bool
should_suspend_job was_suspended suspend = not was_suspended && suspend

unfoldable pub config_changed : Option String → Option String → Bool
config_changed old none = false
config_changed none (some s) = not (s == "")
config_changed (some r) (some s) = not (r == s)

unfoldable pub job_needs_update : CronJobConfig → CronJobConfig → Bool
unfolding config_changed
job_needs_update cur u =
    not (cur.kind == u.kind) || (not (cur.spec == u.spec) || config_changed cur.config u.config)

-- The table and the scheduler.
pub record Cron (C : Type 0) : Type 0 where
  pub rows : Dict String CronJobConfig
  pub entries : C

module _ {C : Type 0} (v : Scheduler C) where
  unfoldable pub new_cron_job_func : String → String → Option String → Option CronError
  new_cron_job_func name kind config =
      if kind == cleaner_func_type
      then (if v.valid_config name config then none else some bad_config)
      else some unsupported_type

  -- The id of the new entry, or the error.
  pub data Added : Type 0 where
    added : ℤ → Added
    refused : CronError → Added

  unfoldable pub add_cron_job : String → String → String → Option String → C → Added × C
  unfolding new_cron_job_func
  add_cron_job name spec kind config c = elim (new_cron_job_func name kind config) [
    | some e ↦ (refused e, c)
    | none ↦
        let (id, c') = v.add spec (record { job_name = name; config = config }) c in
        elim id [ none ↦ (refused bad_spec, c') | some i ↦ (added i, c') ]
  ]

  -- The write of the row, then the removal of its entry.
  unfoldable pub update_suspended_job_config :
      Bool → String → CronJobConfig → CronJobConfig → Cron C → Option CronError × Cron C
  unfolding updates
  update_suspended_job_config writes name cur u s =
      if writes
      then (
        none,
        record {
          rows = put name (updates cur (record u { entry_id = negsuc 0 })) s.rows;
          entries = v.remove cur.entry_id s.entries;
        },
      )
      else (some write_failed, s)

  -- The entry that is taken away before a new one is added.
  unfoldable pub drop_old_entry : CronJobConfig → CronJobConfig → C → C
  unfolding job_needs_update
  drop_old_entry cur u c =
      if get_suspend cur then (if job_needs_update cur u then v.remove cur.entry_id c else c) else c

  unfoldable pub update_active_job_config :
      Bool → String → CronJobConfig → CronJobConfig → Cron C → Option CronError × Cron C
  unfolding drop_old_entry add_cron_job updates
  update_active_job_config writes name cur u s =
      let (id, c) = add_cron_job name u.spec u.kind u.config (drop_old_entry cur u s.entries) in
      elim id [
        | refused e ↦ (some e, record s { entries = c })
        | added i ↦
            if writes
            then (
              none,
              record {
                rows = put name (updates cur (record u { entry_id = i })) s.rows;
                entries = c;
              },
            )
            else (some write_failed, record s { entries = v.remove i c })
      ]

  -- The last step of the transaction, which writes the row only.
  unfoldable pub write_row :
      Bool → String → CronJobConfig → CronJobConfig → Cron C → Option CronError × Cron C
  unfolding updates
  write_row writes name cur u s =
      if writes
      then (none, record s { rows = put name (updates cur u) s.rows })
      else (some write_failed, s)

  -- The transaction of UpdateJobConfig after its read, by the suspension that is asked for.
  unfoldable pub transact :
      Bool
      → String
      → CronJobConfig
      → CronJobConfig
      → Option Bool
      → Cron C
      → Option CronError × Cron C
  unfolding update_suspended_job_config update_active_job_config should_suspend_job write_row
  transact writes name cur u none s = write_row writes name cur u s
  transact writes name cur u (some true) s =
      if should_suspend_job (get_suspend cur) true
      then update_suspended_job_config writes name cur u s
      else write_row writes name cur u s
  transact writes name cur u (some false) s = update_active_job_config writes name cur u s

  -- UpdateJobConfig, with whether its write succeeds. A read that fails finds no row.
  unfoldable pub update_job_config : Bool → String → Change → Cron C → Option CronError × Cron C
  unfolding prepare_update_config transact
  update_job_config writes name ch s = elim (get name s.rows) [
    | none ↦ (some not_found, s)
    | some cur ↦ transact writes name cur (prepare_update_config cur ch) ch.suspend s
  ]

  -- The loop of SyncCronJob over the configurations that are not suspended; a write that fails
  -- leaves the row.
  unfoldable pub sync_rows : Bool → List CronJobConfig → Cron C → Cron C
  unfolding add_cron_job
  sync_rows writes [] s = s
  sync_rows writes (conf ∷ confs) s =
      let (id, c) = add_cron_job conf.name conf.spec conf.kind conf.config s.entries in
      sync_rows writes confs (elim id [
        | refused e ↦ record s { entries = c }
        | added i ↦
            if not (eqb_ℤ i conf.entry_id) && writes
            then record { rows = put conf.name (record conf { entry_id = i }) s.rows; entries = c }
            else record s { entries = c }
      ])

  unfoldable pub active_rows : Dict String CronJobConfig → List CronJobConfig
  active_rows [] = []
  active_rows ((name, conf) ∷ rows) =
      let rest = active_rows rows in if get_suspend conf then rest else conf ∷ rest

  -- SyncCronJob, with whether its read and its writes succeed.
  unfoldable pub sync_cron_job : Bool → Bool → Cron C → Cron C
  unfolding sync_rows active_rows
  sync_cron_job reads writes s = if reads then sync_rows writes (active_rows s.rows) s else s
