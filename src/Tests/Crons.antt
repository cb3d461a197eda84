-- ===== src/Tests/Crons.antt =====
-- Runs of the cron jobs of pkg/cronjob, on a scheduler that counts its ids up.
use crater_backend.Prelude.{
  ℕ, suc, ◌≡◌, refl, Bool, true, false, Option, none, some, [], ◌∷◌, String, string_eq, ◌==◌, arith,
  leb, if◌then◌else◌, Bool-cases, inl, inr,
}
use crater_backend.Prelude.Dict.{get}
use crater_backend.Prelude.Int.{ℤ, pos, negsuc, eqb_ℤ}
use crater_backend.Cron.{
  CronJobConfig, Job, Scheduler, Change, Cron, update_job_config, transact,
  update_active_job_config, add_cron_job, new_cron_job_func, drop_old_entry, prepare_update_config,
}
use crater_backend.Cron.Update.{Doubled, update_active-leaks}

-- The entries by their ids, and the last id given.
abbrev Entries : Type 0
Entries = (ℤ → Option Job) × ℕ

abbrev entry_of : ℤ → Entries → Option Job
entry_of (pos k) c = if leb k c.1 then c.0 (pos k) else none
entry_of (negsuc k) c = none

abbrev with_entry : Job → Entries → Entries
with_entry j c = ((λ k. if eqb_ℤ (pos (suc c.1)) k then some j else entry_of k c), suc c.1)

abbrev without_entry : ℤ → Entries → Entries
without_entry i c = ((λ k. if eqb_ℤ i k then none else entry_of k c), c.1)

abbrev add_entry : String → Job → Entries → Option ℤ × Entries
add_entry spec j c = if spec == "" then (none, c) else (some (pos (suc c.1)), with_entry j c)

entry-with_entry :
    (j : Job) (c : Entries) (k : ℤ)
    → entry_of k (with_entry j c) ≡ (if eqb_ℤ (pos (suc c.1)) k then some j else entry_of k c)
entry-with_entry j c (pos k) = ground arith
entry-with_entry j c (negsuc k) = ground arith

entry-without_entry :
    (i : ℤ) (c : Entries) (k : ℤ)
    → entry_of k (without_entry i c) ≡ (if eqb_ℤ i k then none else entry_of k c)
entry-without_entry i c (pos k) = ground arith
entry-without_entry i c (negsuc k) = ground arith

-- An entry that was added has the next id.
add_entry-next :
    (spec : String) (j : Job) (c : Entries) {i : ℤ}
    → (add_entry spec j c).0 ≡ some i
    → (i ≡ pos (suc c.1)) × ((add_entry spec j c).1 ≡ with_entry j c)
add_entry-next spec j c {i} h = elim (Bool-cases (spec == "")) [
  | inl e ↦ absurd (ground arith)
  | inr e ↦ rw e (ground arith, refl)
]

refused_add :
    (spec : String) (j : Job) (c : Entries)
    → (add_entry spec j c).0 ≡ none
    → (add_entry spec j c).1 ≡ c
refused_add spec j c h = elim (Bool-cases (spec == "")) [
  | inl e ↦ rw e refl
  | inr e ↦ absurd (ground arith)
]

fresh_id : (c : Entries) {i : ℤ} → i ≡ pos (suc c.1) → entry_of i c ≡ none
fresh_id c {i} e = rw e (ground arith)

positive_id : (c : Entries) {i : ℤ} → i ≡ pos (suc c.1) → eqb_ℤ i (pos 0) ≡ false
positive_id c {i} e = rw e (ground arith)

abbrev counting : Scheduler Entries
counting = record {
  add = add_entry;
  remove = without_entry;
  entry = entry_of;
  valid_config = λ name config. true;
  add_none = λ spec j c h. refused_add spec j c h;
  add_fresh = λ spec j c {i} h. fresh_id c (add_entry-next spec j c h).0;
  add_positive = λ spec j c {i} h. positive_id c (add_entry-next spec j c h).0;
  entry_add = λ spec j c {i} h k.
      let (id, after) = add_entry-next spec j c h in rw (after, id) (entry-with_entry j c k);
  entry_remove = λ i c k. entry-without_entry i c k;
}

abbrev daily : CronJobConfig
daily = record {
  name = "clean-long-time-job";
  kind = "cleaner_function";
  spec = "0 0 * * *";
  suspend = some false;
  config = some "{}";
  entry_id = pos 1;
}

abbrev before : Cron Entries
before = record {
  rows = ("clean-long-time-job", daily) ∷ [];
  entries =
      with_entry (record { job_name = "clean-long-time-job"; config = some "{}" }) ((λ k. none), 0);
}

abbrev set_suspend : Bool → Change
set_suspend b = record { kind = none; spec = none; suspend = some b; config = none }

found : get "clean-long-time-job" before.rows ≡ some daily
unfolding get
found = refl

update_active-leaks_example :
    Doubled counting "clean-long-time-job" before
      (update_job_config counting true "clean-long-time-job" (set_suspend false) before).1
unfolding get update_job_config transact update_active_job_config add_cron_job new_cron_job_func
    drop_old_entry prepare_update_config
update_active-leaks_example =
    update_active-leaks counting "clean-long-time-job" (set_suspend false) before refl refl refl
      refl
