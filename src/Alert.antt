-- ===== src/Alert.antt =====
-- pkg/alert/alert.go, and allowRepeatAlert of pkg/cleaner/low_gpu_usage.go: mails about jobs, sent
-- once for each job and type of mail unless the record of the mail allows a repetition. The mails
-- sent are the state of the mail server; the texts of the mails are not modelled. What may fail on
-- the way is an argument of each call.
pub mod Once
use crater_backend.Prelude.{
  ℕ, ◌+◌, ◌*◌, Bool, true, false, not, Option, none, some, List, [], ◌∷◌, String, if◌then◌else◌,
  ltb,
}
use crater_backend.Prelude.Int.{ℤ, pos, ◌-ℤ◌, ltb_ℤ}

-- AlertType of dao/model/const_string.go, the types of job mails.
pub data AlertType : Type 0 where
  job_running_alert job_failed_alert job_completed_alert : AlertType
  low_gpu_job_reminded_alert low_gpu_job_deleted_alert : AlertType
  long_time_job_reminded_alert long_time_job_deleted_alert : AlertType

-- model.Alert, for one job and one type.
pub record Alert : Type 0 where
  pub allow_repeat : Bool
  pub alert_timestamp : ℤ
  pub send_count : ℕ

-- The parts of JobInformation that decide whether a mail is sent.
pub record JobInformation : Type 0 where
  pub creation_timestamp : ℤ
  pub running_timestamp : ℤ

-- What a call meets: the error of alertMgr, the answer of the query for the job, and whether the
-- record is read, the mail sent and the record written.
pub record Faults : Type 0 where
  pub initialized : Bool
  pub job : Option JobInformation
  pub reads : Bool
  pub sends : Bool
  pub writes : Bool
  pub now : ℤ

pub data AlertError : Type 0 where
  not_initialized job_query_failed record_query_failed send_failed write_failed record_not_found :
      AlertError

-- The record of one job and one type of mail, and how many mails of that type went out for the job.
pub record Mailbox : Type 0 where
  pub record_of : Option Alert
  pub sent : ℕ

abbrev pub ends : {A : Type 0} → A → Mailbox → Option A × Mailbox
ends e m = (some e, m)

-- The record that is written after a mail: a new one, or the old one counted up.
abbrev pub next_record : ℤ → Option Alert → Alert
next_record now none = record { allow_repeat = false; alert_timestamp = now; send_count = 1 }
next_record now (some r) = record {
  allow_repeat = false;
  alert_timestamp = now;
  send_count = r.send_count + 1;
}

-- Whether the mail went out before and may not be repeated.
abbrev pub already_sent : Option Alert → Bool
already_sent none = false
already_sent (some r) = not r.allow_repeat

-- The mail, and the record of it.
unfoldable pub deliver : Faults → Mailbox → Option AlertError × Mailbox
deliver f m =
    if f.sends
    then (if f.writes
        then (none, record { record_of = some (next_record f.now m.record_of); sent = m.sent + 1 })
        else (some write_failed, record m { sent = m.sent + 1 }))
    else (some send_failed, m)

-- sendJobNotification on the mailbox of its job and type, with the job's condition.
unfoldable pub send_job_notification :
    (JobInformation → Bool) → Faults → Mailbox → Option AlertError × Mailbox
unfolding deliver
send_job_notification condition f m =
    if not f.initialized then ends not_initialized m else elim f.job [
      | none ↦ ends job_query_failed m
      | some info ↦
          if not (condition info)
          then (none, m)
          else if not f.reads
          then ends record_query_failed m
          else if already_sent m.record_of
          then (none, m)
          else deliver f m
    ]

abbrev pub ten_minutes : ℤ
ten_minutes = pos 600000000000

-- The condition of JobRunningAlert; no other mail has one.
unfoldable pub waited_long : JobInformation → Bool
waited_long info = ltb_ℤ ten_minutes (info.running_timestamp -ℤ info.creation_timestamp)

abbrev pub always : JobInformation → Bool
always info = true

-- The methods of the alert manager that mail about a job.
pub data Mail : Type 0 where
  job_running job_failure job_complete : Mail
  delete_job clean_job remind_low_usage_job remind_long_time_running_job : Mail

-- The type under which each of them records its mail.
unfoldable pub alert_type : Mail → AlertType
alert_type job_running = job_running_alert
alert_type job_failure = job_failed_alert
alert_type job_complete = job_completed_alert
alert_type delete_job = low_gpu_job_deleted_alert
alert_type clean_job = long_time_job_deleted_alert
alert_type remind_low_usage_job = low_gpu_job_reminded_alert
alert_type remind_long_time_running_job = long_time_job_reminded_alert

-- The condition under which it sends it.
unfoldable pub condition_of : Mail → JobInformation → Bool
unfolding waited_long
condition_of job_running = waited_long
condition_of job_failure = always
condition_of job_complete = always
condition_of delete_job = always
condition_of clean_job = always
condition_of remind_low_usage_job = always
condition_of remind_long_time_running_job = always

-- A call of one of them, on the mailboxes of one job by the types of their mails.
unfoldable pub mail : Mail → Faults → (AlertType → Mailbox) → Option AlertError × Mailbox
unfolding send_job_notification condition_of alert_type
mail kind f boxes = send_job_notification (condition_of kind) f (boxes (alert_type kind))

-- allowRepeatAlert of the cleaner, with whether its read and its write succeed.
unfoldable pub allow_repeat_alert : Bool → Bool → Mailbox → Option AlertError × Mailbox
allow_repeat_alert reads writes m = if not reads then (none, m) else elim m.record_of [
  | none ↦ (some record_not_found, m)
  | some r ↦
      if writes
      then (none, record m { record_of = some (record r { allow_repeat = true }) })
      else (some write_failed, m)
]
