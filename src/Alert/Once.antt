-- ===== src/Alert/Once.antt =====
-- How often sendJobNotification of pkg/alert/alert.go mails about one job and one type.
use crater_backend.Prelude.{
  ℕ, ◌+◌, ◌≡◌, ◌≤◌, ◌⊎◌, refl, Bool, true, false, Option, none, some, List, [], ◌∷◌, if◌then◌else◌,
  Bool-cases, Option-cases, inl, inr, arith,
}
use crater_backend.Prelude.Int.{ℤ}
use crater_backend.Alert.{
  Alert, Mail, JobInformation, Faults, Mailbox, next_record, already_sent, deliver,
  send_job_notification, allow_repeat_alert, condition_of,
}

-- What happens to the mailbox of one kind of mail about one job: a call that sends its mail, or one that allows a repetition.
pub data Call : Type 0 where
  notify : Faults → Call
  allow : Bool → Bool → Call

abbrev pub after : Mail → Call → Mailbox → Mailbox
after kind (notify f) m = (send_job_notification (condition_of kind) f m).1
after kind (allow reads writes) m = (allow_repeat_alert reads writes m).1

abbrev pub run : Mail → List Call → Mailbox → Mailbox
run kind [] m = m
run kind (c ∷ cs) m = run kind cs (after kind c m)

-- The calls that allow a repetition.
abbrev pub allowed : List Call → ℕ
allowed [] = 0
allowed (notify f ∷ cs) = allowed cs
allowed (allow reads writes ∷ cs) = 1 + allowed cs

-- No call fails to write the record of a mail that it has sent.
abbrev pub Recorded : List Call → Type 0
Recorded [] = Unit
Recorded (notify f ∷ cs) = (f.writes ≡ true) × Recorded cs
Recorded (allow reads writes ∷ cs) = Recorded cs

-- How many more mails a record lets through.
abbrev pub credit : Option Alert → ℕ
credit none = 1
credit (some r) = if r.allow_repeat then 1 else 0

abbrev pub mailed : Faults → Mailbox → Mailbox
mailed f m = record { record_of = some (next_record f.now m.record_of); sent = m.sent + 1 }

-- A call that writes its record changes nothing, or sends a mail that may go out.
notify-effect :
    (condition : JobInformation → Bool) (f : Faults) (m : Mailbox)
    → f.writes ≡ true
    → ((send_job_notification condition f m).1 ≡ m)
      ⊎ ((already_sent m.record_of ≡ false)
          × ((send_job_notification condition f m).1 ≡ mailed f m))
unfolding send_job_notification deliver
notify-effect condition f m w = elim (Bool-cases f.initialized) [
  | inr e ↦ rw e (inl refl)
  | inl e ↦ rw e (elim (Option-cases f.job) [
    | inl g ↦ rw (g, send_job_notification) (inl refl)
    | inr (info, g) ↦
        rw (g, send_job_notification)
          (elim (Bool-cases (condition info)) [
            | inr h ↦ rw h (inl refl)
            | inl h ↦ rw h (elim (Bool-cases f.reads) [
              | inr i ↦ rw i (inl refl)
              | inl i ↦ rw i (elim (Bool-cases (already_sent m.record_of)) [
                | inl k ↦ rw k (inl refl)
                | inr k ↦ rw k (elim (Bool-cases f.sends) [
                  | inl j ↦ rw (j, w) (inr (refl, refl))
                  | inr j ↦ rw j (inl refl)
                ])
              ])
            ])
          ])
  ])
]

abbrev pub repeatable : Alert → Mailbox → Mailbox
repeatable r m = record m { record_of = some (record r { allow_repeat = true }) }

allow-effect :
    (reads writes : Bool) (m : Mailbox)
    → ((allow_repeat_alert reads writes m).1 ≡ m)
      ⊎ ((r : Alert) × (m.record_of ≡ some r)
          × ((allow_repeat_alert reads writes m).1 ≡ repeatable r m))
unfolding allow_repeat_alert
allow-effect false writes m = inl refl
allow-effect true true m = elim (Option-cases m.record_of) [
  | inl e ↦ simp (e, allow_repeat_alert) (inl refl)
  | inr (r, e) ↦ simp (e, allow_repeat_alert) (inr (r, refl, refl))
]
allow-effect true false m = elim (Option-cases m.record_of) [
  | inl e ↦ simp (e, allow_repeat_alert) (inl refl)
  | inr (r, e) ↦ simp (e, allow_repeat_alert) (inl refl)
]

abbrev pub budget : Mailbox → ℕ
budget m = m.sent + credit m.record_of

notify-budget :
    (condition : JobInformation → Bool) (f : Faults) (m : Mailbox)
    → f.writes ≡ true
    → budget (send_job_notification condition f m).1 ≤ budget m
notify-budget condition f m w = elim (notify-effect condition f m w) [
  | inl e ↦ rw e (omega arith)
  | inr (fresh, e) ↦ rw e (elim (Option-cases m.record_of) [
    | inl g ↦ rw g (omega arith)
    | inr (r, g) ↦
        let allowing : r.allow_repeat ≡ true = ground arith in rw (g, allowing) (omega arith)
  ])
]

allow-budget :
    (reads writes : Bool) (m : Mailbox)
    → budget (allow_repeat_alert reads writes m).1 ≤ budget m + 1
allow-budget reads writes m = elim (allow-effect reads writes m) [
  | inl e ↦ rw e (omega arith)
  | inr (r, g, e) ↦ rw e (omega arith)
]

run-budget :
    (kind : Mail) (cs : List Call) (m : Mailbox)
    → Recorded cs
    → budget (run kind cs m) ≤ budget m + allowed cs
run-budget kind [] m r = omega arith
run-budget kind (notify f ∷ cs) m r = omega (
  arith,
  run-budget kind cs (after kind (notify f) m) r.1,
  notify-budget (condition_of kind) f m r.0,
)
run-budget kind (allow reads writes ∷ cs) m r =
    omega
      (arith, run-budget kind cs (after kind (allow reads writes) m) r, allow-budget reads writes m)

abbrev pub empty_mailbox : Mailbox
empty_mailbox = record { record_of = none; sent = 0 }

-- However often a mail about a job is asked for, and whichever calls fail, it goes out at most once
-- and once more for each time that the cleaner allows a repetition, provided that no call fails to
-- write the record of its mail.
pub sent_bound :
    (kind : Mail) (cs : List Call) → Recorded cs → (run kind cs empty_mailbox).sent ≤ 1 + allowed cs
sent_bound kind cs r = omega (arith, run-budget kind cs empty_mailbox r)

-- The count of the record is the number of mails, and there are none without a record.
abbrev pub Counts : ℕ → Option Alert → Type 0
Counts sent none = sent ≡ 0
Counts sent (some r) = r.send_count ≡ sent

abbrev pub Counted : Mailbox → Type 0
Counted m = Counts m.sent m.record_of

next_record-Counts :
    (now : ℤ) (sent : ℕ) (r : Option Alert)
    → Counts sent r
    → Counts (sent + 1) (some (next_record now r))
next_record-Counts now sent none c = omega arith
next_record-Counts now sent (some r) c = omega arith

notify-Counted :
    (condition : JobInformation → Bool) (f : Faults) (m : Mailbox)
    → f.writes ≡ true
    → Counted m
    → Counted (send_job_notification condition f m).1
notify-Counted condition f m w c = elim (notify-effect condition f m w) [
  | inl e ↦ rw e c
  | inr (fresh, e) ↦ rw e (next_record-Counts f.now m.sent m.record_of c)
]

allow-Counted :
    (reads writes : Bool) (m : Mailbox) → Counted m → Counted (allow_repeat_alert reads writes m).1
allow-Counted reads writes m c = elim (allow-effect reads writes m) [
  | inl e ↦ rw e c
  | inr (r, g, e) ↦ rw e (rw g at c)
]

-- If no call fails to write the record of its mail, the count in the record of a job's mail is the
-- number of mails that went out, after any calls.
pub run-Counted :
    (kind : Mail) (cs : List Call) (m : Mailbox) → Recorded cs → Counted m → Counted (run kind cs m)
run-Counted kind [] m r c = c
run-Counted kind (notify f ∷ cs) m r c =
    run-Counted kind cs (after kind (notify f) m) r.1 (notify-Counted (condition_of kind) f m r.0 c)
run-Counted kind (allow reads writes ∷ cs) m r c =
    run-Counted kind cs (after kind (allow reads writes) m) r (allow-Counted reads writes m c)
