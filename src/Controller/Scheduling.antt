-- ===== src/Controller/Scheduling.antt =====
-- The scheduler of pkg/aitaskctl/controller.go on a valid state: it does not panic, and the state
-- after it is valid.
use crater_backend.Prelude.{
  ◌≡◌, refl, ap, Bool, ◌||◌, none, some, List, [], ◌∷◌, ◌++◌, String, ◌>>=◌, ◌==◌, nat_eq,
  string_eq, list_eq, All, Option-cases, Bool-cases, inl, inr, arith, Distinct,
}
use crater_backend.Prelude.Dict.{get, keys, get-absent}
use crater_backend.Resources.{Quantity}
use crater_backend.Model.{AiTask, low_slo, profiling, profile_queued, profile_failed}
use crater_backend.Quota.{Decoder}
use crater_backend.Queue.Entries.{list_total}
use crater_backend.Queue.Holds.{list-Holds}
use crater_backend.TaskQueue.{TaskQueue, UserQueue}
use crater_backend.TaskQueue
use crater_backend.TaskQueue.Valid.{IsTaskQueue, delete_task-IsTaskQueue}
use crater_backend.TaskQueue.UserValid.{IsUserQueue, push_or_update-IsQueueOf}
use crater_backend.Controller.{Services, AccountTable, State, with_queue, get_quota_info_snapshot}
use crater_backend.Controller.Schedule.{
  select_gauranteed, gauranteed_candidates, needs_profile, mark_profile_queued, offer_best_effort,
  best_effort_candidates, sort_by_created, consider, admit_candidates, schedule,
}
use crater_backend.Controller.Valid.{IsController, with_queue-IsController, world-IsController}
use crater_backend.Controller.Steps.{admit_task-IsController}

-- Every user queue of the list is valid, in the order in which the loops meet them.
abbrev pub AllUserQueues : TaskQueue → Type 0
AllUserQueues [] = Unit {0}
AllUserQueues ((user, q) ∷ qs) = IsUserQueue user q × AllUserQueues qs

AllUserQueues-get :
    (qs : TaskQueue)
    → AllUserQueues qs
    → (user : String) (q : UserQueue) → get user qs ≡ some q
    → IsUserQueue user q
unfolding get
AllUserQueues-get [] w user q g = absurd (ground arith)
AllUserQueues-get ((other, p) ∷ qs) w user q g = elim (Bool-cases (other == user)) [
  | inl e ↦
      let same : other ≡ user = (string_eq.beq_iff other user).0 e in
      let found : p ≡ q = ground arith in rw (← same, ← found) w.0
  | inr e ↦ AllUserQueues-get qs w.1 user q (ground arith)
]

-- A Go map has each key once, so every entry is the one that is read.
get-AllUserQueues :
    (qs : TaskQueue)
    → Distinct (keys qs)
    → ((user : String) (q : UserQueue) → get user qs ≡ some q → IsUserQueue user q)
    → AllUserQueues qs
unfolding get
get-AllUserQueues [] d w = tt
get-AllUserQueues ((user, q) ∷ qs) d w = (
  w user q (ground (arith, string_eq.beq_iff user user)),
  get-AllUserQueues qs d.1 (λ other p g. w other p (later other p g)),
)
  where
    later :
        (other : String) (p : UserQueue)
        → get other qs ≡ some p
        → get other ((user, q) ∷ qs) ≡ some p
    later other p g = elim (Bool-cases (user == other)) [
      | inl e ↦
          let same : user ≡ other = (string_eq.beq_iff user other).0 e in
          let gone : get other qs ≡ none = get-absent other qs (rw same at d.0) in
          absurd (ground arith)
      | inr e ↦ rw e g
    ]

mark_profile_queued-IsUserQueue :
    {user : String} (t : AiTask) {q : UserQueue}
    → t.user_name ≡ user
    → t.slo ≡ low_slo
    → IsUserQueue user q
    → IsUserQueue user (mark_profile_queued t q)
unfolding mark_profile_queued
mark_profile_queued-IsUserQueue t own low w = record {
  named = w.named;
  gauranteed = w.gauranteed;
  best_effort =
      push_or_update-IsQueueOf (record t { profile_status = profile_queued }) own low w.best_effort;
}

module _ {W : Type 0} ⦃v : Services W⦄ where
  offer_best_effort-IsUserQueue :
      {user : String} (has_profiler : Bool) (ts : List AiTask) {q : UserQueue} (w : W)
      → All (λ t. (t.user_name ≡ user) × (t.slo ≡ low_slo)) ts
      → IsUserQueue user q
      → IsUserQueue user (offer_best_effort has_profiler ts q w).1
  unfolding offer_best_effort
  offer_best_effort-IsUserQueue has_profiler [] w own u = u
  offer_best_effort-IsUserQueue has_profiler (t ∷ ts) {q} w own u =
      elim (Bool-cases (needs_profile has_profiler t)) [
        | inl e ↦ rw e (
            offer_best_effort-IsUserQueue has_profiler ts (v.submit_profile_task t.id w) own.1
              (mark_profile_queued-IsUserQueue t own.0.0 own.0.1 u))
        | inr e ↦ rw e (offer_best_effort-IsUserQueue has_profiler ts w own.1 u)
      ]

  best_effort_candidates-total :
      (has_profiler : Bool) (qs : TaskQueue) (w : W)
      → AllUserQueues qs
      → (r : List AiTask × TaskQueue × W) × (best_effort_candidates has_profiler qs w ≡ some r)
        × AllUserQueues r.1
        × (keys r.1 ≡ keys qs)
  unfolding best_effort_candidates
  best_effort_candidates-total has_profiler [] w u = (([], [], w), refl, tt, refl)
  best_effort_candidates-total has_profiler ((user, q) ∷ qs) w u =
      let (ts, listed) = list_total q.best_effort_queue u.0.best_effort.valid in
      let own = list-Holds _ q.best_effort_queue u.0.best_effort.own listed in
      let offered = offer_best_effort has_profiler ts q w in
      let (r, found, more, same) = best_effort_candidates-total has_profiler qs offered.2 u.1 in
      (
        (offered.0 ++ r.0, (user, offered.1) ∷ r.1, r.2),
        rw (listed, ◌>>=◌, found),
        (offer_best_effort-IsUserQueue has_profiler ts w own u.0, more),
        ap (◌∷◌ user) same,
      )

module _ {Q W : Type 0} ⦃n : Quantity Q⦄ ⦃d : Decoder Q⦄ where
  gauranteed_candidates-total :
      (qs : TaskQueue) (s : State Q W)
      → AllUserQueues qs
      → (ts : List AiTask) × (gauranteed_candidates qs s ≡ some ts)
  unfolding gauranteed_candidates
  gauranteed_candidates-total [] s u = ([], refl)
  gauranteed_candidates-total ((user, q) ∷ qs) s u =
      let (more, found) = gauranteed_candidates-total qs s u.1 in
      let (ts, listed) = list_total q.gauranteed_queue u.0.gauranteed.valid in
      elim (Option-cases (get_quota_info_snapshot user s)) [
        | inl e ↦ (more, rw (e, gauranteed_candidates) found)
        | inr (info, e) ↦
            ((select_gauranteed ts info).0 ++ more, rw (e, gauranteed_candidates, listed, found))
      ]

module _ {Q W : Type 0} ⦃n : Quantity Q⦄ ⦃d : Decoder Q⦄ ⦃v : Services W⦄
    ⦃a : AccountTable Q W⦄ where
  consider-IsController :
      (t : AiTask) {s : State Q W} → IsController s → IsController (consider t s)
  unfolding consider
  consider-IsController t {s} c =
      elim (Bool-cases (t.profile_status == profiling || t.profile_status == profile_queued)) [
        | inl e ↦ rw e c
        | inr e ↦ rw e (elim (Bool-cases (t.profile_status == profile_failed)) [
          | inl f ↦ rw f (
              with_queue-IsController (TaskQueue.delete_task t) {s = s}
                (delete_task-IsTaskQueue s.ctl.task_queue c.queues t) c)
          | inr f ↦ rw f (admit_task-IsController t c)
        ])
      ]

  admit_candidates-IsController :
      (cs : List AiTask) {s : State Q W} → IsController s → IsController (admit_candidates cs s)
  unfolding admit_candidates
  admit_candidates-IsController [] c = c
  admit_candidates-IsController (t ∷ ts) {s} c =
      let asked = v.get_by_id t.id s.world in
      let c' = world-IsController asked.1 c in
      elim (Option-cases asked.0) [
        | inl e ↦ rw (e, admit_candidates) (admit_candidates-IsController ts c')
        | inr (u, e) ↦
            rw (e, admit_candidates) (admit_candidates-IsController ts (consider-IsController u c'))
      ]

  -- On a valid state the scheduler runs to its end: no read of a queue panics. The state that it
  -- leaves is valid.
  pub schedule_total :
      (s : State Q W) → IsController s → (s' : State Q W) × (schedule s ≡ some s') × IsController s'
  unfolding schedule
  schedule_total s c =
      let u = get-AllUserQueues s.ctl.task_queue c.queues.users c.queues.each in
      let (ts, first) = gauranteed_candidates-total s.ctl.task_queue s u in
      let ((others, qs, w), second, u', same) =
        best_effort_candidates-total s.ctl.has_profiler s.ctl.task_queue s.world u in
      let queues : IsTaskQueue qs = record {
        users = rw same c.queues.users;
        each = AllUserQueues-get qs u';
      } in
      (
        admit_candidates (sort_by_created (ts ++ others))
            (with_queue (λ _. qs) (record s { world = w })),
        rw (first, ◌>>=◌, second),
        admit_candidates-IsController (sort_by_created (ts ++ others))
            (record { queues = queues; books = c.books }),
      )
