-- ===== src/Controller/Schedule.antt =====
-- schedule of pkg/aitaskctl/controller.go, which runs every five seconds: the candidates are taken
-- from the queues, sorted by their creation, checked against the database and admitted. The loops
-- over the map of user queues go in the order of its list, which Go leaves open.
use crater_backend.Prelude.{
  Bool, not, ◌&&◌, ◌||◌, Option, none, some, List, [], ◌∷◌, ◌++◌, if◌then◌else◌, ◌>>=◌, ◌==◌,
  nat_eq, string_eq, list_eq, ltb,
}
use crater_backend.Resources.{Quantity}
use crater_backend.Model.{
  AiTask, queueing_status, un_profiled, profile_queued, profiling, profile_failed,
}
use crater_backend.Quota.{
  Decoder, QuotaInfoSnapshot, snapshot_add_task, snapshot_check_hard_quota_exceed,
}
use crater_backend.Queue.{list, push_or_update}
use crater_backend.TaskQueue.{TaskQueue, UserQueue}
use crater_backend.TaskQueue
use crater_backend.Controller.{Services, AccountTable, State, with_queue, get_quota_info_snapshot}
use crater_backend.Controller.Admit.{admit_task}

module _ {Q : Type 0} ⦃n : Quantity Q⦄ ⦃d : Decoder Q⦄ where
  -- The inner loop of phase 1: the tasks that fit into what the snapshot leaves, in their order.
  unfoldable pub select_gauranteed :
      List AiTask → QuotaInfoSnapshot Q → List AiTask × QuotaInfoSnapshot Q
  select_gauranteed [] info = ([], info)
  select_gauranteed (t ∷ ts) info =
      let fits = not (snapshot_check_hard_quota_exceed t info) in
      let (chosen, last) = select_gauranteed ts (if fits then snapshot_add_task t info else info) in
      (if fits then t ∷ chosen else chosen, last)

module _ {Q W : Type 0} ⦃n : Quantity Q⦄ ⦃d : Decoder Q⦄ where
  -- Phase 1, which skips a user with no quota. `none` is the panic of List.
  unfoldable pub gauranteed_candidates : TaskQueue → State Q W → Option (List AiTask)
  unfolding select_gauranteed
  gauranteed_candidates [] s = some []
  gauranteed_candidates ((user, q) ∷ qs) s =
      let rest = gauranteed_candidates qs s in
      elim (get_quota_info_snapshot user s) [
        | none ↦ rest
        | some info ↦ list q.gauranteed_queue >>= λ ts.
            rest >>= λ more. some ((select_gauranteed ts info).0 ++ more)
      ]

-- A best-effort task waits for its profile if there is a profiler and it has none.
abbrev pub needs_profile : Bool → AiTask → Bool
needs_profile has_profiler t =
    has_profiler && (t.status == queueing_status && t.profile_status == un_profiled)

-- The write through the pointer in the queue: the object of the task's key is replaced.
unfoldable pub mark_profile_queued : AiTask → UserQueue → UserQueue
mark_profile_queued t q = record q {
  best_effort_queue =
      push_or_update (record t { profile_status = profile_queued }) q.best_effort_queue;
}

module _ {W : Type 0} ⦃v : Services W⦄ where
  -- The inner loop of phase 2, over the tasks that List returned.
  unfoldable pub offer_best_effort :
      Bool → List AiTask → UserQueue → W → List AiTask × UserQueue × W
  unfolding mark_profile_queued
  offer_best_effort has_profiler [] q w = ([], q, w)
  offer_best_effort has_profiler (t ∷ ts) q w =
      let waits = needs_profile has_profiler t in
      let (chosen, q', w') =
        offer_best_effort has_profiler ts (if waits then mark_profile_queued t q else q)
          (if waits then v.submit_profile_task t.id w else w) in
      (if waits then chosen else t ∷ chosen, q', w')

  -- Phase 2.
  unfoldable pub best_effort_candidates :
      Bool → TaskQueue → W → Option (List AiTask × TaskQueue × W)
  unfolding offer_best_effort
  best_effort_candidates has_profiler [] w = some ([], [], w)
  best_effort_candidates has_profiler ((user, q) ∷ qs) w = list q.best_effort_queue >>= λ ts.
      let (chosen, q', w') = offer_best_effort has_profiler ts q w in
      best_effort_candidates has_profiler qs w' >>= λ (more, qs', w'').
      some (chosen ++ more, (user, q') ∷ qs', w'')

-- sort.Slice by the time of creation. It may order tasks of the same time in another way, while this
-- keeps the order in which they came.
unfoldable pub insert_by_created : AiTask → List AiTask → List AiTask
insert_by_created t [] = t ∷ []
insert_by_created t (u ∷ us) =
    if ltb u.created_at t.created_at then u ∷ insert_by_created t us else t ∷ u ∷ us

unfoldable pub sort_by_created : List AiTask → List AiTask
unfolding insert_by_created
sort_by_created [] = []
sort_by_created (t ∷ ts) = insert_by_created t (sort_by_created ts)

module _ {Q W : Type 0} ⦃n : Quantity Q⦄ ⦃d : Decoder Q⦄ ⦃v : Services W⦄
    ⦃a : AccountTable Q W⦄ where
  -- What phase 3 does with a candidate, as the database has it now.
  unfoldable pub consider : AiTask → State Q W → State Q W
  consider t s =
      if t.profile_status == profiling || t.profile_status == profile_queued
      then s
      else if t.profile_status == profile_failed
      then with_queue (TaskQueue.delete_task t) s
      else (admit_task t s).1

  -- The loop of phase 3, which skips a candidate that the database does not return.
  unfoldable pub admit_candidates : List AiTask → State Q W → State Q W
  unfolding consider
  admit_candidates [] s = s
  admit_candidates (c ∷ cs) s =
      let (found, w) = v.get_by_id c.id s.world in
      let s' : State Q W = record s { world = w } in
      admit_candidates cs (elim found [ none ↦ s' | some t ↦ consider t s' ])

  unfoldable pub schedule : State Q W → Option (State Q W)
  unfolding gauranteed_candidates best_effort_candidates sort_by_created admit_candidates
  schedule s = gauranteed_candidates s.ctl.task_queue s >>= λ gauranteed.
      best_effort_candidates s.ctl.has_profiler s.ctl.task_queue s.world >>= λ (others, qs, w).
      some (
        admit_candidates (sort_by_created (gauranteed ++ others))
          (with_queue (λ _. qs) (record s { world = w })))
