-- ===== src/Profiler/Valid.antt =====
-- The loop of pkg/aitaskctl/profiler.go on a valid queue.
use crater_backend.Prelude.{
  ℕ, ◌≡◌, refl, ap, ◌∙◌, Bool, true, Option, none, some, List, [], ◌∷◌, ◌>>=◌, ltb, length, nat_eq,
  list_eq, string_eq, ◌⊎◌, ◌-◌, ◌==◌, Bool-cases, Option-cases, inl, inr, arith,
}
use crater_backend.Prelude.Dict.{Dict}
use crater_backend.Model.{AiTask, un_profiled}
use crater_backend.Model.Key.{Text}
use crater_backend.Queue.{Item, len, delete, list}
use crater_backend.Queue.Valid.{IsValid, push_if_not_present-IsValid}
use crater_backend.Queue.Entries.{list_total, Lists-list}
use crater_backend.Queue.Listing.{Lists, nil, cons}
use crater_backend.Queue.Remove.{Popped, pop-Popped, delete-top}
use crater_backend.TaskQueue.{QueueBase}
use crater_backend.Profiler.{
  Pod, Phase, pending, running, succeeded, failed, unknown, other, Monitors, Profiler,
  check_and_get_cache, submit_profile_task, start_profiling, start_next, finish_pod, poll_pod,
  poll_pods, run_tick,
}

-- A queue with a key has an object.
Lists-head :
    (key : AiTask → Text) (m : Dict Text (Item AiTask)) {ks : List Text} {xs : List AiTask}
    → Lists key m ks xs
    → ltb 0 (length ks) ≡ true
    → (x : AiTask) × (rest : List AiTask) × (xs ≡ x ∷ rest)
Lists-head key m nil h = absurd (ground arith)
Lists-head key m (cons {x = x} {xs = xs} n g e l) h = (x, xs, refl)

nonempty :
    (q : QueueBase)
    → IsValid q
    → ltb 0 (len q) ≡ true
    → (x : AiTask) × (xs : List AiTask) × (list q ≡ some (x ∷ xs))
nonempty q v h =
    let (ys, listed) = list_total q v in
    let (x, xs, same) = Lists-head q.key_func q.items (Lists-list q v ys listed) h in
    (x, xs, rw same at listed)

module _ {W : Type 0} (v : Monitors W) where
  pub submit_profile_task-IsValid :
      (id : ℕ) (p : Profiler W)
      → IsValid p.task_queue
      → IsValid (submit_profile_task v id p).task_queue
  unfolding submit_profile_task
  submit_profile_task-IsValid id p valid = elim (Option-cases (v.get_by_id id p.world)) [
    | inl e ↦ rw (e, submit_profile_task) valid
    | inr (t, e) ↦
        rw (e, submit_profile_task)
          (elim (Option-cases (check_and_get_cache v t p)) [
            | inr (profile, f) ↦ rw (f, submit_profile_task) valid
            | inl f ↦
                rw (f, submit_profile_task)
                  (elim (Bool-cases (t.profile_status == un_profiled)) [
                    | inl g ↦ rw g (push_if_not_present-IsValid t p.task_queue valid)
                    | inr g ↦ rw g valid
                  ])
          ])
  ]

  -- What a first half leaves of a queue that lists `xs`: nothing of an empty queue, or all but the
  -- last object.
  pub record Started (p : Profiler W) (r : Bool × Profiler W) : Type 0 where
    pub on : r.0 ≡ true
    pub valid : IsValid r.1.task_queue
    pub taken :
        (r.1 ≡ p)
        ⊎ ((xs : List AiTask) × (o : Option AiTask) × Popped p.task_queue xs (o, r.1.task_queue))

  start_next_total :
      (p : Profiler W)
      → IsValid p.task_queue
      → (r : Bool × Profiler W) × (start_next v p ≡ some r) × Started p r
  unfolding start_next start_profiling
  start_next_total p valid = elim (Bool-cases (ltb 0 (len p.task_queue))) [
    | inr e ↦ ((true, p), rw e refl, record { on = refl; valid = valid; taken = inl refl })
    | inl e ↦
        let (x, xs, listed) = nonempty p.task_queue valid e in
        let (y, t, on_top, popped, _) = delete-top p.task_queue valid x xs listed in
        let (r, popped', after) = pop-Popped p.task_queue valid x xs listed in
        let same : r ≡ delete y t = cc in
        let after' : Popped p.task_queue (x ∷ xs) (delete y t) = rw same at after in
        (
          (true, start_profiling v y t p),
          rw (e, on_top) refl,
          record { on = refl; valid = after'.valid; taken = inr (x ∷ xs, (delete y t).0, after') },
        )
  ]

  -- Each query that the second half makes for the task of a pod returns it: the first pod's in this
  -- state, and that of every later pod in the state that the rounds before leave.
  unfoldable pub Answered : List Pod → Profiler W → Type 0
  Answered [] p = Unit
  Answered (pod ∷ pods) p =
      (v.task_id_of pod ≡ none → Answered pods p)
      × ((id : ℕ)
          → v.task_id_of pod ≡ some id
          → (t : AiTask) × (v.get_by_id id p.world ≡ some t)
            × ((p' : Profiler W) → poll_pod v id (some t) pod p ≡ some p' → Answered pods p'))

  -- A round that ends, and leaves the queue as it was.
  abbrev Ends : Profiler W → Option (Profiler W) → Type 0
  Ends p o = (p' : Profiler W) × (o ≡ some p') × (p'.task_queue ≡ p.task_queue)

  finish_pod_total :
      (id : ℕ) (t : AiTask) (pod : Pod) (p : Profiler W) → Ends p (finish_pod v id (some t) pod p)
  unfolding finish_pod
  finish_pod_total id t pod p = elim (Option-cases (v.pod_profile pod p.world)) [
    | inl e ↦ rw (e, finish_pod) (_, refl, refl)
    | inr (profile, e) ↦ rw (e, finish_pod) (_, refl, refl)
  ]

  poll_pod_total :
      (id : ℕ) (t : AiTask) (pod : Pod) (p : Profiler W) (phase : Phase)
      → pod.phase ≡ phase
      → Ends p (poll_pod v id (some t) pod p)
  unfolding poll_pod
  poll_pod_total id t pod p pending e =
      rw (e, poll_pod)
        (elim (Option-cases (check_and_get_cache v t p)) [
          | inl f ↦ rw (◌>>=◌, f, poll_pod) (_, refl, refl)
          | inr (profile, f) ↦ rw (◌>>=◌, f, poll_pod) (_, refl, refl)
        ])
  poll_pod_total id t pod p running e =
      rw (e, poll_pod)
        (elim (Bool-cases (ltb (v.now p.world - pod.start_time) p.profiling_timeout)) [
          | inl f ↦ rw f (_, refl, refl)
          | inr f ↦ rw f (finish_pod_total id t pod p)
        ])
  poll_pod_total id t pod p succeeded e = rw (e, poll_pod) (finish_pod_total id t pod p)
  poll_pod_total id t pod p failed e = rw (e, poll_pod) (finish_pod_total id t pod p)
  poll_pod_total id t pod p unknown e = rw (e, poll_pod) (_, refl, refl)
  poll_pod_total id t pod p other e = rw (e, poll_pod) (finish_pod_total id t pod p)

  poll_pods_total :
      (pods : List Pod) (p : Profiler W) → Answered pods p → Ends p (poll_pods v pods p)
  unfolding poll_pods Answered
  poll_pods_total [] p a = (p, refl, refl)
  poll_pods_total (pod ∷ pods) p a = elim (Option-cases (v.task_id_of pod)) [
    | inl e ↦ rw (e, poll_pods) (poll_pods_total pods p (a.0 e))
    | inr (id, e) ↦
        let (t, f, later) = a.1 id e in
        let (p', one, same) = poll_pod_total id t pod p pod.phase refl in
        let (p'', others, same') = poll_pods_total pods p' (later p' one) in
        (p'', rw (e, poll_pods, f, one) others, same' ∙ same)
  ]

  -- On a valid queue, and if each query of the tick for the task of a listed pod returns the task, a
  -- tick of the profiler runs to its end without a panic. It leaves the queue valid, and takes the last
  -- task off it, if there is one, and no other.
  pub run_tick_total :
      (p : Profiler W)
      → IsValid p.task_queue
      → ((r : Bool × Profiler W) → start_next v p ≡ some r → Answered (v.list_pods r.1.world) r.1)
      → (p' : Profiler W) × (run_tick v p ≡ some p')
        × IsValid p'.task_queue
        × ((p'.task_queue ≡ p.task_queue)
            ⊎ ((xs : List AiTask) × (o : Option AiTask) × Popped p.task_queue xs
                  (o, p'.task_queue)))
  unfolding run_tick
  run_tick_total p valid answered =
      let (r, first, started) = start_next_total p valid in
      let (p', second, same) = poll_pods_total (v.list_pods r.1.world) r.1 (answered r first) in
      (
        p',
        rw (first, ◌>>=◌, started.on) second,
        rw same started.valid,
        elim started.taken [
          | inl e ↦ inl (same ∙ ap (λ s. s.task_queue) e)
          | inr (xs, o, popped) ↦ inr (xs, o, rw same popped)
        ],
      )
