-- ===== src/Cleaner/Spared.antt =====
-- Which jobs the cleaners of pkg/cleaner/long_time_running.go and low_gpu_usage.go leave alone: those
-- on the white list, and all jobs if that cannot be read.
use crater_backend.Prelude.{
  ◌≡◌, refl, ◌∙◌, Bool, true, false, none, some, List, [], ◌∷◌, String, ◌==◌, string_eq, contains,
  Bool-cases, Option-cases, inl, inr, arith,
}
use crater_backend.Prelude.Int.{ℤ, ◌-ℤ◌, ◌+ℤ◌}
use crater_backend.Lock.{Job}
use crater_backend.Cleaner.{Pod, Clients, job_names, not_among, each_job, delete_vcjob_in_cluster}
use crater_backend.Cleaner.LongTime.{
  too_old, old_jobs, get_long_time_vcjobs, classify_long_time_jobs, clean_long_time_jobs,
  free_long_time_vcjob, remind_long_time_vcjob,
}
use crater_backend.Cleaner.LowUsage.{
  vcjob_owner, low_pods, jobs_of_pods, get_low_gpu_usage_vcjobs, classify_low_gpu_usage_jobs,
  clean_low_gpu_usage, free_low_gpu_usage_vcjob, remind_low_gpu_usage_vcjob,
}
use crater_backend.Cleaner.Classes.{named, named-not_among}

-- What the database promises: a query by name returns a job of that name.
pub record FindsNamed {W : Type 0} (v : Clients W) : Type 0 where
  pub job_name : (name : String) (w : W) {j : Job} → v.job_of name w ≡ some j → j.job_name ≡ name

-- What the cluster and the mail promise: a deletion takes away the job of its name only, and a mail none.
pub record SparesOthers {W : Type 0} (v : Clients W) : Type 0 where
  pub delete_other :
      (j name : String) (w : W)
      → (j == name) ≡ false
      → v.get_vcjob name (v.delete_vcjob j w).1 ≡ v.get_vcjob name w
  pub clean_mail :
      (j name : String) (w : W) → v.get_vcjob name (v.clean_job_mail j w).1 ≡ v.get_vcjob name w
  pub remind_mail :
      (j name : String) (w : W)
      → v.get_vcjob name (v.remind_long_time_mail j w).1 ≡ v.get_vcjob name w

-- A loop over jobs none of which has the name, each turn of which leaves the job of the name.
each_job-stays :
    {W : Type 0} (f : Job → W → Bool × W) (there : W → Bool) (name : String)
    → ((j : Job) (w : W) → (j.job_name == name) ≡ false → there (f j w).1 ≡ there w)
    → (js : List Job) (w : W) → named name js ≡ false
    → there (each_job f js w).1 ≡ there w
unfolding each_job
each_job-stays f there name turn [] w h = refl
each_job-stays f there name turn (j ∷ js) w h =
    each_job-stays f there name turn js (f j w).1 (ground arith) ∙ turn j w (ground arith)

each_job-named :
    {W : Type 0} (f : Job → W → Bool × W) (js : List Job) (w : W) (name : String)
    → named name js ≡ false
    → contains (each_job f js w).0 name ≡ false
unfolding each_job
each_job-named f [] w name h = refl
each_job-named f (j ∷ js) w name h =
    let rest = each_job-named f js (f j w).1 name (ground arith) in
    elim (Bool-cases (f j w).0) [ inl e ↦ rw e (ground (arith, rest)) | inr e ↦ rw e rest ]

old_jobs-white_list :
    (batch interactive now : ℤ) (white_list : List String) (js : List Job) (name : String)
    → contains white_list name ≡ true
    → named name (old_jobs batch interactive now white_list js) ≡ false
unfolding old_jobs
old_jobs-white_list batch interactive now white_list [] name h = refl
old_jobs-white_list batch interactive now white_list (j ∷ js) name h =
    let rest = old_jobs-white_list batch interactive now white_list js name h in
    elim (Bool-cases (contains white_list j.job_name)) [
      | inl e ↦ rw e rest
      | inr e ↦ rw e (elim (Bool-cases (too_old batch interactive now j)) [
        | inr f ↦ rw f rest
        | inl f ↦ rw f (elim (Bool-cases (j.job_name == name)) [
          | inl g ↦
              let same : j.job_name ≡ name = (string_eq.beq_iff j.job_name name).0 g in
              let away : contains white_list name ≡ false = rw same at e in absurd (ground arith)
          | inr g ↦ ground (arith, rest)
        ])
      ])
    ]

module _ {W : Type 0} (v : Clients W) where
  get_long_time_vcjobs-white_list :
      (batch interactive : ℤ) (w : W) {white_list : List String} (name : String)
      → v.job_white_list w ≡ some white_list
      → contains white_list name ≡ true
      → named name (get_long_time_vcjobs v batch interactive w) ≡ false
  unfolding get_long_time_vcjobs
  get_long_time_vcjobs-white_list batch interactive w {white_list} name e h =
      elim (Option-cases (v.running_jobs w)) [
        | inl f ↦ rw (f, get_long_time_vcjobs) refl
        | inr (running, f) ↦
            rw (f, get_long_time_vcjobs, e)
              (old_jobs-white_list batch interactive (v.now w) white_list running name h)
      ]

  free_long_time-stays :
      SparesOthers v
      → (name : String) (j : Job) (w : W) → (j.job_name == name) ≡ false
      → v.get_vcjob name (free_long_time_vcjob v j w).1 ≡ v.get_vcjob name w
  unfolding free_long_time_vcjob delete_vcjob_in_cluster
  free_long_time-stays l name j w h =
      let gone = l.delete_other j.job_name name w h in
      let mail = l.clean_mail j.job_name name (v.delete_vcjob j.job_name w).1 in
      elim (Bool-cases (v.get_vcjob j.job_name w)) [
        | inr e ↦ rw e refl
        | inl e ↦ rw e (elim (Bool-cases (v.delete_vcjob j.job_name w).0) [
          | inr f ↦ rw f gone
          | inl f ↦
              rw f (elim (Bool-cases j.alert_enabled) [
                | inl g ↦ rw g (mail ∙ gone)
                | inr g ↦ rw g gone
              ])
        ])
      ]

  remind_long_time-stays :
      SparesOthers v
      → (name : String) (j : Job) (w : W) → (j.job_name == name) ≡ false
      → v.get_vcjob name (remind_long_time_vcjob v j w).1 ≡ v.get_vcjob name w
  unfolding remind_long_time_vcjob
  remind_long_time-stays l name j w h = elim (Bool-cases j.alert_enabled) [
    | inl e ↦ rw e (l.remind_mail j.job_name name w)
    | inr e ↦ rw e refl
  ]

  -- If a deletion in the cluster takes away the job of its name only, and a mail none, then the cleaner
  -- for long running jobs neither lists a job on the white list that it reads as deleted or reminded,
  -- nor takes it from the cluster.
  pub long_time_spares :
      SparesOthers v
      → (batch interactive remind : ℤ) (w : W) {white_list : List String} (name : String)
      → v.job_white_list w ≡ some white_list
      → contains white_list name ≡ true
      → (contains (clean_long_time_jobs v batch interactive remind w).0.0 name ≡ false)
        × (contains (clean_long_time_jobs v batch interactive remind w).0.1 name ≡ false)
        × (v.get_vcjob name (clean_long_time_jobs v batch interactive remind w).1
            ≡ v.get_vcjob name w)
  unfolding clean_long_time_jobs classify_long_time_jobs
  long_time_spares l batch interactive remind w name e h =
      let deletion = get_long_time_vcjobs v batch interactive w in
      let low = get_long_time_vcjobs v (batch -ℤ remind) (interactive -ℤ remind) w in
      let first = get_long_time_vcjobs-white_list batch interactive w name e h in
      let second =
        get_long_time_vcjobs-white_list (batch -ℤ remind) (interactive -ℤ remind) w name e h in
      let reminded : named name (not_among (job_names deletion) low) ≡ false =
        ground (arith, named-not_among (job_names deletion) low name) in
      (
        each_job-named (remind_long_time_vcjob v) (not_among (job_names deletion) low) _ name
            reminded,
        each_job-named (free_long_time_vcjob v) deletion w name first,
        each_job-stays (remind_long_time_vcjob v) (v.get_vcjob name) name
              (remind_long_time-stays l name) (not_among (job_names deletion) low) _ reminded
            ∙ each_job-stays (free_long_time_vcjob v) (v.get_vcjob name) name
                (free_long_time-stays l name) deletion w first,
      )

  get_long_time_vcjobs-blind :
      (batch interactive : ℤ) (w : W)
      → v.job_white_list w ≡ none
      → get_long_time_vcjobs v batch interactive w ≡ []
  unfolding get_long_time_vcjobs
  get_long_time_vcjobs-blind batch interactive w e = elim (Option-cases (v.running_jobs w)) [
    | inl f ↦ rw (f, get_long_time_vcjobs) refl
    | inr (running, f) ↦ rw (f, get_long_time_vcjobs, e) refl
  ]

  -- Without its white list the cleaner for long running jobs does nothing at all.
  pub long_time_blind :
      (batch interactive remind : ℤ) (w : W)
      → v.job_white_list w ≡ none
      → clean_long_time_jobs v batch interactive remind w ≡ (([], []), w)
  unfolding clean_long_time_jobs classify_long_time_jobs not_among each_job
  long_time_blind batch interactive remind w e =
      rw
        (
          get_long_time_vcjobs-blind batch interactive w e,
          get_long_time_vcjobs-blind (batch -ℤ remind) (interactive -ℤ remind) w e,
        )
        refl

  module _ (finds : FindsNamed v) where
    jobs_of_pods-white_list :
        (white_list : List String) (ps : List Pod) (w : W) (name : String)
        → contains white_list name ≡ true
        → named name (jobs_of_pods v white_list ps w) ≡ false
    unfolding jobs_of_pods
    jobs_of_pods-white_list white_list [] w name h = refl
    jobs_of_pods-white_list white_list (p ∷ ps) w name h =
        let rest = jobs_of_pods-white_list white_list ps w name h in
        elim (Option-cases (vcjob_owner p)) [
          | inl e ↦ rw (e, jobs_of_pods) rest
          | inr (owner, e) ↦
              rw (e, jobs_of_pods)
                (elim (Bool-cases (contains white_list owner)) [
                  | inl f ↦ rw f rest
                  | inr f ↦ rw f (elim (Option-cases (v.job_of owner w)) [
                    | inl g ↦ rw (g, jobs_of_pods) rest
                    | inr (j, g) ↦
                        let found = finds.job_name owner w g in
                        rw (g, jobs_of_pods)
                          (elim (Bool-cases (j.job_name == name)) [
                            | inl i ↦
                                let same : j.job_name ≡ name =
                                  (string_eq.beq_iff j.job_name name).0 i in
                                let away : contains white_list name ≡ false =
                                  rw (← found, same) at f in
                                absurd (ground arith)
                            | inr i ↦ ground (arith, rest)
                          ])
                  ])
                ])
        ]

    low_white_list :
        (duration util : ℤ) (w : W) {white_list : List String} (name : String)
        → v.job_white_list w ≡ some white_list
        → contains white_list name ≡ true
        → named name (get_low_gpu_usage_vcjobs v duration util w) ≡ false
    unfolding get_low_gpu_usage_vcjobs
    low_white_list duration util w {white_list} name e h =
        rw (e, get_low_gpu_usage_vcjobs)
          (jobs_of_pods-white_list white_list (low_pods v duration util (v.gpu_pods w) w) w name h)

    -- The cleaner for low usage neither deletes nor reminds a job on the white list that it reads.
    pub low_usage_spares :
        (range wait util : ℤ) (w : W) {white_list : List String} (name : String)
        → v.job_white_list w ≡ some white_list
        → contains white_list name ≡ true
        → (contains (clean_low_gpu_usage v range wait util w).0.0 name ≡ false)
          × (contains (clean_low_gpu_usage v range wait util w).0.1 name ≡ false)
    unfolding clean_low_gpu_usage classify_low_gpu_usage_jobs
    low_usage_spares range wait util w name e h =
        let deletion = get_low_gpu_usage_vcjobs v (range +ℤ wait) util w in
        let low = get_low_gpu_usage_vcjobs v range util w in
        let first = low_white_list (range +ℤ wait) util w name e h in
        let second = low_white_list range util w name e h in
        (
          each_job-named (remind_low_gpu_usage_vcjob v) (not_among (job_names deletion) low) _ name
              (ground (arith, named-not_among (job_names deletion) low name)),
          each_job-named (free_low_gpu_usage_vcjob v) deletion w name first,
        )
