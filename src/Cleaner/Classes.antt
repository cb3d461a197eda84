-- ===== src/Cleaner/Classes.antt =====
-- The classes into which the cleaners of pkg/cleaner put the running jobs, and what isJobscheduled
-- decides.
use crater_backend.Prelude.{
  ◌≡◌, refl, ◌∙◌, Bool, true, false, not, ◌&&◌, ◌||◌, Option, none, some, List, [], ◌∷◌, String,
  if◌then◌else◌, ◌==◌, string_eq, contains, All, Bool-cases, Option-cases, inl, inr, arith,
}
use crater_backend.Prelude.Int.{ℤ, ◌-ℤ◌, ◌+ℤ◌}
use crater_backend.Lock.{Job}
use crater_backend.Cleaner.{PodCondition, Pod, Clients, job_names, not_among}
use crater_backend.Cleaner.LongTime.{
  too_old, old_jobs, get_long_time_vcjobs, classify_long_time_jobs,
}
use crater_backend.Cleaner.LowUsage.{
  or_no_jobs, get_low_gpu_usage_vcjobs, classify_low_gpu_usage_jobs,
}
use crater_backend.Cleaner.Waiting.{scheduled_by, all_scheduled, is_job_scheduled}

abbrev pub named : String → List Job → Bool
named name js = contains (job_names js) name

pub named-not_among :
    (names : List String) (js : List Job) (name : String)
    → named name (not_among names js) ≡ (not (contains names name) && named name js)
unfolding not_among
named-not_among names [] name = ground arith
named-not_among names (j ∷ js) name = elim (Bool-cases (contains names j.job_name)) [
  | inl e ↦ rw e (elim (Bool-cases (j.job_name == name)) [
    | inl f ↦
        let same : j.job_name ≡ name = (string_eq.beq_iff j.job_name name).0 f in
        let there : contains names name ≡ true = rw same at e in
        ground (arith, named-not_among names js name)
    | inr f ↦ ground (arith, named-not_among names js name)
  ])
  | inr e ↦ rw e (elim (Bool-cases (j.job_name == name)) [
    | inl f ↦
        let same : j.job_name ≡ name = (string_eq.beq_iff j.job_name name).0 f in
        let away : contains names name ≡ false = rw same at e in
        ground (arith, named-not_among names js name)
    | inr f ↦ ground (arith, named-not_among names js name)
  ])
]

module _ {W : Type 0} (v : Clients W) where
  -- No job is both deleted and reminded for its age.
  pub long_time_disjoint :
      (batch interactive remind : ℤ) (w : W) (name : String)
      → let (deletion, reminding) = classify_long_time_jobs v batch interactive remind w in
        (named name deletion && named name reminding) ≡ false
  unfolding classify_long_time_jobs
  long_time_disjoint batch interactive remind w name =
      let deletion = get_long_time_vcjobs v batch interactive w in
      let to_remind = get_long_time_vcjobs v (batch -ℤ remind) (interactive -ℤ remind) w in
      ground (arith, named-not_among (job_names deletion) to_remind name)

  -- The three classes of the cleaner for low usage share no job, and every running job is in one of
  -- them.
  pub low_usage_partition :
      (range wait util : ℤ) (w : W) (name : String)
      → let (deletion, reminding, normal) = classify_low_gpu_usage_jobs v range wait util w in
        ((named name deletion && named name reminding) ≡ false)
        × (named name normal ≡ (
            not (named name deletion)
            && (not (named name reminding) && named name (or_no_jobs (v.running_jobs w)))))
  unfolding classify_low_gpu_usage_jobs
  low_usage_partition range wait util w name =
      let deletion = get_low_gpu_usage_vcjobs v (range +ℤ wait) util w in
      let low = get_low_gpu_usage_vcjobs v range util w in
      let running = or_no_jobs (v.running_jobs w) in
      let reminding = not_among (job_names deletion) low in
      let first = named-not_among (job_names deletion) low name in
      let second = named-not_among (job_names deletion) running name in
      let third =
        named-not_among (job_names reminding) (not_among (job_names deletion) running) name in
      (ground (arith, first), third ∙ rw second (ground arith))

  -- What the age of a job must be.
  abbrev pub Aged : ℤ → ℤ → ℤ → List String → Job → Type 0
  Aged batch interactive now white_list j =
      (contains white_list j.job_name ≡ false) × (too_old batch interactive now j ≡ true)

old_jobs-Aged :
    {W : Type 0} (v : Clients W) (batch interactive now : ℤ) (white_list : List String)
    (js : List Job)
    → All (Aged v batch interactive now white_list) (old_jobs batch interactive now white_list js)
unfolding old_jobs
old_jobs-Aged v batch interactive now white_list [] = tt
old_jobs-Aged v batch interactive now white_list (j ∷ js) =
    let rest = old_jobs-Aged v batch interactive now white_list js in
    elim (Bool-cases (contains white_list j.job_name)) [
      | inl e ↦ rw e rest
      | inr e ↦ rw e (elim (Bool-cases (too_old batch interactive now j)) [
        | inl f ↦ rw f ((e, f), rest)
        | inr f ↦ rw f rest
      ])
    ]

-- What the conditions of a pod say of it: the first one about its scheduling that is true or false.
abbrev pub verdict : List PodCondition → Bool
verdict [] = false
verdict (c ∷ cs) =
    if c.type == "PodScheduled" && (c.status == "True" || c.status == "False")
    then c.status == "True"
    else verdict cs

abbrev pub each_scheduled : List Pod → Bool
each_scheduled [] = true
each_scheduled (p ∷ ps) = verdict p.conditions && each_scheduled ps

scheduled_by_lem :
    (cs : List PodCondition)
    → verdict cs ≡ elim (scheduled_by cs) as (λ _. Bool) [ none ↦ false | some b ↦ b ]
unfolding scheduled_by
scheduled_by_lem [] = refl
scheduled_by_lem (c ∷ cs) =
    let ih = scheduled_by_lem cs in
    let apart : (c.status == "True") ≡ true → (c.status == "False") ≡ false =
      λ e. rw ((string_eq.beq_iff c.status "True").0 e) refl in
    elim (Bool-cases (c.type == "PodScheduled")) [
      | inr e ↦ rw (e, scheduled_by) ih
      | inl e ↦
          rw (e, scheduled_by)
            (elim (Bool-cases (c.status == "True")) [
              | inl f ↦ rw f refl
              | inr f ↦
                  rw f (elim (Bool-cases (c.status == "False")) [
                    | inl g ↦ rw g refl
                    | inr g ↦ rw g ih
                  ])
            ])
    ]

all_scheduled_lem :
    (ps : List Pod) (result : Bool) → all_scheduled ps result ≡ (result && each_scheduled ps)
unfolding all_scheduled
all_scheduled_lem [] result = ground arith
all_scheduled_lem (p ∷ ps) result = elim (Option-cases (scheduled_by p.conditions)) [
  | inl e ↦ rw (e, all_scheduled) (ground (arith, scheduled_by_lem p.conditions))
  | inr (b, e) ↦
      rw (e, all_scheduled)
        (ground (arith, scheduled_by_lem p.conditions, all_scheduled_lem ps (result && b)))
]

-- A job counts as scheduled exactly if its pods can be listed, there is one, and the conditions of
-- each say that it is scheduled.
pub is_job_scheduled_lem :
    {W : Type 0} (v : Clients W) (name : String) (w : W)
    → is_job_scheduled v name w ≡ elim (v.pods_of_job name w) as (λ _. Bool) [
      | none ↦ false
      | some [] ↦ false
      | some (p ∷ ps) ↦ verdict p.conditions && each_scheduled ps
    ]
unfolding is_job_scheduled
is_job_scheduled_lem v name w = go (v.pods_of_job name w)
  where
    go :
        (found : Option (List Pod))
        → elim found as (λ _. Bool) [
          | none ↦ false
          | some [] ↦ false
          | some (p ∷ ps) ↦ all_scheduled (p ∷ ps) true
        ]
          ≡ elim found as (λ _. Bool) [
            | none ↦ false
            | some [] ↦ false
            | some (p ∷ ps) ↦ verdict p.conditions && each_scheduled ps
          ]
    go none = refl
    go (some []) = refl
    go (some (p ∷ ps)) = all_scheduled_lem (p ∷ ps) true
