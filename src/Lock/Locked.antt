-- ===== src/Lock/Locked.antt =====
-- What the handlers of internal/handler/operations/lock.go do to the white list.
use crater_backend.Prelude.{
  ◌≡◌, ◌⊎◌, refl, ◌∙◌, Bool, true, false, if◌then◌else◌, none, some, [], ◌∷◌, String, ◌==◌,
  string_eq, contains, Distinct, Bool-cases, inl, inr, arith,
}
use crater_backend.Prelude.Dict.{get, put, keys, get-put_self, get-absent, Distinct-put}
use crater_backend.Prelude.Int.{ℤ, pos, ◌+ℤ◌, ltb_ℤ, eqb_ℤ}
use crater_backend.Lock.{
  Job, JobTable, SetLockTimeRequest, Database, change_job, lock_time, requested_duration,
  add_lock_time, locked_names,
}

-- A name is on the list exactly if its job is locked beyond the present.
pub locked_names_lem :
    (now : ℤ) (name : String) (jobs : JobTable)
    → Distinct (keys jobs)
    → contains (locked_names now jobs) name
      ≡ elim (get name jobs) as (λ _. Bool) [ none ↦ false | some j ↦ ltb_ℤ now j.locked_timestamp ]
unfolding locked_names get
locked_names_lem now name [] d = refl
locked_names_lem now name ((k, j) ∷ jobs) d =
    let ih = locked_names_lem now name jobs d.1 in
    elim (Bool-cases (k == name)) [
      | inl e ↦
          let same : k ≡ name = (string_eq.beq_iff k name).0 e in
          let gone : get name jobs ≡ none = get-absent name jobs (rw same at d.0) in
          elim (Bool-cases (ltb_ℤ now j.locked_timestamp)) [
            | inl f ↦ rw (e, f, e)
            | inr f ↦ rw (e, f) (ih ∙ rw gone)
          ]
      | inr e ↦ elim (Bool-cases (ltb_ℤ now j.locked_timestamp)) [
        | inl f ↦ rw (e, f, e) ih
        | inr f ↦ rw (e, f) ih
      ]
    ]

-- A request that locks a job: for ever, whatever else it says, or for a duration that is positive in the
-- 64 bits of Go.
abbrev pub Lengthens : ℤ → ℤ → SetLockTimeRequest → Type 0
Lengthens permanent now req =
    ((req.is_permanent ≡ true) × (ltb_ℤ now permanent ≡ true))
    ⊎ ((req.is_permanent ≡ false) × (ltb_ℤ (pos 0) (requested_duration req) ≡ true))

later_by :
    (now start d : ℤ)
    → ltb_ℤ (pos 0) d ≡ true
    → ltb_ℤ now ((if ltb_ℤ now start then start else now) +ℤ d) ≡ true
later_by now start d h = ground arith

lock_time-later :
    (permanent now : ℤ) (req : SetLockTimeRequest) (j : Job)
    → Lengthens permanent now req
    → ltb_ℤ now (lock_time permanent now req j) ≡ true
unfolding lock_time
lock_time-later permanent now req j (inl (p, q)) = rw p q
lock_time-later permanent now req j (inr (p, q)) =
    rw p (later_by now j.locked_timestamp (requested_duration req) q)

-- If a job is found and the request locks it for ever, beyond the present, or for a duration that is
-- positive in 64 bits, then, where AddLockTime ends without an error, the job stands on the white list.
pub add_lock_time-white_list :
    (db : Database) (permanent now : ℤ) (req : SetLockTimeRequest) (jobs : JobTable) {j : Job}
    → Distinct (keys jobs)
    → get req.name jobs ≡ some j
    → db.reads ≡ true
    → Lengthens permanent now req
    → (add_lock_time db permanent now req jobs).0 ≡ none
    → contains (locked_names now (add_lock_time db permanent now req jobs).1) req.name ≡ true
unfolding add_lock_time
add_lock_time-white_list db permanent now req jobs {j} d found reads longer done =
    elim (Bool-cases (eqb_ℤ j.locked_timestamp permanent)) [
      | inl e ↦ absurd (ground arith)
      | inr e ↦ elim (Bool-cases db.writes) [
        | inr f ↦ absurd (ground arith)
        | inl f ↦
            let row = record j { locked_timestamp = lock_time permanent now req j } in
            rw (reads, found, add_lock_time, e, f, found, change_job)
              (locked_names_lem now req.name (put req.name row jobs)
                  (Distinct-put req.name row jobs d)
                ∙ rw (get-put_self req.name row jobs) (lock_time-later permanent now req j longer))
      ]
    ]
