-- ===== src/Conditions/History.antt =====
-- What a status of pkg/util/status.go looks like after any updates: one condition of each type, and
-- a failure that stays.
use crater_backend.Prelude.{
  ℕ, ◌≡◌, refl, true, false, not, ◌&&◌, ◌||◌, some, List, [], ◌∷◌, ◌++◌, String, ◌==◌, string_eq,
  contains, Distinct, Bool-cases, Option-cases, inl, inr, arith,
}
use crater_backend.Conditions.{
  JobCondition, JobStatus, running_condition, succeeded_condition, failed_condition, condition_true,
  holds, has_condition, is_failed, get_condition, switch_off, filter_out_condition,
  replace_condition, set_condition, new_condition, update_job_conditions_and_status,
}

abbrev pub kinds : List JobCondition → List String
kinds [] = []
kinds (c ∷ cs) = c.kind ∷ kinds cs

kind-switch_off : (k : String) (c : JobCondition) → (switch_off k c).kind ≡ c.kind
kind-switch_off k c =
    elim (Bool-cases
      ((k == failed_condition || k == succeeded_condition) && c.kind == running_condition)) [
        | inl e ↦ rw e
        | inr e ↦ rw e
      ]

contains-filter_out_condition :
    (k j : String) (cs : List JobCondition)
    → contains (kinds (filter_out_condition k cs)) j ≡ (not (k == j) && contains (kinds cs) j)
unfolding filter_out_condition
contains-filter_out_condition k j [] = ground arith
contains-filter_out_condition k j (c ∷ cs) = ground (
  arith,
  kind-switch_off k c,
  contains-filter_out_condition k j cs,
  string_eq.beq_iff c.kind k,
  string_eq.beq_iff c.kind j,
  string_eq.beq_iff k j,
)

Distinct-filter_out_condition :
    (k : String) (cs : List JobCondition)
    → Distinct (kinds cs)
    → Distinct (kinds (filter_out_condition k cs))
unfolding filter_out_condition
Distinct-filter_out_condition k [] d = tt
Distinct-filter_out_condition k (c ∷ cs) d =
    let rest = Distinct-filter_out_condition k cs d.1 in
    elim (Bool-cases (c.kind == k)) [
      | inl e ↦ rw e rest
      | inr e ↦
          rw (e, kind-switch_off k c)
            (ground (arith, contains-filter_out_condition k c.kind cs), rest)
    ]

Distinct-snoc :
    (c : JobCondition) (cs : List JobCondition)
    → contains (kinds cs) c.kind ≡ false
    → Distinct (kinds cs)
    → Distinct (kinds (cs ++ (c ∷ [])))
Distinct-snoc c [] h d = (refl, tt)
Distinct-snoc c (b ∷ bs) h d = (
  fresh b.kind bs (ground (arith, string_eq.beq_iff b.kind c.kind, string_eq.beq_iff c.kind b.kind))
      d.0,
  Distinct-snoc c bs (ground arith) d.1,
)
  where
    fresh :
        (k : String) (rest : List JobCondition)
        → (c.kind == k) ≡ false
        → contains (kinds rest) k ≡ false
        → contains (kinds (rest ++ (c ∷ []))) k ≡ false
    fresh k [] e f = ground arith
    fresh k (a ∷ rest) e f = ground (arith, fresh k rest e)

replace_condition-Distinct :
    (c : JobCondition) (s : JobStatus)
    → Distinct (kinds s.conditions)
    → Distinct (kinds (replace_condition c s).conditions)
unfolding replace_condition
replace_condition-Distinct c s d =
    Distinct-snoc c (filter_out_condition c.kind s.conditions)
      (ground (
        arith,
        contains-filter_out_condition c.kind c.kind s.conditions,
        string_eq.beq_iff c.kind c.kind,
      ))
      (Distinct-filter_out_condition c.kind s.conditions d)

set_condition-Distinct :
    (c : JobCondition) (s : JobStatus)
    → Distinct (kinds s.conditions)
    → Distinct (kinds (set_condition c s).conditions)
unfolding set_condition
set_condition-Distinct c s d = elim (Bool-cases (is_failed s)) [
  | inl e ↦ rw e d
  | inr e ↦ rw e (elim (Option-cases (get_condition c.kind s.conditions)) [
    | inl f ↦ rw (f, set_condition) (replace_condition-Distinct c s d)
    | inr (b, f) ↦
        rw (f, set_condition)
          (elim (Bool-cases (b.status == c.status && b.reason == c.reason)) [
            | inl g ↦ rw g d
            | inr g ↦ rw g (elim (Bool-cases (b.status == c.status)) [
              | inl h ↦ rw h (
                  replace_condition-Distinct
                    (record c { last_transition_time = b.last_transition_time }) s d)
              | inr h ↦ rw h (replace_condition-Distinct c s d)
            ])
          ])
  ])
]

-- An update keeps at most one condition of each type.
pub update-Distinct :
    (phase kind reason message : String) (now later : ℕ) (s : JobStatus)
    → Distinct (kinds s.conditions)
    → Distinct
        (kinds (update_job_conditions_and_status phase kind reason message now later s).conditions)
unfolding update_job_conditions_and_status
update-Distinct phase kind reason message now later s d =
    set_condition-Distinct (new_condition kind reason message now later) s d

-- A job that has failed keeps its conditions through every later update, which changes its phase
-- only.
pub update-failed :
    (phase kind reason message : String) (now later : ℕ) (s : JobStatus)
    → is_failed s ≡ true
    → update_job_conditions_and_status phase kind reason message now later s
      ≡ record s { phase = phase }
unfolding update_job_conditions_and_status set_condition
update-failed phase kind reason message now later s failed = rw failed

holds-append :
    (k : String) (cs ds : List JobCondition) → holds k (cs ++ ds) ≡ (holds k cs || holds k ds)
unfolding holds
holds-append k [] ds = refl
holds-append k (c ∷ cs) ds = ground (arith, holds-append k cs ds)

-- The condition that an update finds in place, if it is the one it would write.
in_place :
    (k : String) (cs : List JobCondition) {c : JobCondition}
    → get_condition k cs ≡ some c
    → (c.status == condition_true) ≡ true
    → holds k cs ≡ true
unfolding holds get_condition
in_place k [] g h = absurd (ground arith)
in_place k (b ∷ bs) {c} g h = elim (Bool-cases (b.kind == k)) [
  | inl e ↦ let same : b ≡ c = ground arith in rw (e, same, h)
  | inr e ↦ rw (e, in_place k bs {c = c} (ground arith) h)
]

holds-replace_condition :
    (c : JobCondition) (s : JobStatus)
    → (c.status == condition_true) ≡ true
    → holds c.kind (replace_condition c s).conditions ≡ true
unfolding replace_condition holds
holds-replace_condition c s h =
    rw (holds-append c.kind (filter_out_condition c.kind s.conditions) (c ∷ []))
      (ground (arith, string_eq.beq_iff c.kind c.kind))

-- After an update of a job that has not failed, the condition of the type written holds.
pub update-holds :
    (phase kind reason message : String) (now later : ℕ) (s : JobStatus)
    → is_failed s ≡ false
    → has_condition kind (update_job_conditions_and_status phase kind reason message now later s)
      ≡ true
unfolding update_job_conditions_and_status set_condition has_condition
update-holds phase kind reason message now later s live =
    let c = new_condition kind reason message now later in
    rw live (elim (Option-cases (get_condition kind s.conditions)) [
      | inl f ↦ rw (f, set_condition) (holds-replace_condition c s refl)
      | inr (b, f) ↦
          rw (f, set_condition)
            (elim (Bool-cases (b.status == condition_true && b.reason == reason)) [
              | inl g ↦ rw g (in_place kind s.conditions f (ground arith))
              | inr g ↦ rw g (elim (Bool-cases (b.status == condition_true)) [
                | inl h ↦ rw h (
                    holds-replace_condition
                      (record c { last_transition_time = b.last_transition_time }) s refl)
                | inr h ↦ rw h (holds-replace_condition c s refl)
              ])
            ])
    ])
