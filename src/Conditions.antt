-- ===== src/Conditions.antt =====
-- pkg/util/status.go: the conditions of an AIJob, with the types of pkg/apis/aijob/v1alpha1. The
-- two readings of the clock in newCondition are arguments.
pub mod History
use crater_backend.Prelude.{
  ℕ, Bool, true, false, not, ◌&&◌, ◌||◌, Option, none, some, List, [], ◌∷◌, ◌++◌, String,
  if◌then◌else◌, ◌==◌, string_eq,
}

-- JobConditionType, and v1.ConditionStatus.
abbrev pub created_condition : String
created_condition = "Created"

abbrev pub running_condition : String
running_condition = "Running"

abbrev pub succeeded_condition : String
succeeded_condition = "Succeeded"

abbrev pub failed_condition : String
failed_condition = "Failed"

abbrev pub condition_true : String
condition_true = "True"

abbrev pub condition_false : String
condition_false = "False"

pub record JobCondition : Type 0 where
  pub kind : String
  pub status : String
  pub reason : String
  pub message : String
  pub last_update_time : ℕ
  pub last_transition_time : ℕ

pub record JobStatus : Type 0 where
  pub phase : String
  pub conditions : List JobCondition

unfoldable pub holds : String → List JobCondition → Bool
holds kind [] = false
holds kind (c ∷ cs) = (c.kind == kind && c.status == condition_true) || holds kind cs

unfoldable pub has_condition : String → JobStatus → Bool
unfolding holds
has_condition kind s = holds kind s.conditions

unfoldable pub is_succeeded : JobStatus → Bool
unfolding has_condition
is_succeeded s = has_condition succeeded_condition s

unfoldable pub is_failed : JobStatus → Bool
unfolding has_condition
is_failed s = has_condition failed_condition s

abbrev pub new_condition : String → String → String → ℕ → ℕ → JobCondition
new_condition kind reason message now later = record {
  kind = kind;
  status = condition_true;
  reason = reason;
  message = message;
  last_update_time = now;
  last_transition_time = later;
}

-- getCondition, on the conditions of a status.
unfoldable pub get_condition : String → List JobCondition → Option JobCondition
get_condition kind [] = none
get_condition kind (c ∷ cs) = if c.kind == kind then some c else get_condition kind cs

-- What filterOutCondition does to a condition that it keeps.
abbrev pub switch_off : String → JobCondition → JobCondition
switch_off kind c =
    if (kind == failed_condition || kind == succeeded_condition) && c.kind == running_condition
    then record c { status = condition_false }
    else c

unfoldable pub filter_out_condition : String → List JobCondition → List JobCondition
filter_out_condition kind [] = []
filter_out_condition kind (c ∷ cs) =
    let rest = filter_out_condition kind cs in
    if c.kind == kind then rest else switch_off kind c ∷ rest

-- The end of setCondition: the condition replaces the one of its type.
unfoldable pub replace_condition : JobCondition → JobStatus → JobStatus
unfolding filter_out_condition
replace_condition c s = record s {
  conditions = filter_out_condition c.kind s.conditions ++ (c ∷ []);
}

unfoldable pub set_condition : JobCondition → JobStatus → JobStatus
unfolding is_failed get_condition replace_condition
set_condition c s = if is_failed s then s else elim (get_condition c.kind s.conditions) [
  | none ↦ replace_condition c s
  | some current ↦
      if current.status == c.status && current.reason == c.reason
      then s
      else if current.status == c.status
      then replace_condition (record c { last_transition_time = current.last_transition_time }) s
      else replace_condition c s
]

unfoldable pub update_job_conditions_and_status :
    String → String → String → String → ℕ → ℕ → JobStatus → JobStatus
unfolding set_condition
update_job_conditions_and_status phase kind reason message now later s =
    record (set_condition (new_condition kind reason message now later) s) { phase = phase }
