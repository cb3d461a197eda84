-- ===== src/Resources.antt =====
-- pkg/aitaskctl/utils.go: arithmetic and tests on resource lists, which are maps from resource names
-- to Kubernetes quantities, and the two checks before a job is created.
pub mod Amounts
pub mod Exceed
use crater_backend.Prelude.{
  ℕ, ◌≡◌, Bool, true, false, ◌&&◌, Option, none, some, List, [], ◌∷◌, String, if◌then◌else◌, length,
  ◌==◌, nat_eq, string_eq, leb,
}
use crater_backend.Prelude.Dict.{Dict, get, put}
use crater_backend.Prelude.Int.{ℤ, pos, negsuc, leb_ℤ, eqb_ℤ}

-- resource.Quantity of Kubernetes: Add, Sub, Cmp, Value, Go's `==` on two of them, and its zero
-- value. The laws are those of exact numbers that its documentation states.
pub record Quantity (Q : Type 0) : Type 0 where
  pub none_left : Q
  pub add : Q → Q → Q
  pub sub : Q → Q → Q
  pub is_more : Q → Q → Bool
  pub value : Q → ℤ
  pub same : Q → Q → Bool
  pub add_comm : (a b : Q) → add a b ≡ add b a
  pub add_assoc : (a b c : Q) → add (add a b) c ≡ add a (add b c)
  pub add_none_left : (a : Q) → add a none_left ≡ a
  pub sub-add : (a b : Q) → sub (add a b) b ≡ a
  pub same_eq : (a b : Q) → same a b ≡ true → a ≡ b

abbrev pub ResourceList : Type 0 → Type 0
ResourceList Q = Dict String Q

abbrev pub max_job_resources : ℕ
max_job_resources = 100

abbrev pub too_many_jobs : String
too_many_jobs = "作业数量超过限制"

abbrev pub jupyter : String
jupyter = "jupyter"

pub data JupyterCheck : Type 0 where
  allowed : JupyterCheck
  db_error : JupyterCheck
  over_limit : ℤ → JupyterCheck

module _ {Q : Type 0} ⦃n : Quantity Q⦄ where
  -- A read of a missing key gives the zero quantity.
  abbrev pub or_zero : Option Q → Q
  or_zero none = n.none_left
  or_zero (some v) = v

  abbrev pub amount : String → ResourceList Q → Q
  amount k m = or_zero (get k m)

  -- What one round of the loop of AddResourceList writes under a key.
  abbrev pub joined : Q → Option Q → Q
  joined v none = v
  joined v (some w) = n.add v w

  unfoldable pub add_resource_list : ResourceList Q → ResourceList Q → ResourceList Q
  add_resource_list a [] = a
  add_resource_list a ((k, v) ∷ b) = add_resource_list (put k (joined v (get k a)) a) b

  abbrev pub reduced : Q → Option Q → Q
  reduced v none = v
  reduced v (some w) = n.sub v w

  unfoldable pub sub_resource_list : ResourceList Q → ResourceList Q → ResourceList Q
  sub_resource_list [] b = []
  sub_resource_list ((k, v) ∷ a) b = (k, reduced v (get k b)) ∷ sub_resource_list a b

  unfoldable pub same_entries : ResourceList Q → ResourceList Q → Bool
  same_entries [] b = true
  same_entries ((k, v) ∷ a) b = n.same (amount k b) v && same_entries a b

  unfoldable pub cmp_resource_list_same : ResourceList Q → ResourceList Q → Bool
  unfolding same_entries
  cmp_resource_list_same a b = length a == length b && same_entries a b

  -- Whether the limit for a resource is missing or passed.
  abbrev pub over : Option Q → Q → Bool
  over none v = true
  over (some limit) v = n.is_more v limit

  unfoldable pub any_over : ResourceList Q → ResourceList Q → Bool
  any_over hard [] = false
  any_over hard ((k, v) ∷ used) =
      let rest = any_over hard used in if over (get k hard) v then true else rest

  unfoldable pub check_resource_list_exceed :
      ResourceList Q → ResourceList Q → ResourceList Q → Bool
  unfolding add_resource_list any_over
  check_resource_list_exceed hard used requested = any_over hard (add_resource_list used requested)

  -- The loop of CheckResourcesBeforeCreateJob that sums the resources of the jobs.
  unfoldable pub add_all : ResourceList Q → List (ResourceList Q) → ResourceList Q
  unfolding add_resource_list
  add_all total [] = total
  add_all total (r ∷ rs) = add_all (add_resource_list total r) rs

  -- The names of the resources of which more is used than the quota has.
  unfoldable pub exceeded_names : ResourceList Q → ResourceList Q → List String
  exceeded_names quota [] = []
  exceeded_names quota ((k, v) ∷ used) =
      let rest = exceeded_names quota used in
      if n.is_more v (amount k quota) then k ∷ rest else rest

  -- The quota and the resources of the user's running and pending jobs are what the two queries
  -- return, `none` for an error.
  unfoldable pub check_resources_before_create_job :
      Option (ResourceList Q) → Option (List (ResourceList Q)) → ResourceList Q → List String
  unfolding add_all exceeded_names
  check_resources_before_create_job none jobs create = []
  check_resources_before_create_job (some quota) none create = []
  check_resources_before_create_job (some quota) (some jobs) create =
      if leb max_job_resources (length jobs)
      then too_many_jobs ∷ []
      else if length quota == 0
      then []
      else exceeded_names quota (add_resource_list (add_all [] jobs) create)

  -- The limit that a capability map sets, or else the one given.
  abbrev pub limit_or : Option Q → ℤ → ℤ
  limit_or none m = m
  limit_or (some v) m = n.value v

  -- The largest number of Jupyter jobs: the account's default for its users, overridden by the
  -- user's own quota; -1 means no limit.
  unfoldable pub max_jupyter_count : Option (ResourceList Q) → ResourceList Q → ℤ
  max_jupyter_count none own = limit_or (get jupyter own) (negsuc 0)
  max_jupyter_count (some default) own =
      limit_or (get jupyter own) (limit_or (get jupyter default) (negsuc 0))

  -- The three queries return the user's quota, the number of running and pending Jupyter jobs and
  -- the account's default quota for its users (`none` where the account has none).
  unfoldable pub check_jupyter_limit :
      Option (ResourceList Q) → Option ℕ → Option (Option (ResourceList Q)) → JupyterCheck
  unfolding max_jupyter_count
  check_jupyter_limit none count account = db_error
  check_jupyter_limit (some own) none account = db_error
  check_jupyter_limit (some own) (some count) none = db_error
  check_jupyter_limit (some own) (some count) (some default) =
      let limit = max_jupyter_count default own in
      if eqb_ℤ limit (negsuc 0)
      then allowed
      else if leb_ℤ limit (pos count)
      then over_limit limit
      else allowed
