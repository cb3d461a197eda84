-- ===== src/Datasets.antt =====
-- internal/handler/dataset.go: with whom datasets are shared. A dataset is shared with users and with
-- accounts, each in a table of its own; sharing is not in a transaction, deleting is. Deleted rows are
-- seen by no query and stand in the tables no more.
pub mod Manage
pub mod Deleted
pub mod Linked
pub mod Shown
pub mod Visible
use crater_backend.Prelude.{
  ℕ, suc, Bool, true, false, not, ◌&&◌, ◌||◌, Option, none, some, List, [], ◌∷◌, ◌++◌, String,
  if◌then◌else◌, ◌==◌, nat_eq,
}
use crater_backend.Server.{
  M, Result, ok, err, pure, refuse, require, when, ask, first, write, attempt, transaction, ◌>>=◌,
  ◌>>◌,
}
use crater_backend.Directory.{Directory, User, Account, find_user, find_account}
use crater_backend.Model.Roles.{role_admin, default_account_id}
use crater_backend.Token.{JwtMessage}

-- Dataset of dao/model/dataset.go
pub record Dataset : Type 0 where
  pub id : ℕ
  pub name : String
  pub url : String
  pub describe : String
  pub kind : String
  pub user_id : ℕ

-- UserDataset and AccountDataset: whom a dataset is shared with.
pub record Share : Type 0 where
  pub id : ℕ
  pub who : ℕ
  pub dataset_id : ℕ

pub record Store : Type 0 where
  pub directory : Directory
  pub datasets : List Dataset
  pub user_datasets : List Share
  pub account_datasets : List Share
  pub next_share : ℕ

abbrev pub find_dataset : ℕ → List Dataset → Option Dataset
find_dataset id [] = none
find_dataset id (d ∷ ds) = let rest = find_dataset id ds in if d.id == id then some d else rest

-- A dataset of an owner.
abbrev pub find_owned : ℕ → ℕ → List Dataset → Option Dataset
find_owned user id [] = none
find_owned user id (d ∷ ds) =
    let rest = find_owned user id ds in if d.user_id == user && d.id == id then some d else rest

abbrev pub is_share : ℕ → ℕ → Share → Bool
is_share who dataset s = s.who == who && s.dataset_id == dataset

abbrev pub find_share : ℕ → ℕ → List Share → Option Share
find_share who dataset [] = none
find_share who dataset (s ∷ ss) =
    let rest = find_share who dataset ss in if is_share who dataset s then some s else rest

abbrev pub shares_of : ℕ → List Share → List Share
shares_of who [] = []
shares_of who (s ∷ ss) = let rest = shares_of who ss in if s.who == who then s ∷ rest else rest

abbrev pub drop_share : Share → List Share → List Share
drop_share x [] = []
drop_share x (s ∷ ss) =
    let rest = drop_share x ss in
    if s.id == x.id && is_share x.who x.dataset_id s then rest else s ∷ rest

-- The shares of other datasets.
abbrev pub drop_dataset_shares : ℕ → List Share → List Share
drop_dataset_shares id [] = []
drop_dataset_shares id (s ∷ ss) =
    let rest = drop_dataset_shares id ss in if s.dataset_id == id then rest else s ∷ rest

abbrev pub drop_dataset : ℕ → List Dataset → List Dataset
drop_dataset id [] = []
drop_dataset id (d ∷ ds) = let rest = drop_dataset id ds in if d.id == id then rest else d ∷ rest

-- The two tables of shares: whether the other side is there, the rows, and the answers.
pub data Side : Type 0 where
  with_user with_queue : Side

abbrev pub rows : Side → Store → List Share
rows with_user w = w.user_datasets
rows with_queue w = w.account_datasets

abbrev pub set_rows : Side → List Share → Store → Store
set_rows with_user ss w = record w { user_datasets = ss }
set_rows with_queue ss w = record w { account_datasets = ss }

abbrev pub known : {A : Type 0} → Option A → Option (Unit {0})
known none = none
known (some _) = some tt

abbrev pub find_other : Side → ℕ → Store → Option (Unit {0})
find_other with_user id w = known (find_user id w.directory.users)
find_other with_queue id w = known (find_account id w.directory.accounts)

abbrev pub no_other : Side → String
no_other with_user = "user not exist"
no_other with_queue = "queue not exist"

abbrev pub shared_before : Side → String
shared_before with_user = "user has shared dataset"
shared_before with_queue = "queue has shared dataset"

abbrev pub nobody_chosen : Side → String
nobody_chosen with_user = "need to choose users to share"
nobody_chosen with_queue = "need to choose queues to share"

-- The answers of the requests that cancel a share.
abbrev pub unknown_other : Side → String
unknown_other with_user = "can't find user"
unknown_other with_queue = "queue not exist"

abbrev pub may_not_cancel : Side → String
may_not_cancel with_user = "you has no permission to cancel share with user"
may_not_cancel with_queue = "you can't cancel share with queue"

abbrev pub nothing_to_share : Side → String
nothing_to_share with_user = "this dataset not exist"
nothing_to_share with_queue = "can't find this dataset"

abbrev pub nothing_to_cancel : Side → String
nothing_to_cancel with_user = "this dataset not exist"
nothing_to_cancel with_queue = "dataset does not exist"

abbrev pub not_shared : Side → String
not_shared with_user = "user doesn't shared dataset"
not_shared with_queue = "the dataset was not shared with the queue"

unfoldable pub insert_share : Side → ℕ → ℕ → Store → Store
insert_share side who dataset w =
    set_rows side
      (rows side w ++ record { id = w.next_share; who = who; dataset_id = dataset } ∷ [])
      (record w { next_share = suc w.next_share })

abbrev pub or_none : {A : Type 0} → Result A → Option A
or_none (ok a) = some a
or_none (err e) = none

-- A query for one row whose error is not told from no row.
unfoldable pub quiet : {A : Type 0} → (Store → Option A) → M Store (Option A)
quiet f = do r ← attempt (first "" f); pure (or_none r)

abbrev pub is_absent : {A : Type 0} → Option A → Bool
is_absent none = true
is_absent (some _) = false

-- One turn of the loop of shareWithUser and of shareWithQueue.
unfoldable pub share_one : Side → ℕ → ℕ → M Store (Unit {0})
unfolding quiet insert_share
share_one side dataset who = do
  o ← first (no_other side) (find_other side who)
  before ← quiet (λ w. find_share who dataset (rows side w))
  require (shared_before side) (is_absent before)
  write "create share failed" (insert_share side who dataset)

unfoldable pub share_all : Side → ℕ → List ℕ → M Store (Unit {0})
unfolding share_one
share_all side dataset [] = pure tt
share_all side dataset (who ∷ ids) = share_one side dataset who >> share_all side dataset ids

abbrev pub is_some_list : {A : Type 0} → List A → Bool
is_some_list [] = false
is_some_list (_ ∷ _) = true

-- shareWithUser and shareWithQueue
unfoldable pub share_with : Side → ℕ → List ℕ → M Store (Unit {0})
unfolding share_all
share_with side dataset ids =
    require (nobody_chosen side) (is_some_list ids) >> share_all side dataset ids

unfoldable pub share_dataset : Side → JwtMessage → ℕ → List ℕ → M Store (Unit {0})
unfolding share_with
share_dataset side token dataset ids = do
  d ←
      first "you has no permission or this dataset not exist"
        (λ w. find_owned token.user_id dataset w.datasets)
  share_with side dataset ids

unfoldable pub admin_share_dataset : Side → ℕ → List ℕ → M Store (Unit {0})
unfolding share_with
admin_share_dataset side dataset ids = do
  d ← first (nothing_to_share side) (λ w. find_dataset dataset w.datasets)
  share_with side dataset ids

-- The query whether a user is the owner, of cancelShareWithUser alone.
abbrev pub ask_owner : Side → ℕ → ℕ → M Store (Option Dataset)
unfolding quiet
ask_owner with_user dataset who = quiet (λ w. find_owned who dataset w.datasets)
ask_owner with_queue dataset who = pure none

-- cancelShareWithUser and cancelShareWithQueue
unfoldable pub cancel_with : Side → ℕ → ℕ → M Store (Unit {0})
unfolding quiet
cancel_with side dataset who = do
  o ← first (unknown_other side) (find_other side who)
  owned ← ask_owner side dataset who
  require "can't cancel share with creator" (is_absent owned)
  s ← quiet (λ w. find_share who dataset (rows side w))
  require (not_shared side) (not (is_absent s))
  write "delete share failed"
      (λ w. elim s [ none ↦ w | some s ↦ set_rows side (drop_share s (rows side w)) w ])

unfoldable pub cancel_share : Side → JwtMessage → ℕ → ℕ → M Store (Unit {0})
unfolding cancel_with
cancel_share side token dataset who = do
  d ← first (may_not_cancel side) (λ w. find_owned token.user_id dataset w.datasets)
  cancel_with side dataset who

unfoldable pub admin_cancel_share : Side → ℕ → ℕ → M Store (Unit {0})
unfolding cancel_with
admin_cancel_share side dataset who = do
  d ← first (nothing_to_cancel side) (λ w. find_dataset dataset w.datasets)
  cancel_with side dataset who
