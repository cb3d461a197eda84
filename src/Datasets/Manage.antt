-- ===== src/Datasets/Manage.antt =====
-- Deleting a dataset and listing the datasets of a user, in internal/handler/dataset.go. The map of the
-- list has the ids as keys; the order of its answer is left open by Go, and is here that of the keys'
-- first appearance.
use crater_backend.Prelude.{ℕ, ◌||◌, List, [], ◌∷◌, String, if◌then◌else◌, ◌==◌, nat_eq}
use crater_backend.Server.{M, pure, require, when, ask, first, write, transaction, ◌>>=◌, ◌>>◌}
use crater_backend.Model.Roles.{role_admin, default_account_id}
use crater_backend.Token.{JwtMessage}
use crater_backend.Datasets.{
  Dataset, Share, Store, find_dataset, shares_of, drop_dataset_shares, drop_dataset, is_some_list,
}

abbrev pub restore : Store → Store → Store
restore old new = record old { next_share = new.next_share }

abbrev pub shares_in : ℕ → List Share → List Share
shares_in id [] = []
shares_in id (s ∷ ss) = let rest = shares_in id ss in if s.dataset_id == id then s ∷ rest else rest

abbrev pub forget_users : ℕ → Store → Store
forget_users id w = record w { user_datasets = drop_dataset_shares id w.user_datasets }

abbrev pub forget_queues : ℕ → Store → Store
forget_queues id w = record w { account_datasets = drop_dataset_shares id w.account_datasets }

abbrev pub forget_dataset : ℕ → Store → Store
forget_dataset id w = record w { datasets = drop_dataset id w.datasets }

-- The transaction of DeleteDataset.
unfoldable pub remove_dataset : JwtMessage → ℕ → M Store (Unit {0})
remove_dataset token id = do
  d ← first "dataset not found" (λ w. find_dataset id w.datasets)
  require "you has no permission" (d.user_id == token.user_id || token.role_platform == role_admin)
  us ← ask "query failed" (λ w. shares_in id w.user_datasets)
  qs ← ask "query failed" (λ w. shares_in id w.account_datasets)
  when (is_some_list us) (write "delete shares failed" (forget_users id))
  when (is_some_list qs) (write "delete shares failed" (forget_queues id))
  write "delete dataset failed" (forget_dataset id)

unfoldable pub delete_dataset : JwtMessage → ℕ → M Store (Unit {0})
unfolding remove_dataset
delete_dataset token id = transaction restore "commit failed" (remove_dataset token id)

-- The map of the answer.
unfoldable pub put : Dataset → List Dataset → List Dataset
put d [] = d ∷ []
put d (x ∷ xs) = let rest = put d xs in if x.id == d.id then d ∷ xs else x ∷ rest

-- The datasets of shares, or the answer to an error.
unfoldable pub collect : String → List Share → List Dataset → M Store (List Dataset)
unfolding put
collect e [] data_map = pure data_map
collect e (s ∷ ss) data_map =
    first e (λ w. find_dataset s.dataset_id w.datasets) >>= λ d. collect e ss (put d data_map)

-- generateQueueDataseResponse, with the answer to its errors.
unfoldable pub queue_response : String → ℕ → List Dataset → M Store (List Dataset)
unfolding collect
queue_response e account data_map = do
  ss ← ask e (λ w. shares_of account w.account_datasets)
  collect e ss data_map

unfoldable pub own_queue_response : ℕ → List Dataset → M Store (List Dataset)
unfolding queue_response
own_queue_response account data_map =
    if account == default_account_id
    then pure data_map
    else queue_response "Can't get queue datasets" account data_map

unfoldable pub get_datasets : JwtMessage → M Store (List Dataset)
unfolding collect queue_response own_queue_response
get_datasets token = do
  ss ← ask "Can't get mydatasets" (λ w. shares_of token.user_id w.user_datasets)
  own ← collect "Get user's dataset failed" ss []
  shared ← queue_response "Can't get public datasets" default_account_id own
  own_queue_response token.account_id shared
