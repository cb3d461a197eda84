-- ===== src/Tests/Shares.antt =====
-- Requests of internal/handler/dataset.go about two datasets of one user.
use crater_backend.Prelude.{ℕ, ◌≡◌, refl, All, List, [], ◌∷◌, nat_eq, string_eq, arith}
use crater_backend.Server.{State, ok, pure, require, first, ask, found, write, when, transaction}
use crater_backend.Datasets.{Dataset, Share, Store, with_queue}
use crater_backend.Datasets.Manage.{
  get_datasets, collect, put, queue_response, own_queue_response, delete_dataset, remove_dataset,
}
use crater_backend.Datasets.Linked.{Linked, AllLinked}
use crater_backend.Datasets.Shown.{Request, share_request, delete_request, run, run-get_datasets}
use crater_backend.Datasets.Visible.{IsVisible, get_datasets-IsVisible}
use crater_backend.Datasets.Deleted.{delete_dataset-gone, MayDelete, gone}
use crater_backend.Tests.Sessions.{directory, message}

abbrev digits : Dataset
digits = record {
  id = 1;
  name = "digits";
  url = "users/alice/digits";
  describe = "digits";
  kind = "dataset";
  user_id = 1;
}

abbrev letters : Dataset
letters = record digits { id = 2; name = "letters" }

abbrev own_share : ℕ → Share
own_share id = record { id = id; who = 1; dataset_id = id }

abbrev store : State Store
store = record {
  faults = [];
  tables = record {
    directory = directory;
    datasets = digits ∷ letters ∷ [];
    user_datasets = own_share 1 ∷ own_share 2 ∷ [];
    account_datasets = [];
    next_share = 3;
  };
}

linked : Linked store.tables
unfolding Linked AllLinked
linked = (((λ e. absurd (ground arith)), ((λ e. absurd (ground arith)), tt)), tt)

abbrev requests : List Request
requests = share_request with_queue message 1 (1 ∷ []) ∷ delete_request message 2 ∷ []

run-get_datasets_example :
    (ds : List Dataset) × ((get_datasets message
        (record { faults = []; tables = (run requests store).tables })).0
      ≡ ok ds)
run-get_datasets_example = run-get_datasets requests store message linked

get_datasets-IsVisible_example : All (IsVisible message store.tables) (digits ∷ letters ∷ [])
unfolding get_datasets collect put queue_response own_queue_response first ask found pure
get_datasets-IsVisible_example = get_datasets-IsVisible message store {t = store} refl

delete_dataset-gone_example :
    MayDelete message 2 store.tables
    × ((delete_dataset message 2 store).1.tables ≡ gone 2 store.tables)
unfolding delete_dataset remove_dataset require first ask found write when pure transaction
delete_dataset-gone_example =
    delete_dataset-gone message 2 store {t = (delete_dataset message 2 store).1} refl
