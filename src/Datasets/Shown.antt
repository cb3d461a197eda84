-- ===== src/Datasets/Shown.antt =====
-- The list of datasets that GetDatasets of internal/handler/dataset.go shows to a user.
use crater_backend.Prelude.{
  ℕ, ◌≡◌, refl, ap, ◌∙◌, List, [], String, ◌∷◌, ◌==◌, nat_eq, Bool-cases, Option-cases, inl, inr,
}
use crater_backend.Server.{◌>>=◌, State, M, ok, pure, first, ask, found, continue}
use crater_backend.Token.{JwtMessage}
use crater_backend.Model.Roles.{default_account_id}
use crater_backend.Datasets.{
  Dataset, Share, Store, Side, find_dataset, shares_of, share_dataset, admin_share_dataset,
  cancel_share, admin_cancel_share,
}
use crater_backend.Datasets.Manage.{
  put, collect, queue_response, own_queue_response, get_datasets, delete_dataset,
}
use crater_backend.Datasets.Linked.{
  AllLinked, Linked, share_dataset-Linked, admin_share_dataset-Linked, cancel_share-Linked,
  admin_cancel_share-Linked,
}
use crater_backend.Datasets.Deleted.{delete_dataset-Linked}

-- The requests that change shares.
pub data Request : Type 0 where
  share_request : Side → JwtMessage → ℕ → List ℕ → Request
  admin_share_request : Side → ℕ → List ℕ → Request
  cancel_request : Side → JwtMessage → ℕ → ℕ → Request
  admin_cancel_request : Side → ℕ → ℕ → Request
  delete_request : JwtMessage → ℕ → Request

-- The state after a request, however it ends.
unfoldable pub serve : Request → State Store → State Store
unfolding share_dataset admin_share_dataset cancel_share admin_cancel_share delete_dataset
serve (share_request side token id ids) s = (share_dataset side token id ids s).1
serve (admin_share_request side id ids) s = (admin_share_dataset side id ids s).1
serve (cancel_request side token id who) s = (cancel_share side token id who s).1
serve (admin_cancel_request side id who) s = (admin_cancel_share side id who s).1
serve (delete_request token id) s = (delete_dataset token id s).1

unfoldable pub run : List Request → State Store → State Store
unfolding serve
run [] s = s
run (r ∷ rs) s = run rs (serve r s)

serve-Linked : (r : Request) (s : State Store) → Linked s.tables → Linked (serve r s).tables
unfolding serve
serve-Linked (share_request side token id ids) s l =
    (share_dataset-Linked side id token ids).kept s l
serve-Linked (admin_share_request side id ids) s l =
    (admin_share_dataset-Linked side id ids).kept s l
serve-Linked (cancel_request side token id who) s l =
    (cancel_share-Linked side id token who).kept s l
serve-Linked (admin_cancel_request side id who) s l =
    (admin_cancel_share-Linked side id who).kept s l
serve-Linked (delete_request token id) s l = delete_dataset-Linked token id s l

run-Linked : (rs : List Request) (s : State Store) → Linked s.tables → Linked (run rs s).tables
unfolding run
run-Linked [] s l = l
run-Linked (r ∷ rs) s l = run-Linked rs (serve r s) (serve-Linked r s l)

linked-shares_of :
    (ds : List Dataset) (who : ℕ) (ss : List Share)
    → AllLinked ds ss
    → AllLinked ds (shares_of who ss)
unfolding AllLinked
linked-shares_of ds who [] l = tt
linked-shares_of ds who (s ∷ ss) (h, l) = elim (Bool-cases (s.who == who)) [
  | inl e ↦ rw e (h, linked-shares_of ds who ss l)
  | inr e ↦ rw e (linked-shares_of ds who ss l)
]

-- Queries that all succeed.
abbrev on : Store → State Store
on w = record { faults = []; tables = w }

collect_total :
    (e : String) (w : Store) (ss : List Share) (data_map : List Dataset)
    → AllLinked w.datasets ss
    → (ds : List Dataset) × (collect e ss data_map (on w) ≡ (ok ds, on w))
unfolding collect AllLinked first ask found pure
collect_total e w [] data_map l = (data_map, refl)
collect_total e w (s ∷ ss) data_map (h, l) =
    elim (Option-cases (find_dataset s.dataset_id w.datasets)) [
      | inl g ↦ absurd (h g)
      | inr (d, g) ↦ let (ds, done) = collect_total e w ss (put d data_map) l in (ds, rw g done)
    ]

queue_total :
    (e : String) (w : Store) (account : ℕ) (data_map : List Dataset)
    → Linked w
    → (ds : List Dataset) × (queue_response e account data_map (on w) ≡ (ok ds, on w))
unfolding queue_response Linked ask
queue_total e w account data_map l =
    collect_total e w (shares_of account w.account_datasets) data_map
      (linked-shares_of w.datasets account w.account_datasets l.1)

get_datasets_total :
    (token : JwtMessage) (w : Store)
    → Linked w
    → (ds : List Dataset) × ((get_datasets token (on w)).0 ≡ ok ds)
unfolding get_datasets own_queue_response ask Linked pure
get_datasets_total token w l =
    let public : String = "Can't get public datasets" in
    let (own, h1) =
      collect_total _ w (shares_of token.user_id w.user_datasets) []
        (linked-shares_of w.datasets token.user_id w.user_datasets l.0) in
    let (shared, h2) = queue_total public w default_account_id own l in
    let (all, h3) = queue_total "Can't get queue datasets" w token.account_id shared l in
    let k1 : List Dataset → M Store (List Dataset) = λ own.
      queue_response public default_account_id own >>= λ shared.
      own_queue_response token.account_id shared in
    elim (Bool-cases (token.account_id == default_account_id)) [
      | inl e ↦
          let last : own_queue_response token.account_id shared (on w) ≡ (ok shared, on w) =
            rw e refl in
          (
            shared,
            ap (λ r. r.0)
                (ap (λ r. continue r k1) h1
                  ∙ ap (λ r. continue r (own_queue_response token.account_id)) h2
                  ∙ last),
          )
      | inr e ↦
          let last : own_queue_response token.account_id shared (on w) ≡ (ok all, on w) = rw e h3 in
          (
            all,
            ap (λ r. r.0)
                (ap (λ r. continue r k1) h1
                  ∙ ap (λ r. continue r (own_queue_response token.account_id)) h2
                  ∙ last),
          )
    ]

-- If every share is of a dataset that is there, then after any sequence of requests that share, cancel
-- shares or delete datasets, whichever of their queries fail, the list of the datasets of a user can be
-- made: if its queries succeed it ends without an error.
pub run-get_datasets :
    (rs : List Request) (s : State Store) (token : JwtMessage)
    → Linked s.tables
    → (ds : List Dataset) × ((get_datasets token
          (record { faults = []; tables = (run rs s).tables })).0
        ≡ ok ds)
run-get_datasets rs s token l = get_datasets_total token (run rs s).tables (run-Linked rs s l)
