-- ===== src/Datasets/Deleted.antt =====
-- DeleteDataset of internal/handler/dataset.go: who may, and what is gone.
use crater_backend.Prelude.{
  ℕ, ◌≡◌, refl, sym, ap, ◌∙◌, subst, Bool, true, false, ◌||◌, some, List, [], ◌∷◌, String, ◌==◌,
  nat_eq, Bool-cases, inl, inr, arith,
}
use crater_backend.Server.{State, M, Result, ok, err, when, write, pure, continue}
use crater_backend.Server.Passed.{
  first_passed, require_passed, ask_passed, write_passed, write_ended, transaction_passed,
  transaction_failed,
}
use crater_backend.Token.{JwtMessage}
use crater_backend.Model.Roles.{role_admin}
use crater_backend.Datasets.{Dataset, Share, Store, find_dataset, drop_dataset_shares, is_some_list}
use crater_backend.Datasets.Manage.{
  restore, shares_in, forget_users, forget_queues, forget_dataset, remove_dataset, delete_dataset,
}
use crater_backend.Datasets.Linked.{Linked, linked-forget}

-- No share of a dataset: dropping them changes nothing.
nothing_to_drop :
    (id : ℕ) (ss : List Share)
    → is_some_list (shares_in id ss) ≡ false
    → drop_dataset_shares id ss ≡ ss
nothing_to_drop id [] h = refl
nothing_to_drop id (s ∷ ss) h = elim (Bool-cases (s.dataset_id == id)) [
  | inl e ↦ absurd (ground arith)
  | inr e ↦ rw e (ap (λ ss. s ∷ ss) (nothing_to_drop id ss (ground arith)))
]

unused_users :
    (id : ℕ) (w w' : Store)
    → w'.user_datasets ≡ w.user_datasets
    → is_some_list (shares_in id w.user_datasets) ≡ false
    → forget_users id w' ≡ w'
unused_users id w w' e b =
    ap (λ ss. record w' { user_datasets = ss })
      (nothing_to_drop id w'.user_datasets
        (subst (λ ss. is_some_list (shares_in id ss) ≡ false) (sym e) b))

unused_queues :
    (id : ℕ) (w w' : Store)
    → w'.account_datasets ≡ w.account_datasets
    → is_some_list (shares_in id w.account_datasets) ≡ false
    → forget_queues id w' ≡ w'
unused_queues id w w' e b =
    ap (λ ss. record w' { account_datasets = ss })
      (nothing_to_drop id w'.account_datasets
        (subst (λ ss. is_some_list (shares_in id ss) ≡ false) (sym e) b))

-- A write that is left out where it would change nothing.
when_passed :
    (b : Bool) (e : String) (f : Store → Store) (s : State Store) {B : Type 0}
    (k : Unit {0} → M Store B) {y : B} {t : State Store}
    → (b ≡ false → f s.tables ≡ s.tables)
    → continue (when b (write e f) s) k ≡ (ok y, t)
    → (s' : State Store) × (s'.tables ≡ f s.tables) × (k tt s' ≡ (ok y, t))
unfolding when pure
when_passed true e f s k same h = write_passed e f s k h
when_passed false e f s k same h = (s, sym (same refl), h)

same_users : (w1 w3 w4 : Store) → w3 ≡ w1 → w4 ≡ w3 → w4.user_datasets ≡ w1.user_datasets
same_users w1 w3 w4 e f = ap (λ w. w.user_datasets) (f ∙ e)

same_queues :
    (id : ℕ) (w3 w4 w5 : Store)
    → w4 ≡ w3
    → w5 ≡ forget_users id w4
    → w5.account_datasets ≡ w3.account_datasets
same_queues id w3 w4 w5 e f = ap (λ w. w.account_datasets) f ∙ ap (λ w. w.account_datasets) e

-- The dataset and its shares gone.
abbrev pub gone : ℕ → Store → Store
gone id w = forget_dataset id (forget_queues id (forget_users id w))

abbrev pub MayDelete : JwtMessage → ℕ → Store → Type 0
MayDelete token id w =
    (d : Dataset) × (find_dataset id w.datasets ≡ some d)
    × ((d.user_id == token.user_id || token.role_platform == role_admin) ≡ true)

module _ (token : JwtMessage) (id : ℕ) where
  all_gone :
      (w w1 w3 w4 w5 w6 : Store) {w7 : Store}
      → w1 ≡ w
      → w3 ≡ w1
      → w4 ≡ w3
      → w5 ≡ forget_users id w4
      → w6 ≡ forget_queues id w5
      → w7 ≡ forget_dataset id w6
      → w7 ≡ gone id w
  all_gone w w1 w3 w4 w5 w6 t1 t3 t4 t5 t6 t7 =
      t7
      ∙ ap (forget_dataset id)
          (t6 ∙ ap (forget_queues id) (t5 ∙ ap (forget_users id) (t4 ∙ t3 ∙ t1)))

  remove_effect :
      (s : State Store) {t : State Store}
      → remove_dataset token id s ≡ (ok tt, t)
      → MayDelete token id s.tables × (t.tables ≡ gone id s.tables)
  unfolding remove_dataset
  remove_effect s h =
      let (d, s1, there, t1, h1) = first_passed _ (λ w. find_dataset id w.datasets) s _ h in
      let (may, h2) =
        require_passed _ (d.user_id == token.user_id || token.role_platform == role_admin) s1 _
          h1 in
      let (s3, t3, h3) = ask_passed _ (λ w. shares_in id w.user_datasets) s1 _ h2 in
      let (s4, t4, h4) = ask_passed _ (λ w. shares_in id w.account_datasets) s3 _ h3 in
      let (s5, t5, h5) =
        when_passed (is_some_list (shares_in id s1.tables.user_datasets)) _ (forget_users id) s4 _
          (unused_users id s1.tables s4.tables (same_users s1.tables s3.tables s4.tables t3 t4))
          h4 in
      let (s6, t6, h6) =
        when_passed (is_some_list (shares_in id s3.tables.account_datasets)) _ (forget_queues id) s5
          _
          (unused_queues id s3.tables s5.tables
            (same_queues id s3.tables s4.tables s5.tables t4 t5))
          h5 in
      (
        (d, there, may),
        all_gone s.tables s1.tables s3.tables s4.tables s5.tables s6.tables t1 t3 t4 t5 t6
            (write_ended _ (forget_dataset id) s6 h6),
      )

  -- A dataset is deleted by its owner or by an administrator of the platform only, and where the
  -- request ends without an error the dataset and all shares of it are gone, while the other datasets
  -- and the other shares are as they were.
  pub delete_dataset-gone :
      (s : State Store) {t : State Store}
      → delete_dataset token id s ≡ (ok tt, t)
      → MayDelete token id s.tables × (t.tables ≡ gone id s.tables)
  unfolding delete_dataset
  delete_dataset-gone s h =
      let (s1, done, same) =
        transaction_passed restore "commit failed" (remove_dataset token id) s h in
      let (may, left) = remove_effect s done in (may, same ∙ left)

  delete_dataset-kept :
      (s : State Store) (r : Result (Unit {0}) × State Store)
      → delete_dataset token id s ≡ r
      → Linked s.tables
      → Linked r.1.tables
  unfolding delete_dataset Linked
  delete_dataset-kept s (ok tt, t) h l =
      let (_, left) = delete_dataset-gone s h in
      subst Linked (sym left) (
        linked-forget id s.tables.datasets s.tables.user_datasets l.0,
        linked-forget id s.tables.datasets s.tables.account_datasets l.1,
      )
  delete_dataset-kept s (err e, t) h l =
      let (new, back) = transaction_failed restore "commit failed" (remove_dataset token id) s h in
      subst Linked (sym back) l

  -- Deleting a dataset, however it ends, leaves every share one of a dataset that is there.
  pub delete_dataset-Linked :
      (s : State Store) → Linked s.tables → Linked (delete_dataset token id s).1.tables
  delete_dataset-Linked s = delete_dataset-kept s (delete_dataset token id s) refl
