-- ===== src/Datasets/Visible.antt =====
-- Whose datasets GetDatasets of internal/handler/dataset.go shows.
use crater_backend.Prelude.{
  All, ℕ, ◌≡◌, ◌≢◌, refl, sym, ap, ◌∙◌, subst, Bool, true, false, none, some, List, [], String, ◌∷◌,
  if◌then◌else◌, ◌==◌, nat_eq, nat_beq_iff, Bool-cases, inl, inr, ◌⊎◌, arith,
}
use crater_backend.Server.{State, ok}
use crater_backend.Server.Passed.{part_passed, first_passed, ask_passed, pure_passed}
use crater_backend.Token.{JwtMessage}
use crater_backend.Model.Roles.{default_account_id}
use crater_backend.Datasets.{Dataset, Share, Store, find_dataset, find_share, is_share, shares_of}
use crater_backend.Datasets.Manage.{put, collect, queue_response, own_queue_response, get_datasets}

All-map :
    {A : Type 0} {P Q : A → Type 0} → ((x : A) → P x → Q x) → (xs : List A) → All P xs → All Q xs
All-map f [] h = tt
All-map f (x ∷ xs) (h, hs) = (f x h, All-map f xs hs)

-- Shared with the user, with everybody or with the account of the token.
pub IsVisible : JwtMessage → Store → Dataset → Type 0
IsVisible token w d =
    ◌≢◌ (find_share token.user_id d.id w.user_datasets) none
    ⊎ (◌≢◌ (find_share default_account_id d.id w.account_datasets) none
        ⊎ ◌≢◌ (find_share token.account_id d.id w.account_datasets) none)

find_dataset-id :
    (id : ℕ) (ds : List Dataset) {d : Dataset} → find_dataset id ds ≡ some d → d.id ≡ id
find_dataset-id id [] {d} h = absurd (ground arith)
find_dataset-id id (x ∷ ds) {d} h = elim (Bool-cases (x.id == id)) [
  | inl e ↦ ground (arith, nat_beq_iff x.id id)
  | inr e ↦ find_dataset-id id ds {d = d} (ground arith)
]

All-if :
    {A : Type 0} (P : A → Type 0) (b : Bool) (x : A) (xs : List A)
    → (b ≡ true → P x)
    → All P xs
    → All P (if b then x ∷ xs else xs)
All-if P true x xs h hs = (h refl, hs)
All-if P false x xs h hs = hs

IsFoundIn : ℕ → List Share → Share → Type 0
IsFoundIn who ss x = ◌≢◌ (find_share who x.dataset_id ss) none

found_later :
    (who : ℕ) (s : Share) (ss : List Share) (x : Share)
    → IsFoundIn who ss x
    → IsFoundIn who (s ∷ ss) x
unfolding IsFoundIn
found_later who s ss x h = λ g. elim (Bool-cases (is_share who x.dataset_id s)) [
  | inl e ↦ absurd (ground arith)
  | inr e ↦ h (rw e at g)
]

found_now :
    (who : ℕ) (s : Share) (ss : List Share) → (s.who == who) ≡ true → IsFoundIn who (s ∷ ss) s
unfolding IsFoundIn
found_now who s ss e = λ g. absurd (ground (arith, nat_beq_iff s.dataset_id s.dataset_id))

-- What is selected is found.
selected : (who : ℕ) (ss : List Share) → All (IsFoundIn who ss) (shares_of who ss)
selected who [] = tt
selected who (s ∷ ss) =
    All-if (IsFoundIn who (s ∷ ss)) (s.who == who) s (shares_of who ss) (found_now who s ss)
      (All-map (found_later who s ss) (shares_of who ss) (selected who ss))

All-put :
    (P : Dataset → Type 0) (d : Dataset) (ds : List Dataset) → P d → All P ds → All P (put d ds)
unfolding put
All-put P d [] h hs = (h, tt)
All-put P d (x ∷ ds) h (g, hs) = elim (Bool-cases (x.id == d.id)) [
  | inl e ↦ rw e (h, hs)
  | inr e ↦ rw e (g, All-put P d ds h hs)
]

module _ (P : Dataset → Type 0) where
  collect_sound :
      (e : String) (ss : List Share) (data_map : List Dataset) (s : State Store) {ds : List Dataset}
      {t : State Store}
      → All (λ x. (d : Dataset) → d.id ≡ x.dataset_id → P d) ss
      → All P data_map
      → collect e ss data_map s ≡ (ok ds, t)
      → All P ds × (t.tables ≡ s.tables)
  unfolding collect
  collect_sound e [] data_map s {ds} {t} from all h =
      let (value, same) = pure_passed data_map s h in
      (subst (All P) value all, ap (λ s. s.tables) (sym same))
  collect_sound e (x ∷ ss) data_map s (now, from) all h =
      let (d, s1, there, t1, h1) =
        first_passed _ (λ w. find_dataset x.dataset_id w.datasets) s _ h in
      let (rest, t2) =
        collect_sound e ss (put d data_map) s1 from
          (All-put P d data_map (now d (find_dataset-id x.dataset_id s.tables.datasets there)) all)
          h1 in
      (rest, t2 ∙ t1)

module _ (token : JwtMessage) (w : Store) where
  -- What the shares of each kind are good for.
  from_shares :
      (who : ℕ) (ss : List Share)
      → ((d : Dataset) → ◌≢◌ (find_share who d.id ss) none → IsVisible token w d)
      → All (λ x. (d : Dataset) → d.id ≡ x.dataset_id → IsVisible token w d) (shares_of who ss)
  unfolding IsFoundIn
  from_shares who ss see =
      All-map (λ x h d e. see d (λ g. h (subst (λ n. find_share who n ss ≡ none) e g)))
        (shares_of who ss) (selected who ss)

  queue_sound :
      (e : String) (account : ℕ) (data_map : List Dataset) (s : State Store) {ds : List Dataset}
      {t : State Store}
      → ((d : Dataset)
          → ◌≢◌ (find_share account d.id w.account_datasets) none
          → IsVisible token w d)
      → s.tables ≡ w
      → All (IsVisible token w) data_map
      → queue_response e account data_map s ≡ (ok ds, t)
      → All (IsVisible token w) ds × (t.tables ≡ w)
  unfolding queue_response
  queue_sound e account data_map s see same all h =
      let (s1, t1, h1) = ask_passed _ (λ w. shares_of account w.account_datasets) s _ h in
      let (rest, t2) =
        collect_sound (IsVisible token w) e (shares_of account s.tables.account_datasets) data_map
          s1
          (subst
            (λ v.
              All (λ x. (d : Dataset) → d.id ≡ x.dataset_id → IsVisible token w d)
                (shares_of account v.account_datasets))
            (sym same) (from_shares account w.account_datasets see))
          all h1 in
      (rest, t2 ∙ t1 ∙ same)

  last_sound :
      (data_map : List Dataset) (s : State Store) {ds : List Dataset} {t : State Store}
      → s.tables ≡ w
      → All (IsVisible token w) data_map
      → own_queue_response token.account_id data_map s ≡ (ok ds, t)
      → All (IsVisible token w) ds
  unfolding own_queue_response IsVisible
  last_sound data_map s {ds} {t} same all h =
      elim (Bool-cases (token.account_id == default_account_id)) [
        | inl e ↦
            let (value, _) = pure_passed data_map s (rw e at h) in
            subst (All (IsVisible token w)) value all
        | inr e ↦
            (queue_sound _ token.account_id data_map s (λ d h. inr (inr h)) same all (rw e at h)).0
      ]

-- Whichever queries fail, a list of datasets that is shown without an error has only datasets that are
-- shared with the user, with the default account or with the account of the token.
pub get_datasets-IsVisible :
    (token : JwtMessage) (s : State Store) {ds : List Dataset} {t : State Store}
    → get_datasets token s ≡ (ok ds, t)
    → All (IsVisible token s.tables) ds
unfolding get_datasets IsVisible
get_datasets-IsVisible token s h =
    let (s1, t1, h1) = ask_passed _ (λ w. shares_of token.user_id w.user_datasets) s _ h in
    let (own, s2, g2, h2) =
      part_passed (collect _ (shares_of token.user_id s.tables.user_datasets) [] s1) _ h1 in
    let (shared, s3, g3, h3) = part_passed (queue_response _ default_account_id own s2) _ h2 in
    let (own_visible, t2) =
      collect_sound (IsVisible token s.tables) _ (shares_of token.user_id s.tables.user_datasets) []
        s1 (from_shares token s.tables token.user_id s.tables.user_datasets (λ d h. inl h)) tt g2 in
    let (shared_visible, t3) =
      queue_sound token s.tables _ default_account_id own s2 (λ d h. inr (inl h)) (t2 ∙ t1)
        own_visible g3 in
    last_sound token s.tables shared s3 t3 shared_visible h3
