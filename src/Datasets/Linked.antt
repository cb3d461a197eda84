-- ===== src/Datasets/Linked.antt =====
-- Shares of datasets that are there, as an invariant of the handlers in internal/handler/dataset.go.
use crater_backend.Prelude.{
  ℕ, ◌≡◌, ◌≢◌, refl, sym, ◌∙◌, false, not, ◌&&◌, Option, none, some, List, [], ◌∷◌, ◌++◌, ◌==◌,
  nat_eq, nat_beq_iff, Bool-cases, inl, inr, arith,
}
use crater_backend.Server.{write}
use crater_backend.Server.Keeps.{
  Keeps, Keeps-bind, Keeps-pure, Keeps-require, Keeps-first, Keeps-attempt, Keeps-write,
  Keeps-first_known,
}
use crater_backend.Token.{JwtMessage}
use crater_backend.Datasets.{
  or_none, Dataset, Share, Store, Side, with_user, with_queue, rows, set_rows, find_dataset,
  find_owned, find_share, drop_share, drop_dataset, drop_dataset_shares, is_share, is_absent,
  is_some_list, insert_share, quiet, share_one, share_all, share_with, share_dataset,
  admin_share_dataset, ask_owner, cancel_with, cancel_share, admin_cancel_share, find_other,
  no_other, shared_before, nobody_chosen, not_shared, unknown_other,
}

-- Every share is of a dataset that is there.
unfoldable pub AllLinked : List Dataset → List Share → Type 0
AllLinked ds [] = Unit
AllLinked ds (s ∷ ss) = ◌≢◌ (find_dataset s.dataset_id ds) none × AllLinked ds ss

unfoldable pub Linked : Store → Type 0
Linked w = AllLinked w.datasets w.user_datasets × AllLinked w.datasets w.account_datasets

linked-append :
    (ds : List Dataset) (ss : List Share) (s : Share)
    → AllLinked ds ss
    → ◌≢◌ (find_dataset s.dataset_id ds) none
    → AllLinked ds (ss ++ s ∷ [])
unfolding AllLinked
linked-append ds [] s l h = (h, tt)
linked-append ds (x ∷ ss) s (g, l) h = (g, linked-append ds ss s l h)

linked-drop :
    (ds : List Dataset) (x : Share) (ss : List Share)
    → AllLinked ds ss
    → AllLinked ds (drop_share x ss)
unfolding AllLinked
linked-drop ds x [] l = tt
linked-drop ds x (s ∷ ss) (h, l) =
    elim (Bool-cases (s.id == x.id && is_share x.who x.dataset_id s)) [
      | inl e ↦ rw e (linked-drop ds x ss l)
      | inr e ↦ rw e (h, linked-drop ds x ss l)
    ]

-- A dataset with another id stays.
find_dataset-drop :
    (id other : ℕ) (ds : List Dataset)
    → (other == id) ≡ false
    → find_dataset other (drop_dataset id ds) ≡ find_dataset other ds
find_dataset-drop id other [] h = refl
find_dataset-drop id other (d ∷ ds) h = elim (Bool-cases (d.id == id)) [
  | inl e ↦
      let apart : (d.id == other) ≡ false =
        ground (arith, nat_beq_iff d.id id, nat_beq_iff d.id other, nat_beq_iff other id) in
      rw (e, apart) (find_dataset-drop id other ds h)
  | inr e ↦ elim (Bool-cases (d.id == other)) [
    | inl f ↦ rw (e, f) refl
    | inr f ↦ rw (e, f) (find_dataset-drop id other ds h)
  ]
]

-- What is left of the shares when a dataset goes.
pub linked-forget :
    (id : ℕ) (ds : List Dataset) (ss : List Share)
    → AllLinked ds ss
    → AllLinked (drop_dataset id ds) (drop_dataset_shares id ss)
unfolding AllLinked
linked-forget id ds [] l = tt
linked-forget id ds (s ∷ ss) (h, l) = elim (Bool-cases (s.dataset_id == id)) [
  | inl e ↦ rw e (linked-forget id ds ss l)
  | inr e ↦
      rw e ((λ g. h (sym (find_dataset-drop id s.dataset_id ds e) ∙ g)), linked-forget id ds ss l)
]

-- While a dataset is there, shares of it can be made.
abbrev Present : ℕ → Store → Type 0
Present dataset w = Linked w × ◌≢◌ (find_dataset dataset w.datasets) none

Present-insert :
    (side : Side) (dataset who : ℕ) (w : Store)
    → Present dataset w
    → Present dataset (insert_share side who dataset w)
unfolding Linked insert_share
Present-insert with_user dataset who w ((us, qs), there) =
    ((linked-append w.datasets w.user_datasets _ us there, qs), there)
Present-insert with_queue dataset who w ((us, qs), there) =
    ((us, linked-append w.datasets w.account_datasets _ qs there), there)

drop-Linked :
    (side : Side) (x : Share) (w : Store)
    → Linked w
    → Linked (set_rows side (drop_share x (rows side w)) w)
unfolding Linked
drop-Linked with_user x w (us, qs) = (linked-drop w.datasets x w.user_datasets us, qs)
drop-Linked with_queue x w (us, qs) = (us, linked-drop w.datasets x w.account_datasets qs)

quiet-kept : {A : Type 0} (P : Store → Type 0) (f : Store → Option A) → Keeps P (quiet f)
unfolding quiet
quiet-kept P f = Keeps-bind P (Keeps-attempt P (Keeps-first P "" f)) (λ r. Keeps-pure P (or_none r))

module _ (side : Side) (dataset : ℕ) where
  share_one-kept : (who : ℕ) → Keeps (Present dataset) (share_one side dataset who)
  unfolding share_one
  share_one-kept who =
      Keeps-bind (Present dataset)
        (Keeps-first (Present dataset) (no_other side) (find_other side who))
        (λ _.
          Keeps-bind (Present dataset)
            (quiet-kept (Present dataset) (λ w. find_share who dataset (rows side w)))
            (λ before.
              Keeps-bind (Present dataset)
                (Keeps-require (Present dataset) (shared_before side) (is_absent before))
                (λ _.
                  Keeps-write (Present dataset) "create share failed"
                    (insert_share side who dataset) (Present-insert side dataset who))))

  share_all-kept : (ids : List ℕ) → Keeps (Present dataset) (share_all side dataset ids)
  unfolding share_all
  share_all-kept [] = Keeps-pure (Present dataset) tt
  share_all-kept (who ∷ ids) =
      Keeps-bind (Present dataset) (share_one-kept who) (λ _. share_all-kept ids)

  share_with-kept : (ids : List ℕ) → Keeps (Present dataset) (share_with side dataset ids)
  unfolding share_with
  share_with-kept ids =
      Keeps-bind (Present dataset)
        (Keeps-require (Present dataset) (nobody_chosen side) (is_some_list ids))
        (λ _. share_all-kept ids)

owner-kept : (side : Side) (dataset who : ℕ) → Keeps Linked (ask_owner side dataset who)
unfolding ask_owner quiet
owner-kept with_user dataset who = quiet-kept Linked (λ w. find_owned who dataset w.datasets)
owner-kept with_queue dataset who = Keeps-pure Linked none

delete_share-Linked :
    (side : Side) (x : Option Share)
    → Keeps Linked (
        write "delete share failed"
          (λ w. elim x [ none ↦ w | some s ↦ set_rows side (drop_share s (rows side w)) w ]))
delete_share-Linked side none = Keeps-write Linked "delete share failed" (λ w. w) (λ w l. l)
delete_share-Linked side (some x) =
    Keeps-write Linked "delete share failed" (λ w. set_rows side (drop_share x (rows side w)) w)
      (drop-Linked side x)

-- An owned dataset is there.
owned-there :
    (user id : ℕ) (ds : List Dataset) {d : Dataset}
    → find_owned user id ds ≡ some d
    → ◌≢◌ (find_dataset id ds) none
owned-there user id [] h = absurd (ground arith)
owned-there user id (x ∷ ds) {d} h = elim (Bool-cases (x.id == id)) [
  | inl e ↦ λ g. absurd (ground arith)
  | inr e ↦ let rest = owned-there user id ds {d = d} (ground arith) in λ g. rest (rw e at g)
]

module _ (side : Side) (dataset : ℕ) where
  pub share_dataset-Linked :
      (token : JwtMessage) (ids : List ℕ) → Keeps Linked (share_dataset side token dataset ids)
  unfolding share_dataset
  share_dataset-Linked token ids =
      Keeps-first_known Linked (Present dataset) (λ w. find_owned token.user_id dataset w.datasets)
        (λ w d l h. (l, owned-there token.user_id dataset w.datasets h)) (λ w p. p.0) _
        (λ _. share_with-kept side dataset ids)

  pub admin_share_dataset-Linked :
      (ids : List ℕ) → Keeps Linked (admin_share_dataset side dataset ids)
  unfolding admin_share_dataset
  admin_share_dataset-Linked ids =
      Keeps-first_known Linked (Present dataset) (λ w. find_dataset dataset w.datasets)
        (λ w d l h. (l, (λ g. absurd (ground arith)))) (λ w p. p.0) _
        (λ _. share_with-kept side dataset ids)

  cancel_with-Linked : (who : ℕ) → Keeps Linked (cancel_with side dataset who)
  unfolding cancel_with
  cancel_with-Linked who =
      Keeps-bind Linked (Keeps-first Linked (unknown_other side) (find_other side who)) (λ _.
        Keeps-bind Linked (owner-kept side dataset who) (λ owned.
          Keeps-bind Linked
            (Keeps-require Linked "can't cancel share with creator" (is_absent owned))
            (λ _.
              Keeps-bind Linked (quiet-kept Linked (λ w. find_share who dataset (rows side w)))
                (λ x.
                  Keeps-bind Linked (Keeps-require Linked (not_shared side) (not (is_absent x)))
                    (λ _. delete_share-Linked side x)))))

  pub cancel_share-Linked :
      (token : JwtMessage) (who : ℕ) → Keeps Linked (cancel_share side token dataset who)
  unfolding cancel_share
  cancel_share-Linked token who =
      Keeps-bind Linked (Keeps-first Linked _ (λ w. find_owned token.user_id dataset w.datasets))
        (λ _. cancel_with-Linked who)

  pub admin_cancel_share-Linked : (who : ℕ) → Keeps Linked (admin_cancel_share side dataset who)
  unfolding admin_cancel_share
  admin_cancel_share-Linked who =
      Keeps-bind Linked (Keeps-first Linked _ (λ w. find_dataset dataset w.datasets))
        (λ _. cancel_with-Linked who)
