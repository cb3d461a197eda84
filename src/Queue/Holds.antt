-- ===== src/Queue/Holds.antt =====
-- Properties of all objects of a queue of pkg/util/queue/queue.go, through its operations. The key
-- and less functions stay as they are.
use crater_backend.Prelude.{
  ◌≡◌, Bool, some, Option-cases, inl, inr, Eq, Bool-cases, subst, ℕ, All, List, [], ◌∷◌, ◌==◌,
  arith,
}
use crater_backend.Prelude.Dict.{get, put, get-put, get-remove}
use crater_backend.Queue.{
  Item, Queue, len, new, delete_by_key, push_or_update, push_if_not_present, list_keys, list,
}

module _ {ℓ κ ν} {K : Type κ} {A : Type ℓ} ⦃e : Eq K⦄ (P : A → Type ν) where
  abbrev pub Holds : Queue K A → Type (ℓ ⊔ κ ⊔ ν)
  Holds q = (k : K) (it : Item A) → get k q.items ≡ some it → P it.obj

  pub new-Holds : (key_fn : A → K) (less_fn : A → A → Bool) → Holds (new key_fn less_fn)
  unfolding new get
  new-Holds key_fn less_fn k it h = ground arith

  put-Holds :
      (x : A) (n : ℕ) (j : K) (q : Queue K A)
      → P x
      → Holds q
      → (k : K) (it : Item A) → get k (put j (record { obj = x; index = n }) q.items) ≡ some it
      → P it.obj
  put-Holds x n j q p h k it g = elim (Bool-cases (j == k)) [
    | inl e' ↦
        let new_item : Item A = record { obj = x; index = n } in
        let same : new_item ≡ it = ground (arith, get-put j k new_item q.items) in
        subst (λ i. P i.obj) same p
    | inr e' ↦ h k it (ground (arith, get-put j k (record { obj = x; index = n }) q.items))
  ]

  pub push_or_update-Holds : (x : A) (q : Queue K A) → P x → Holds q → Holds (push_or_update x q)
  unfolding push_or_update
  push_or_update-Holds x q p h = elim (Option-cases (get (q.key_func x) q.items)) [
    | inl e' ↦ rw (e', push_or_update) (put-Holds x (len q) (q.key_func x) q p h)
    | inr (it, e') ↦ rw (e', push_or_update) (put-Holds x it.index (q.key_func x) q p h)
  ]

  pub push_if_not_present-Holds :
      (x : A) (q : Queue K A) → P x → Holds q → Holds (push_if_not_present x q).1
  unfolding push_if_not_present
  push_if_not_present-Holds x q p h = elim (Option-cases (get (q.key_func x) q.items)) [
    | inl e' ↦ rw e' (put-Holds x (len q) (q.key_func x) q p h)
    | inr (it, e') ↦ rw e' h
  ]

  pub delete_by_key-Holds : (j : K) (q : Queue K A) → Holds q → Holds (delete_by_key j q).1
  unfolding delete_by_key
  delete_by_key-Holds j q h = elim (Option-cases (get j q.items)) [
    | inl e' ↦ rw (e', delete_by_key) h
    | inr (it, e') ↦
        rw (e', delete_by_key) (λ k i g. h k i (ground (arith, get-remove j k q.items)))
  ]

module _ {ℓ κ} {K : Type κ} {A : Type ℓ} ⦃e : Eq K⦄ where
  -- The operations keep the key function.
  pub key_func-push_or_update : (x : A) (q : Queue K A) → (push_or_update x q).key_func ≡ q.key_func
  unfolding push_or_update
  key_func-push_or_update x q = elim (Option-cases (get (q.key_func x) q.items)) [
    | inl e' ↦ rw (e', push_or_update)
    | inr (it, e') ↦ rw (e', push_or_update)
  ]

  pub key_func-push_if_not_present :
      (x : A) (q : Queue K A) → (push_if_not_present x q).1.key_func ≡ q.key_func
  unfolding push_if_not_present
  key_func-push_if_not_present x q = elim (Option-cases (get (q.key_func x) q.items)) [
    | inl e' ↦ rw e'
    | inr (it, e') ↦ rw e'
  ]

  pub key_func-delete_by_key : (j : K) (q : Queue K A) → (delete_by_key j q).1.key_func ≡ q.key_func
  unfolding delete_by_key
  key_func-delete_by_key j q = elim (Option-cases (get j q.items)) [
    | inl e' ↦ rw (e', delete_by_key)
    | inr (it, e') ↦ rw (e', delete_by_key)
  ]

module _ {ℓ κ ν} {K : Type κ} {A : Type ℓ} ⦃e : Eq K⦄ (P : A → Type ν) where
  list_keys-Holds :
      (q : Queue K A) (ks : List K) {xs : List A}
      → Holds P q
      → list_keys ks q.items ≡ some xs
      → All P xs
  unfolding list_keys
  list_keys-Holds q [] {xs = xs} h l = let same : [] ≡ xs = ground arith in subst (All P) same tt
  list_keys-Holds q (k ∷ ks) {xs = xs} h l = elim (Option-cases (get k q.items)) [
    | inl g ↦ absurd (ground arith)
    | inr (it, g) ↦ elim (Option-cases (list_keys ks q.items)) [
      | inl f ↦ absurd (ground arith)
      | inr (ys, f) ↦
          let same : it.obj ∷ ys ≡ xs = ground arith in
          subst (All P) same (h k it g, list_keys-Holds q ks h f)
    ]
  ]

  -- What holds of all objects of a queue holds of all that `List` returns.
  pub list-Holds : (q : Queue K A) {xs : List A} → Holds P q → list q ≡ some xs → All P xs
  unfolding list
  list-Holds q h l = list_keys-Holds q q.keys h l
