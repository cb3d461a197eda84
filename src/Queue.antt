-- ===== src/Queue.antt =====
-- pkg/util/queue/queue.go: a queue of objects with distinct keys, kept as a map from keys to objects
-- and a slice of keys. A method with a pointer receiver returns the new queue beside its result;
-- `none` is a run-time panic, a slice index out of range or a write through a missing map entry.
pub mod Valid
pub mod Listing
pub mod Entries
pub mod Remove
pub mod Holds
pub mod Sorting
pub mod Reordered
pub mod Ranked
use crater_backend.Prelude.{
  ℕ, zero, suc, ◌-◌, Bool, true, false, ◌||◌, Option, none, some, List, [], ◌∷◌, ◌++◌, ltb,
  if◌then◌else◌, ◌>>=◌, is_some, length, get_elem?, set, take, Eq, ◌==◌,
}
use crater_backend.Prelude.Dict.{Dict, get, put, remove}

-- queueItem
pub record Item {ℓ} (A : Type ℓ) : Type ℓ where
  pub obj : A
  pub index : ℕ

-- data, which Queue embeds
pub record Queue {ℓ κ} (K : Type κ) (A : Type ℓ) : Type (ℓ ⊔ κ) where
  pub items : Dict K (Item A)
  pub keys : List K
  pub key_func : A → K
  pub less_func : A → A → Bool

module _ {ℓ κ} {K : Type κ} {A : Type ℓ} where
  unfoldable pub new : (A → K) → (A → A → Bool) → Queue K A
  new key_fn less_fn = record { items = []; keys = []; key_func = key_fn; less_func = less_fn }

  abbrev pub len : Queue K A → ℕ
  len q = length q.keys

-- What `pop` and `top` return for the key that they take off: `nil` for a key with no object.
abbrev pub found {ℓ} : {A : Type ℓ} → Option (Item A) → Option A
found none = none
found (some it) = some it.obj

-- The loop of `delete`: the first key that is equal is cut out.
unfoldable pub cut_key {κ} : {K : Type κ} ⦃e : Eq K⦄ → K → List K → List K
cut_key k [] = []
cut_key k (j ∷ ks) = if j == k then ks else j ∷ cut_key k ks

module _ {ℓ κ} {K : Type κ} {A : Type ℓ} ⦃e : Eq K⦄ where
  -- The guard lets `i == Len()` through, and the index then panics.
  unfoldable pub less : Queue K A → ℕ → ℕ → Option Bool
  less q i j =
      if ltb (len q) i || ltb (len q) j
      then some false
      else (get_elem? q.keys i >>= λ ki. elim (get ki q.items) [
        | none ↦ some false
        | some a ↦ get_elem? q.keys j >>= λ kj. elim (get kj q.items) [
          | none ↦ some false
          | some b ↦ some (q.less_func a.obj b.obj)
        ]
      ])

  -- `h.items[k].index = i`
  unfoldable pub set_index : K → ℕ → Dict K (Item A) → Option (Dict K (Item A))
  set_index k i m = get k m >>= λ it. some (put k (record it { index = i }) m)

  unfoldable pub swap : Queue K A → ℕ → ℕ → Option (Queue K A)
  unfolding set_index
  swap q i j = get_elem? q.keys i >>= λ ki. get_elem? q.keys j >>= λ kj.
      set_index kj i q.items >>= λ m.
      set_index ki j m >>= λ m'. some (record q { items = m'; keys = set (set q.keys i kj) j ki })

  unfoldable pub push : K → A → Queue K A → Queue K A
  push k x q = record q {
    items = put k (record { obj = x; index = length q.keys }) q.items;
    keys = q.keys ++ k ∷ [];
  }

  unfoldable pub pop : Queue K A → Option (Option A × Queue K A)
  pop q = get_elem? q.keys (length q.keys - 1) >>= λ k.
      let rest = record q { keys = take (length q.keys - 1) q.keys } in
      elim (get k q.items) [
        | none ↦ some (none, rest)
        | some it ↦ some (some it.obj, record rest { items = remove k q.items })
      ]

  -- As `pop`, but the object stays in the map.
  unfoldable pub top : Queue K A → Option (Option A × Queue K A)
  top q = get_elem? q.keys (length q.keys - 1) >>= λ k.
      some (found (get k q.items), record q { keys = take (length q.keys - 1) q.keys })

  unfoldable pub delete_by_key : K → Queue K A → Option A × Queue K A
  unfolding cut_key
  delete_by_key k q = elim (get k q.items) [
    | none ↦ (none, q)
    | some it ↦ (some it.obj, record q { items = remove k q.items; keys = cut_key k q.keys })
  ]

  unfoldable pub delete : A → Queue K A → Option A × Queue K A
  unfolding delete_by_key
  delete x q = delete_by_key (q.key_func x) q

  unfoldable pub push_or_update : A → Queue K A → Queue K A
  unfolding push
  push_or_update x q =
      let k = q.key_func x in
      elim (get k q.items) [
        | some it ↦ record q { items = put k (record it { obj = x }) q.items }
        | none ↦ push k x q
      ]

  unfoldable pub push_if_not_present : A → Queue K A → Bool × Queue K A
  unfolding push
  push_if_not_present x q =
      let k = q.key_func x in if is_some (get k q.items) then (false, q) else (true, push k x q)

  unfoldable pub get_by_key : K → Queue K A → Option A
  get_by_key k q = found (get k q.items)

  unfoldable pub get_obj : A → Queue K A → Option A
  unfolding get_by_key
  get_obj x q = get_by_key (q.key_func x) q

  -- The loop of `List`, which panics on a key with no object.
  unfoldable pub list_keys : List K → Dict K (Item A) → Option (List A)
  list_keys [] m = some []
  list_keys (k ∷ ks) m =
      let rest = list_keys ks m in get k m >>= λ it. rest >>= λ xs. some (it.obj ∷ xs)

  unfoldable pub list : Queue K A → Option (List A)
  unfolding list_keys
  list q = list_keys q.keys q.items

  -- The inner loop of an insertion sort, from position `j` down.
  unfoldable pub sift : ℕ → Queue K A → Option (Queue K A)
  unfolding less swap
  sift zero q = some q
  sift (suc j) q =
      let sunk = swap q (suc j) j >>= sift j in
      less q (suc j) j >>= λ before. if before then sunk else some q

  -- `rounds` rounds of the outer loop, from position `i`.
  unfoldable pub sort_from : ℕ → ℕ → Queue K A → Option (Queue K A)
  unfolding sift
  sort_from zero i q = some q
  sort_from (suc rounds) i q = sift i q >>= sort_from rounds (suc i)

  -- sort.Sort over Less and Swap: Go's standard library sorts up to twelve elements by this loop,
  -- and longer slices by other loops over the same two methods.
  unfoldable pub reorder : Queue K A → Option (Queue K A)
  unfolding sort_from
  reorder q = sort_from (len q) 0 q

  unfoldable pub reorder_with_func : (A → A → Bool) → Queue K A → Option (Queue K A)
  unfolding reorder
  reorder_with_func less_fn q = reorder (record q { less_func = less_fn })
