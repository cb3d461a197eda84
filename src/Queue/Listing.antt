-- ===== src/Queue/Listing.antt =====
-- The lists of objects that the keys and the map of a queue of pkg/util/queue/queue.go stand for, and
-- the operations of the queue on such a list.
use crater_backend.Prelude.{
  ℕ, ◌≡◌, refl, Bool, true, false, Option, none, some, List, [], ◌∷◌, ◌++◌, if◌then◌else◌,
  Option-cases, Bool-cases, inl, inr, is_some, any, map, Eq, ◌==◌, contains, Distinct, arith,
}
use crater_backend.Prelude.Dict.{Dict, get, put, remove, get-put, get-remove}
use crater_backend.Queue.{Item, found, cut_key, list_keys}

-- The abstract operations, on a list of objects with a key function.
module _ {ℓ κ} {K : Type κ} {A : Type ℓ} ⦃e : Eq K⦄ (key : A → K) where
  abbrev pub has_key : K → List A → Bool
  has_key k xs = any (λ x. key x == k) xs

  abbrev pub replace : A → List A → List A
  replace x = map (λ y. if key y == key x then x else y)

  abbrev pub upsert : A → List A → List A
  upsert x xs = if has_key (key x) xs then replace x xs else xs ++ x ∷ []

  abbrev pub without : K → List A → List A
  without k [] = []
  without k (x ∷ xs) = if key x == k then without k xs else x ∷ without k xs

  abbrev pub find_key : K → List A → Option A
  find_key k [] = none
  find_key k (x ∷ xs) = if key x == k then some x else find_key k xs

  pub without-absent : (k : K) (xs : List A) → has_key k xs ≡ false → without k xs ≡ xs
  without-absent k [] h = refl
  without-absent k (x ∷ xs) h = ground (arith, without-absent k xs)

module _ {ℓ κ} {K : Type κ} {A : Type ℓ} ⦃e : Eq K⦄ where
  -- `ks` names objects of `m`, each under its key, in the order of `xs`.
  pub data Lists (key : A → K) (m : Dict K (Item A)) : List K → List A → Type (ℓ ⊔ κ) where
    nil : Lists key m [] []
    cons :
        {k : K} {ks : List K} {x : A} {xs : List A} (n : ℕ)
        → get k m ≡ some (record { obj = x; index = n })
        → key x ≡ k
        → Lists key m ks xs
        → Lists key m (k ∷ ks) (x ∷ xs)

  module _ (key : A → K) (m : Dict K (Item A)) where
    pub list_keys-Lists : {ks : List K} {xs : List A} → Lists key m ks xs → list_keys ks m ≡ some xs
    unfolding list_keys
    list_keys-Lists nil = refl
    list_keys-Lists (cons n g h l) = rw (g, list_keys-Lists l)

    pub has_key-Lists :
        {ks : List K} {xs : List A} (k : K) → Lists key m ks xs → has_key key k xs ≡ contains ks k
    has_key-Lists k nil = refl
    has_key-Lists k (cons n g h l) = rw (h, has_key-Lists k l)

    pub found-Lists :
        {ks : List K} {xs : List A} (k : K)
        → Lists key m ks xs
        → contains ks k ≡ is_some (get k m)
        → found (get k m) ≡ find_key key k xs
    found-Lists k nil same = elim (Option-cases (get k m)) [
      | inl e' ↦ rw e'
      | inr (it, e') ↦ ground arith
    ]
    found-Lists k (cons {k = j} {x = x} n g h l) same = elim (Bool-cases (j == k)) [
      | inl e' ↦
          let here : j ≡ k = (e.beq_iff j k).0 e' in
          let head : (key x == k) ≡ true = rw h e' in rw (head, ← here, g)
      | inr e' ↦
          let head : (key x == k) ≡ false = rw h e' in rw head (found-Lists k l (ground arith))
    ]

    -- A list of keys that all have an object has a list of objects.
    pub Lists-total :
        (ks : List K)
        → ((k : K) → contains ks k ≡ true → is_some (get k m) ≡ true)
        → ((k : K) (it : Item A) → get k m ≡ some it → key it.obj ≡ k)
        → (xs : List A) × Lists key m ks xs
    Lists-total [] has keyed = ([], nil)
    Lists-total (k ∷ ks) has keyed =
        let (xs, l) = Lists-total ks (λ j h. has j (ground arith)) keyed in
        elim (Option-cases (get k m)) [
          | inl none_there ↦ absurd (ground (arith, has k, e.beq_iff k k))
          | inr (it, there) ↦ (it.obj ∷ xs, cons it.index there (keyed k it there) l)
        ]

  module _ (key : A → K) (m : Dict K (Item A)) where
    pub Lists-put_other :
        {ks : List K} {xs : List A} (k : K) (it : Item A)
        → Lists key m ks xs
        → contains ks k ≡ false
        → Lists key (put k it m) ks xs
    Lists-put_other k it nil absent = nil
    Lists-put_other k it (cons {k = j} n g h l) absent =
        cons n (ground (arith, get-put k j it m, e.beq_iff j k, e.beq_iff k j)) h
          (Lists-put_other k it l (ground arith))

    pub Lists-put :
        {ks : List K} {xs : List A} (x : A) (n : ℕ)
        → Lists key m ks xs
        → Lists key (put (key x) (record { obj = x; index = n }) m) ks (replace key x xs)
    Lists-put x n nil = nil
    Lists-put x n (cons {k = j} {x = y} i g h l) =
        let it : Item A = record { obj = x; index = n } in
        let rest = Lists-put x n l in
        elim (Bool-cases (key y == key x)) [
          | inl e' ↦ rw e' (
              cons n
                (ground
                  (arith, get-put (key x) j it m, e.beq_iff (key y) (key x), e.beq_iff (key x) j))
                (ground (arith, e.beq_iff (key y) (key x))) rest)
          | inr e' ↦ rw e' (
              cons i
                (ground
                  (arith, get-put (key x) j it m, e.beq_iff (key y) (key x), e.beq_iff (key x) j))
                h rest)
        ]

    pub Lists-append :
        {ks : List K} {xs : List A} (k : K) (x : A) (n : ℕ)
        → Lists key m ks xs
        → get k m ≡ some (record { obj = x; index = n })
        → key x ≡ k
        → Lists key m (ks ++ k ∷ []) (xs ++ x ∷ [])
    Lists-append k x n nil g' h' = cons n g' h' nil
    Lists-append k x n (cons i g h l) g' h' = cons i g h (Lists-append k x n l g' h')

    pub Lists-remove_other :
        {ks : List K} {xs : List A} (k : K)
        → Lists key m ks xs
        → contains ks k ≡ false
        → Lists key (remove k m) ks (without key k xs)
    Lists-remove_other k nil absent = nil
    Lists-remove_other k (cons {k = j} {x = y} n g h l) absent =
        let e' : (key y == k) ≡ false = ground arith in
        rw e' (
          cons n (ground (arith, get-remove k j m, e.beq_iff j k, e.beq_iff k j)) h
            (Lists-remove_other k l (ground arith)))

    pub Lists-remove :
        {ks : List K} {xs : List A} (k : K)
        → Lists key m ks xs
        → Distinct ks
        → Lists key (remove k m) (cut_key k ks) (without key k xs)
    unfolding cut_key
    Lists-remove k nil d = nil
    Lists-remove k (cons {k = j} {ks = ks} {x = y} n g h l) d = elim (Bool-cases (j == k)) [
      | inl e' ↦
          let same : j ≡ k = (e.beq_iff j k).0 e' in
          let head : (key y == k) ≡ true = rw h e' in
          rw (e', head) (Lists-remove_other k l (rw same at d.0))
      | inr e' ↦
          let head : (key y == k) ≡ false = rw h e' in
          rw (e', head)
            (cons n (ground (arith, get-remove k j m, e.beq_iff j k, e.beq_iff k j)) h
              (Lists-remove k l d.1))
    ]
