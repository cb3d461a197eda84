-- ===== src/Queue/Remove.antt =====
-- Pop and Top of pkg/util/queue/queue.go, which take the last key off the slice.
use crater_backend.Prelude.{
  ◌-◌, ◌≡◌, ◌∙◌, ap, refl, false, Option, none, some, List, [], ◌∷◌, ◌++◌, ◌>>=◌, subst, length,
  length-append, get_elem?, take, Eq, contains, Distinct, arith,
}
use crater_backend.Prelude.Dict.{Dict, get, remove, get-remove}
use crater_backend.Queue.{Item, Queue, pop, top, found, cut_key, delete_by_key, delete, list}
use crater_backend.Queue.Valid.{IsValid, contains-append, cut-IsValid}
use crater_backend.Queue.Entries.{Lists-list}
use crater_backend.Queue.Listing.{Lists, nil, cons, list_keys-Lists}

module _ {κ} {K : Type κ} where
  get_elem?-last : (js : List K) (k : K) → get_elem? (js ++ k ∷ []) (length js) ≡ some k
  get_elem?-last [] k = refl
  get_elem?-last (j ∷ js) k = get_elem?-last js k

  take-last : (js : List K) (k : K) → take (length js) (js ++ k ∷ []) ≡ js
  take-last [] k = refl
  take-last (j ∷ js) k = ap (◌∷◌ j) (take-last js k)

  length-last : (js : List K) (k : K) → length (js ++ k ∷ []) - 1 ≡ length js
  length-last js k = omega (arith, length-append js (k ∷ []))

  last-cases : (k : K) (ks : List K) → (js : List K) × (j : K) × (k ∷ ks ≡ js ++ j ∷ [])
  last-cases k [] = ([], k, refl)
  last-cases k (i ∷ ks) = let (js, j, e) = last-cases i ks in (k ∷ js, j, ap (◌∷◌ k) e)

module _ {κ} {K : Type κ} ⦃e : Eq K⦄ where
  contains-last : (js : List K) (k : K) → Distinct (js ++ k ∷ []) → contains js k ≡ false
  contains-last [] k d = refl
  contains-last (j ∷ js) k d = ground (
    arith,
    contains-append js k j,
    e.beq_iff j k,
    e.beq_iff k j,
    contains-last js k d.1,
    e.beq_iff k k,
  )

  cut_key-absent : (js : List K) (k : K) → contains js k ≡ false → cut_key k js ≡ js
  unfolding cut_key
  cut_key-absent [] k h = refl
  cut_key-absent (j ∷ js) k h = ground (arith, cut_key-absent js k)

  cut_key-last : (js : List K) (k : K) → contains js k ≡ false → cut_key k (js ++ k ∷ []) ≡ js
  unfolding cut_key
  cut_key-last [] k h = ground (arith, e.beq_iff k k)
  cut_key-last (j ∷ js) k h = ground (arith, cut_key-last js k)

module _ {ℓ κ} {K : Type κ} {A : Type ℓ} ⦃e : Eq K⦄ where
  -- A queue whose last key is `k`.
  module _ (q : Queue K A) (js : List K) (k : K) (last : q.keys ≡ js ++ k ∷ []) where
    last_key : get_elem? q.keys (length q.keys - 1) ≡ some k
    last_key = rw (last, length-last js k, get_elem?-last js k)

    other_keys : take (length q.keys - 1) q.keys ≡ js
    other_keys = rw (last, length-last js k, take-last js k)

    pop_last :
        {it : Item A}
        → get k q.items ≡ some it
        → pop q ≡ some (some it.obj, record q { items = remove k q.items; keys = js })
    unfolding pop
    pop_last g = rw (last_key, ◌>>=◌, g, other_keys)

    top_last : top q ≡ some (found (get k q.items), record q { keys = js })
    unfolding top
    top_last = rw (last_key, other_keys)

    delete_last :
        (v : IsValid q) {it : Item A}
        → get k q.items ≡ some it
        → (delete_by_key k (record q { keys = js }))
          ≡ (some it.obj, record q { items = remove k q.items; keys = js })
    unfolding delete_by_key
    delete_last v g =
        let absent = contains-last js k (rw last at v.distinct) in
        rw (g, delete_by_key, cut_key-absent js k absent)

    popped-IsValid : IsValid q → IsValid (record q { items = remove k q.items; keys = js })
    popped-IsValid v =
        let absent = contains-last js k (rw last at v.distinct) in
        let cut : cut_key k q.keys ≡ js = rw last (cut_key-last js k absent) in
        subst (λ ks. IsValid (record q { items = remove k q.items; keys = ks })) cut
          (cut-IsValid k q v)

  -- The last object of a list that names objects of the map.
  module _ (key : A → K) (m : Dict K (Item A)) where
    Lists-last :
        (js : List K) (k : K) {zs : List A}
        → Lists key m (js ++ k ∷ []) zs
        → (xs : List A) × (it : Item A) × (zs ≡ xs ++ it.obj ∷ [])
          × (get k m ≡ some it)
          × Lists key m js xs
    Lists-last [] k (cons {x = x} n g h nil) = ([], record { obj = x; index = n }, refl, g, nil)
    Lists-last (j ∷ js) k (cons {x = x} n g h l) =
        let (xs, it, same, there, rest) = Lists-last js k l in
        (x ∷ xs, it, ap (◌∷◌ x) same, there, cons n g h rest)

    Lists-remove_absent :
        {ks : List K} {xs : List A} (k : K)
        → Lists key m ks xs
        → contains ks k ≡ false
        → Lists key (remove k m) ks xs
    Lists-remove_absent k nil absent = nil
    Lists-remove_absent k (cons {k = j} n g h l) absent =
        cons n (ground (arith, get-remove k j m, e.beq_iff j k, e.beq_iff k j)) h
          (Lists-remove_absent k l (ground arith))

  -- The state and the object that Pop leaves on a queue that lists `xs`.
  pub record Popped (q : Queue K A) (xs : List A) (r : Option A × Queue K A) : Type (ℓ ⊔ κ) where
    pub rest : List A
    pub obj : A
    pub split : xs ≡ rest ++ obj ∷ []
    pub returned : r.0 ≡ some obj
    pub listed : list r.1 ≡ some rest
    pub valid : IsValid r.1

  module _ (q : Queue K A) (v : IsValid q) (x : A) (xs : List A)
      (listed : list q ≡ some (x ∷ xs)) where
    -- On a valid queue that is not empty, Pop does not panic: it returns the last object of the
    -- list, leaves the others in their order, and leaves the queue valid.
    pub pop-Popped : (r : Option A × Queue K A) × (pop q ≡ some r) × Popped q (x ∷ xs) r
    unfolding list
    pop-Popped = go q.keys refl (Lists-list q v (x ∷ xs) listed)
      where
        go :
            (ks : List K)
            → q.keys ≡ ks
            → Lists q.key_func q.items ks (x ∷ xs)
            → (r : Option A × Queue K A) × (pop q ≡ some r) × Popped q (x ∷ xs) r
        go [] e' l = elim l [ ]
        go (k ∷ ks) e' l =
            let (js, j, snoc) = last-cases k ks in
            let (ys, it, split, g, rest) = Lists-last q.key_func q.items js j (rw snoc at l) in
            let last = e' ∙ snoc in
            let absent = contains-last js j (rw last at v.distinct) in
            (
              (some it.obj, record q { items = remove j q.items; keys = js }),
              pop_last q js j last g,
              record {
                rest = ys;
                obj = it.obj;
                split = split;
                returned = refl;
                listed =
                    list_keys-Lists q.key_func (remove j q.items)
                      (Lists-remove_absent q.key_func q.items j rest absent);
                valid = popped-IsValid q js j last v;
              },
            )

    -- On a valid queue that is not empty, Top returns the object that Pop would return, and a
    -- Delete of that object afterwards leaves the state that Pop would leave. Before the Delete the
    -- object is still in the map, so the queue between the two calls is not valid.
    pub delete-top :
        (y : A) × (t : Queue K A) × (top q ≡ some (some y, t))
        × (pop q ≡ some (delete y t))
        × ¬ (IsValid t)
    unfolding delete
    delete-top = go q.keys refl (Lists-list q v (x ∷ xs) listed)
      where
        go :
            (ks : List K)
            → q.keys ≡ ks
            → Lists q.key_func q.items ks (x ∷ xs)
            → (y : A) × (t : Queue K A) × (top q ≡ some (some y, t))
              × (pop q ≡ some (delete y t))
              × ¬ (IsValid t)
        go [] e' l = elim l [ ]
        go (k ∷ ks) e' l =
            let (js, j, snoc) = last-cases k ks in
            let (ys, it, split, g, rest) = Lists-last q.key_func q.items js j (rw snoc at l) in
            let last = e' ∙ snoc in
            let absent = contains-last js j (rw last at v.distinct) in
            let own : q.key_func it.obj ≡ j = v.keyed j it g in
            (
              it.obj,
              record q { keys = js },
              rw g at (top_last q js j last),
              rw (own, delete_last q js j last v g) (pop_last q js j last g),
              λ w. ground (arith, w.same j),
            )

  -- On a queue with no key, Pop and Top panic.
  pub pop_panics : (q : Queue K A) → q.keys ≡ [] → (pop q ≡ none) × (top q ≡ none)
  unfolding pop top
  pop_panics q h = rw h (refl, refl)
