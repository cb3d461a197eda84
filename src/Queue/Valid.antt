-- ===== src/Queue/Valid.antt =====
-- The invariant of the queue of pkg/util/queue/queue.go, and the operations that keep it.
use crater_backend.Prelude.{
  ℕ, ◌≡◌, refl, Bool, false, ◌||◌, none, some, List, [], ◌∷◌, ◌++◌, if◌then◌else◌, Option-cases,
  inl, inr, is_some, length, Eq, ◌==◌, contains, Distinct, arith,
}
use crater_backend.Prelude.Dict.{get, put, remove, get-put, get-remove}
use crater_backend.Queue.{
  Item, Queue, new, push, cut_key, delete_by_key, delete, push_or_update, push_if_not_present,
}

module _ {κ} {K : Type κ} ⦃e : Eq K⦄ where
  pub contains-append :
      (ks : List K) (j k : K) → contains (ks ++ j ∷ []) k ≡ (contains ks k || j == k)
  contains-append [] j k = ground arith
  contains-append (i ∷ ks) j k = ground (arith, contains-append ks j k)

  pub Distinct-append :
      (ks : List K) (k : K) → Distinct ks → contains ks k ≡ false → Distinct (ks ++ k ∷ [])
  Distinct-append [] k d h = (refl, tt)
  Distinct-append (i ∷ ks) k d h = (
    ground (arith, contains-append ks k i, e.beq_iff i k, e.beq_iff k i),
    Distinct-append ks k d.1 (ground arith),
  )

  contains-cut_key :
      (k j : K) (ks : List K)
      → Distinct ks
      → contains (cut_key k ks) j ≡ (if k == j then false else contains ks j)
  unfolding cut_key
  contains-cut_key k j [] d = ground arith
  contains-cut_key k j (i ∷ ks) d =
      ground (arith, e.beq_iff i k, e.beq_iff i j, e.beq_iff k j, contains-cut_key k j ks d.1)

  Distinct-cut_key : (k : K) (ks : List K) → Distinct ks → Distinct (cut_key k ks)
  unfolding cut_key
  Distinct-cut_key k [] d = tt
  Distinct-cut_key k (i ∷ ks) d =
      ground (arith, contains-cut_key k i ks d.1, Distinct-cut_key k ks d.1)

module _ {ℓ κ} {K : Type κ} {A : Type ℓ} ⦃e : Eq K⦄ where
  -- The slice names each key of the map once, and each object stands under its own key. The field
  -- `index` is not part of it: a deletion leaves the indices behind it as they were.
  pub record IsValid (q : Queue K A) : Type (ℓ ⊔ κ) where
    pub distinct : Distinct q.keys
    pub same : (k : K) → contains q.keys k ≡ is_some (get k q.items)
    pub keyed : (k : K) (it : Item A) → get k q.items ≡ some it → q.key_func it.obj ≡ k

  pub new-IsValid : (key_fn : A → K) (less_fn : A → A → Bool) → IsValid (new key_fn less_fn)
  unfolding new get
  new-IsValid key_fn less_fn = record {
    distinct = tt;
    same = λ k. refl;
    keyed = λ k it h. ground arith;
  }

  pub push-IsValid :
      (x : A) (q : Queue K A)
      → IsValid q
      → get (q.key_func x) q.items ≡ none
      → IsValid (push (q.key_func x) x q)
  unfolding push
  push-IsValid x q v h =
      let k = q.key_func x in
      let it : Item A = record { obj = x; index = length q.keys } in
      record {
        distinct = Distinct-append q.keys k v.distinct (ground (arith, v.same k));
        same = λ j. ground (arith, contains-append q.keys k j, get-put k j it q.items, v.same j);
        keyed = λ j o g. ground (arith, get-put k j it q.items, e.beq_iff k j, v.keyed j o);
      }

  -- Replacing the object of a key that is there.
  pub replace-IsValid :
      (x : A) (n : ℕ) (q : Queue K A) {it : Item A}
      → IsValid q
      → get (q.key_func x) q.items ≡ some it
      → IsValid (record q { items = put (q.key_func x) (record { obj = x; index = n }) q.items })
  replace-IsValid x n q v h =
      let k = q.key_func x in
      let it : Item A = record { obj = x; index = n } in
      record {
        distinct = v.distinct;
        same = λ j. ground (arith, get-put k j it q.items, v.same j, e.beq_iff k j);
        keyed = λ j o g. ground (arith, get-put k j it q.items, e.beq_iff k j, v.keyed j o);
      }

  pub cut-IsValid :
      (k : K) (q : Queue K A)
      → IsValid q
      → IsValid (record q { items = remove k q.items; keys = cut_key k q.keys })
  cut-IsValid k q v = record {
    distinct = Distinct-cut_key k q.keys v.distinct;
    same = λ j.
        ground (arith, contains-cut_key k j q.keys v.distinct, get-remove k j q.items, v.same j);
    keyed = λ j o g. ground (arith, get-remove k j q.items, v.keyed j o);
  }

  pub delete_by_key-IsValid : (k : K) (q : Queue K A) → IsValid q → IsValid (delete_by_key k q).1
  unfolding delete_by_key
  delete_by_key-IsValid k q v = elim (Option-cases (get k q.items)) [
    | inl e' ↦ rw (e', delete_by_key) v
    | inr (it, e') ↦ rw (e', delete_by_key) (cut-IsValid k q v)
  ]

  pub delete-IsValid : (x : A) (q : Queue K A) → IsValid q → IsValid (delete x q).1
  unfolding delete
  delete-IsValid x q v = delete_by_key-IsValid (q.key_func x) q v

  pub push_or_update-IsValid : (x : A) (q : Queue K A) → IsValid q → IsValid (push_or_update x q)
  unfolding push_or_update
  push_or_update-IsValid x q v = elim (Option-cases (get (q.key_func x) q.items)) [
    | inl e' ↦ rw (e', push_or_update) (push-IsValid x q v e')
    | inr (it, e') ↦ rw (e', push_or_update) (replace-IsValid x it.index q v e')
  ]

  pub push_if_not_present-IsValid :
      (x : A) (q : Queue K A) → IsValid q → IsValid (push_if_not_present x q).1
  unfolding push_if_not_present
  push_if_not_present-IsValid x q v = elim (Option-cases (get (q.key_func x) q.items)) [
    | inl e' ↦ rw e' (push-IsValid x q v e')
    | inr (it, e') ↦ rw e' v
  ]
