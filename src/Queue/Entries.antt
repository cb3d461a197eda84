-- ===== src/Queue/Entries.antt =====
-- What the queue of pkg/util/queue/queue.go promises: a list of objects with distinct keys, which
-- `List` returns. Every operation on a valid queue is one on that list.
use crater_backend.Prelude.{
  ℕ, ◌≡◌, ◌∙◌, sym, refl, true, false, not, none, some, List, [], ◌∷◌, ◌++◌, if◌then◌else◌,
  Option-cases, subst, inl, inr, is_some, length, Eq, arith,
}
use crater_backend.Prelude.Dict.{get, put, remove, get-put}
use crater_backend.Queue.{
  Item, Queue, push, delete_by_key, push_or_update, push_if_not_present, list, get_by_key,
}
use crater_backend.Queue.Valid.{IsValid}
use crater_backend.Queue.Listing.{
  has_key, replace, upsert, without, find_key, without-absent, Lists, list_keys-Lists,
  has_key-Lists, found-Lists, Lists-total, Lists-put_other, Lists-put, Lists-append, Lists-remove,
}

module _ {ℓ κ} {K : Type κ} {A : Type ℓ} ⦃e : Eq K⦄ where
  module _ (q : Queue K A) (v : IsValid q) where
    -- `List` on a valid queue does not panic.
    pub list_total : (xs : List A) × (list q ≡ some xs)
    unfolding list
    list_total =
        let (xs, l) =
          Lists-total q.key_func q.items q.keys (λ k h. ground (arith, v.same k)) v.keyed in
        (xs, list_keys-Lists q.key_func q.items l)

    module _ (xs : List A) (listed : list q ≡ some xs) where
      pub Lists-list : Lists q.key_func q.items q.keys xs
      unfolding list
      Lists-list =
          let (ys, l) =
            Lists-total q.key_func q.items q.keys (λ k h. ground (arith, v.same k)) v.keyed in
          let same : ys ≡ xs = cc (list_keys-Lists q.key_func q.items l) in
          subst (Lists q.key_func q.items q.keys) same l

      found-get : (k : K) → is_some (get k q.items) ≡ has_key q.key_func k xs
      found-get k = sym (v.same k) ∙ sym (has_key-Lists q.key_func q.items k Lists-list)

      list-push :
          (x : A)
          → get (q.key_func x) q.items ≡ none
          → list (push (q.key_func x) x q) ≡ some (xs ++ x ∷ [])
      unfolding push list
      list-push x absent =
          let k = q.key_func x in
          let it : Item A = record { obj = x; index = length q.keys } in
          let kept =
            Lists-put_other q.key_func q.items k it Lists-list (ground (arith, v.same k)) in
          let here : get k (put k it q.items) ≡ some it =
            ground (arith, get-put k k it q.items, e.beq_iff k k) in
          list_keys-Lists q.key_func (put k it q.items)
            (Lists-append q.key_func (put k it q.items) k x (length q.keys) kept here refl)

      list-replace :
          (x : A) (n : ℕ)
          → list (record q { items = put (q.key_func x) (record { obj = x; index = n }) q.items })
            ≡ some (replace q.key_func x xs)
      unfolding list
      list-replace x n = list_keys-Lists q.key_func _ (Lists-put q.key_func q.items x n Lists-list)

      -- On a valid queue, PushOrUpdate replaces the object of its key where it stands, or adds the
      -- object at the end if its key is new.
      pub list-push_or_update : (x : A) → list (push_or_update x q) ≡ some (upsert q.key_func x xs)
      unfolding push_or_update
      list-push_or_update x =
          let there = found-get (q.key_func x) in
          elim (Option-cases (get (q.key_func x) q.items)) [
            | inl e' ↦
                let absent : has_key q.key_func (q.key_func x) xs ≡ false = ground arith in
                rw (e', push_or_update) (rw absent (list-push x e'))
            | inr (it, e') ↦
                let present : has_key q.key_func (q.key_func x) xs ≡ true = ground arith in
                rw (e', push_or_update) (rw present (list-replace x it.index))
          ]

      -- On a valid queue, PushIfNotPresent reports whether the key is new, and adds the object at
      -- the end exactly then.
      pub list-push_if_not_present :
          (x : A)
          → ((push_if_not_present x q).0 ≡ not (has_key q.key_func (q.key_func x) xs))
            × (list (push_if_not_present x q).1
                ≡ some (if has_key q.key_func (q.key_func x) xs then xs else xs ++ x ∷ []))
      unfolding push_if_not_present
      list-push_if_not_present x =
          let there = found-get (q.key_func x) in
          elim (Option-cases (get (q.key_func x) q.items)) [
            | inl e' ↦
                let absent : has_key q.key_func (q.key_func x) xs ≡ false = ground arith in
                rw (e', absent) (refl, list-push x e')
            | inr (it, e') ↦
                let present : has_key q.key_func (q.key_func x) xs ≡ true = ground arith in
                rw (e', present) (refl, listed)
          ]

      -- On a valid queue, GetByKey returns the object of the list with the key, if there is one.
      pub get_by_key-list : (k : K) → get_by_key k q ≡ find_key q.key_func k xs
      unfolding get_by_key
      get_by_key-list k = found-Lists q.key_func q.items k Lists-list (v.same k)

      -- On a valid queue, DeleteByKey takes exactly the object of its key out of the list, and
      -- returns it.
      pub list-delete_by_key :
          (k : K)
          → ((delete_by_key k q).0 ≡ find_key q.key_func k xs)
            × (list (delete_by_key k q).1 ≡ some (without q.key_func k xs))
      unfolding delete_by_key list
      list-delete_by_key k =
          let got = get_by_key-list k in
          let there = found-get k in
          elim (Option-cases (get k q.items)) [
            | inl e' ↦
                let absent : has_key q.key_func k xs ≡ false = ground arith in
                rw (e', delete_by_key)
                  (
                    unfold get_by_key in rw e' at got,
                    rw (without-absent q.key_func k xs absent) listed,
                  )
            | inr (it, e') ↦
                rw (e', delete_by_key)
                  ((
                    unfold get_by_key in rw e' at got,
                    list_keys-Lists q.key_func (remove k q.items)
                        (Lists-remove q.key_func q.items k Lists-list v.distinct),
                  ))
          ]
