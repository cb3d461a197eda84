-- ===== src/Queue/Ranked.antt =====
-- What Reorder of pkg/util/queue/queue.go leaves of a valid queue.
use crater_backend.Prelude.{
  ◌≡◌, refl, ◌∙◌, Bool, Option, none, some, is_some, List, [], ◌∷◌, Bool-cases, Option-cases, inl,
  inr, Eq, contains, Distinct, arith, ◌>>=◌,
}
use crater_backend.Prelude.Dict.{Dict, get}
use crater_backend.Queue.{Item, Queue, found, list_keys, list, reorder}
use crater_backend.Queue.Valid.{IsValid}
use crater_backend.Queue.Listing.{Lists, nil, cons, list_keys-Lists}
use crater_backend.Queue.Entries.{Lists-list}
use crater_backend.Queue.Sorting.{
  onto, insert_back, sort_onto, sort_onto-Perm, sort_onto-Sorted, Sorted, IsWeakOrder,
}
use crater_backend.Queue.Reordered.{Ordering, key_before, reorder-Ordering}
use mathlib.Core.List.{Perm}

module _ {κ} {K : Type κ} ⦃e : Eq K⦄ where
  -- `ks` has the keys of `js`, and no key twice if `js` has none twice.
  record Alike (ks js : List K) : Type κ where
    same_keys : (k : K) → contains ks k ≡ contains js k
    distinct_too : Distinct js → Distinct ks

  Alike-trans : {is js ks : List K} → Alike is js → Alike js ks → Alike is ks
  Alike-trans p q = record {
    same_keys = λ k. p.same_keys k ∙ q.same_keys k;
    distinct_too = λ d. p.distinct_too (q.distinct_too d);
  }

  Alike-onto : (f : List K) {b c : List K} → Alike b c → Alike (onto f b) (onto f c)
  Alike-onto [] p = p
  Alike-onto (y ∷ f) {b} {c} p = Alike-onto f (record {
    same_keys = λ k. rw (p.same_keys k) refl;
    distinct_too = λ d. (p.same_keys y ∙ d.0, p.distinct_too d.1);
  })

  Alike-swap : (j k : K) (b : List K) → Alike (j ∷ k ∷ b) (k ∷ j ∷ b)
  Alike-swap j k b = record {
    same_keys = λ i. ground arith;
    distinct_too = λ d. ground (arith, e.beq_iff j k, e.beq_iff k j);
  }

  Alike-insert_back :
      (before : K → K → Bool) (k : K) (f b : List K)
      → Alike (onto (insert_back before k f) b) (onto f (k ∷ b))
  Alike-insert_back before k [] b = record { same_keys = λ i. refl; distinct_too = λ d. d }
  Alike-insert_back before k (y ∷ f) b = elim (Bool-cases (before k y)) [
    | inl e' ↦
        rw e' (Alike-trans (Alike-insert_back before k f (y ∷ b)) (Alike-onto f (Alike-swap k y b)))
    | inr e' ↦ rw e' (record { same_keys = λ i. refl; distinct_too = λ d. d })
  ]

  Alike-sort_onto :
      (before : K → K → Bool) (f ks : List K) → Alike (sort_onto before f ks) (onto f ks)
  Alike-sort_onto before f [] = record { same_keys = λ i. refl; distinct_too = λ d. d }
  Alike-sort_onto before f (k ∷ ks) =
      Alike-trans (Alike-sort_onto before (insert_back before k f) ks)
        (Alike-insert_back before k f ks)

module _ {ℓ} {A : Type ℓ} where
  is_some-found : (o p : Option (Item A)) → found o ≡ found p → is_some o ≡ is_some p
  is_some-found none none same = refl
  is_some-found none (some it) same = absurd (ground arith)
  is_some-found (some it) none same = absurd (ground arith)
  is_some-found (some it) (some jt) same = refl

  listed_first :
      (o p : Option (Item A)) (rest : Option (List A))
      → found o ≡ found p
      → (o >>= λ it. rest >>= λ xs. some (it.obj ∷ xs))
        ≡ (p >>= λ it. rest >>= λ xs. some (it.obj ∷ xs))
  listed_first none none rest same = refl
  listed_first none (some it) rest same = absurd (ground arith)
  listed_first (some it) none rest same = absurd (ground arith)
  listed_first (some it) (some jt) rest same =
      let obj : it.obj ≡ jt.obj = ground arith in rw obj refl

module _ {ℓ κ} {K : Type κ} {A : Type ℓ} ⦃e : Eq K⦄ where
  -- Sorting the keys sorts the objects.
  module _ (q : Queue K A) where
    Lists-onto :
        {f b : List K} {xs ys : List A}
        → Lists q.key_func q.items f xs
        → Lists q.key_func q.items b ys
        → Lists q.key_func q.items (onto f b) (onto xs ys)
    Lists-onto nil l = l
    Lists-onto (cons n g h f) l = Lists-onto f (cons n g h l)

    Lists-insert_back :
        {k : K} {x : A} (i : _) {f : List K} {xs : List A}
        → get k q.items ≡ some (record { obj = x; index = i })
        → q.key_func x ≡ k
        → Lists q.key_func q.items f xs
        → Lists q.key_func q.items (insert_back (key_before q) k f) (insert_back q.less_func x xs)
    Lists-insert_back i g h nil = cons i g h nil
    Lists-insert_back {k} {x} i g h (cons {k = j} {x = y} n g' h' l) =
        let asked : key_before q k j ≡ q.less_func x y = rw (g, g') refl in
        rw asked (elim (Bool-cases (q.less_func x y)) [
          | inl e' ↦ rw e' (cons n g' h' (Lists-insert_back i g h l))
          | inr e' ↦ rw e' (cons i g h (cons n g' h' l))
        ])

    Lists-sort_onto :
        {ks : List K} {ys : List A}
        → Lists q.key_func q.items ks ys
        → {f : List K} {xs : List A} → Lists q.key_func q.items f xs
        → Lists q.key_func q.items (sort_onto (key_before q) f ks) (sort_onto q.less_func xs ys)
    Lists-sort_onto nil l = Lists-onto l nil
    Lists-sort_onto (cons n g h more) l = Lists-sort_onto more (Lists-insert_back n g h l)

  list_keys-found :
      (ks : List K) (m m' : Dict K (Item A))
      → ((k : K) → found (get k m) ≡ found (get k m'))
      → list_keys ks m ≡ list_keys ks m'
  unfolding list_keys
  list_keys-found [] m m' same = refl
  list_keys-found (k ∷ ks) m m' same =
      rw (list_keys-found ks m m' same)
        (listed_first (get k m) (get k m') (list_keys ks m') (same k))

  Ordering-IsValid :
      (q r : Queue K A) (ks : List K) → Alike ks q.keys → Ordering q r ks → IsValid q → IsValid r
  Ordering-IsValid q r ks alike o v = record {
    distinct = rw o.keys (alike.distinct_too v.distinct);
    same = λ k. rw (o.keys, alike.same_keys k, v.same k, is_some-found _ _ (o.objects k)) refl;
    keyed = λ k it h.
        let same = rw h at (o.objects k) in
        elim (Option-cases (get k q.items)) [
          | inl none_there ↦ let gone = rw none_there at same in absurd (ground arith)
          | inr (jt, there) ↦
              let obj : jt.obj ≡ it.obj = let both = rw there at same in ground arith in
              rw (o.key_fn, ← obj) (v.keyed k jt there)
        ];
  }

  -- With the sort that Go runs on at most twelve elements: if the less function of a valid queue is
  -- a strict weak order, Reorder does not panic, keeps the queue valid with its key and less
  -- functions, and lists the same objects, none before one that is less.
  pub reorder-Sorted :
      (q : Queue K A)
      → IsValid q
      → (xs : List A) → list q ≡ some xs
      → IsWeakOrder q.less_func
      → (r : Queue K A) × (ys : List A) × (reorder q ≡ some r)
        × IsValid r
        × (r.key_func ≡ q.key_func)
        × (r.less_func ≡ q.less_func)
        × (list r ≡ some ys)
        × Sorted q.less_func ys
        × Perm ys xs
  unfolding list
  reorder-Sorted q v xs listed order =
      let (r, done, o) = reorder-Ordering q in
      let valid = Ordering-IsValid q r _ (Alike-sort_onto (key_before q) [] q.keys) o v in
      let sorted = Lists-sort_onto q (Lists-list q v xs listed) nil in
      (
        r,
        sort_onto q.less_func [] xs,
        done,
        valid,
        o.key_fn,
        o.less_fn,
        rw o.keys (
            list_keys-found _ r.items q.items o.objects
            ∙ list_keys-Lists q.key_func q.items sorted),
        sort_onto-Sorted q.less_func order [] xs tt,
        sort_onto-Perm q.less_func [] xs,
      )
