-- ===== src/Queue/Reordered.antt =====
-- Reorder and ReorderWithFunc of pkg/util/queue/queue.go: the sort through Less and Swap, which reads
-- and writes the slice of keys and the map, is the sort of the keys.
use crater_backend.Prelude.{
  ℕ, suc, ◌≡◌, refl, ◌∙◌, ap, Bool, true, false, ◌||◌, Option, none, some, ◌>>=◌, is_some, List, [],
  ◌∷◌, Bool-cases, Option-cases, inl, inr, length, get_elem?, set, ltb, Eq, ◌==◌, arith,
}
use crater_backend.Prelude.Dict.{Dict, get, put, get-put}
use crater_backend.Queue.{Item, Queue, len, found, less, swap, set_index, sift, sort_from, reorder}
use crater_backend.Queue.Sorting.{
  onto, get-first, get-second, set-both, in_range, insert_back, sort_onto, length-insert_back,
}

module _ {ℓ} {A : Type ℓ} where
  -- What Less says of two objects, each of which may be missing.
  abbrev pub before_found : (A → A → Bool) → Option A → Option A → Bool
  before_found less_fn none b = false
  before_found less_fn (some a) none = false
  before_found less_fn (some a) (some b) = less_fn a b

  -- Less says yes only of keys that have objects.
  before-present :
      (less_fn : A → A → Bool) (o p : Option (Item A))
      → before_found less_fn (found o) (found p) ≡ true
      → is_some o ≡ true × is_some p ≡ true
  before-present less_fn none none h = absurd (ground arith)
  before-present less_fn none (some jt) h = absurd (ground arith)
  before-present less_fn (some it) none h = absurd (ground arith)
  before-present less_fn (some it) (some jt) h = (refl, refl)

  is_some-found : (o p : Option (Item A)) → found o ≡ found p → is_some p ≡ true → is_some o ≡ true
  is_some-found none none same h = absurd (ground arith)
  is_some-found none (some it) same h = absurd (ground arith)
  is_some-found (some it) p same h = refl

module _ {ℓ κ} {K : Type κ} {A : Type ℓ} ⦃e : Eq K⦄ where
  -- `r` is `q` with its keys in the order `ks`: the objects of the map and the functions are the same.
  pub record Ordering (q r : Queue K A) (ks : List K) : Type (ℓ ⊔ κ) where
    pub keys : r.keys ≡ ks
    pub objects : (k : K) → found (get k r.items) ≡ found (get k q.items)
    pub key_fn : r.key_func ≡ q.key_func
    pub less_fn : r.less_func ≡ q.less_func

  abbrev pub key_before : Queue K A → K → K → Bool
  key_before q j k = before_found q.less_func (found (get j q.items)) (found (get k q.items))

  Ordering-trans :
      {q r s : Queue K A} {ks js : List K} → Ordering q r ks → Ordering r s js → Ordering q s js
  Ordering-trans o p = record {
    keys = p.keys;
    objects = λ k. p.objects k ∙ o.objects k;
    key_fn = p.key_fn ∙ o.key_fn;
    less_fn = p.less_fn ∙ o.less_fn;
  }

  same_before :
      {q r : Queue K A} {ks : List K}
      → Ordering q r ks
      → (j k : K) → key_before r j k ≡ key_before q j k
  same_before o j k = rw (o.less_fn, o.objects j, o.objects k) refl

  less-at :
      (r : Queue K A) (f : List K) (y k : K) (back : List K)
      → r.keys ≡ onto f (y ∷ k ∷ back)
      → less r (suc (length f)) (length f)
        ≡ some (before_found r.less_func (found (get k r.items)) (found (get y r.items)))
  unfolding less
  less-at r f y k back at =
      let second : get_elem? r.keys (suc (length f)) ≡ some k = rw at (get-second f y k back) in
      let first : get_elem? r.keys (length f) ≡ some y = rw at (get-first f y (k ∷ back)) in
      let fits : (ltb (len r) (suc (length f)) || ltb (len r) (length f)) ≡ false =
        rw at (in_range f y k back) in
      elim (Option-cases (get k r.items)) [
        | inl g ↦ rw (fits, second, ◌>>=◌, g) refl
        | inr (it, g) ↦ elim (Option-cases (get y r.items)) [
          | inl g' ↦ rw (fits, second, ◌>>=◌, g, first, ◌>>=◌, g') refl
          | inr (jt, g') ↦ rw (fits, second, ◌>>=◌, g, first, ◌>>=◌, g') refl
        ]
      ]

  found-set_index :
      (k : K) (n : ℕ) (m : Dict K (Item A))
      → is_some (get k m) ≡ true
      → (m' : Dict K (Item A)) × (set_index k n m ≡ some m')
        × ((j : K) → found (get j m') ≡ found (get j m))
  unfolding set_index
  found-set_index k n m h = elim (Option-cases (get k m)) [
    | inl g ↦ absurd (ground arith)
    | inr (it, g) ↦
        let moved : Item A = record it { index = n } in
        rw g (
          put k moved m,
          refl,
          λ j. elim (Bool-cases (k == j)) [
            | inl same ↦ rw (get-put k j moved m, same, ← (e.beq_iff k j).0 same, g) refl
            | inr other ↦ rw (get-put k j moved m, other) refl
          ],
        )
  ]

  swap_steps :
      (r : Queue K A) (i j : ℕ) {ki kj : K} {m m' : Dict K (Item A)} {ks : List K}
      → get_elem? r.keys i ≡ some ki
      → get_elem? r.keys j ≡ some kj
      → set_index kj i r.items ≡ some m
      → set_index ki j m ≡ some m'
      → set (set r.keys i kj) j ki ≡ ks
      → swap r i j ≡ some (record r { items = m'; keys = ks })
  unfolding swap
  swap_steps r i j at_i at_j set_j set_i moved = rw (at_i, at_j, set_j, set_i, moved) refl

  swap-at :
      (r : Queue K A) (f : List K) (y k : K) (back : List K)
      → r.keys ≡ onto f (y ∷ k ∷ back)
      → is_some (get k r.items) ≡ true
      → is_some (get y r.items) ≡ true
      → (s : Queue K A) × (swap r (suc (length f)) (length f) ≡ some s)
        × Ordering r s (onto f (k ∷ y ∷ back))
  swap-at r f y k back at has_k has_y =
      let second : get_elem? r.keys (suc (length f)) ≡ some k = rw at (get-second f y k back) in
      let first : get_elem? r.keys (length f) ≡ some y = rw at (get-first f y (k ∷ back)) in
      let moved : set (set r.keys (suc (length f)) y) (length f) k ≡ onto f (k ∷ y ∷ back) =
        rw at (set-both f y k back) in
      let (m, set_y, same) = found-set_index y (suc (length f)) r.items has_y in
      let (m', set_k, same') = found-set_index k (length f) m (is_some-found _ _ (same k) has_k) in
      (
        record r { items = m'; keys = onto f (k ∷ y ∷ back) },
        swap_steps r (suc (length f)) (length f) second first set_y set_k moved,
        record { keys = refl; objects = λ j. same' j ∙ same j; key_fn = refl; less_fn = refl },
      )

  -- One round of the sort.
  sift-Ordering :
      (q r : Queue K A) (f : List K) (k : K) (back : List K)
      → Ordering q r (onto f (k ∷ back))
      → (s : Queue K A) × (sift (length f) r ≡ some s)
        × Ordering q s (onto (insert_back (key_before q) k f) back)
  unfolding sift
  sift-Ordering q r [] k back o = (r, refl, o)
  sift-Ordering q r (y ∷ f) k back o =
      let asked : less r (suc (length f)) (length f) ≡ some (key_before q k y) =
        less-at r f y k back o.keys ∙ ap some (same_before o k y) in
      elim (Bool-cases (key_before q k y)) [
        | inr e' ↦ rw e' (r, rw (asked, e') refl, o)
        | inl e' ↦
            let (has_k, has_y) = before-present q.less_func (get k q.items) (get y q.items) e' in
            let (s, swapped, o') =
              swap-at r f y k back o.keys (is_some-found _ _ (o.objects k) has_k)
                (is_some-found _ _ (o.objects y) has_y) in
            let (t, sifted, o'') = sift-Ordering q s f k (y ∷ back) (Ordering-trans o o') in
            rw e' (t, rw (asked, e', ◌>>=◌, swapped, ◌>>=◌, sifted) refl, o'')
      ]

  -- The rounds that are left.
  sort_from-Ordering :
      (q r : Queue K A) (f rest : List K)
      → Ordering q r (onto f rest)
      → (s : Queue K A) × (sort_from (length rest) (length f) r ≡ some s)
        × Ordering q s (sort_onto (key_before q) f rest)
  unfolding sort_from
  sort_from-Ordering q r f [] o = (r, refl, o)
  sort_from-Ordering q r f (k ∷ rest) o =
      let (s, sifted, o') = sift-Ordering q r f k rest o in
      let (t, sorted, o'') = sort_from-Ordering q s (insert_back (key_before q) k f) rest o' in
      let next : sort_from (length rest) (suc (length f)) s ≡ some t =
        rw (length-insert_back (key_before q) k f) at sorted in
      (t, rw (sifted, ◌>>=◌, next) refl, o'')

  -- Reorder never panics, and sorts the keys by the objects that they name.
  pub reorder-Ordering :
      (q : Queue K A)
      → (s : Queue K A) × (reorder q ≡ some s) × Ordering q s (sort_onto (key_before q) [] q.keys)
  unfolding reorder
  reorder-Ordering q =
      sort_from-Ordering q q [] q.keys
        (record { keys = refl; objects = λ k. refl; key_fn = refl; less_fn = refl })
