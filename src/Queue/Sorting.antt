-- ===== src/Queue/Sorting.antt =====
-- The insertion sort that Reorder of pkg/util/queue/queue.go runs, on plain lists. The part that is
-- sorted already is kept from its end backwards, as the loop goes through it.
use crater_backend.Prelude.{
  ℕ, suc, ◌+◌, ◌≡◌, refl, Bool, true, false, List, [], ◌∷◌, if◌then◌else◌, Bool-cases, inl, inr,
  length, get_elem?, set, All, arith, some, ltb, ◌||◌,
}
use mathlib.Core.List.Perm
use mathlib.Core.List.{Perm}

module _ {ℓ} {A : Type ℓ} where
  -- `f` backwards, and then `b`.
  abbrev pub onto : List A → List A → List A
  onto [] b = b
  onto (y ∷ f) b = onto f (y ∷ b)

  pub length-onto : (f b : List A) → length (onto f b) ≡ length f + length b
  length-onto [] b = omega arith
  length-onto (y ∷ f) b = omega (arith, length-onto f (y ∷ b))

  pub get-onto : (f b : List A) (i : ℕ) → get_elem? (onto f b) (length f + i) ≡ get_elem? b i
  get-onto [] b i = let at : 0 + i ≡ i = omega arith in rw at refl
  get-onto (y ∷ f) b i =
      let at : suc (length f) + i ≡ length f + suc i = omega arith in
      rw at (get-onto f (y ∷ b) (suc i))

  pub set-onto :
      (f b : List A) (i : ℕ) (v : A) → set (onto f b) (length f + i) v ≡ onto f (set b i v)
  set-onto [] b i v = let at : 0 + i ≡ i = omega arith in rw at refl
  set-onto (y ∷ f) b i v =
      let at : suc (length f) + i ≡ length f + suc i = omega arith in
      rw at (set-onto f (y ∷ b) (suc i) v)

  pub get-first : (f : List A) (y : A) (b : List A) → get_elem? (onto f (y ∷ b)) (length f) ≡ some y
  get-first f y b =
      let at : length f + 0 ≡ length f = omega arith in rw at at (get-onto f (y ∷ b) 0)

  pub get-second :
      (f : List A) (y k : A) (b : List A) → get_elem? (onto f (y ∷ k ∷ b)) (suc (length f)) ≡ some k
  get-second f y k b =
      let at : length f + 1 ≡ suc (length f) = omega arith in rw at at (get-onto f (y ∷ k ∷ b) 1)

  pub set-both :
      (f : List A) (y k : A) (b : List A)
      → set (set (onto f (y ∷ k ∷ b)) (suc (length f)) y) (length f) k ≡ onto f (k ∷ y ∷ b)
  set-both f y k b =
      let second : length f + 1 ≡ suc (length f) = omega arith in
      let first : length f + 0 ≡ length f = omega arith in
      let later = rw second at (set-onto f (y ∷ k ∷ b) 1 y) in
      rw later (rw first at (set-onto f (y ∷ y ∷ b) 0 k))

  pub in_range :
      (f : List A) (y k : A) (b : List A)
      → (ltb (length (onto f (y ∷ k ∷ b))) (suc (length f))
          || ltb (length (onto f (y ∷ k ∷ b))) (length f))
        ≡ false
  in_range f y k b = rw (length-onto f (y ∷ k ∷ b)) (ground arith)

  pub onto-Perm : (f : List A) {b c : List A} → Perm b c → Perm (onto f b) (onto f c)
  onto-Perm [] p = p
  onto-Perm (y ∷ f) p = onto-Perm f (Perm.cons y p)

module _ {ℓ} {A : Type ℓ} (before : A → A → Bool) where
  abbrev pub insert_back : A → List A → List A
  insert_back x [] = x ∷ []
  insert_back x (y ∷ f) = if before x y then y ∷ insert_back x f else x ∷ y ∷ f

  abbrev pub sort_onto : List A → List A → List A
  sort_onto f [] = onto f []
  sort_onto f (x ∷ xs) = sort_onto (insert_back x f) xs

  pub length-insert_back : (x : A) (f : List A) → length (insert_back x f) ≡ suc (length f)
  length-insert_back x [] = refl
  length-insert_back x (y ∷ f) = ground (arith, length-insert_back x f)

  pub insert_back-Perm : (x : A) (f b : List A) → Perm (onto (insert_back x f) b) (onto f (x ∷ b))
  insert_back-Perm x [] b = Perm.refl _
  insert_back-Perm x (y ∷ f) b = elim (Bool-cases (before x y)) [
    | inl e ↦ rw e (Perm.trans (insert_back-Perm x f (y ∷ b)) (onto-Perm f (Perm.swap _ _ _)))
    | inr e ↦ rw e (Perm.refl _)
  ]

  pub sort_onto-Perm : (f xs : List A) → Perm (sort_onto f xs) (onto f xs)
  sort_onto-Perm f [] = Perm.refl _
  sort_onto-Perm f (x ∷ xs) =
      Perm.trans (sort_onto-Perm (insert_back x f) xs) (insert_back-Perm x f xs)

  -- No element stands before an element that is to come before it.
  abbrev pub Sorted : List A → Type 0
  Sorted [] = Unit
  Sorted (x ∷ xs) = All (λ y. before y x ≡ false) xs × Sorted xs

  -- The same of a list that is read backwards.
  abbrev Backward : List A → Type 0
  Backward [] = Unit
  Backward (y ∷ f) = All (λ z. before y z ≡ false) f × Backward f

  -- What sort.Interface asks of Less.
  pub record IsWeakOrder : Type ℓ where
    pub asymmetric : (x y : A) → before x y ≡ true → before y x ≡ false
    pub transitive : (x y z : A) → before x y ≡ false → before y z ≡ false → before x z ≡ false

  module _ (o : IsWeakOrder) where
    insert_back-All :
        (x y : A) (f : List A)
        → before y x ≡ false
        → All (λ z. before y z ≡ false) f
        → All (λ z. before y z ≡ false) (insert_back x f)
    insert_back-All x y [] h all_f = (h, tt)
    insert_back-All x y (z ∷ f) h all_f = elim (Bool-cases (before x z)) [
      | inl e ↦ rw e (all_f.0, insert_back-All x y f h all_f.1)
      | inr e ↦ rw e (h, all_f)
    ]

    not_before-All :
        (x y : A) (f : List A)
        → before x y ≡ false
        → All (λ z. before y z ≡ false) f
        → All (λ z. before x z ≡ false) f
    not_before-All x y [] h all_f = tt
    not_before-All x y (z ∷ f) h all_f =
        (o.transitive x y z h all_f.0, not_before-All x y f h all_f.1)

    insert_back-Backward : (x : A) (f : List A) → Backward f → Backward (insert_back x f)
    insert_back-Backward x [] s = (tt, tt)
    insert_back-Backward x (y ∷ f) (all_f, s) = elim (Bool-cases (before x y)) [
      | inl e ↦ rw e (insert_back-All x y f (o.asymmetric x y e) all_f, insert_back-Backward x f s)
      | inr e ↦ rw e ((e, not_before-All x y f e all_f), (all_f, s))
    ]

    onto-Sorted :
        (f b : List A)
        → Backward f
        → Sorted b
        → All (λ z. All (λ y. before y z ≡ false) b) f
        → Sorted (onto f b)
    onto-Sorted [] b s t apart = t
    onto-Sorted (y ∷ f) b (all_f, s) t (here, apart) =
        onto-Sorted f (y ∷ b) s (here, t) (both f all_f apart)
      where
        both :
            (g : List A)
            → All (λ z. before y z ≡ false) g
            → All (λ z. All (λ w. before w z ≡ false) b) g
            → All (λ z. All (λ w. before w z ≡ false) (y ∷ b)) g
        both [] p q = tt
        both (z ∷ g) p q = ((p.0, q.0), both g p.1 q.1)

    apart-none : (f : List A) → All (λ z. All (λ y. before y z ≡ false) []) f
    apart-none [] = tt
    apart-none (z ∷ f) = (tt, apart-none f)

    pub sort_onto-Sorted : (f xs : List A) → Backward f → Sorted (sort_onto f xs)
    sort_onto-Sorted f [] s = onto-Sorted f [] s tt (apart-none f)
    sort_onto-Sorted f (x ∷ xs) s =
        sort_onto-Sorted (insert_back x f) xs (insert_back-Backward x f s)
