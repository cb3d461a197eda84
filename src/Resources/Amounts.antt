-- ===== src/Resources/Amounts.antt =====
-- AddResourceList and SubResourceList of pkg/aitaskctl/utils.go, resource by resource.
use crater_backend.Prelude.{
  ◌≡◌, refl, ◌∙◌, sym, ap, true, false, Option, none, some, [], ◌∷◌, String, if◌then◌else◌, ◌==◌,
  string_eq, contains, Distinct, Bool-cases, Option-cases, inl, inr,
}
use mathlib.Core.Option
use crater_backend.Prelude.Dict.{get, put, keys, get-put, get-absent}
use crater_backend.Resources.{
  Quantity, ResourceList, or_zero, amount, joined, add_resource_list, reduced, sub_resource_list,
}

-- The string comparisons that the tactics meet.
abbrev str_iff : (j k : String) → ((j == k) ≡ true → j ≡ k) × (j ≡ k → (j == k) ≡ true)
str_iff = string_eq.beq_iff

module _ {Q : Type 0} ⦃n : Quantity Q⦄ where
  -- The sum of two entries of which each may be missing.
  abbrev pub both : Option Q → Option Q → Option Q
  both none b = b
  both (some a) none = some a
  both (some a) (some b) = some (n.add a b)

  -- One round of the loop writes the sum under the key of the round, and nothing else.
  round :
      (a : ResourceList Q) (j k : String) (v : Q) (b : ResourceList Q)
      → contains (keys b) j ≡ false
      → both (get k (put j (joined v (get j a)) a)) (get k b)
        ≡ both (get k a) (if j == k then some v else get k b)
  round a j k v b absent = elim (Bool-cases (j == k)) [
    | inl e ↦
        let same : j ≡ k = (str_iff j k).0 e in
        rw (e, get-put j k (joined v (get j a)) a, e, get-absent k b (rw same at absent), ← same)
          (here (get j a))
    | inr e ↦ rw (e, get-put j k (joined v (get j a)) a, e)
  ]
    where
      here : (o : Option Q) → both (some (joined v o)) none ≡ both o (some v)
      here none = refl
      here (some w) = ap some (n.add_comm v w)

  -- AddResourceList adds resource by resource.
  pub get-add_resource_list :
      (a b : ResourceList Q) (k : String)
      → Distinct (keys b)
      → get k (add_resource_list a b) ≡ both (get k a) (get k b)
  unfolding add_resource_list get
  get-add_resource_list a [] k d = elim (Option-cases (get k a)) [
    | inl e ↦ rw e
    | inr (v, e) ↦ rw e
  ]
  get-add_resource_list a ((j, v) ∷ b) k d =
      let ih = get-add_resource_list (put j (joined v (get j a)) a) b k d.1 in
      ih ∙ round a j k v b d.0

  -- SubResourceList subtracts resource by resource from the entries that are there.
  pub get-sub_resource_list :
      (a b : ResourceList Q) (k : String)
      → get k (sub_resource_list a b) ≡ Option.map (λ v. reduced v (get k b)) (get k a)
  unfolding sub_resource_list get
  get-sub_resource_list [] b k = refl
  get-sub_resource_list ((j, v) ∷ a) b k = elim (Bool-cases (j == k)) [
    | inl e ↦ let same : j ≡ k = (str_iff j k).0 e in rw (e, same)
    | inr e ↦ rw e (get-sub_resource_list a b k)
  ]

  pub amount-add_resource_list :
      (a b : ResourceList Q) (k : String)
      → Distinct (keys b)
      → amount k (add_resource_list a b) ≡ n.add (amount k a) (amount k b)
  amount-add_resource_list a b k d = rw (get-add_resource_list a b k d) (sums (get k a) (get k b))
    where
      sums : (o p : Option Q) → or_zero (both o p) ≡ n.add (or_zero o) (or_zero p)
      sums none none = sym (n.add_none_left n.none_left)
      sums none (some v) = sym (n.add_comm n.none_left v ∙ n.add_none_left v)
      sums (some v) none = sym (n.add_none_left v)
      sums (some v) (some w) = refl

  -- An entry that was there is the same afterwards.
  pub get-sub-add :
      (a b : ResourceList Q) (k : String) {v : Q}
      → Distinct (keys b)
      → get k a ≡ some v
      → get k (sub_resource_list (add_resource_list a b) b) ≡ some v
  get-sub-add a b k {v} d e =
      rw (get-sub_resource_list (add_resource_list a b) b k, get-add_resource_list a b k d, e)
        (back (get k b))
    where
      back : (p : Option Q) → Option.map (λ v. reduced v p) (both (some v) p) ≡ some v
      back none = refl
      back (some w) = ap some (n.sub-add v w)

  -- What is added can be taken away again: after AddResourceList of a map and SubResourceList of
  -- the same map every resource has the amount that it had.
  pub sub-add_resource_list :
      (a b : ResourceList Q) (k : String)
      → Distinct (keys b)
      → amount k (sub_resource_list (add_resource_list a b) b) ≡ amount k a
  sub-add_resource_list a b k d =
      rw (get-sub_resource_list (add_resource_list a b) b k, get-add_resource_list a b k d)
        (back (get k a) (get k b))
    where
      back : (o p : Option Q) → or_zero (Option.map (λ v. reduced v p) (both o p)) ≡ or_zero o
      back none none = refl
      back none (some v) =
          let shown : n.add n.none_left v ≡ v = n.add_comm n.none_left v ∙ n.add_none_left v in
          ap (λ w. n.sub w v) (sym shown) ∙ n.sub-add n.none_left v
      back (some v) none = refl
      back (some v) (some w) = n.sub-add v w
