-- ===== src/Resources/Exceed.antt =====
-- CheckResourceListExceed of pkg/aitaskctl/utils.go.
use crater_backend.Prelude.{
  ◌≡◌, ◌↔◌, refl, ◌∙◌, sym, false, none, some, [], ◌∷◌, String, arith, ◌==◌, string_eq, Distinct,
  Bool-cases, inl, inr,
}
use crater_backend.Prelude.Dict.{get, put, keys, get-absent, Distinct-put}
use crater_backend.Resources.{
  Quantity, ResourceList, joined, add_resource_list, over, any_over, check_resource_list_exceed,
}
use crater_backend.Resources.Amounts.{both, get-add_resource_list}

module _ {Q : Type 0} ⦃n : Quantity Q⦄ where
  pub Distinct-add_resource_list :
      (a b : ResourceList Q) → Distinct (keys a) → Distinct (keys (add_resource_list a b))
  unfolding add_resource_list
  Distinct-add_resource_list a [] d = d
  Distinct-add_resource_list a ((k, v) ∷ b) d =
      Distinct-add_resource_list (put k (joined v (get k a)) a) b (Distinct-put k _ a d)

  -- No entry passes its limit, and every entry has one.
  abbrev pub Within : ResourceList Q → ResourceList Q → Type 0
  Within hard m = (k : String) (v : Q) → get k m ≡ some v → over (get k hard) v ≡ false

  pub any_over-Within :
      (hard m : ResourceList Q) → Distinct (keys m) → (any_over hard m ≡ false) ↔ Within hard m
  unfolding any_over get
  any_over-Within hard [] d = ((λ h k v g. ground arith), (λ w. refl))
  any_over-Within hard ((j, u) ∷ m) d =
      let ih = any_over-Within hard m d.1 in
      (
        (λ h k v g.
            let split : (over (get j hard) u ≡ false) × (any_over hard m ≡ false) = ground arith in
            elim (Bool-cases (j == k)) [
              | inl e ↦
                  let same : j ≡ k = (string_eq.beq_iff j k).0 e in
                  let first : u ≡ v = ground arith in rw (← same, ← first) split.0
              | inr e ↦ ih.0 split.1 k v (ground arith)
            ]),
        (λ w.
            let first : over (get j hard) u ≡ false =
              w j u (ground (arith, string_eq.beq_iff j j)) in
            let others : any_over hard m ≡ false = ih.1 (λ k v g.
              w k v (elim (Bool-cases (j == k)) [
                | inl e ↦
                    let same : j ≡ k = (string_eq.beq_iff j k).0 e in
                    let gone : get k m ≡ none = get-absent k m (rw same at d.0) in ground arith
                | inr e ↦ rw e g
              ])) in
            rw first others),
      )

  -- The check passes exactly if every resource that is in use or asked for has a limit which the
  -- sum of both does not pass.
  pub check_resource_list_exceed_iff :
      (hard used requested : ResourceList Q)
      → Distinct (keys used)
      → Distinct (keys requested)
      → (check_resource_list_exceed hard used requested ≡ false) ↔ (
          (k : String) (v : Q)
          → both (get k used) (get k requested) ≡ some v
          → over (get k hard) v ≡ false)
  unfolding check_resource_list_exceed
  check_resource_list_exceed_iff hard used requested du dr =
      let sums = λ (k : String). get-add_resource_list used requested k dr in
      let parts =
        any_over-Within hard (add_resource_list used requested)
          (Distinct-add_resource_list used requested du) in
      ((λ h k v g. parts.0 h k v (sums k ∙ g)), (λ w. parts.1 (λ k v g. w k v (sym (sums k) ∙ g))))
