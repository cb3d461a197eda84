-- ===== src/Quota/Totals.antt =====
-- Sums of a quantity over a map, for the accounts of pkg/aitaskctl/quota.go.
use crater_backend.Prelude.{
  ◌≡◌, refl, sym, ap, ◌∙◌, none, some, [], ◌∷◌, ◌==◌, nat_eq, string_eq, list_eq, Distinct, Eq,
  arith, Bool-cases, inl, inr,
}
use crater_backend.Prelude.Dict.{Dict, get, put, remove, keys, remove-absent}
use crater_backend.Resources.{Quantity}

module _ {Q : Type 0} ⦃n : Quantity Q⦄ where
  pub swap_add : (a b c : Q) → n.add a (n.add b c) ≡ n.add b (n.add a c)
  swap_add a b c =
      sym (n.add_assoc a b c) ∙ ap (λ x. n.add x c) (n.add_comm a b) ∙ n.add_assoc b a c

  module _ {K V : Type 0} ⦃e : Eq K⦄ where
    -- The sum of a quantity over the values of a map.
    abbrev pub total : (V → Q) → Dict K V → Q
    total f [] = n.none_left
    total f ((_, v) ∷ m) = n.add (f v) (total f m)

    pub total-put :
        (f : V → Q) (j : K) (v : V) (m : Dict K V)
        → get j m ≡ none
        → total f (put j v m) ≡ n.add (f v) (total f m)
    unfolding get put
    total-put f j v [] h = refl
    total-put f j v ((i, w) ∷ m) h = elim (Bool-cases (i == j)) [
      | inl here ↦ absurd (ground arith)
      | inr other ↦
          rw other
            (ap (n.add (f w)) (total-put f j v m (ground arith)) ∙ swap_add (f w) (f v) (total f m))
    ]

    pub total-remove :
        (f : V → Q) (j : K) {v : V} (m : Dict K V)
        → Distinct (keys m)
        → get j m ≡ some v
        → total f m ≡ n.add (f v) (total f (remove j m))
    unfolding get remove
    total-remove f j [] distinct h = absurd (ground arith)
    total-remove f j {v} ((i, w) ∷ m) distinct h = elim (Bool-cases (i == j)) [
      | inl here ↦
          let same : i ≡ j = (e.beq_iff i j).0 here in
          let value : w ≡ v = ground arith in
          rw (here, value, remove-absent j m (rw same at distinct.0))
      | inr other ↦ rw other (
          ap (n.add (f w)) (total-remove f j m distinct.1 (ground arith))
          ∙ swap_add (f w) (f v) (total f (remove j m)))
    ]
