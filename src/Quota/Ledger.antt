-- ===== src/Quota/Ledger.antt =====
-- The accounts of pkg/aitaskctl/quota.go: what counts as used is the sum of what the tasks on the
-- books ask for.
use mathlib.Core.Option
use crater_backend.Prelude.{
  ℕ, ◌≡◌, refl, sym, ap, ◌∙◌, true, false, Option, none, some, [], ◌∷◌, String, if◌then◌else◌, ◌==◌,
  nat_eq, string_eq, list_eq, Distinct, is_some, arith, Option-cases, Bool-cases, inl, inr,
}
use crater_backend.Prelude.Dict.{Dict, get, put, remove, keys, get-put, get-remove}
use crater_backend.Resources.{
  Quantity, ResourceList, or_zero, amount, reduced, add_resource_list, sub_resource_list,
}
use crater_backend.Resources.Amounts.{
  both, get-add_resource_list, amount-add_resource_list, get-sub_resource_list,
}
use crater_backend.Resources.Exceed.{Distinct-add_resource_list}
use crater_backend.Model.{AiTask}
use crater_backend.Model.Key.{Text}
use crater_backend.Quota.{Decoder, requested}
use crater_backend.Quota.Totals.{total, total-put, total-remove}

pub Distinct-requested :
    {Q : Type 0} (d : Decoder Q) (t : AiTask) → Distinct (keys (requested ⦃d = d⦄ t))
unfolding requested
Distinct-requested d t = elim (Bool-cases (t.resource_request == "")) [
  | inl e ↦ rw e tt
  | inr e ↦ rw e (elim (Option-cases (d.decode t.resource_request)) [
    | inl f ↦ rw f tt
    | inr (r, f) ↦ rw f (d.decode_distinct t.resource_request f)
  ])
]

module _ {Q : Type 0} ⦃n : Quantity Q⦄ ⦃d : Decoder Q⦄ where
  -- What a task asks of a resource, if it is of the given SLO.
  abbrev pub share : ℕ → String → AiTask → Q
  share s k t = if t.slo == s then amount k (requested t) else n.none_left

  -- `used` is exactly the sum over the tasks of one SLO, and names each resource they ask for.
  pub record Ledger (s : ℕ) (used : ResourceList Q) (tasks : Dict Text AiTask) : Type 0 where
    pub exact : (k : String) → amount k used ≡ total (share s k) tasks
    pub covered :
        (j : Text) (t : AiTask)
        → get j tasks ≡ some t
        → t.slo ≡ s
        → (k : String) → is_some {A = Q} (get k (requested t)) ≡ true
        → is_some (get k used) ≡ true
    pub distinct : Distinct (keys used)

  kept_left : (o p : Option Q) → is_some o ≡ true → is_some (both o p) ≡ true
  kept_left (some a) none h = refl
  kept_left (some a) (some b) h = refl
  kept_left none p h = ground arith

  kept_right : (o p : Option Q) → is_some p ≡ true → is_some (both o p) ≡ true
  kept_right none (some b) h = refl
  kept_right (some a) (some b) h = refl
  kept_right o none h = ground arith

  kept_map : (f : Q → Q) (o : Option Q) → is_some o ≡ true → is_some (Option.map f o) ≡ true
  kept_map f none h = h
  kept_map f (some a) h = refl

  add_nothing : (a : Q) → n.add n.none_left a ≡ a
  add_nothing a = n.add_comm n.none_left a ∙ n.add_none_left a

  keys-sub_resource_list : (a b : ResourceList Q) → keys (sub_resource_list a b) ≡ keys a
  unfolding sub_resource_list
  keys-sub_resource_list [] b = refl
  keys-sub_resource_list ((k, v) ∷ a) b = ap (◌∷◌ k) (keys-sub_resource_list a b)

  -- An entry `o` that holds a part `p` and the rest keeps the rest when the part is taken off.
  settle :
      (p o : Option Q) (rest : Q)
      → or_zero o ≡ n.add (or_zero p) rest
      → (is_some p ≡ true → is_some o ≡ true)
      → or_zero (Option.map (λ a. reduced a p) o) ≡ rest
  settle none none rest sum there = sum ∙ add_nothing rest
  settle none (some a) rest sum there = sum ∙ add_nothing rest
  settle (some w) none rest sum there = absurd (ground (arith, there refl))
  settle (some w) (some a) rest sum there =
      ap (λ x. n.sub x w) (sum ∙ n.add_comm w rest) ∙ n.sub-add rest w

  module _ (s : ℕ) (used : ResourceList Q) (tasks : Dict Text AiTask) (v : Ledger s used tasks)
      (j : Text) (t : AiTask) where
    -- A new task of this SLO is charged.
    pub Ledger-charge :
        get j tasks ≡ none
        → t.slo ≡ s
        → Ledger s (add_resource_list used (requested t)) (put j t tasks)
    Ledger-charge fresh mine =
        let own : (t.slo == s) ≡ true = ground arith in
        let sums =
          λ (k : String). get-add_resource_list used (requested t) k (Distinct-requested d t) in
        record {
          exact = λ k.
              amount-add_resource_list used (requested t) k (Distinct-requested d t)
              ∙ n.add_comm (amount k used) (amount k (requested t))
              ∙ ap (n.add (amount k (requested t))) (v.exact k)
              ∙ sym (rw (total-put (share s k) j t tasks fresh, own));
          covered = λ i u g su k asks. rw (sums k) (elim (Bool-cases (j == i)) [
            | inl e ↦
                let here : t ≡ u = ground (arith, get-put j i t tasks) in
                kept_right (get k used) (get k (requested t)) (rw here asks)
            | inr e ↦
                kept_left (get k used) (get k (requested t))
                  (v.covered i u (ground (arith, get-put j i t tasks)) su k asks)
          ]);
          distinct = Distinct-add_resource_list used (requested t) v.distinct;
        }

    -- A new task of another SLO is not.
    pub Ledger-put : get j tasks ≡ none → (t.slo == s) ≡ false → Ledger s used (put j t tasks)
    Ledger-put fresh other = record {
      exact =
          λ k. v.exact k ∙ sym (rw (total-put (share s k) j t tasks fresh, other) (add_nothing _));
      covered = λ i u g su k asks. elim (Bool-cases (j == i)) [
        | inl e ↦ let here : t ≡ u = ground (arith, get-put j i t tasks) in absurd (ground arith)
        | inr e ↦ v.covered i u (ground (arith, get-put j i t tasks)) su k asks
      ];
      distinct = v.distinct;
    }

    module _ (listed : Distinct (keys tasks)) (stored : get j tasks ≡ some t) where
      -- What is left of one resource when the task's part of the sum is paid back.
      balance :
          t.slo ≡ s
          → (k : String)
          → or_zero (get k used)
            ≡ n.add (or_zero (get k (requested t))) (total (share s k) (remove j tasks))
      balance mine k =
          let own : (t.slo == s) ≡ true = ground arith in
          v.exact k ∙ total-remove (share s k) j tasks listed stored ∙ rw own

      -- Taking a task of this SLO off the books gives back what it asked for.
      pub Ledger-discharge :
          t.slo ≡ s → Ledger s (sub_resource_list used (requested t)) (remove j tasks)
      Ledger-discharge mine = record {
        exact = λ k. rw (get-sub_resource_list used (requested t) k) (
            settle (get k (requested t)) (get k used) _ (balance mine k)
              (v.covered j t stored mine k));
        covered = λ i u g su k asks. rw (get-sub_resource_list used (requested t) k) (
            kept_map (λ a. reduced a (get k (requested t))) (get k used)
              (v.covered i u (ground (arith, get-remove j i tasks)) su k asks));
        distinct = rw (keys-sub_resource_list used (requested t)) v.distinct;
      }

      pub Ledger-remove : (t.slo == s) ≡ false → Ledger s used (remove j tasks)
      Ledger-remove other = record {
        exact = λ k.
            v.exact k ∙ total-remove (share s k) j tasks listed stored ∙ rw other (add_nothing _);
        covered = λ i u g su k asks. v.covered i u (ground (arith, get-remove j i tasks)) su k asks;
        distinct = v.distinct;
      }
