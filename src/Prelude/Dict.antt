-- ===== src/Prelude/Dict.antt =====
-- Go maps as association lists. A write replaces the entry of its key or adds one at the end, and
-- `delete` drops the entries of its key. Go leaves the order of an iteration open: where a loop over
-- a map is modelled, the order of the list is one that the statements quantify over.
use mathlib.Core.Path.{◌≡◌, refl}
use mathlib.Core.Bool.{false, ◌||◌}
use mathlib.Core.List.{List, [], ◌∷◌}
use mathlib.Core.Option.{Option, none, some}
use native.Mathlib.Omega.{arith}
use crater_backend.Prelude.Tests.{if◌then◌else◌}
use crater_backend.Prelude.Equality.{Eq, ◌==◌, contains, Distinct}

abbrev pub Dict {ℓ κ} : Type ℓ → Type κ → Type (ℓ ⊔ κ)
Dict K V = List (K × V)

module _ {ℓ κ} {K : Type ℓ} {V : Type κ} ⦃e : Eq K⦄ where
  unfoldable pub get : K → Dict K V → Option V
  get k [] = none
  get k ((j, v) ∷ m) = if j == k then some v else get k m

  unfoldable pub put : K → V → Dict K V → Dict K V
  put k v [] = (k, v) ∷ []
  put k v ((j, w) ∷ m) = if j == k then (k, v) ∷ m else (j, w) ∷ put k v m

  unfoldable pub remove : K → Dict K V → Dict K V
  remove k [] = []
  remove k ((j, w) ∷ m) = let rest = remove k m in if j == k then rest else (j, w) ∷ rest

  pub get-put :
      (k j : K) (v : V) (m : Dict K V) → get j (put k v m) ≡ (if k == j then some v else get j m)
  unfolding get put
  get-put k j v [] = refl
  get-put k j v ((i, w) ∷ m) =
      ground (arith, e.beq_iff k j, e.beq_iff i k, e.beq_iff i j, get-put k j v m)

  pub get-remove :
      (k j : K) (m : Dict K V) → get j (remove k m) ≡ (if k == j then none else get j m)
  unfolding get remove
  get-remove k j [] = ground arith
  get-remove k j ((i, w) ∷ m) =
      ground (arith, e.beq_iff k j, e.beq_iff i k, e.beq_iff i j, get-remove k j m)

module _ {ℓ κ} {K : Type ℓ} {V : Type κ} where
  -- The keys in the order in which a `range` loop meets them.
  abbrev pub keys : Dict K V → List K
  keys [] = []
  keys ((k, _) ∷ m) = k ∷ keys m

  abbrev pub values : Dict K V → List V
  values [] = []
  values ((_, v) ∷ m) = v ∷ values m

module _ {ℓ κ} {K : Type ℓ} {V : Type κ} ⦃e : Eq K⦄ where
  pub get-absent : (k : K) (m : Dict K V) → contains (keys m) k ≡ false → get k m ≡ none
  unfolding get
  get-absent k [] h = refl
  get-absent k ((j, v) ∷ m) h = ground (arith, get-absent k m)

  contains-keys-put :
      (k j : K) (v : V) (m : Dict K V)
      → contains (keys (put k v m)) j ≡ (k == j || contains (keys m) j)
  unfolding put
  contains-keys-put k j v [] = ground arith
  contains-keys-put k j v ((i, w) ∷ m) =
      ground (arith, e.beq_iff i k, e.beq_iff i j, e.beq_iff k j, contains-keys-put k j v m)

  pub Distinct-put :
      (k : K) (v : V) (m : Dict K V) → Distinct (keys m) → Distinct (keys (put k v m))
  unfolding put
  Distinct-put k v [] d = (refl, tt)
  Distinct-put k v ((i, w) ∷ m) d =
      ground
        (arith, e.beq_iff i k, e.beq_iff k i, contains-keys-put k i v m, Distinct-put k v m d.1)

  contains-keys-remove :
      (j k : K) (m : Dict K V)
      → contains (keys (remove j m)) k ≡ (if j == k then false else contains (keys m) k)
  unfolding remove
  contains-keys-remove j k [] = ground arith
  contains-keys-remove j k ((i, w) ∷ m) =
      ground (arith, e.beq_iff i j, e.beq_iff i k, e.beq_iff j k, contains-keys-remove j k m)

  pub Distinct-remove : (j : K) (m : Dict K V) → Distinct (keys m) → Distinct (keys (remove j m))
  unfolding remove
  Distinct-remove j [] d = tt
  Distinct-remove j ((i, w) ∷ m) d =
      ground (arith, contains-keys-remove j i m, Distinct-remove j m d.1)

  pub remove-absent : (j : K) (m : Dict K V) → contains (keys m) j ≡ false → remove j m ≡ m
  unfolding remove
  remove-absent j [] h = refl
  remove-absent j ((i, w) ∷ m) h = ground (arith, remove-absent j m)

module _ {ℓ κ} {K : Type ℓ} {V : Type κ} ⦃e : Eq K⦄ (k : K) (v : V) (m : Dict K V) where
  pub get-put_self : get k (put k v m) ≡ some v
  get-put_self = ground (arith, get-put k k v m, e.beq_iff k k)

  -- Writing a new key and deleting it again leaves every entry as it was.
  pub get-remove-put : get k m ≡ none → (j : K) → get j (remove k (put k v m)) ≡ get j m
  get-remove-put absent j =
      ground (arith, get-remove k j (put k v m), get-put k j v m, e.beq_iff k j)
