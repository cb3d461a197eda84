-- ===== src/Server/Passed.antt =====
-- What is known once a handler of internal/handler has got past one of its queries and ends well: the
-- query found what it asked for, and the rest of the handler ends well from where the query left off.
use crater_backend.Prelude.{
  ◌≡◌, refl, sym, ap, ◌∙◌, Bool, true, false, Option, none, some, List, [], ◌∷◌, String, arith,
}
use crater_backend.Server.{
  transaction, settle, ◌>>◌, pure, State, M, Result, ok, err, continue, require, ask, ask_with,
  found, first, write, write_with, change, change_with, changed,
}

module _ {D A B : Type 0} {b : B} {t : State D} where
  -- The same for a part of a handler: it ended well itself.
  pub part_passed :
      (r : Result A × State D) (k : A → M D B)
      → continue r k ≡ (ok b, t)
      → (a : A) × (s' : State D) × (r ≡ (ok a, s')) × (k a s' ≡ (ok b, t))
  part_passed (ok a, s) k h = (a, s, refl, h)
  part_passed (err e, s) k h = absurd (ground arith)

  ask_with_passed :
      (fs : List Bool) (e : String) (f : D → A) (d : D) (k : A → M D B)
      → continue (ask_with fs e f d) k ≡ (ok b, t)
      → (s' : State D) × (s'.tables ≡ d) × (k (f d) s' ≡ (ok b, t))
  ask_with_passed [] e f d k h = (record { faults = []; tables = d }, refl, h)
  ask_with_passed (true ∷ rest) e f d k h = absurd (ground arith)
  ask_with_passed (false ∷ rest) e f d k h = (record { faults = rest; tables = d }, refl, h)

  pub ask_passed :
      (e : String) (f : D → A) (s : State D) (k : A → M D B)
      → continue (ask e f s) k ≡ (ok b, t)
      → (s' : State D) × (s'.tables ≡ s.tables) × (k (f s.tables) s' ≡ (ok b, t))
  unfolding ask
  ask_passed e f s k h = ask_with_passed s.faults e f s.tables k h

  pub found_passed :
      (e : String) (o : Option A) (s : State D) (k : A → M D B)
      → continue (found e o s) k ≡ (ok b, t)
      → (a : A) × (o ≡ some a) × (k a s ≡ (ok b, t))
  unfolding found
  found_passed e none s k h = absurd (ground arith)
  found_passed e (some a) s k h = (a, refl, h)

  changed_passed :
      (fs : List Bool) (e : String) (d : D) (o : Option (A × D)) (k : A → M D B)
      → continue (changed fs e d o) k ≡ (ok b, t)
      → (a : A) × (s' : State D) × (o ≡ some (a, s'.tables)) × (k a s' ≡ (ok b, t))
  changed_passed fs e d none k h = absurd (ground arith)
  changed_passed fs e d (some (a, d')) k h = (a, record { faults = fs; tables = d' }, refl, h)

  change_with_passed :
      (fs : List Bool) (e : String) (f : D → Option (A × D)) (d : D) (k : A → M D B)
      → continue (change_with fs e f d) k ≡ (ok b, t)
      → (a : A) × (s' : State D) × (f d ≡ some (a, s'.tables)) × (k a s' ≡ (ok b, t))
  change_with_passed [] e f d k h = changed_passed [] e d (f d) k h
  change_with_passed (true ∷ rest) e f d k h = absurd (ground arith)
  change_with_passed (false ∷ rest) e f d k h = changed_passed rest e d (f d) k h

  pub change_passed :
      (e : String) (f : D → Option (A × D)) (s : State D) (k : A → M D B)
      → continue (change e f s) k ≡ (ok b, t)
      → (a : A) × (s' : State D) × (f s.tables ≡ some (a, s'.tables)) × (k a s' ≡ (ok b, t))
  unfolding change
  change_passed e f s k h = change_with_passed s.faults e f s.tables k h

  first_with_passed :
      (fs : List Bool) (e : String) (f : D → Option A) (d : D) (k : A → M D B)
      → continue (continue (ask_with fs e f d) (found e)) k ≡ (ok b, t)
      → (a : A) × (s' : State D) × (f d ≡ some a) × (s'.tables ≡ d) × (k a s' ≡ (ok b, t))
  first_with_passed [] e f d k h =
      let (a, there, g) = found_passed e (f d) (record { faults = []; tables = d }) k h in
      (a, record { faults = []; tables = d }, there, refl, g)
  first_with_passed (true ∷ rest) e f d k h = absurd (ground arith)
  first_with_passed (false ∷ rest) e f d k h =
      let (a, there, g) = found_passed e (f d) (record { faults = rest; tables = d }) k h in
      (a, record { faults = rest; tables = d }, there, refl, g)

  pub first_passed :
      (e : String) (f : D → Option A) (s : State D) (k : A → M D B)
      → continue (first e f s) k ≡ (ok b, t)
      → (a : A) × (s' : State D) × (f s.tables ≡ some a)
        × (s'.tables ≡ s.tables)
        × (k a s' ≡ (ok b, t))
  unfolding first ask
  first_passed e f s k h = first_with_passed s.faults e f s.tables k h

module _ {D B : Type 0} {b : B} {t : State D} where
  pub require_passed :
      (e : String) (c : Bool) (s : State D) (k : Unit {0} → M D B)
      → continue (require e c s) k ≡ (ok b, t)
      → (c ≡ true) × (k tt s ≡ (ok b, t))
  unfolding require
  require_passed e true s k h = (refl, h)
  require_passed e false s k h = absurd (ground arith)

module _ {D B : Type 0} {b : B} {t : State D} where
  write_with_passed :
      (fs : List Bool) (e : String) (f : D → D) (d : D) (k : Unit {0} → M D B)
      → continue (write_with fs e f d) k ≡ (ok b, t)
      → (s' : State D) × (s'.tables ≡ f d) × (k tt s' ≡ (ok b, t))
  write_with_passed [] e f d k h = (record { faults = []; tables = f d }, refl, h)
  write_with_passed (true ∷ rest) e f d k h = absurd (ground arith)
  write_with_passed (false ∷ rest) e f d k h = (record { faults = rest; tables = f d }, refl, h)

  pub write_passed :
      (e : String) (f : D → D) (s : State D) (k : Unit {0} → M D B)
      → continue (write e f s) k ≡ (ok b, t)
      → (s' : State D) × (s'.tables ≡ f s.tables) × (k tt s' ≡ (ok b, t))
  unfolding write
  write_passed e f s k h = write_with_passed s.faults e f s.tables k h

-- The end of a handler: what it answers, and the tables that it leaves.
pub pure_passed :
    {D A : Type 0} (a : A) (s : State D) {b : A} {t : State D}
    → pure a s ≡ (ok b, t)
    → (a ≡ b) × (s ≡ t)
unfolding pure
pure_passed a s h = (ok_injective (ap (λ r. r.0) h), ap (λ r. r.1) h)
  where
    ok_injective : {A : Type 0} {a b : A} → Path (Result A) (ok a) (ok b) → a ≡ b
    ok_injective e = ground arith

pub require_ended :
    {D : Type 0} (e : String) (c : Bool) (s : State D) {t : State D}
    → require e c s ≡ (ok tt, t)
    → c ≡ true
unfolding require
require_ended e true s h = refl
require_ended e false s h = absurd (ground arith)

-- A transaction that fails leaves what its rollback makes of the tables; one that succeeds has been
-- committed with the tables of its body.
pub transaction_failed :
    {D A : Type 0} (restore : D → D → D) (e : String) (m : M D A) (s : State D) {x : String}
    {t : State D}
    → transaction restore e m s ≡ (err x, t)
    → (new : D) × (t.tables ≡ restore s.tables new)
unfolding transaction
transaction_failed {D} {A} restore e m s h =
    settled s.tables (continue (m s) (λ a. write e (λ d. d) >> pure a)) h
  where
    settled :
        (old : D) (r : Result A × State D) {x : String} {t : State D}
        → settle restore old r ≡ (err x, t)
        → (new : D) × (t.tables ≡ restore old new)
    settled old (ok a, s) h = absurd (ground arith)
    settled old (err e, s) h = (s.tables, sym (ap (λ r. r.1.tables) h))

pub transaction_passed :
    {D A : Type 0} (restore : D → D → D) (e : String) (m : M D A) (s : State D) {a : A}
    {t : State D}
    → transaction restore e m s ≡ (ok a, t)
    → (s' : State D) × (m s ≡ (ok a, s')) × (t.tables ≡ s'.tables)
unfolding transaction
transaction_passed {D} {A} restore e m s {a} {t} h =
    let (b, s1, g, h1) =
      part_passed (m s) (λ a. write e (λ d. d) >> pure a) (committed (continue (m s) _) h) in
    let (s2, same, h2) = write_passed e (λ d. d) s1 (λ _. pure b) h1 in
    let (value, last) = pure_passed b s2 h2 in
    (s1, g ∙ ap (λ v. (ok v, s1)) value, sym (ap (λ s. s.tables) last) ∙ same)
  where
    committed : (r : Result A × State D) → settle restore s.tables r ≡ (ok a, t) → r ≡ (ok a, t)
    committed (ok b, s) h = h
    committed (err e, s) h = absurd (ground arith)

-- A handler that ends with a write.
pub write_ended :
    {D : Type 0} (e : String) (f : D → D) (s : State D) {t : State D}
    → write e f s ≡ (ok tt, t)
    → t.tables ≡ f s.tables
unfolding write
write_ended {D} e f s h = written s.faults h
  where
    written :
        (fs : List Bool) {t : State D}
        → write_with fs e f s.tables ≡ (ok tt, t)
        → t.tables ≡ f s.tables
    written [] h = sym (ap (λ r. r.1.tables) h)
    written (false ∷ fs) h = sym (ap (λ r. r.1.tables) h)
    written (true ∷ fs) h = absurd (ground arith)
