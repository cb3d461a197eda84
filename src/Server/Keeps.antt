-- ===== src/Server/Keeps.antt =====
-- Invariants of the tables under the handlers of internal/handler: what is kept by each part of a handler
-- is kept by the whole, however it ends and whichever queries fail.
use crater_backend.Prelude.{◌≡◌, refl, Bool, true, false, Option, none, some, List, [], ◌∷◌, String}
use crater_backend.Server.{
  State, M, Result, ok, err, pure, require, when, ask, ask_with, found, first, write, write_with,
  change, change_with, changed, attempt, transaction, settle, continue, ◌>>=◌, ◌>>◌,
}

pub record Keeps {D A : Type 0} (P : D → Type 0) (m : State D → Result A × State D) : Type 0 where
  pub kept : (s : State D) → P s.tables → P (m s).1.tables

module _ {D : Type 0} (P : D → Type 0) where
  Keeps-continue :
      {A B : Type 0} (r : Result A × State D) (f : A → M D B)
      → P r.1.tables
      → ((a : A) → Keeps P (f a))
      → P (continue r f).1.tables
  Keeps-continue (ok a, s) f p k = (k a).kept s p
  Keeps-continue (err e, s) f p k = p

  pub Keeps-bind :
      {A B : Type 0} {m : M D A} {f : A → M D B}
      → Keeps P m
      → ((a : A) → Keeps P (f a))
      → Keeps P (m >>= f)
  Keeps-bind {m = m} {f = f} k l = record { kept = λ s p. Keeps-continue (m s) f (k.kept s p) l }

  pub Keeps-pure : {A : Type 0} (a : A) → Keeps P (pure a)
  unfolding pure
  Keeps-pure a = record { kept = λ s p. p }

  pub Keeps-require : (e : String) (c : Bool) → Keeps P (require e c)
  unfolding require
  Keeps-require e true = record { kept = λ s p. p }
  Keeps-require e false = record { kept = λ s p. p }

  ask_with_kept :
      {A : Type 0} (fs : List Bool) (e : String) (f : D → A) (d : D)
      → P d
      → P (ask_with fs e f d).1.tables
  ask_with_kept [] e f d p = p
  ask_with_kept (true ∷ fs) e f d p = p
  ask_with_kept (false ∷ fs) e f d p = p

  pub Keeps-ask : {A : Type 0} (e : String) (f : D → A) → Keeps P (ask e f)
  unfolding ask
  Keeps-ask e f = record { kept = λ s p. ask_with_kept s.faults e f s.tables p }

  pub Keeps-found : {A : Type 0} (e : String) (o : Option A) → Keeps P (found e o)
  unfolding found
  Keeps-found e none = record { kept = λ s p. p }
  Keeps-found e (some a) = record { kept = λ s p. p }

  pub Keeps-first : {A : Type 0} (e : String) (f : D → Option A) → Keeps P (first e f)
  unfolding first
  Keeps-first e f = Keeps-bind (Keeps-ask e f) (Keeps-found e)

  pub Keeps-attempt : {A : Type 0} {m : M D A} → Keeps P m → Keeps P (attempt m)
  unfolding attempt
  Keeps-attempt k = record { kept = λ s p. k.kept s p }

  pub Keeps-when : (b : Bool) {m : M D (Unit {0})} → Keeps P m → Keeps P (when b m)
  unfolding when pure
  Keeps-when true k = k
  Keeps-when false k = record { kept = λ s p. p }

  write_with_kept :
      (fs : List Bool) (e : String) (f : D → D) (d : D)
      → P d
      → P (f d)
      → P (write_with fs e f d).1.tables
  write_with_kept [] e f d p q = q
  write_with_kept (true ∷ fs) e f d p q = p
  write_with_kept (false ∷ fs) e f d p q = q

  pub Keeps-write : (e : String) (f : D → D) → ((d : D) → P d → P (f d)) → Keeps P (write e f)
  unfolding write
  Keeps-write e f k = record {
    kept = λ s p. write_with_kept s.faults e f s.tables p (k s.tables p);
  }

  change_with_kept :
      {A : Type 0} (fs : List Bool) (e : String) (f : D → Option (A × D)) (d : D)
      → P d
      → ((a : A) (d' : D) → f d ≡ some (a, d') → P d')
      → P (change_with fs e f d).1.tables
  change_with_kept {A} fs e f d p k = either fs
    where
      done : (o : Option (A × D)) (rest : List Bool) → f d ≡ o → P (changed rest e d o).1.tables
      done none rest h = p
      done (some (a, d')) rest h = k a d' h

      either : (fs : List Bool) → P (change_with fs e f d).1.tables
      either [] = done (f d) [] refl
      either (true ∷ fs) = p
      either (false ∷ fs) = done (f d) fs refl

  pub Keeps-change :
      {A : Type 0} (e : String) (f : D → Option (A × D))
      → ((d : D) (a : A) (d' : D) → P d → f d ≡ some (a, d') → P d')
      → Keeps P (change e f)
  unfolding change
  Keeps-change e f k = record {
    kept = λ s p. change_with_kept s.faults e f s.tables p (λ a d' h. k s.tables a d' p h);
  }

  pub Keeps-transaction :
      {A : Type 0} (restore : D → D → D) (e : String) {m : M D A}
      → ((old new : D) → P old → P (restore old new))
      → Keeps P m
      → Keeps P (transaction restore e m)
  unfolding transaction
  Keeps-transaction {A} restore e {m} back k = record {
    kept = λ s p.
        settled s.tables (continue (m s) (λ a. write e (λ d. d) >> pure a)) p (body.kept s p);
  }
    where
      body : Keeps P (m >>= λ a. write e (λ d. d) >> pure a)
      body = Keeps-bind k (λ a. Keeps-bind (Keeps-write e (λ d. d) (λ d p. p)) (λ _. Keeps-pure a))

      settled :
          (old : D) (r : Result A × State D)
          → P old
          → P r.1.tables
          → P (settle restore old r).1.tables
      settled old (ok a, t) p q = q
      settled old (err x, t) p q = back old t.tables p

module _ {D A B : Type 0} (P Q : D → Type 0) (f : D → Option A)
    (into : (d : D) (a : A) → P d → f d ≡ some a → Q d) (back : (d : D) → Q d → P d) where
  found_kept :
      (e : String) (o : Option A) (s : State D) (k : A → M D B)
      → f s.tables ≡ o
      → P s.tables
      → ((a : A) → Keeps Q (k a))
      → P (continue (found e o s) k).1.tables
  unfolding found
  found_kept e none s k h p l = p
  found_kept e (some a) s k h p l = back (k a s).1.tables ((l a).kept s (into s.tables a p h))

  known_kept :
      (fs : List Bool) (e : String) (d : D) (k : A → M D B)
      → P d
      → ((a : A) → Keeps Q (k a))
      → P (continue (continue (ask_with fs e f d) (found e)) k).1.tables
  known_kept [] e d k p l = found_kept e (f d) (record { faults = []; tables = d }) k refl p l
  known_kept (true ∷ fs) e d k p l = p
  known_kept (false ∷ fs) e d k p l =
      found_kept e (f d) (record { faults = fs; tables = d }) k refl p l

  -- The rest of a handler may rely on what its first query has found.
  pub Keeps-first_known :
      (e : String) {k : A → M D B} → ((a : A) → Keeps Q (k a)) → Keeps P (first e f >>= k)
  unfolding first ask
  Keeps-first_known e {k} l = record { kept = λ s p. known_kept s.faults e s.tables k p l }
