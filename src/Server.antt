-- ===== src/Server.antt =====
-- The handlers of internal/handler: chains of queries, each of which may fail, that end with an answer.
-- The tables that a handler works on are a record of any type; `faults` says of each query to come
-- whether it fails, and a list that is used up lets all others succeed. An error answer is its
-- message, without the details that the code appends.
pub mod Keeps
pub mod Passed
use crater_backend.Prelude.{Bool, true, false, Option, none, some, List, [], ◌∷◌, String}

pub record State (D : Type 0) : Type 0 where
  pub faults : List Bool
  pub tables : D

pub data Result (A : Type 0) : Type 0 where
  ok : A → Result A
  err : String → Result A

abbrev pub M : Type 0 → Type 0 → Type 0
M D A = State D → Result A × State D

module _ {D : Type 0} where
  unfoldable pub pure : {A : Type 0} → A → M D A
  pure a s = (ok a, s)

  -- An error answer, after which the handler returns.
  unfoldable pub refuse : {A : Type 0} → String → M D A
  refuse e s = (err e, s)

  abbrev pub continue : {A B : Type 0} → Result A × State D → (A → M D B) → Result B × State D
  continue (ok a, s) f = f a s
  continue (err e, s) f = (err e, s)

  infixl 5 ◌>>=◌ ◌>>◌
  abbrev pub ◌>>=◌ : {A B : Type 0} → M D A → (A → M D B) → M D B
  ◌>>=◌ m f s = continue (m s) f

  abbrev pub ◌>>◌ : {B : Type 0} → M D (Unit {0}) → M D B → M D B
  m >> k = m >>= λ _. k

  unfoldable pub require : String → Bool → M D (Unit {0})
  require e true s = (ok tt, s)
  require e false s = (err e, s)

  unfoldable pub when : Bool → M D (Unit {0}) → M D (Unit {0})
  unfolding pure
  when true m = m
  when false m = pure tt

  -- A query that reads, or fails with the answer.
  abbrev pub ask_with : {A : Type 0} → List Bool → String → (D → A) → D → Result A × State D
  ask_with [] e f d = (ok (f d), record { faults = []; tables = d })
  ask_with (true ∷ rest) e f d = (err e, record { faults = rest; tables = d })
  ask_with (false ∷ rest) e f d = (ok (f d), record { faults = rest; tables = d })

  unfoldable pub ask : {A : Type 0} → String → (D → A) → M D A
  ask e f s = ask_with s.faults e f s.tables

  unfoldable pub found : {A : Type 0} → String → Option A → M D A
  found e none s = (err e, s)
  found e (some a) s = (ok a, s)

  -- `First`: a row that is not there is an error, and has the same answer.
  unfoldable pub first : {A : Type 0} → String → (D → Option A) → M D A
  unfolding ask found
  first e f = ask e f >>= found e

  abbrev pub write_with : List Bool → String → (D → D) → D → Result (Unit {0}) × State D
  write_with [] e f d = (ok tt, record { faults = []; tables = f d })
  write_with (true ∷ rest) e f d = (err e, record { faults = rest; tables = d })
  write_with (false ∷ rest) e f d = (ok tt, record { faults = rest; tables = f d })

  -- A query that writes, or fails and changes nothing.
  unfoldable pub write : String → (D → D) → M D (Unit {0})
  write e f s = write_with s.faults e f s.tables

  abbrev pub changed : {A : Type 0} → List Bool → String → D → Option (A × D) → Result A × State D
  changed rest e d none = (err e, record { faults = rest; tables = d })
  changed rest e d (some (a, d')) = (ok a, record { faults = rest; tables = d' })

  abbrev pub change_with :
      {A : Type 0} → List Bool → String → (D → Option (A × D)) → D → Result A × State D
  change_with [] e f d = changed [] e d (f d)
  change_with (true ∷ rest) e f d = (err e, record { faults = rest; tables = d })
  change_with (false ∷ rest) e f d = changed rest e d (f d)

  -- A query that writes and may also be refused by the database, such as for a unique index.
  unfoldable pub change : {A : Type 0} → String → (D → Option (A × D)) → M D A
  change e f s = change_with s.faults e f s.tables

  -- An error that the code looks at, or does not look at, and goes on.
  abbrev pub caught : {A : Type 0} → Result A × State D → Result (Result A) × State D
  caught (r, s) = (ok r, s)

  unfoldable pub attempt : {A : Type 0} → M D A → M D (Result A)
  attempt m s = caught (m s)

  -- An error goes back to the tables of the start, and the commit is a query itself. `restore` says
  -- what of the new tables is not in the database and stays, from the old ones and the new ones.
  abbrev pub settle : {A : Type 0} → (D → D → D) → D → Result A × State D → Result A × State D
  settle restore old (ok a, s) = (ok a, s)
  settle restore old (err e, s) = (err e, record s { tables = restore old s.tables })

  unfoldable pub transaction : {A : Type 0} → (D → D → D) → String → M D A → M D A
  unfolding write pure
  transaction restore e m s =
      settle restore s.tables (continue (m s) (λ a. write e (λ d. d) >> pure a))
