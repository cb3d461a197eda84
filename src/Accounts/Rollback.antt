-- ===== src/Accounts/Rollback.antt =====
-- What a request of internal/handler/account.go that fails leaves of the rows.
use crater_backend.Prelude.{
  ℕ, ◌≡◌, ◌⊎◌, refl, sym, ap, subst, Bool, true, false, not, List, [], ◌∷◌, String,
}
use crater_backend.Server.{State, M, err, continue, require, ask, ask_with, transaction}
use crater_backend.Server.Passed.{transaction_failed}
use crater_backend.Directory.{Directory}
use crater_backend.Token.{JwtMessage}
use crater_backend.Accounts.{Site, AccountReq, is_empty, restore}
use crater_backend.Accounts.Leftover.{OneMore, create-Left}
use crater_backend.Accounts.Manage.{
  members, build_account, create_account, remove_account, delete_account,
}

-- The same users, accounts and memberships.
pub SameRows : Directory → Directory → Type 0
SameRows d d' =
    (d'.users ≡ d.users) × (d'.accounts ≡ d.accounts) × (d'.user_accounts ≡ d.user_accounts)

rolled_back :
    {A : Type 0} (e : String) (m : M Site A) (s : State Site) {x : String} {t : State Site}
    → transaction restore e m s ≡ (err x, t)
    → SameRows s.tables.directory t.tables.directory
unfolding SameRows
rolled_back e m s h =
    let (new, same) = transaction_failed restore e m s h in
    (
      ap (λ w. w.directory.users) same,
      ap (λ w. w.directory.accounts) same,
      ap (λ w. w.directory.user_accounts) same,
    )

checked_first :
    {A : Type 0} (c : Bool) (e : String) (m : M Site A) (s : State Site) {x : String}
    {t : State Site}
    → ((y : String) → m s ≡ (err y, t) → SameRows s.tables.directory t.tables.directory)
    → continue (require e c s) (λ _. m) ≡ (err x, t)
    → SameRows s.tables.directory t.tables.directory
unfolding require SameRows
checked_first true e m s {x} f h = f x h
checked_first false e m s f h =
    let same = ap (λ r. r.1.tables.directory) h in
    (
      ap (λ d. d.users) (sym same),
      ap (λ d. d.accounts) (sym same),
      ap (λ d. d.user_accounts) (sym same),
    )

-- A first query that reads, and then the rest of a request.
asked_first :
    {A B : Type 0} (fs : List Bool) (e : String) (f : Site → A) (w : Site) (k : A → M Site B)
    {x : String} {t : State Site}
    → ((a : A) (s : State Site) (y : String)
        → s.tables ≡ w
        → k a s ≡ (err y, t)
        → SameRows w.directory t.tables.directory)
    → continue (ask_with fs e f w) k ≡ (err x, t)
    → SameRows w.directory t.tables.directory
unfolding SameRows
asked_first [] e f w k {x} rest h = rest (f w) (record { faults = []; tables = w }) x refl h
asked_first (false ∷ fs) e f w k {x} rest h =
    rest (f w) (record { faults = fs; tables = w }) x refl h
asked_first (true ∷ fs) e f w k rest h =
    let same = ap (λ r. r.1.tables.directory) h in
    (
      ap (λ d. d.users) (sym same),
      ap (λ d. d.accounts) (sym same),
      ap (λ d. d.user_accounts) (sym same),
    )

failed-SameRows :
    (token : JwtMessage) (req : AccountReq) (s : State Site) {x : String} {t : State Site}
    → create_account token req s ≡ (err x, t)
    → SameRows s.tables.directory t.tables.directory
unfolding create_account
failed-SameRows token req s h =
    checked_first (not (is_empty req.admins)) _
      (transaction restore "commit failed" (build_account token req)) s
      (λ y. rolled_back "commit failed" (build_account token req) s) h

-- A request for a new account that ends with an error leaves the users, the accounts and the
-- memberships as they were. It leaves the queues of Volcano as they were too, unless it is the commit
-- that fails; then a queue that was made for the caller with the quota of the request may be left.
pub create_account-failed :
    (token : JwtMessage) (req : AccountReq) (s : State Site) {x : String} {t : State Site}
    → create_account token req s ≡ (err x, t)
    → SameRows s.tables.directory t.tables.directory
      × ((t.tables.queues ≡ s.tables.queues)
          ⊎ ((x ≡ "commit failed") × OneMore token req s.tables.queues t.tables.queues))
create_account-failed token req s h =
    (failed-SameRows token req s h, create-Left token req s.tables.queues s refl h)

-- A request to delete an account that ends with an error leaves the users, the accounts and the
-- memberships as they were.
pub delete_account-failed :
    (id : ℕ) (s : State Site) {x : String} {t : State Site}
    → delete_account id s ≡ (err x, t)
    → SameRows s.tables.directory t.tables.directory
unfolding delete_account ask
delete_account-failed id s {t = t} h =
    asked_first s.faults "query failed" (λ w. members id w.directory.user_accounts) s.tables _
      (λ ms s' y same g.
        subst (λ w. SameRows w.directory t.tables.directory) same
          (checked_first (is_empty ms) "Still have members"
            (transaction restore "commit failed" (remove_account id)) s'
            (λ y. rolled_back "commit failed" (remove_account id) s') g))
      h
