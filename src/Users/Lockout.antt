-- ===== src/Users/Lockout.antt =====
-- What a user can still do after a change by an administrator in internal/handler/user.go.
use crater_backend.Prelude.{
  ℕ, ◌≡◌, sym, ap, ◌∙◌, subst, false, not, ◌&&◌, ◌||◌, Option, some, List, [], ◌∷◌, String, ◌==◌,
  nat_eq, string_eq, ltb, Bool-cases, inl, inr, arith,
}
use crater_backend.Server.{State, ok}
use crater_backend.Server.Passed.{require_passed, write_ended}
use crater_backend.Directory.{Directory, User, find_user}
use crater_backend.Token.{Jwt, TokenManager, JwtMessage, Request, auth_protected}
use crater_backend.Token.Protected.{auth_protected-IsCurrent}
use crater_backend.Users.{change_named, on_users, mark_deleted, with_role, delete_user, update_role}

-- No row of the name is found once it is deleted.
find-deleted :
    (name : String) (id : ℕ) (us : List User) {u : User}
    → find_user id (change_named mark_deleted name us) ≡ some u
    → (u.name == name) ≡ false
unfolding change_named
find-deleted name id [] {u} h = absurd (ground arith)
find-deleted name id (x ∷ us) {u} h = elim (Bool-cases (x.name == name && not x.deleted)) [
  | inl e ↦ find-deleted name id us {u = u} (ground arith)
  | inr e ↦ elim (Bool-cases (x.id == id && not x.deleted)) [
    | inl f ↦
        let it : x ≡ u = ground arith in subst (λ u. (u.name == name) ≡ false) it (ground arith)
    | inr f ↦ find-deleted name id us {u = u} (ground arith)
  ]
]

-- A row of the name has the new role.
find-role :
    (name : String) (role id : ℕ) (us : List User) {u : User}
    → find_user id (change_named (with_role role) name us) ≡ some u
    → u.name ≡ name
    → u.role ≡ role
unfolding change_named
find-role name role id [] {u} h g = absurd (ground arith)
find-role name role id (x ∷ us) {u} h g = elim (Bool-cases (x.name == name && not x.deleted)) [
  | inl e ↦ elim (Bool-cases (x.id == id && not x.deleted)) [
    | inl f ↦ let it : with_role role x ≡ u = ground arith in ap (λ u. u.role) (sym it)
    | inr f ↦ find-role name role id us {u = u} (ground arith) g
  ]
  | inr e ↦ elim (Bool-cases (x.id == id && not x.deleted)) [
    | inl f ↦
        let it : x ≡ u = ground arith in
        let same : x.name ≡ name = ap (λ u. u.name) it ∙ g in
        absurd (ground (arith, string_eq.beq_iff x.name name))
    | inr f ↦ find-role name role id us {u = u} (ground arith) g
  ]
]

abbrev after : State Directory → State Directory
after t = record { faults = []; tables = t.tables }

module _ (jwt : Jwt) (tm : TokenManager) (now : ℕ) (http : Request) (name : String)
    (s : State Directory) {token : JwtMessage} {t : State Directory} where
  -- Once a user has been deleted, AuthProtected lets a request other than GET through only if the user
  -- of the token, as the database has it, has another name.
  pub delete_user-locked_out :
      delete_user name s ≡ (ok tt, t)
      → (http.method == "GET") ≡ false
      → (auth_protected jwt tm now http (after t)).0 ≡ ok token
      → (u : User) × (find_user token.user_id t.tables.users ≡ some u) × ((u.name == name) ≡ false)
  unfolding delete_user
  delete_user-locked_out h method passed =
      let users =
        ap (λ d. d.users) (write_ended _ (on_users (change_named mark_deleted name)) s h) in
      let o = auth_protected-IsCurrent jwt tm now http (after t) method passed in
      (
        o.user,
        o.known,
        find-deleted name token.user_id s.tables.users {u = o.user}
            (subst (λ us. find_user token.user_id us ≡ some o.user) users o.known),
      )

  -- Once the role of a user has been changed, AuthProtected lets a request other than GET with a token
  -- of the user through only if the token says the new role.
  pub update_role-revokes :
      (role : ℕ) {u : User}
      → update_role name role s ≡ (ok tt, t)
      → find_user token.user_id t.tables.users ≡ some u
      → u.name ≡ name
      → (http.method == "GET") ≡ false
      → (auth_protected jwt tm now http (after t)).0 ≡ ok token
      → token.role_platform ≡ role
  unfolding update_role
  update_role-revokes role {u} h known named method passed =
      let (_, h1) = require_passed _ (not (ltb role 1 || ltb 3 role)) s _ h in
      let users =
        ap (λ d. d.users) (write_ended _ (on_users (change_named (with_role role) name)) s h1) in
      let o = auth_protected-IsCurrent jwt tm now http (after t) method passed in
      let same : o.user ≡ u = is_same (sym o.known ∙ known) in
      sym o.role_platform
      ∙ ap (λ u. u.role) same
      ∙ find-role name role token.user_id s.tables.users {u = u}
          (subst (λ us. find_user token.user_id us ≡ some u) users known) named
    where
      is_same : {x y : User} → Path (Option User) (some x) (some y) → x ≡ y
      is_same e = ground arith
