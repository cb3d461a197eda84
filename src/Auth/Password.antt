-- ===== src/Auth/Password.antt =====
-- What a login by a password in internal/handler/auth.go has checked.
use crater_backend.Prelude.{
  ℕ, ◌≡◌, sym, ap, ◌∙◌, subst, Bool, true, some, String, nat_eq, string_eq,
}
use crater_backend.Server.{State, ok}
use crater_backend.Server.Passed.{
  pure_passed, require_ended, part_passed, require_passed, first_passed, found_passed,
}
use crater_backend.Directory.{Directory, User, UserAttribute, find_user_named}
use crater_backend.Token.{Jwt, TokenManager}
use crater_backend.Auth.{Outside, LoginReq, LoginResp, normal_auth, name_and_password, authenticate}
use crater_backend.Auth.Entry.{login}

-- The user of the request has a stored hash, and the password of the request matches it.
pub record HasPassword (out : Outside) (req : LoginReq) (d : Directory) : Type 0 where
  pub username : String
  pub password : String
  pub user : User
  pub hash : String
  pub given : req.username ≡ some username
  pub typed : req.password ≡ some password
  pub label : out.is_dns_label username ≡ true
  pub named : find_user_named username d.users ≡ some user
  pub stored : user.password ≡ some hash
  pub matches : out.matches hash password ≡ true

module _ (out : Outside) (s : State Directory) where
  normal_auth_effect :
      (username password : String) {t : State Directory}
      → normal_auth out username password s ≡ (ok tt, t)
      → (u : User) × (hash : String) × (find_user_named username s.tables.users ≡ some u)
        × (u.password ≡ some hash)
        × (out.matches hash password ≡ true)
  unfolding normal_auth
  normal_auth_effect username password {t} h =
      let (u, s1, named, _, h1) = first_passed _ (λ d. find_user_named username d.users) s _ h in
      let (hash, stored, h2) = found_passed _ u.password s1 _ h1 in
      let good = require_ended _ (out.matches hash password) s1 h2 in (u, hash, named, stored, good)

  name_and_password_effect :
      (req : LoginReq) {a : String × String} {t : State Directory}
      → name_and_password out req s ≡ (ok a, t)
      → (req.username ≡ some a.0)
        × (req.password ≡ some a.1)
        × (out.is_dns_label a.0 ≡ true)
        × (t ≡ s)
  unfolding name_and_password
  name_and_password_effect req {a} {t} h =
      let (username, given, h1) = found_passed _ req.username s _ h in
      let (password, typed, h2) = found_passed _ req.password s _ h1 in
      let (label, h3) = require_passed _ (out.is_dns_label username) s _ h2 in
      let (pair, same) = pure_passed (username, password) s h3 in
      (
        given ∙ ap (λ p. some p.0) pair,
        typed ∙ ap (λ p. some p.1) pair,
        rw (sym (ap (λ p. p.0) pair)) label,
        sym same,
      )

  both :
      (req : LoginReq) (np : String × String) {s1 s2 : State Directory}
      → name_and_password out req s ≡ (ok np, s1)
      → normal_auth out np.0 np.1 s1 ≡ (ok tt, s2)
      → HasPassword out req s.tables
  both req np {s2 = s2} g passed =
      let (given, typed, label, same) = name_and_password_effect req g in
      let (u, hash, named, stored, good) =
        normal_auth_effect np.0 np.1
          (subst (λ s1. normal_auth out np.0 np.1 s1 ≡ (ok tt, s2)) same passed) in
      record {
        username = np.0;
        password = np.1;
        user = u;
        hash = hash;
        given = given;
        typed = typed;
        label = label;
        named = named;
        stored = stored;
        matches = good;
      }

  authenticate_effect :
      (req : LoginReq) {a : UserAttribute × Bool} {t : State Directory}
      → req.auth_method ≡ "normal"
      → authenticate out req s ≡ (ok a, t)
      → HasPassword out req s.tables
  unfolding authenticate
  authenticate_effect req method h =
      let (np, s1, g, h1) = part_passed (name_and_password out req s) _ (rw method at h) in
      let (_, s2, passed, _) = part_passed (normal_auth out np.0 np.1 s1) _ h1 in
      both req np g passed

  -- A login by the method `normal` that ends without an error has found a user of the name in the
  -- request that is not deleted and has a stored hash, and the password of the request matches the hash.
  pub login-HasPassword :
      (jwt : Jwt) (tm : TokenManager) (now : ℕ) (req : LoginReq) {resp : LoginResp}
      {t : State Directory}
      → req.auth_method ≡ "normal"
      → login out jwt tm now req s ≡ (ok resp, t)
      → HasPassword out req s.tables
  unfolding login
  login-HasPassword jwt tm now req method h =
      let (a, s1, g, _) = part_passed (authenticate out req s) _ h in
      authenticate_effect req method g
