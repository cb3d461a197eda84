-- ===== src/Token/Protected.antt =====
-- What AuthProtected of internal/middleware/jwt.go establishes of the requests that it lets through.
use crater_backend.Prelude.{
  ℕ, ◌≡◌, refl, subst, false, some, ◌==◌, nat_eq, string_eq, Option-cases, inl, inr, arith,
}
use crater_backend.Server.{State, Result, ok, err, require, first, ask, found, pure, continue}
use crater_backend.Directory.{Directory, User, UserAccount, find_user, find_membership}
use crater_backend.Token.{
  Jwt, TokenManager, JwtMessage, Request, auth_token, check_token, check_roles, checked_token,
  auth_protected,
}

-- The database has the user of the token with the role that the token says, and so for the account.
pub record IsCurrent (d : Directory) (token : JwtMessage) : Type 0 where
  pub user : User
  pub member : UserAccount
  pub known : find_user token.user_id d.users ≡ some user
  pub role_platform : user.role ≡ token.role_platform
  pub joined : find_membership user.id token.account_id d.user_accounts ≡ some member
  pub role_account : member.role ≡ token.role_account
  pub access_mode : member.access_mode ≡ token.account_access_mode

module _ (token : JwtMessage) (s : State Directory) where
  check_roles-IsCurrent : (check_roles token s).0 ≡ ok tt → IsCurrent s.tables token
  unfolding check_roles require first ask found
  check_roles-IsCurrent h = elim (Option-cases (find_user token.user_id s.tables.users)) [
    | inl e ↦ absurd (ground arith)
    | inr (u, e) ↦
        elim (Option-cases (find_membership u.id token.account_id s.tables.user_accounts)) [
          | inl f ↦ absurd (ground arith)
          | inr (m, f) ↦ record {
            user = u;
            member = m;
            known = e;
            role_platform = ground arith;
            joined = f;
            role_account = ground arith;
            access_mode = ground arith;
          }
        ]
  ]

passed :
    (r : Result (Unit {0}) × State Directory) (t : JwtMessage) {token : JwtMessage}
    → (continue r (λ _. pure t)).0 ≡ ok token
    → (t ≡ token) × (r.0 ≡ ok tt)
unfolding pure
passed (ok tt, s) t h = (ground arith, refl)
passed (err e, s) t h = cc

module _ (jwt : Jwt) (tm : TokenManager) (now : ℕ) (req : Request) (s : State Directory)
    {token : JwtMessage} where
  checked_effect :
      (t : JwtMessage)
      → (req.method == "GET") ≡ false
      → (checked_token req t s).0 ≡ ok token
      → (check_roles token s).0 ≡ ok tt
  unfolding checked_token
  checked_effect t h g =
      let (same, roles) = passed (check_roles t s) t (rw h at g) in
      subst (λ t. (check_roles t s).0 ≡ ok tt) same roles

  protected_effect :
      (req.method == "GET") ≡ false
      → (auth_protected jwt tm now req s).0 ≡ ok token
      → (check_roles token s).0 ≡ ok tt
  unfolding auth_protected found
  protected_effect h g = elim (Option-cases (auth_token req)) [
    | inl e ↦ absurd (ground arith)
    | inr (t, e) ↦ elim (Option-cases (check_token jwt tm now t)) [
      | inl f ↦ absurd (ground arith)
      | inr (m, f) ↦ checked_effect m h (rw (e, found, f, found) at g)
    ]
  ]

  -- A request other than GET that AuthProtected lets through is one of a user whom the database has,
  -- with the platform role of the token, and with the role and the access mode of the token in the
  -- account of the token.
  pub auth_protected-IsCurrent :
      (req.method == "GET") ≡ false
      → (auth_protected jwt tm now req s).0 ≡ ok token
      → IsCurrent s.tables token
  auth_protected-IsCurrent h g = check_roles-IsCurrent token s (protected_effect h g)
