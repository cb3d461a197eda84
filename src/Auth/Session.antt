-- ===== src/Auth/Session.antt =====
-- The sessions that Login of internal/handler/auth.go opens, and what AuthProtected makes of their
-- tokens.
use crater_backend.Prelude.{
  ℕ, ◌+◌, ◌*◌, ◌≡◌, refl, sym, subst, true, some, [], String, ◌==◌, nat_eq, nat_beq_iff, string_eq,
  ltb, Bool-cases, Option-cases, inl, inr, arith,
}
use crater_backend.Server.{
  caught, State, Result, ok, err, require, first, ask, found, pure, continue, attempt,
}
use crater_backend.Directory.{
  Directory, User, Account, UserAccount, find_user, find_account, find_membership, last_membership,
}
use crater_backend.Directory.Lookup.{NoDouble, find_user-id, find_account-id, membership-last}
use crater_backend.Token.{
  Jwt, TokenManager, JwtMessage, Request, auth_token, create_tokens, check_token, check_roles,
  checked_token, auth_protected,
}
use crater_backend.Server.Passed.{require_passed, first_passed}
use crater_backend.Token.Claims.{check-create_tokens}
use crater_backend.Auth.{LoginResp}
use crater_backend.Auth.Tokens.{respond, open_session, login_message, public_access_mode}
use crater_backend.Model.Roles.{default_account_id, access_mode_na, status_active}

-- What a session is made of: the last membership of the user, its account and a pair of tokens.
pub record IsSession (jwt : Jwt) (tm : TokenManager) (now : ℕ) (d : Directory) (u : User)
    (resp : LoginResp) : Type 0 where
  pub member : UserAccount
  pub account : Account
  pub public : ℕ
  pub active : u.status ≡ status_active
  pub joined : last_membership u.id d.user_accounts ≡ some member
  pub found_account : find_account member.account_id d.accounts ≡ some account
  pub tokens :
      create_tokens jwt tm now (login_message u account member public)
      ≡ some (resp.access_token, resp.refresh_token)

caught_effect :
    {B : Type 0} (r : Result UserAccount × State Directory)
    (k : ℕ → State Directory → Result B × State Directory) {b : B} {t : State Directory}
    → continue
        (continue
          (caught r)
          (λ r. elim r [ ok m ↦ pure m.access_mode | err _ ↦ pure access_mode_na ]))
        k
      ≡ (ok b, t)
    → (public : ℕ) × (k public r.1 ≡ (ok b, t))
unfolding pure
caught_effect (ok m, s) k h = (m.access_mode, h)
caught_effect (err e, s) k h = (access_mode_na, h)

-- The query of the public account never ends a login.
public_effect :
    {B : Type 0} (user : ℕ) (s : State Directory)
    (k : ℕ → State Directory → Result B × State Directory) {b : B} {t : State Directory}
    → continue (public_access_mode user s) k ≡ (ok b, t)
    → (public : ℕ) × (s' : State Directory) × (k public s' ≡ (ok b, t))
unfolding public_access_mode attempt
public_effect user s k h =
    let r = first "" (λ d. find_membership user default_account_id d.user_accounts) s in
    let (public, g) = caught_effect r k h in (public, r.1, g)

module _ (jwt : Jwt) (tm : TokenManager) (now : ℕ) (u : User) where
  -- Of tokens that were signed, the rest of the session.
  respond_effect :
      (a : Account) (m : UserAccount) (public : ℕ) (s : State Directory) {resp : LoginResp}
      {t : State Directory}
      → respond jwt tm now u a m public s ≡ (ok resp, t)
      → create_tokens jwt tm now (login_message u a m public)
        ≡ some (resp.access_token, resp.refresh_token)
  unfolding respond found pure
  respond_effect a m public s h =
      elim (Option-cases (create_tokens jwt tm now (login_message u a m public))) [
        | inl e ↦ absurd (ground arith)
        | inr ((access, refresh), e) ↦ ground arith
      ]

  open_session_effect :
      (s : State Directory) {resp : LoginResp} {t : State Directory}
      → open_session jwt tm now u s ≡ (ok resp, t)
      → IsSession jwt tm now s.tables u resp
  unfolding open_session
  open_session_effect s h =
      let (active, h1) = require_passed _ (u.status == status_active) s _ h in
      let (m, s2, joined, t2, h2) =
        first_passed _ (λ d. last_membership u.id d.user_accounts) s _ h1 in
      let (a, s3, there, t3, h3) =
        first_passed _ (λ d. find_account m.account_id d.accounts) s2 _ h2 in
      let (public, s4, h4) = public_effect u.id s3 (respond jwt tm now u a m) h3 in
      record {
        member = m;
        account = a;
        public = public;
        active = ground arith;
        joined = joined;
        found_account = subst (λ d. find_account m.account_id d.accounts ≡ some a) t2 there;
        tokens = respond_effect a m public s4 h4;
      }

-- The roles of a session, checked against the tables of its login.
check_roles-session :
    (u row : User) (a : Account) (m : UserAccount) (public : ℕ) (d : Directory)
    → find_user u.id d.users ≡ some row
    → row.id ≡ u.id
    → row.role ≡ u.role
    → find_membership u.id a.id d.user_accounts ≡ some m
    → (check_roles (login_message u a m public) (record { faults = []; tables = d })).0 ≡ ok tt
unfolding check_roles require first ask found login_message
check_roles-session u row a m public d known same role joined = ground (
  arith,
  known,
  joined,
  nat_beq_iff row.role u.role,
  nat_beq_iff m.role m.role,
  nat_beq_iff m.access_mode m.access_mode,
)

checked_open :
    (r : Result (Unit {0}) × State Directory) (msg : JwtMessage)
    → r.0 ≡ ok tt
    → (continue r (λ _. pure msg)).0 ≡ ok msg
unfolding pure
checked_open (ok tt, s) msg h = refl
checked_open (err e, s) msg h = absurd (ground arith)

module _ (jwt : Jwt) (tm : TokenManager) (later : ℕ) (req : Request) (t : String) (msg : JwtMessage)
    (s : State Directory) where
  checked_token-open : (check_roles msg s).0 ≡ ok tt → (checked_token req msg s).0 ≡ ok msg
  unfolding checked_token pure
  checked_token-open e = elim (Bool-cases (req.method == "GET")) [
    | inl g ↦ rw g refl
    | inr g ↦ rw g (checked_open (check_roles msg s) msg e)
  ]

  -- A request with a token of known roles is let through.
  auth_protected-open :
      auth_token req ≡ some t
      → check_token jwt tm later t ≡ some msg
      → (check_roles msg s).0 ≡ ok tt
      → (auth_protected jwt tm later req s).0 ≡ ok msg
  unfolding auth_protected found
  auth_protected-open h g e = rw (h, g) (checked_token-open e)

module _ (jwt : Jwt) (tm : TokenManager) (now later : ℕ) (u : User) (s : State Directory)
    (req : Request) where
  session_let_through :
      {row : User} {resp : LoginResp}
      → IsSession jwt tm now s.tables u resp
      → find_user u.id s.tables.users ≡ some row
      → row.role ≡ u.role
      → NoDouble s.tables.user_accounts
      → auth_token req ≡ some resp.access_token
      → ltb later (now + tm.access_token_ttl * 3600) ≡ true
      → (token : JwtMessage) × ((auth_protected jwt tm later req
            (record { faults = []; tables = s.tables })).0
          ≡ ok token)
        × (token.user_id ≡ u.id)
        × (token.role_platform ≡ u.role)
  unfolding login_message
  session_let_through {row} o known role n h time =
      let msg = login_message u o.account o.member o.public in
      let (read, later_read) = check-create_tokens jwt tm now later msg o.tokens in
      let same = find_account-id o.member.account_id s.tables.accounts o.found_account in
      let joined = membership-last u.id s.tables.user_accounts n o.joined in
      (
        msg,
        auth_protected-open jwt tm later req _ msg _ h (rw time at read) (
            check_roles-session u row o.account o.member o.public s.tables known
              (find_user-id u.id s.tables.users known) role
              (subst (λ id. find_membership u.id id s.tables.user_accounts ≡ some o.member)
                (sym same) joined)),
        refl,
        refl,
      )

  -- If no two memberships are of the same user in the same account, a session that Login opens for a
  -- user of the database can be used: until the hours of the access token are over, AuthProtected lets
  -- every request with it through while the tables stay as they are, and hands on the id and the
  -- platform role of the user.
  pub open_session-auth_protected :
      {row : User} {resp : LoginResp} {t : State Directory}
      → open_session jwt tm now u s ≡ (ok resp, t)
      → find_user u.id s.tables.users ≡ some row
      → row.role ≡ u.role
      → NoDouble s.tables.user_accounts
      → auth_token req ≡ some resp.access_token
      → ltb later (now + tm.access_token_ttl * 3600) ≡ true
      → (token : JwtMessage) × ((auth_protected jwt tm later req
            (record { faults = []; tables = s.tables })).0
          ≡ ok token)
        × (token.user_id ≡ u.id)
        × (token.role_platform ≡ u.role)
  open_session-auth_protected h = session_let_through (open_session_effect jwt tm now u s h)
