-- ===== src/Token.antt =====
-- internal/util/token.go and internal/middleware/jwt.go: the tokens that say who a request is from, and
-- the middleware that checks them. The JWT library is an interface: signing may fail, and parsing is
-- at a time in seconds, the precision of its dates. A role is a number of 8 bits.
pub mod Claims
pub mod Protected
use crater_backend.Prelude.{
  ℕ, ◌+◌, ◌*◌, ◌≡◌, Bool, true, false, not, ◌&&◌, ◌||◌, Option, none, some, List, [], ◌∷◌, String,
  if◌then◌else◌, ◌==◌, nat_eq, string_eq, ltb, contains,
}
use crater_backend.Server.{M, Result, ok, err, pure, refuse, require, first, found, ◌>>=◌, ◌>>◌}
use crater_backend.Directory.{Directory, User, UserAccount, find_user, find_membership}
use crater_backend.Model.Roles.{role_admin}

-- JWTClaims, with the date of RegisteredClaims.
pub record JwtClaims : Type 0 where
  pub user_id : ℕ
  pub queue_id : ℕ
  pub username : String
  pub queue_name : String
  pub role_queue : ℕ
  pub role_platform : ℕ
  pub access_mode : ℕ
  pub public_access_mode : ℕ
  pub expires_at : ℕ

-- JWTMessage
pub record JwtMessage : Type 0 where
  pub user_id : ℕ
  pub account_id : ℕ
  pub username : String
  pub account_name : String
  pub role_account : ℕ
  pub account_access_mode : ℕ
  pub public_access_mode : ℕ
  pub role_platform : ℕ

-- golang-jwt with the method HS256: `sign` with a key may fail, and `parse` at a time fails for a token
-- with a wrong signature or with claims that have expired.
pub record Jwt : Type 0 where
  pub sign : String → JwtClaims → Option String
  pub parse : ℕ → String → String → Option JwtClaims
  pub parse_sign :
      (now : ℕ) (key : String) (c : JwtClaims) {t : String}
      → sign key c ≡ some t
      → parse now key t ≡ (if ltb now c.expires_at then some c else none)

pub record TokenManager : Type 0 where
  pub secret_key : String
  pub access_token_ttl : ℕ
  pub refresh_token_ttl : ℕ

unfoldable pub claims_of : JwtMessage → ℕ → JwtClaims
claims_of msg expires_at = record {
  user_id = msg.user_id;
  queue_id = msg.account_id;
  username = msg.username;
  queue_name = msg.account_name;
  role_queue = msg.role_account;
  role_platform = msg.role_platform;
  access_mode = msg.account_access_mode;
  public_access_mode = msg.public_access_mode;
  expires_at = expires_at;
}

unfoldable pub message_of : JwtClaims → JwtMessage
message_of c = record {
  user_id = c.user_id;
  account_id = c.queue_id;
  username = c.username;
  account_name = c.queue_name;
  role_account = c.role_queue;
  account_access_mode = c.access_mode;
  public_access_mode = c.public_access_mode;
  role_platform = c.role_platform;
}

-- A request as AuthProtected reads it: `auth_header` is the header split at its blanks.
pub record Request : Type 0 where
  pub is_websocket : Bool
  pub query_token : String
  pub auth_header : List String
  pub method : String

-- The token in a header, which must be `Bearer` and the token.
unfoldable pub bearer : List String → Option String
bearer [] = none
bearer (kind ∷ []) = none
bearer (kind ∷ token ∷ rest) = if kind == "Bearer" then some token else none

unfoldable pub auth_token : Request → Option String
unfolding bearer
auth_token req = if req.is_websocket then some req.query_token else bearer req.auth_header

-- The check of a token against the database, which requests other than GET have.
unfoldable pub check_roles : JwtMessage → M Directory (Unit {0})
check_roles token = do
  user ← first "User not found" (λ d. find_user token.user_id d.users)
  require "Platform token not match" (user.role == token.role_platform)
  member ←
      first "UserQueue not found" (λ d. find_membership user.id token.account_id d.user_accounts)
  require "Queue role not match"
      (member.role == token.role_account && member.access_mode == token.account_access_mode)

unfoldable pub checked_token : Request → JwtMessage → M Directory JwtMessage
checked_token req token =
    if req.method == "GET" then pure token else (check_roles token >> pure token)

module _ (jwt : Jwt) (tm : TokenManager) where
  unfoldable pub create_token : ℕ → JwtMessage → ℕ → Option String
  unfolding claims_of
  create_token now msg ttl = jwt.sign tm.secret_key (claims_of msg (now + ttl * 3600))

  -- The access token and the refresh token.
  unfoldable pub create_tokens : ℕ → JwtMessage → Option (String × String)
  unfolding create_token
  create_tokens now msg = elim (create_token now msg tm.access_token_ttl) [
    | none ↦ none
    | some access ↦ elim (create_token now msg tm.refresh_token_ttl) [
      | none ↦ none
      | some refresh ↦ some (access, refresh)
    ]
  ]

  abbrev pub message_if : Option JwtClaims → Option JwtMessage
  message_if none = none
  message_if (some c) = some (message_of c)

  unfoldable pub check_token : ℕ → String → Option JwtMessage
  unfolding message_of
  check_token now t = message_if (jwt.parse now tm.secret_key t)

  -- AuthProtected: the message that it hands on, or the error with which it ends the request.
  unfoldable pub auth_protected : ℕ → Request → M Directory JwtMessage
  unfolding auth_token check_token checked_token
  auth_protected now req = do
    t ← found "Invalid token" (auth_token req)
    token ← found "token is malformed or expired" (check_token now t)
    checked_token req token

-- AuthAdmin
unfoldable pub auth_admin : JwtMessage → M Directory (Unit {0})
auth_admin token = require "Not Admin" (token.role_platform == role_admin)
