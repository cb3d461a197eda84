-- ===== src/Auth/Tokens.antt =====
-- The tokens that internal/handler/auth.go hands out, and the check of a token that it answers.
use crater_backend.Prelude.{
  ℕ, Bool, not, Option, none, some, List, String, if◌then◌else◌, ◌==◌, nat_eq, string_eq,
}
use crater_backend.Server.{
  M, Result, ok, err, pure, refuse, require, first, found, attempt, ◌>>=◌, ◌>>◌,
}
use crater_backend.Directory.{
  Directory, User, UserAttribute, Account, UserAccount, find_user, find_account, find_account_named,
  find_membership, last_membership,
}
use crater_backend.Token.{Jwt, TokenManager, JwtMessage, create_tokens, check_token, bearer}
use crater_backend.Model.Roles.{status_active, access_mode_na, default_account_id}
use crater_backend.Auth.{AccountContext, LoginResp, no_attributes}

-- The mode of access to the default account, or none.
unfoldable pub public_access_mode : ℕ → M Directory ℕ
public_access_mode user = do
  r ← attempt (first "" (λ d. find_membership user default_account_id d.user_accounts))
  elim r [ ok m ↦ pure m.access_mode | err _ ↦ pure access_mode_na ]

unfoldable pub login_message : User → Account → UserAccount → ℕ → JwtMessage
login_message u a m public = record {
  user_id = u.id;
  account_id = a.id;
  username = u.name;
  account_name = a.name;
  role_account = m.role;
  account_access_mode = m.access_mode;
  public_access_mode = public;
  role_platform = u.role;
}

abbrev pub login_resp : User → Account → UserAccount → ℕ → String × String → LoginResp
login_resp u a m public (access, refresh) = record {
  access_token = access;
  refresh_token = refresh;
  context = record {
    queue = a.name;
    role_queue = m.role;
    role_platform = u.role;
    access_queue = m.access_mode;
    access_public = public;
    space = u.space;
  };
  user = u.attributes;
}

unfoldable pub switch_message : JwtMessage → String → UserAccount → JwtMessage
switch_message token queue m = record token {
  account_id = m.account_id;
  account_name = queue;
  role_account = m.role;
  account_access_mode = m.access_mode;
}

abbrev pub switch_resp : JwtMessage → String → UserAccount → String × String → LoginResp
switch_resp token queue m (access, refresh) = record {
  access_token = access;
  refresh_token = refresh;
  context = record {
    queue = queue;
    role_queue = m.role;
    role_platform = token.role_platform;
    access_queue = m.access_mode;
    access_public = token.public_access_mode;
    space = "";
  };
  user = no_attributes;
}

module _ (jwt : Jwt) (tm : TokenManager) (now : ℕ) where
  -- The tokens and the answer of Login.
  unfoldable pub respond : User → Account → UserAccount → ℕ → M Directory LoginResp
  unfolding login_message
  respond u a m public = do
    tokens ← found "signing failed" (create_tokens jwt tm now (login_message u a m public))
    pure (login_resp u a m public tokens)

  -- The part of Login after the user is known.
  unfoldable pub open_session : User → M Directory LoginResp
  unfolding public_access_mode respond
  open_session u = do
    require "User is not active" (u.status == status_active)
    m ← first "User must has at least one queue" (λ d. last_membership u.id d.user_accounts)
    a ← first "User must has at least one queue" (λ d. find_account m.account_id d.accounts)
    public ← public_access_mode u.id
    respond u a m public

  -- RefreshToken
  unfoldable pub refresh_token : String → M Directory (String × String)
  refresh_token t = do
    claims ← found "User not found" (check_token jwt tm now t)
    found "signing failed" (create_tokens jwt tm now claims)

  -- SwitchQueue: the tokens for another account of the user.
  unfoldable pub switch_queue : JwtMessage → String → M Directory LoginResp
  unfolding switch_message
  switch_queue token queue = do
    require "Queue not specified" (not (queue == ""))
    a ← first "Queue not found" (λ d. find_account_named queue d.accounts)
    m ← first "Queue not found" (λ d. find_membership token.user_id a.id d.user_accounts)
    tokens ← found "signing failed" (create_tokens jwt tm now (switch_message token queue m))
    pure (switch_resp token queue m tokens)

-- CheckResp, without the version of the program.
pub record CheckResp : Type 0 where
  pub context : AccountContext
  pub user : UserAttribute

abbrev pub account_context : User → Account → UserAccount → ℕ → AccountContext
account_context u a m public = record {
  queue = a.name;
  role_queue = m.role;
  role_platform = u.role;
  access_queue = m.access_mode;
  access_public = public;
  space = u.space;
}

-- What the database says of the user of a token, now: an error where the answer of Check is nil.
unfoldable pub current_context : JwtMessage → M Directory CheckResp
unfolding public_access_mode
current_context msg = do
  u ← first "" (λ d. find_user msg.user_id d.users)
  require "" (u.status == status_active)
  a ← first "" (λ d. find_account msg.account_id d.accounts)
  m ← first "" (λ d. find_membership u.id msg.account_id d.user_accounts)
  public ← public_access_mode u.id
  pure (record { context = account_context u a m public; user = u.attributes })

abbrev pub or_nil : {A : Type 0} → Result A → Option A
or_nil (ok a) = some a
or_nil (err e) = none

-- The part of Check with a token from the header, on which it may end with an error.
unfoldable pub check_context : Option JwtMessage → M Directory (Option CheckResp)
unfolding current_context
check_context none = refuse "token is malformed or expired"
check_context (some msg) = attempt (current_context msg) >>= λ r. pure (or_nil r)

module _ (jwt : Jwt) (tm : TokenManager) (now : ℕ) where
  -- Check, on the header split at its blanks: nil without a token.
  unfoldable pub check : List String → M Directory (Option CheckResp)
  unfolding check_context
  check header = elim (bearer header) [
    | none ↦ pure none
    | some t ↦ check_context (check_token jwt tm now t)
  ]

-- GetAuthMode
abbrev pub get_auth_mode : Bool → String
get_auth_mode raids_lab = if raids_lab then "act" else "normal"
