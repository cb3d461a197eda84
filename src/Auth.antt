-- ===== src/Auth.antt =====
-- internal/handler/auth.go: logging in, signing up, and the tokens that are handed out. The password
-- hash, the external servers and the check of a user name are parameters.
pub mod Entry
pub mod Password
pub mod Session
pub mod Signup
pub mod Stuck
pub mod Switch
pub mod Tokens
use crater_backend.Prelude.{
  ℕ, suc, ◌≡◌, Bool, true, false, not, ◌&&◌, ◌||◌, Option, none, some, List, [], ◌∷◌, ◌++◌, String,
  if◌then◌else◌, ◌==◌, nat_eq, string_eq, is_none,
}
use Prim.Native.String.{◌++◌ as str_append}
use crater_backend.Server.{
  M, Result, ok, err, pure, refuse, require, ask, first, found, write, change, attempt, ◌>>=◌, ◌>>◌,
}
use crater_backend.Directory.{
  Directory, User, UserAttribute, Account, UserAccount, no_quota, find_user, find_user_named,
  find_account, find_account_named, find_membership, last_membership, user_taken,
}
use crater_backend.Token.{Jwt, TokenManager, JwtMessage, create_tokens, check_token, bearer}
use crater_backend.Model.Roles.{
  role_user, status_active, access_mode_na, access_mode_ro, default_account_id,
}

-- LoginReq, with nil for a text that is not given.
pub record LoginReq : Type 0 where
  pub auth_method : String
  pub username : Option String
  pub password : Option String
  pub token : Option String

-- The answers of the UID server.
pub data UidAnswer : Type 0 where
  unreachable unknown_uid : UidAnswer
  uid_and_gid : String → String → UidAnswer

-- bcrypt, the API and the LDAP server of the laboratory, its UID server, the DNS label check of
-- Kubernetes, and whether the configuration enables the laboratory's services.
pub record Outside : Type 0 where
  pub matches : String → String → Bool
  pub hash : String → Option String
  pub act_api : String → Option UserAttribute
  pub act_ldap : String → String → Bool
  pub uid_server : String → UidAnswer
  pub is_dns_label : String → Bool
  pub raids_lab : Bool
  pub matches_hash : (p : String) {h : String} → hash p ≡ some h → matches h p ≡ true

-- AccountContext
pub record AccountContext : Type 0 where
  pub queue : String
  pub role_queue : ℕ
  pub role_platform : ℕ
  pub access_queue : ℕ
  pub access_public : ℕ
  pub space : String

pub record LoginResp : Type 0 where
  pub access_token : String
  pub refresh_token : String
  pub context : AccountContext
  pub user : UserAttribute

abbrev pub no_attributes : UserAttribute
no_attributes = record {
  id = 0;
  name = "";
  nickname = "";
  email = none;
  teacher = none;
  group = none;
  expired_at = none;
  phone = none;
  avatar = none;
  uid = none;
  gid = none;
}

abbrev pub same_text : Option String → Option String → Bool
same_text none none = true
same_text (some s) (some t) = s == t
same_text _ _ = false

-- reflect.DeepEqual on attributes.
unfoldable pub same_attributes : UserAttribute → UserAttribute → Bool
same_attributes a b =
    a.id == b.id
    && (a.name == b.name
        && (a.nickname == b.nickname
            && (same_text a.email b.email
                && (same_text a.teacher b.teacher
                    && (same_text a.group b.group
                        && (same_text a.expired_at b.expired_at
                            && (same_text a.phone b.phone
                                && (same_text a.avatar b.avatar
                                    && (same_text a.uid b.uid && same_text a.gid b.gid)))))))))

unfoldable pub change_user : (User → User) → ℕ → List User → List User
change_user f id [] = []
change_user f id (u ∷ us) =
    let rest = change_user f id us in (if u.id == id && not u.deleted then f u else u) ∷ rest

-- `Create` of a row of users.
unfoldable pub insert_user : User → Directory → Option (User × Directory)
insert_user u d =
    let row = record u { id = d.next_user } in
    if user_taken u.name u.space d.users
    then none
    else some (row, record d { users = d.users ++ row ∷ []; next_user = suc d.next_user })

abbrev pub add_user_account : UserAccount → Directory → Directory
add_user_account m d = record d {
  user_accounts = d.user_accounts ++ record m { id = d.next_user_account } ∷ [];
  next_user_account = suc d.next_user_account;
}

unfoldable pub new_user : String → Option String → UserAttribute → User
new_user name password attr = record {
  id = 0;
  name = name;
  nickname = name;
  password = password;
  role = role_user;
  status = status_active;
  space = name;
  attributes = attr;
  last_email_verified_at = none;
  deleted = false;
}

-- The membership of every user in the default account.
unfoldable pub default_membership : ℕ → UserAccount
default_membership user = record {
  id = 0;
  user_id = user;
  account_id = default_account_id;
  role = role_user;
  access_mode = access_mode_ro;
  quota = no_quota;
}

unfoldable pub named_attributes : LoginReq → UserAttribute → UserAttribute
named_attributes req attr = elim req.username [
  | none ↦ attr
  | some username ↦ record attr {
    name = if attr.name == "" then username else attr.name;
    nickname = if attr.nickname == "" then username else attr.nickname;
  }
]

abbrev pub or_text : Option String → Option String → Option String
or_text none b = b
or_text (some a) b = some a

-- updateUserIfNeeded: the user as the rest of the login sees it.
unfoldable pub update_user_if_needed : User → UserAttribute → M Directory User
unfolding same_attributes change_user
update_user_if_needed u attr =
    let cur = u.attributes in
    let new = record attr { id = u.id; avatar = cur.avatar; uid = cur.uid; gid = cur.gid } in
    let stored = record new { email = or_text cur.email new.email } in
    if not (cur.id == 0) && (is_none new.email || same_attributes cur new)
    then pure u
    else if not (cur.id == 0) && (is_none stored.email || same_attributes cur new)
    then pure u
    else (do
      write "Create or update user failed" (λ d. record d {
        users =
            change_user (λ row. record row { attributes = stored; nickname = stored.nickname }) u.id
              d.users;
      })
      pure (record u { attributes = new }))

module _ (out : Outside) where
  -- normalAuth
  unfoldable pub normal_auth : String → String → M Directory (Unit {0})
  normal_auth username password = do
    u ← first "Invalid credentials" (λ d. find_user_named username d.users)
    p ← found "Invalid credentials" u.password
    require "Invalid credentials" (out.matches p password)

  -- The user name and the password of a request, checked.
  unfoldable pub name_and_password : LoginReq → M Directory (String × String)
  name_and_password req = do
    username ← found "Username or password not provided" req.username
    password ← found "Username or password not provided" req.password
    require "Invalid username" (out.is_dns_label username)
    pure (username, password)

  -- Who the request is from: the attributes that the method gives, and whether an unknown user is
  -- registered.
  unfoldable pub authenticate : LoginReq → M Directory (UserAttribute × Bool)
  unfolding normal_auth name_and_password
  authenticate req =
      if req.auth_method == "act-api"
      then (do
        token ← found "Token not provided" req.token
        attr ← found "Invalid token" (out.act_api token)
        pure (attr, true))
      else if req.auth_method == "act-ldap"
      then (do
        (username, password) ← name_and_password req
        require "Invalid credentials" (out.act_ldap username password)
        pure (no_attributes, not out.raids_lab))
      else if req.auth_method == "normal"
      then (do
        (username, password) ← name_and_password req
        normal_auth username password
        pure (no_attributes, false))
      else refuse "Invalid auth method"

  -- The attributes of a new user, from the UID server where it is enabled.
  unfoldable pub new_attributes : String → M Directory UserAttribute
  new_attributes name =
      if out.raids_lab
      then elim (out.uid_server name) [
        | unreachable ↦ refuse "Can't connect to UID server"
        | unknown_uid ↦ refuse "UID not found"
        | uid_and_gid u g ↦ pure (record no_attributes {
          email = some (str_append name "@act.buaa.edu.cn");
          uid = some u;
          gid = some g;
        })
      ]
      else pure (record no_attributes { uid = some "1001"; gid = some "1001" })

  unfoldable pub hashed : String → Option String → M Directory (Option String)
  hashed e none = pure none
  hashed e (some p) = found e (out.hash p) >>= λ h. pure (some h)

  -- createUser, with the answer to an error of the database or of the hash.
  unfoldable pub create_user : String → String → Option String → M Directory User
  unfolding new_attributes hashed insert_user new_user default_membership
  create_user e name password = do
    attr ← new_attributes name
    p ← hashed e password
    u ← change e (insert_user (new_user name p attr))
    write e (add_user_account (default_membership u.id))
    pure u

  unfoldable pub get_or_create_user : UserAttribute → Bool → M Directory User
  unfolding create_user
  get_or_create_user attr allow = do
    known ← ask "Create or update user failed" (λ d. find_user_named attr.name d.users)
    elim known [
      | some u ↦ pure u
      | none ↦
          if allow
          then create_user "Create or update user failed" attr.name none
          else refuse "User must register before login"
    ]
