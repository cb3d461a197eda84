-- ===== src/Tests/Sessions.antt =====
-- Runs of internal/handler/auth.go and internal/handler/user.go on one user, with a JWT library that
-- signs her claims only.
use crater_backend.Prelude.{
  ℕ, ◌≡◌, refl, sym, Bool, true, false, ◌&&◌, Option, none, some, [], ◌∷◌, String, if◌then◌else◌,
  ◌==◌, nat_eq, nat_beq_iff, string_eq, ltb, Bool-cases, inl, inr, arith,
}
use crater_backend.Server.{State}
use crater_backend.Directory.{Directory, User, UserAttribute, Account, UserAccount, no_quota}
use crater_backend.Token.{Jwt, JwtClaims, JwtMessage, TokenManager, Request}
use crater_backend.Auth.{Outside, unknown_uid, no_attributes}

abbrev pub claims_until : ℕ → JwtClaims
claims_until e = record {
  user_id = 1;
  queue_id = 1;
  username = "alice";
  queue_name = "default";
  role_queue = 2;
  role_platform = 2;
  access_mode = 2;
  public_access_mode = 2;
  expires_at = e;
}

abbrev is_alice : JwtClaims → Bool
is_alice c =
    c.user_id == 1
    && (c.queue_id == 1
        && (c.username == "alice"
            && (c.queue_name == "default"
                && (c.role_queue == 2
                    && (c.role_platform == 2
                        && (c.access_mode == 2 && c.public_access_mode == 2))))))

abbrev sign_alice : String → JwtClaims → Option String
sign_alice key c =
    if is_alice c
    then (if c.expires_at == 3700
        then some "access"
        else if c.expires_at == 7300
        then some "refresh"
        else none)
    else none

abbrev live : ℕ → ℕ → Option JwtClaims
live now e = if ltb now e then some (claims_until e) else none

abbrev parse_alice : ℕ → String → String → Option JwtClaims
parse_alice now key t =
    if t == "access" then live now 3700 else if t == "refresh" then live now 7300 else none

alice_eq : (c : JwtClaims) (e : ℕ) → is_alice c ≡ true → c.expires_at ≡ e → c ≡ claims_until e
alice_eq c e h g =
    let user_id : c.user_id ≡ 1 = ground (arith, nat_beq_iff c.user_id 1) in
    let queue_id : c.queue_id ≡ 1 = ground (arith, nat_beq_iff c.queue_id 1) in
    let username : c.username ≡ "alice" = (string_eq.beq_iff c.username "alice").0 (ground arith) in
    let queue_name : c.queue_name ≡ "default" =
      (string_eq.beq_iff c.queue_name "default").0 (ground arith) in
    let role_queue : c.role_queue ≡ 2 = ground (arith, nat_beq_iff c.role_queue 2) in
    let role_platform : c.role_platform ≡ 2 = ground (arith, nat_beq_iff c.role_platform 2) in
    let access_mode : c.access_mode ≡ 2 = ground (arith, nat_beq_iff c.access_mode 2) in
    let public_access_mode : c.public_access_mode ≡ 2 =
      ground (arith, nat_beq_iff c.public_access_mode 2) in
    λ i. record {
      user_id = user_id i;
      queue_id = queue_id i;
      username = username i;
      queue_name = queue_name i;
      role_queue = role_queue i;
      role_platform = role_platform i;
      access_mode = access_mode i;
      public_access_mode = public_access_mode i;
      expires_at = g i;
    }

pub parse-sign :
    (now : ℕ) (key : String) (c : JwtClaims) {t : String}
    → sign_alice key c ≡ some t
    → parse_alice now key t ≡ (if ltb now c.expires_at then some c else none)
parse-sign now key c {t} h = elim (Bool-cases (is_alice c)) [
  | inr e ↦ absurd (ground arith)
  | inl e ↦ elim (Bool-cases (c.expires_at == 3700)) [
    | inl f ↦
        let text : "access" ≡ t = ground arith in
        rw (← text, alice_eq c 3700 e (ground (arith, nat_beq_iff c.expires_at 3700))) refl
    | inr f ↦ elim (Bool-cases (c.expires_at == 7300)) [
      | inl g ↦
          let text : "refresh" ≡ t = ground arith in
          rw (← text, alice_eq c 7300 e (ground (arith, nat_beq_iff c.expires_at 7300))) refl
      | inr g ↦ absurd (ground arith)
    ]
  ]
]

abbrev pub jwt : Jwt
jwt = record { sign = sign_alice; parse = parse_alice; parse_sign = parse-sign }

abbrev pub manager : TokenManager
manager = record { secret_key = "key"; access_token_ttl = 1; refresh_token_ttl = 2 }

pub matches-hash : (p : String) {h : String} → some p ≡ some h → (h == p) ≡ true
matches-hash p {h} e = let same : p ≡ h = ground arith in (string_eq.beq_iff h p).1 (sym same)

-- A password is its own hash, and there are no servers.
abbrev pub outside : Outside
outside = record {
  matches = λ h p. h == p;
  hash = λ p. some p;
  act_api = λ t. none;
  act_ldap = λ u p. false;
  uid_server = λ u. unknown_uid;
  is_dns_label = λ u. true;
  raids_lab = false;
  matches_hash = matches-hash;
}

abbrev pub alice_attributes : UserAttribute
alice_attributes = record no_attributes { id = 1; name = "alice"; nickname = "alice" }

abbrev pub alice : User
alice = record {
  id = 1;
  name = "alice";
  nickname = "alice";
  password = some "secret";
  role = 2;
  status = 2;
  space = "alice";
  attributes = alice_attributes;
  last_email_verified_at = none;
  deleted = false;
}

abbrev pub default_account : Account
default_account = record {
  id = 1;
  name = "default";
  nickname = "default";
  space = "default";
  expired_at = none;
  quota = no_quota;
  deleted = false;
}

abbrev pub membership : UserAccount
membership = record {
  id = 1;
  user_id = 1;
  account_id = 1;
  role = 2;
  access_mode = 2;
  quota = no_quota;
}

abbrev pub directory : Directory
directory = record {
  users = alice ∷ [];
  next_user = 2;
  accounts = default_account ∷ [];
  next_account = 2;
  user_accounts = membership ∷ [];
  next_user_account = 2;
}

abbrev pub message : JwtMessage
message = record {
  user_id = 1;
  account_id = 1;
  username = "alice";
  account_name = "default";
  role_account = 2;
  account_access_mode = 2;
  public_access_mode = 2;
  role_platform = 2;
}

abbrev pub post : Request
post = record {
  is_websocket = false;
  query_token = "";
  auth_header = "Bearer" ∷ "access" ∷ [];
  method = "POST";
}

abbrev pub start : State Directory
start = record { faults = []; tables = directory }
