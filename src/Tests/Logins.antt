-- ===== src/Tests/Logins.antt =====
-- Logins, sign-ups and requests with tokens, of internal/handler/auth.go, internal/middleware/jwt.go and
-- internal/handler/user.go.
use crater_backend.Prelude.{◌≡◌, ◌≢◌, refl, true, false, none, some, [], ◌∷◌, nat_eq, string_eq}
use crater_backend.Server.{State, ok, err, pure, require, first, ask, found, write, change, attempt}
use crater_backend.Directory.{
  Directory, User, Account, UserAccount, find_user_named, find_account_named, find_membership,
  user_taken,
}
use crater_backend.Directory.Lookup.{NoDouble}
use crater_backend.Token.{
  JwtMessage, create_tokens, create_token, claims_of, message_of, check_token, auth_token, bearer,
  auth_protected, checked_token, check_roles,
}
use crater_backend.Token.Claims.{check-create_tokens}
use crater_backend.Token.Protected.{IsCurrent, auth_protected-IsCurrent}
use crater_backend.Auth.{
  LoginReq, LoginResp, normal_auth, authenticate, name_and_password, named_attributes,
  get_or_create_user, update_user_if_needed, same_attributes, change_user, create_user,
  new_attributes, hashed, insert_user, new_user, default_membership,
}
use crater_backend.Auth.Tokens.{
  login_resp, open_session, respond, public_access_mode, login_message, switch_queue,
  switch_message, switch_resp,
}
use crater_backend.Auth.Entry.{login, signup}
use crater_backend.Auth.Password.{HasPassword, login-HasPassword}
use crater_backend.Auth.Signup.{normal_auth-signup}
use crater_backend.Auth.Stuck.{signup-stuck}
use crater_backend.Auth.Switch.{in_account, switch_queue-message}
use crater_backend.Users.{update_role, delete_user, change_named}
use crater_backend.Users.Lockout.{update_role-revokes}
use crater_backend.Users.Names.{delete_user-signup}
use crater_backend.Auth.Session.{open_session-auth_protected}
use crater_backend.Tests.Sessions.{
  jwt, manager, outside, alice, default_account, membership, directory, message, post, start,
}

check-create_tokens_example :
    (check_token jwt manager 200 "access" ≡ some message)
    × (check_token jwt manager 200 "refresh" ≡ some message)
unfolding create_tokens create_token claims_of
check-create_tokens_example = check-create_tokens jwt manager 100 200 message refl

auth_protected-IsCurrent_example : IsCurrent directory message
unfolding auth_protected auth_token bearer check_token message_of checked_token check_roles require
    first ask found pure
auth_protected-IsCurrent_example = auth_protected-IsCurrent jwt manager 200 post start refl refl

abbrev session : LoginResp
session = login_resp alice default_account membership 2 ("access", "refresh")

open_session-auth_protected_example :
    (token : JwtMessage) × ((auth_protected jwt manager 200 post start).0 ≡ ok token)
    × (token.user_id ≡ 1)
    × (token.role_platform ≡ 2)
unfolding open_session respond public_access_mode login_message create_tokens create_token claims_of
    require first ask found attempt pure auth_token bearer NoDouble
open_session-auth_protected_example =
    open_session-auth_protected jwt manager 100 200 alice start post {row = alice} {resp = session}
      {t = start} refl refl refl (refl, tt) refl refl

abbrev by_password : LoginReq
by_password = record {
  auth_method = "normal";
  username = some "alice";
  password = some "secret";
  token = none;
}

login-HasPassword_example : HasPassword outside by_password directory
unfolding login authenticate name_and_password normal_auth named_attributes get_or_create_user
    update_user_if_needed same_attributes change_user open_session respond public_access_mode
    login_message create_tokens create_token claims_of require first ask found attempt pure write
login-HasPassword_example =
    login-HasPassword outside start jwt manager 100 by_password {resp = session} {t = start} refl
      refl

-- Bob signs up.
abbrev signed_up : State Directory
signed_up = (signup outside "bob" "pass" start).1

normal_auth-signup_example :
    (normal_auth outside "bob" "pass" (record { faults = []; tables = signed_up.tables })).0 ≡ ok tt
unfolding signup create_user new_attributes hashed insert_user new_user default_membership require
    first ask found change write pure
normal_auth-signup_example = normal_auth-signup outside "bob" "pass" start {t = signed_up} refl

signup-stuck_example :
    (t : Directory) × (u : User) × (signup outside "bob" "pass"
        (record { faults = false ∷ false ∷ true ∷ []; tables = directory })
      ≡ (err "Create user failed", record { faults = []; tables = t }))
    × (find_user_named "bob" t.users ≡ some u)
    × ((signup outside "bob" "pass" (record { faults = []; tables = t })).0
        ≡ err "User already exists")
    × ((open_session jwt manager 100 u (record { faults = []; tables = t })).0
        ≡ err "User must has at least one queue")
signup-stuck_example =
    signup-stuck outside "bob" "pass" directory {h = "pass"} refl refl refl jwt manager 100 refl
      refl

switch_queue-message_example :
    (a : Account) × (m : UserAccount) × (find_account_named "default" directory.accounts ≡ some a)
    × (find_membership 1 a.id directory.user_accounts ≡ some m)
    × (check_token jwt manager 200 "access" ≡ some (in_account message "default" m))
    × (check_token jwt manager 200 "refresh" ≡ some (in_account message "default" m))
unfolding switch_queue switch_message create_tokens create_token claims_of require first ask found
    pure
switch_queue-message_example =
    switch_queue-message jwt manager 100 200 message "default" start
      {resp = switch_resp message "default" membership ("access", "refresh")} {t = start} refl

-- Alice keeps her role, and is deleted.
update_role-revokes_example : message.role_platform ≡ 2
unfolding update_role change_named require write auth_protected auth_token bearer check_token
    message_of checked_token check_roles first ask found pure
update_role-revokes_example =
    update_role-revokes jwt manager 200 post "alice" start {token = message}
      {t = (update_role "alice" 2 start).1} 2 {u = alice} refl refl refl refl refl

delete_user-signup_example :
    (find_user_named "alice" (delete_user "alice" start).1.tables.users ≡ none)
    × (user_taken "alice" "alice" (delete_user "alice" start).1.tables.users ≡ true)
    × ((signup outside "alice" "pass"
          (record { faults = []; tables = (delete_user "alice" start).1.tables })).0
        ≡ err "Create user failed")
    × ◌≢◌
        (signup outside "alice" "pass"
          (record { faults = true ∷ []; tables = (delete_user "alice" start).1.tables }))
        (ok tt, start)
unfolding delete_user change_named write
delete_user-signup_example =
    delete_user-signup outside "alice" "pass" start {u = alice} {t = (delete_user "alice" start).1}
      {t' = start} {h = "pass"} (true ∷ []) refl refl refl refl
