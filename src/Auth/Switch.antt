-- ===== src/Auth/Switch.antt =====
-- SwitchQueue and RefreshToken of internal/handler/auth.go: whose tokens they hand out.
use crater_backend.Prelude.{
  ℕ, ◌+◌, ◌*◌, ◌≡◌, ap, ◌∙◌, subst, true, not, none, some, if◌then◌else◌, String, ◌==◌, string_eq,
  ltb, Option-cases, inl, inr, arith,
}
use crater_backend.Server.{State, Result, ok, err, found, pure}
use crater_backend.Server.Passed.{require_passed, first_passed, found_passed}
use crater_backend.Directory.{Directory, Account, UserAccount, find_account_named, find_membership}
use crater_backend.Token.{Jwt, TokenManager, JwtMessage, create_tokens, check_token}
use crater_backend.Token.Claims.{check-create_tokens}
use crater_backend.Auth.{LoginResp}
use crater_backend.Auth.Tokens.{switch_queue, switch_message, refresh_token}

abbrev tokens_of : Result LoginResp → String × String
tokens_of (ok r) = (r.access_token, r.refresh_token)
tokens_of (err e) = ("", "")

-- A message for another account, of the name, in which its user has a membership.
abbrev pub in_account : JwtMessage → String → UserAccount → JwtMessage
in_account token queue m = record token {
  account_id = m.account_id;
  account_name = queue;
  role_account = m.role;
  account_access_mode = m.access_mode;
}

module _ (jwt : Jwt) (tm : TokenManager) (now later : ℕ) where
  switch_effect :
      (token : JwtMessage) (queue : String) (s : State Directory) {resp : LoginResp}
      {t : State Directory}
      → switch_queue jwt tm now token queue s ≡ (ok resp, t)
      → (a : Account) × (m : UserAccount) × (find_account_named queue s.tables.accounts ≡ some a)
        × (find_membership token.user_id a.id s.tables.user_accounts ≡ some m)
        × (create_tokens jwt tm now (switch_message token queue m)
            ≡ some (resp.access_token, resp.refresh_token))
  unfolding switch_queue pure
  switch_effect token queue s h =
      let (_, h1) = require_passed _ (not (queue == "")) s _ h in
      let (a, s2, there, t2, h2) =
        first_passed _ (λ d. find_account_named queue d.accounts) s _ h1 in
      let (m, s3, joined, t3, h3) =
        first_passed _ (λ d. find_membership token.user_id a.id d.user_accounts) s2 _ h2 in
      let (tokens, signed, h4) =
        found_passed _ (create_tokens jwt tm now (switch_message token queue m)) s3 _ h3 in
      (
        a,
        m,
        there,
        subst (λ d. find_membership token.user_id a.id d.user_accounts ≡ some m) t2 joined,
        signed ∙ ap (λ r. some (tokens_of r.0)) h4,
      )

  -- Both tokens of a switch of accounts read back, each until its own hours are over and not from then
  -- on, as the message of the old token with the account changed; the role and the access mode are those
  -- of a membership that the user of the old token has in the account of the name asked for.
  pub switch_queue-message :
      (token : JwtMessage) (queue : String) (s : State Directory) {resp : LoginResp}
      {t : State Directory}
      → switch_queue jwt tm now token queue s ≡ (ok resp, t)
      → (a : Account) × (m : UserAccount) × (find_account_named queue s.tables.accounts ≡ some a)
        × (find_membership token.user_id a.id s.tables.user_accounts ≡ some m)
        × (check_token jwt tm later resp.access_token ≡ (
            if ltb later (now + tm.access_token_ttl * 3600)
            then some (in_account token queue m)
            else none))
        × (check_token jwt tm later resp.refresh_token ≡ (
            if ltb later (now + tm.refresh_token_ttl * 3600)
            then some (in_account token queue m)
            else none))
  unfolding switch_message
  switch_queue-message token queue s h =
      let (a, m, there, joined, signed) = switch_effect token queue s h in
      let (access, refresh) =
        check-create_tokens jwt tm now later (switch_message token queue m) signed in
      (a, m, there, joined, access, refresh)

  -- A token that is read in time is exchanged for a token of the same message, roles included, whatever
  -- the tables say of its user by then, and the new token is read until its own hours are over.
  pub refresh_token-stale :
      (token : String) (s : State Directory) {access refresh : String} {t : State Directory}
      → refresh_token jwt tm now token s ≡ (ok (access, refresh), t)
      → ltb later (now + tm.access_token_ttl * 3600) ≡ true
      → (msg : JwtMessage) × (check_token jwt tm now token ≡ some msg)
        × (check_token jwt tm later access ≡ some msg)
  unfolding refresh_token found
  refresh_token-stale token s h time = elim (Option-cases (check_token jwt tm now token)) [
    | inl e ↦ absurd (ground arith)
    | inr (msg, e) ↦ elim (Option-cases (create_tokens jwt tm now msg)) [
      | inl f ↦ absurd (ground arith)
      | inr ((a, r), f) ↦
          let (read, _) = check-create_tokens jwt tm now later msg f in
          let good : check_token jwt tm later a ≡ some msg = rw time at read in
          (msg, e, ground arith)
    ]
  ]
