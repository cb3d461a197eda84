-- ===== src/Auth/Entry.antt =====
-- Login and Signup of internal/handler/auth.go.
use crater_backend.Prelude.{ℕ, not, some, String, nat_eq, string_eq, is_none}
use crater_backend.Server.{M, pure, require, ask, ◌>>=◌, ◌>>◌}
use crater_backend.Directory.{Directory, find_user_named}
use crater_backend.Token.{Jwt, TokenManager}
use crater_backend.Auth.{
  LoginReq, LoginResp, Outside, authenticate, create_user, get_or_create_user, named_attributes,
  update_user_if_needed,
}
use crater_backend.Auth.Tokens.{open_session}

module _ (out : Outside) where
  unfoldable pub login : Jwt → TokenManager → ℕ → LoginReq → M Directory LoginResp
  unfolding authenticate named_attributes get_or_create_user update_user_if_needed open_session
  login jwt tm now req = do
    (attr, allow) ← authenticate out req
    let attr' = named_attributes req attr
    u ← get_or_create_user out attr' allow
    u' ← update_user_if_needed u attr'
    open_session jwt tm now u'

  unfoldable pub signup : String → String → M Directory (Unit {0})
  unfolding create_user
  signup username password = do
    require "User must sign up with token" (not out.raids_lab)
    known ← ask "query failed" (λ d. find_user_named username d.users)
    require "User already exists" (is_none known)
    u ← create_user out "Create user failed" username (some password)
    pure tt
