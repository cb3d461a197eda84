-- ===== src/Context.antt =====
-- internal/handler/context.go: what users do with their own rows, but for the quota that they see. The
-- codes that were sent by mail are a map of the process, from addresses to codes, and none of them is
-- taken out of it. A code is drawn at random, and the mail is sent by pkg/alert: both are arguments.
pub mod Verified
use crater_backend.Prelude.{ℕ, Bool, Option, none, some, List, String, ◌==◌, nat_eq, string_eq}
use crater_backend.Prelude.Int.{ℤ}
use crater_backend.Prelude.Dict.{Dict, get, put}
use crater_backend.Server.{
  State, M, Result, ok, err, pure, require, first, write, attempt, ◌>>=◌, ◌>>◌,
}
use crater_backend.Directory.{Directory, User, UserAttribute, find_user}
use crater_backend.Token.{JwtMessage}
use crater_backend.Auth.{change_user}

pub record Session : Type 0 where
  pub directory : Directory
  pub verify_code_cache : Dict String String

abbrev pub with_users : (List User → List User) → Session → Session
with_users f w = record w { directory = record w.directory { users = f w.directory.users } }

-- The id, the uid and the gid of the old attributes stay.
abbrev pub fixed_attributes : UserAttribute → UserAttribute → UserAttribute
fixed_attributes old new = record new { id = old.id; uid = old.uid; gid = old.gid }

unfoldable pub update_user_attributes : JwtMessage → UserAttribute → M Session (Unit {0})
unfolding change_user
update_user_attributes token attributes = do
  u ← first "User not found" (λ w. find_user token.user_id w.directory.users)
  write "Failed to update user attributes" (
      with_users (
        change_user (λ row. record row { attributes = fixed_attributes u.attributes attributes })
          u.id))

unfoldable pub store_code : String → String → M Session (Unit {0})
store_code email code s = (
  ok tt,
  record s {
    tables = record s.tables { verify_code_cache = put email code s.tables.verify_code_cache };
  },
)

-- The code is stored before the mail is sent, and stays if that fails.
unfoldable pub send_user_verification_code :
    JwtMessage → String → String → Bool → M Session (Unit {0})
unfolding store_code
send_user_verification_code token email code sent = do
  u ← first "User not found" (λ w. find_user token.user_id w.directory.users)
  store_code email code
  require "mail failed" sent

-- A map of Go gives the empty string for an address that no code was sent to.
unfoldable pub verify_code : String → Dict String String → String
verify_code email cache = elim (get email cache) [ none ↦ "" | some code ↦ code ]

unfoldable pub compare_code : String → String → M Session (Unit {0})
unfolding verify_code
compare_code email code s =
    require "Wrong verification Code" (code == verify_code email s.tables.verify_code_cache) s

abbrev pub dated : ℤ → User → User
dated now u = record u { last_email_verified_at = some now }

-- An error of the write is logged only.
unfoldable pub update_user_email : ℤ → JwtMessage → String → String → M Session (Unit {0})
unfolding compare_code change_user
update_user_email now token email code = do
  u ← first "User not found" (λ w. find_user token.user_id w.directory.users)
  compare_code email code
  r ← attempt (write "" (with_users (change_user (dated now) token.user_id)))
  pure tt
