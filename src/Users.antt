-- ===== src/Users.antt =====
-- internal/handler/user.go: what an administrator does with users. A query that changes rows is no
-- error where it finds none.
pub mod Lockout
pub mod Names
use crater_backend.Prelude.{
  ℕ, ◌*◌, Bool, true, false, not, ◌&&◌, ◌||◌, Option, none, some, List, [], ◌∷◌, ◌++◌, String,
  if◌then◌else◌, ◌==◌, nat_eq, string_eq, ltb,
}
use crater_backend.Server.{M, Result, ok, err, pure, require, ask, first, write, ◌>>=◌, ◌>>◌}
use crater_backend.Directory.{Directory, User, UserAttribute, find_user, find_user_named}
use crater_backend.Token.{JwtMessage}
use crater_backend.Lock.{hour}
use crater_backend.Prelude.Int.{ℤ, pos, ◌+ℤ◌, ltb_ℤ, eqb_ℤ}
use crater_backend.Auth.{change_user}

-- UserResp
pub record UserResp : Type 0 where
  pub id : ℕ
  pub name : String
  pub role : ℕ
  pub status : ℕ
  pub attributes : UserAttribute

-- UserDetailResp, without the time of creation.
pub record UserDetailResp : Type 0 where
  pub id : ℕ
  pub name : String
  pub nickname : String
  pub role : ℕ
  pub status : ℕ
  pub teacher : Option String
  pub group : Option String
  pub avatar : Option String

-- The rows of a name that are not deleted, changed.
unfoldable pub change_named : (User → User) → String → List User → List User
change_named f name [] = []
change_named f name (u ∷ us) =
    let rest = change_named f name us in (if u.name == name && not u.deleted then f u else u) ∷ rest

abbrev pub on_users : (List User → List User) → Directory → Directory
on_users f d = record d { users = f d.users }

abbrev pub mark_deleted : User → User
mark_deleted u = record u { deleted = true }

unfoldable pub delete_user : String → M Directory (Unit {0})
unfolding change_named
delete_user name = write "delete user failed" (on_users (change_named mark_deleted name))

abbrev pub with_role : ℕ → User → User
with_role role u = record u { role = role }

unfoldable pub update_role : String → ℕ → M Directory (Unit {0})
unfolding change_named
update_role name role = do
  require "role value exceeds the allowed range 1-3" (not (ltb role 1 || ltb 3 role))
  write "update user role failed" (on_users (change_named (with_role role) name))

unfoldable pub update_user_attributes_by_admin : String → UserAttribute → M Directory (Unit {0})
unfolding change_user
update_user_attributes_by_admin name attributes = do
  u ← first "User not found" (λ d. find_user_named name d.users)
  write "Failed to update user attributes" (
      on_users (
        change_user (λ row. record row { attributes = attributes; nickname = attributes.nickname })
          u.id))

abbrev pub detail : User → UserDetailResp
detail u = record {
  id = u.id;
  name = u.name;
  nickname = u.nickname;
  role = u.role;
  status = u.status;
  teacher = u.attributes.teacher;
  group = u.attributes.group;
  avatar = u.attributes.avatar;
}

unfoldable pub get_user : String → M Directory UserDetailResp
get_user name = do u ← first "get user failed" (λ d. find_user_named name d.users); pure (detail u)

-- The users that are not deleted, the last one first.
unfoldable pub users_desc : List User → List UserResp
users_desc [] = []
users_desc (u ∷ us) =
    let rest = users_desc us in
    if u.deleted
    then rest
    else rest
      ++ record {
        id = u.id;
        name = u.name;
        role = u.role;
        status = u.status;
        attributes = u.attributes;
      }
        ∷ []

unfoldable pub list_user : M Directory (List UserResp)
unfolding users_desc
list_user = ask "list users failed" (λ d. users_desc d.users)

-- UserBaseInfoResp
pub record UserBaseInfoResp : Type 0 where
  pub name : String
  pub nickname : String
  pub space : String

unfoldable pub base_infos : List User → List UserBaseInfoResp
base_infos [] = []
base_infos (u ∷ us) =
    let rest = base_infos us in
    if u.deleted
    then rest
    else record { name = u.name; nickname = u.nickname; space = u.space } ∷ rest

unfoldable pub list_user_base_info : M Directory (List UserBaseInfoResp)
unfolding base_infos
list_user_base_info = ask "list users failed" (λ d. base_infos d.users)

-- CheckEmailVerified of pkg/utils/user.go: whether the last time is in the last 180 days, of 24 hours
-- each. `zero_time` is the zero value of time.Time.
unfoldable pub check_email_verified : ℤ → ℤ → Option ℤ → Bool × Option ℤ
check_email_verified zero_time now none = (false, none)
check_email_verified zero_time now (some t) =
    if eqb_ℤ t zero_time then (false, none) else (ltb_ℤ now (t +ℤ pos (180 * (24 * hour))), some t)

unfoldable pub check_if_email_verified : ℤ → ℤ → JwtMessage → M Directory (Bool × Option ℤ)
unfolding check_email_verified
check_if_email_verified zero_time now token = do
  u ← first "get user failed" (λ d. find_user token.user_id d.users)
  pure (check_email_verified zero_time now u.last_email_verified_at)
