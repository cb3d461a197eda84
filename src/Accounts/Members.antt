-- ===== src/Accounts/Members.antt =====
-- The requests of internal/handler/account.go on the users in a team account. A role or an access mode
-- is read as a number of 64 bits and kept in one of 8, except by PutUserInProject, which reads one of 8.
-- In gorm's `Updates` with a map every value that is given is written.
use crater_backend.Prelude.{
  ℕ, ◌+◌, ◌-◌, ◌*◌, ◌%◌, Bool, true, false, ◌&&◌, ◌||◌, ◌^◌, Option, none, some, List, [], ◌∷◌,
  if◌then◌else◌, ◌==◌, nat_eq, string_eq, ltb, leb,
}
use crater_backend.Prelude.Int.{pos, ltb_ℤ}
use crater_backend.Model.Key.{Text}
use crater_backend.Server.{M, pure, require, found, ask, first, write, ◌>>=◌, ◌>>◌}
use crater_backend.Directory.{
  User, UserAccount, QueueQuota, Amounts, no_quota, find_user, find_account, find_membership,
  is_membership,
}
use crater_backend.Accounts.{Site, or_number, or_quota, insert_member}

-- UpdateUserProjectReq
pub record MemberReq : Type 0 where
  pub access_mode : Text
  pub role : Text
  pub quota : Amounts

-- PutUserInProjectReq
pub record PutReq : Type 0 where
  pub user_id : ℕ
  pub role : Option Text
  pub access_mode : Option Text
  pub quota : Option QueueQuota

parse_from : ℕ → ℕ → Text → Option ℕ
parse_from limit acc [] = some acc
parse_from limit acc (c ∷ cs) =
    let next = acc * 10 + (c - b'0') in
    let rest = parse_from limit next cs in
    if leb b'0' c && leb c b'9' then (if ltb limit next then none else rest) else none

-- strconv.ParseUint in base 10, for numbers up to a limit.
unfoldable pub parse_up_to : ℕ → Text → Option ℕ
unfolding parse_from
parse_up_to limit [] = none
parse_up_to limit (c ∷ cs) = parse_from limit 0 (c ∷ cs)

abbrev pub parse_uint64 : Text → Option ℕ
unfolding parse_up_to
parse_uint64 s = parse_up_to 18446744073709551615 s

abbrev pub parse_uint8 : Text → Option ℕ
unfolding parse_up_to
parse_uint8 s = parse_up_to 255 s

abbrev pub quota_of : Amounts → QueueQuota
quota_of amounts = record no_quota { capability = amounts }

unfoldable pub member_of : ℕ → ℕ → ℕ → ℕ → Amounts → UserAccount
member_of user account role access quota = record {
  id = 0;
  user_id = user;
  account_id = account;
  role = role % 2 ^ 8;
  access_mode = access % 2 ^ 8;
  quota = quota_of quota;
}

abbrev pub rows_of : Site → List UserAccount
rows_of w = w.directory.user_accounts

-- AddUserProject. The query for memberships that are there is not looked at.
unfoldable pub add_user_project : ℕ → ℕ → MemberReq → M Site (Unit {0})
unfolding member_of
add_user_project account user req = do
  a ← first "Get Project failed" (λ w. find_account account w.directory.accounts)
  u ← first "Get Project failed" (λ w. find_user user w.directory.users)
  found_rows ← ask "Get UserProject failed" rows_of
  role ← found "validate UserProject parameters failed" (parse_uint64 req.role)
  access ← found "validate UserProject parameters failed" (parse_uint64 req.access_mode)
  write "create UserProject failed" (insert_member (member_of user account role access req.quota))

unfoldable pub change_member :
    (UserAccount → UserAccount) → ℕ → ℕ → List UserAccount → List UserAccount
change_member f user account [] = []
change_member f user account (m ∷ ms) =
    let rest = change_member f user account ms in
    (if is_membership user account m then f m else m) ∷ rest

abbrev pub on_members : (List UserAccount → List UserAccount) → Site → Site
on_members f w = record w {
  directory = record w.directory { user_accounts = f w.directory.user_accounts };
}

-- The values that the struct writes into a row: those that are not zero. That the database may refuse
-- to write several memberships of one user in one account is a fault of the query.
unfoldable pub updates_member : ℕ → ℕ → Amounts → UserAccount → UserAccount
updates_member role access quota m = record m {
  role = or_number (role % 2 ^ 8) m.role;
  access_mode = or_number (access % 2 ^ 8) m.access_mode;
  quota = or_quota (quota_of quota) m.quota;
}

unfoldable pub update_user_project : ℕ → ℕ → MemberReq → M Site (Unit {0})
unfolding change_member updates_member
update_user_project account user req = do
  a ← first "Get Project failed" (λ w. find_account account w.directory.accounts)
  u ← first "Get Project failed" (λ w. find_user user w.directory.users)
  m ← first "Get UserProject failed" (λ w. find_membership user account w.directory.user_accounts)
  role ← found "validate UserProject parameters failed" (parse_uint64 req.role)
  access ← found "validate UserProject parameters failed" (parse_uint64 req.access_mode)
  write "update UserProject failed"
      (on_members (change_member (updates_member role access req.quota) user account))

-- An optional text, read if it is given.
unfoldable pub parse_optional : Option Text → M Site (Option ℕ)
parse_optional none = pure none
parse_optional (some t) =
    found "validate PutUserInProject parameters failed" (parse_uint8 t) >>= λ n. pure (some n)

-- checkResource: no amount is a negative integer.
unfoldable pub check_resource : Amounts → Bool
check_resource [] = true
check_resource ((_, none) ∷ rest) = check_resource rest
check_resource ((_, some i) ∷ rest) =
    let r = check_resource rest in if ltb_ℤ i (pos 0) then false else r

unfoldable pub check_quota : Option QueueQuota → M Site (Unit {0})
unfolding check_resource
check_quota none = pure tt
check_quota (some q) = do
  require "validate PutUserInProject parameters failed" (check_resource q.guaranteed)
  require "validate PutUserInProject parameters failed" (check_resource q.deserved)
  require "validate PutUserInProject parameters failed" (check_resource q.capability)

abbrev pub or_default : {A : Type 0} → Option A → A → A
or_default none a = a
or_default (some a) _ = a

unfoldable pub put_member : Option ℕ → Option ℕ → Option QueueQuota → UserAccount → UserAccount
put_member role access quota m = record m {
  role = or_default role m.role;
  access_mode = or_default access m.access_mode;
  quota = or_default quota m.quota;
}

-- PutUserInProject, which does not ask whether there is such a membership.
unfoldable pub put_user_in_project : ℕ → PutReq → M Site (ℕ × ℕ)
unfolding parse_optional check_quota put_member change_member
put_user_in_project account req = do
  role ← parse_optional req.role
  access ← parse_optional req.access_mode
  check_quota req.quota
  write "failed to create or update user in project"
      (on_members (change_member (put_member role access req.quota) req.user_id account))
  pure (account, req.user_id)

abbrev pub drop_member : UserAccount → List UserAccount → List UserAccount
drop_member x [] = []
drop_member x (m ∷ ms) =
    let rest = drop_member x ms in
    if m.id == x.id && is_membership x.user_id x.account_id m then rest else m ∷ rest

unfoldable pub delete_user_project : ℕ → ℕ → M Site (Unit {0})
delete_user_project account user = do
  a ← first "Get Project failed" (λ w. find_account account w.directory.accounts)
  u ← first "Get Project failed" (λ w. find_user user w.directory.users)
  m ← first "delete UserProject failed" (λ w. find_membership u.id a.id w.directory.user_accounts)
  write "delete UserProject failed" (on_members (drop_member m))

-- The ids of the users in an account.
abbrev pub member_ids : ℕ → List UserAccount → List ℕ
member_ids account [] = []
member_ids account (m ∷ ms) =
    let rest = member_ids account ms in if m.account_id == account then m.user_id ∷ rest else rest

abbrev pub has_id : ℕ → List ℕ → Bool
has_id n [] = false
has_id n (i ∷ is) = let rest = has_id n is in if i == n then true else rest

abbrev pub users_outside : List ℕ → List User → List User
users_outside ids [] = []
users_outside ids (u ∷ us) =
    let rest = users_outside ids us in if u.deleted || has_id u.id ids then rest else u ∷ rest

-- GetUserOutOfProject
unfoldable pub get_user_out_of_project : ℕ → M Site (List User)
get_user_out_of_project account = do
  a ← first "Get Project failed" (λ w. find_account account w.directory.accounts)
  ids ← ask "Failed to scan user IDs" (λ w. member_ids a.id w.directory.user_accounts)
  ask "Get UserProject failed" (λ w. users_outside ids w.directory.users)
