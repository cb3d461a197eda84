-- ===== src/Directory.antt =====
-- dao/model/user.go and dao/model/account.go: the users, the accounts and the memberships of users in
-- accounts, as the handlers of internal/handler find them in the database. A deleted row keeps its
-- place in the table and in the unique indexes, and no query sees it. Rows stand in the order of their
-- ids, and ids are not used again.
pub mod Lookup
use crater_backend.Prelude.{
  ℕ, suc, Bool, true, false, not, ◌&&◌, ◌||◌, Option, none, some, List, [], ◌∷◌, ◌++◌, String,
  if◌then◌else◌, ◌==◌, nat_eq, string_eq,
}
use crater_backend.Prelude.Int.{ℤ}

-- UserAttribute, with nil for a text that is not given.
pub record UserAttribute : Type 0 where
  pub id : ℕ
  pub name : String
  pub nickname : String
  pub email : Option String
  pub teacher : Option String
  pub group : Option String
  pub expired_at : Option String
  pub phone : Option String
  pub avatar : Option String
  pub uid : Option String
  pub gid : Option String

pub record User : Type 0 where
  pub id : ℕ
  pub name : String
  pub nickname : String
  pub password : Option String
  pub role : ℕ
  pub status : ℕ
  pub space : String
  pub attributes : UserAttribute
  pub last_email_verified_at : Option ℤ
  pub deleted : Bool

-- A resource list of a quota: names and amounts, `none` for an amount that is no integer of 64 bits.
abbrev pub Amounts : Type 0
Amounts = List (String × Option ℤ)

pub record QueueQuota : Type 0 where
  pub guaranteed : Amounts
  pub deserved : Amounts
  pub capability : Amounts

abbrev pub no_quota : QueueQuota
no_quota = record { guaranteed = []; deserved = []; capability = [] }

pub record Account : Type 0 where
  pub id : ℕ
  pub name : String
  pub nickname : String
  pub space : String
  pub expired_at : Option ℤ
  pub quota : QueueQuota
  pub deleted : Bool

-- UserAccount; a membership that is deleted is taken out of the table, since no index keeps it.
pub record UserAccount : Type 0 where
  pub id : ℕ
  pub user_id : ℕ
  pub account_id : ℕ
  pub role : ℕ
  pub access_mode : ℕ
  pub quota : QueueQuota

pub record Directory : Type 0 where
  pub users : List User
  pub next_user : ℕ
  pub accounts : List Account
  pub next_account : ℕ
  pub user_accounts : List UserAccount
  pub next_user_account : ℕ

abbrev pub find_user : ℕ → List User → Option User
find_user id [] = none
find_user id (u ∷ us) =
    let rest = find_user id us in if u.id == id && not u.deleted then some u else rest

abbrev pub find_user_named : String → List User → Option User
find_user_named name [] = none
find_user_named name (u ∷ us) =
    let rest = find_user_named name us in if u.name == name && not u.deleted then some u else rest

abbrev pub find_account : ℕ → List Account → Option Account
find_account id [] = none
find_account id (a ∷ rows) =
    let rest = find_account id rows in if a.id == id && not a.deleted then some a else rest

abbrev pub find_account_named : String → List Account → Option Account
find_account_named name [] = none
find_account_named name (a ∷ rows) =
    let rest = find_account_named name rows in
    if a.name == name && not a.deleted then some a else rest

abbrev pub is_membership : ℕ → ℕ → UserAccount → Bool
is_membership user account m = m.user_id == user && m.account_id == account

abbrev pub find_membership : ℕ → ℕ → List UserAccount → Option UserAccount
find_membership user account [] = none
find_membership user account (m ∷ ms) =
    let rest = find_membership user account ms in
    if is_membership user account m then some m else rest

-- `Last`: the membership of a user with the highest id.
abbrev pub last_membership : ℕ → List UserAccount → Option UserAccount
last_membership user [] = none
last_membership user (m ∷ ms) = elim (last_membership user ms) [
  | some l ↦ some l
  | none ↦ if m.user_id == user then some m else none
]

-- The unique indexes on users: deleted rows count.
abbrev pub user_taken : String → String → List User → Bool
user_taken name space [] = false
user_taken name space (u ∷ us) = (u.name == name || u.space == space) || user_taken name space us

abbrev pub account_taken : String → String → List Account → Bool
account_taken name space [] = false
account_taken name space (a ∷ rows) =
    (a.name == name || a.space == space) || account_taken name space rows
