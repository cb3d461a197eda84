-- ===== src/Accounts.antt =====
-- internal/handler/account.go: team accounts with their queues in Volcano, and the users in them. The
-- queues are not part of a database transaction. An empty resource list stands for one that is not
-- given. gorm's `Updates` with a struct writes the fields that are not zero.
pub mod Admins
pub mod Created
pub mod Doubled
pub mod Manage
pub mod Members
pub mod Revoked
pub mod Leftover
pub mod Rollback
pub mod Rows
use crater_backend.Prelude.{
  ℕ, zero, suc, ◌+◌, ◌*◌, ◌/◌, ◌%◌, Bool, true, false, not, ◌&&◌, ◌||◌, Option, none, some, List,
  [], ◌∷◌, ◌++◌, String, if◌then◌else◌, ◌==◌, nat_eq, string_eq, ltb,
}
use Prim.Native.String.{◌++◌ as str_append}
use crater_backend.Prelude.Int.{ℤ}
use crater_backend.Server.{
  M, Result, ok, err, pure, refuse, require, when, ask, first, write, change, transaction, ◌>>=◌,
  ◌>>◌,
}
use crater_backend.Directory.{
  Directory, Account, UserAccount, QueueQuota, no_quota, find_account, find_account_named,
  account_taken,
}
use crater_backend.Model.Roles.{role_admin, access_mode_rw}
use crater_backend.Token.{JwtMessage}

-- A queue of Volcano: its label, its three lists and the count of its running pod groups.
pub record VolcanoQueue : Type 0 where
  pub name : String
  pub created_by : String
  pub quota : QueueQuota
  pub running : ℕ

-- The database and the cluster.
pub record Site : Type 0 where
  pub directory : Directory
  pub queues : List VolcanoQueue

-- AccountCreateOrUpdateReq
pub record AccountReq : Type 0 where
  pub nickname : String
  pub quota : QueueQuota
  pub without_volcano : Bool
  pub admins : List ℕ
  pub expired_at : Option ℤ

-- ListAllResp
pub record AccountInfo : Type 0 where
  pub id : ℕ
  pub name : String
  pub nickname : String
  pub space : String
  pub quota : QueueQuota
  pub expired_at : Option ℤ

abbrev pub is_empty : {A : Type 0} → List A → Bool
is_empty [] = true
is_empty (_ ∷ _) = false

-- A rollback gives the rows back, not the numbers that were used up, and not the queues.
abbrev pub restore : Site → Site → Site
restore old new = record new {
  directory = record old.directory {
    next_user = new.directory.next_user;
    next_account = new.directory.next_account;
    next_user_account = new.directory.next_user_account;
  };
}

-- The fields that a struct writes: those that are not zero.
abbrev pub or_string : String → String → String
or_string a b = if a == "" then b else a

abbrev pub or_number : ℕ → ℕ → ℕ
or_number a b = if a == 0 then b else a

abbrev pub or_some : {A : Type 0} → Option A → Option A → Option A
or_some (some a) b = some a
or_some none b = b

-- A quota is zero if it has no amounts: a list that is empty stands for one that was left out.
abbrev pub or_quota : QueueQuota → QueueQuota → QueueQuota
or_quota a b =
    if is_empty a.guaranteed && (is_empty a.deserved && is_empty a.capability) then b else a

unfoldable pub updates_account : Account → Account → Account
updates_account new old = record old {
  name = or_string new.name old.name;
  nickname = or_string new.nickname old.nickname;
  space = or_string new.space old.space;
  expired_at = or_some new.expired_at old.expired_at;
  quota = or_quota new.quota old.quota;
}

unfoldable pub change_account : (Account → Account) → ℕ → List Account → List Account
change_account f id [] = []
change_account f id (a ∷ rows) =
    let rest = change_account f id rows in (if a.id == id && not a.deleted then f a else a) ∷ rest

-- The rows other than one, for the unique indexes.
abbrev pub others : ℕ → List Account → List Account
others id [] = []
others id (a ∷ rows) = let rest = others id rows in if a.id == id then rest else a ∷ rest

abbrev pub digit : ℕ → String
digit d =
    if d == 0
    then "0"
    else if d == 1
    then "1"
    else if d == 2
    then "2"
    else if d == 3
    then "3"
    else if d == 4
    then "4"
    else if d == 5
    then "5"
    else if d == 6
    then "6"
    else if d == 7
    then "7"
    else if d == 8
    then "8"
    else "9"

-- The decimal text of a number below 10 to the fuel.
abbrev pub decimal : ℕ → ℕ → String
decimal zero n = ""
decimal (suc f) n =
    let high = decimal f (n / 10) in if ltb n 10 then digit n else str_append high (digit (n % 10))

-- The name of an account, for ids of up to twenty digits.
unfoldable pub account_name : ℕ → String
account_name id = str_append "q-" (decimal 20 id)

-- `Create` of a row of accounts.
unfoldable pub insert_account : Account → Site → Option (Account × Site)
insert_account a w =
    let d = w.directory in
    let row = record a { id = d.next_account } in
    if account_taken a.name a.space d.accounts
    then none
    else some (
      row,
      record w {
        directory = record d {
          accounts = d.accounts ++ row ∷ [];
          next_account = suc d.next_account;
        };
      },
    )

-- `Updates` of a row of accounts, which the unique indexes may refuse.
unfoldable pub store_account : Account → Site → Option (Unit {0} × Site)
unfolding updates_account change_account
store_account a w =
    let d = w.directory in
    if account_taken a.name a.space (others a.id d.accounts)
    then none
    else some (
      tt,
      record w {
        directory = record d { accounts = change_account (updates_account a) a.id d.accounts };
      },
    )

unfoldable pub insert_member : UserAccount → Site → Site
insert_member m w =
    let d = w.directory in
    record w {
      directory = record d {
        user_accounts = d.user_accounts ++ record m { id = d.next_user_account } ∷ [];
        next_user_account = suc d.next_user_account;
      };
    }
