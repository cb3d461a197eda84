-- ===== src/Accounts/Manage.antt =====
-- The requests of internal/handler/account.go that make, change and delete team accounts.
use crater_backend.Prelude.{
  ℕ, true, false, not, Option, none, some, List, [], ◌∷◌, ◌++◌, String, if◌then◌else◌, ◌==◌, nat_eq,
  string_eq,
}
use crater_backend.Server.{
  M, pure, require, when, ask, first, write, change, transaction, ◌>>=◌, ◌>>◌,
}
use crater_backend.Directory.{Account, UserAccount, no_quota, find_account, find_account_named}
use crater_backend.Model.Roles.{role_admin, access_mode_rw}
use crater_backend.Token.{JwtMessage}
use crater_backend.Accounts.{
  VolcanoQueue, Site, AccountReq, AccountInfo, is_empty, restore, or_some, account_name,
  insert_account, store_account, insert_member, change_account,
}

unfoldable pub admin_of : ℕ → ℕ → UserAccount
admin_of account user = record {
  id = 0;
  user_id = user;
  account_id = account;
  role = role_admin;
  access_mode = access_mode_rw;
  quota = no_quota;
}

unfoldable pub add_admins : List ℕ → ℕ → M Site (Unit {0})
unfolding insert_member admin_of
add_admins [] account = pure tt
add_admins (user ∷ users) account =
    write "create membership failed" (insert_member (admin_of account user))
    >> add_admins users account

abbrev pub find_queue : String → List VolcanoQueue → Option VolcanoQueue
find_queue name [] = none
find_queue name (q ∷ qs) = let rest = find_queue name qs in if q.name == name then some q else rest

abbrev pub drop_queue : String → List VolcanoQueue → List VolcanoQueue
drop_queue name [] = []
drop_queue name (q ∷ qs) =
    let rest = drop_queue name qs in if q.name == name then rest else q ∷ rest

-- The cluster refuses a queue with a name that is there.
unfoldable pub insert_queue : VolcanoQueue → Site → Option (Unit {0} × Site)
insert_queue q w = elim (find_queue q.name w.queues) [
  | some _ ↦ none
  | none ↦ some (tt, record w { queues = w.queues ++ q ∷ [] })
]

unfoldable pub create_volcano_queue : String → Account → AccountReq → M Site (Unit {0})
unfolding insert_queue
create_volcano_queue username a req =
    change "create queue failed" (
      insert_queue
        (record { name = a.name; created_by = username; quota = req.quota; running = 0 }))

abbrev pub new_account : String → Account
new_account nickname = record {
  id = 0;
  name = "";
  nickname = nickname;
  space = "";
  expired_at = none;
  quota = no_quota;
  deleted = false;
}

abbrev pub named_account : AccountReq → Account → Account
named_account req a = record a {
  name = account_name a.id;
  space = account_name a.id;
  quota = req.quota;
  expired_at = or_some req.expired_at a.expired_at;
}

-- The transaction of CreateAccount.
unfoldable pub build_account : JwtMessage → AccountReq → M Site ℕ
unfolding insert_account store_account add_admins create_volcano_queue
build_account token req = do
  a ← change "create account failed" (insert_account (new_account req.nickname))
  add_admins req.admins a.id
  change "update account failed" (store_account (named_account req a))
  when (not req.without_volcano) (create_volcano_queue token.username (named_account req a) req)
  pure a.id

unfoldable pub create_account : JwtMessage → AccountReq → M Site ℕ
unfolding build_account
create_account token req = do
  require "Admins is empty" (not (is_empty req.admins))
  transaction restore "commit failed" (build_account token req)

abbrev pub change_queue :
    (VolcanoQueue → VolcanoQueue) → String → List VolcanoQueue → List VolcanoQueue
change_queue f name [] = []
change_queue f name (q ∷ qs) =
    let rest = change_queue f name qs in (if q.name == name then f q else q) ∷ rest

unfoldable pub update_volcano_queue : Account → AccountReq → M Site (Unit {0})
update_volcano_queue a req = do
  q ← first "update capability failed" (λ w. find_queue a.name w.queues)
  write "update capability failed" (λ w. record w {
    queues = change_queue (λ q. record q { quota = req.quota }) q.name w.queues;
  })

abbrev pub changed_account : AccountReq → Account → Account
changed_account req a = record a {
  nickname = req.nickname;
  quota = req.quota;
  expired_at = or_some req.expired_at a.expired_at;
}

unfoldable pub update_account : ℕ → AccountReq → M Site (Unit {0})
unfolding store_account update_volcano_queue
update_account id req = do
  a ← first "find project failed" (λ w. find_account id w.directory.accounts)
  change "update project failed" (store_account (changed_account req a))
  when (not req.without_volcano) (update_volcano_queue (changed_account req a) req)

-- The members of an account.
abbrev pub members : ℕ → List UserAccount → List UserAccount
members account [] = []
members account (m ∷ ms) =
    let rest = members account ms in if m.account_id == account then m ∷ rest else rest

abbrev pub drop_members : ℕ → List UserAccount → List UserAccount
drop_members account [] = []
drop_members account (m ∷ ms) =
    let rest = drop_members account ms in if m.account_id == account then rest else m ∷ rest

unfoldable pub delete_queue : String → M Site (Unit {0})
delete_queue name = do
  q ← first "queue not found" (λ w. find_queue name w.queues)
  require "queue still have running pod" (q.running == 0)
  write "delete queue failed" (λ w. record w { queues = drop_queue name w.queues })

-- The transaction of DeleteAccount.
unfoldable pub remove_account : ℕ → M Site String
unfolding delete_queue change_account
remove_account id = do
  a ← first "account not found" (λ w. find_account id w.directory.accounts)
  ms ← ask "query failed" (λ w. members a.id w.directory.user_accounts)
  when (not (is_empty ms)) (
      write "delete members failed" (λ w. record w {
        directory = record w.directory {
          user_accounts = drop_members a.id w.directory.user_accounts;
        };
      }))
  write "delete account failed" (λ w. record w {
    directory = record w.directory {
      accounts = change_account (λ a. record a { deleted = true }) a.id w.directory.accounts;
    };
  })
  delete_queue a.name
  pure a.nickname

unfoldable pub delete_account : ℕ → M Site String
unfolding remove_account
delete_account id = do
  ms ← ask "query failed" (λ w. members id w.directory.user_accounts)
  require "Still have members" (is_empty ms)
  transaction restore "commit failed" (remove_account id)

abbrev pub account_info : Account → AccountInfo
account_info a = record {
  id = a.id;
  name = a.name;
  nickname = a.nickname;
  space = a.space;
  quota = a.quota;
  expired_at = a.expired_at;
}

unfoldable pub get_account_by_id : ℕ → M Site AccountInfo
get_account_by_id id = do
  a ← first "find project failed" (λ w. find_account id w.directory.accounts)
  pure (account_info a)

unfoldable pub get_account_by_name : String → M Site AccountInfo
get_account_by_name name = do
  a ← first "find project failed" (λ w. find_account_named name w.directory.accounts)
  pure (account_info a)

abbrev pub account_infos : List Account → List AccountInfo
account_infos [] = []
account_infos (a ∷ rows) =
    let rest = account_infos rows in if a.deleted then rest else account_info a ∷ rest

unfoldable pub list_for_admin : M Site (List AccountInfo)
list_for_admin = ask "query failed" (λ w. account_infos w.directory.accounts)
