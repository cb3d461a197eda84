-- ===== src/Tests/Accounts.antt =====
-- Requests of internal/handler/account.go about a team account.
use crater_backend.Prelude.{
  ℕ, String, ◌≡◌, ◌⊎◌, ◌≢◌, refl, true, false, none, [], ◌∷◌, nat_eq, nat_beq_iff, string_eq, arith,
}
use crater_backend.Server.{
  State, ok, pure, require, first, ask, found, write, change, when, transaction,
}
use crater_backend.Directory.{no_quota, find_membership}
use crater_backend.Token.{auth_protected}
use crater_backend.Accounts.{
  Site, AccountReq, insert_account, store_account, insert_member, updates_account, change_account,
  account_name,
}
use crater_backend.Accounts.Manage.{
  create_account, build_account, add_admins, admin_of, create_volcano_queue, insert_queue,
}
use crater_backend.Accounts.Members.{
  MemberReq, update_user_project, change_member, updates_member, parse_up_to,
}
use crater_backend.Accounts.Created.{IsCreated, create_account-IsCreated}
use crater_backend.Accounts.Leftover.{OneMore}
use crater_backend.Accounts.Rollback.{SameRows, create_account-failed}
use crater_backend.Accounts.Revoked.{update_user_project-revokes}
use crater_backend.Tests.Sessions.{jwt, manager, directory, message, post}

abbrev site : State Site
site = record { faults = []; tables = record { directory = directory; queues = [] } }

abbrev request : AccountReq
request = record {
  nickname = "team";
  quota = record no_quota { deserved = ("gpu", none) ∷ [] };
  without_volcano = false;
  admins = 1 ∷ 7 ∷ [];
  expired_at = none;
}

-- The tables when the last query fails.
abbrev broken : State Site
broken = record site { faults = false ∷ false ∷ false ∷ false ∷ false ∷ true ∷ [] }

create_account-failed_example :
    SameRows directory (create_account message request broken).1.tables.directory
    × (((create_account message request broken).1.tables.queues ≡ [])
        ⊎ ((Path String "commit failed" "commit failed")
            × OneMore message request [] (create_account message request broken).1.tables.queues))
unfolding create_account build_account insert_account store_account add_admins insert_member
    admin_of create_volcano_queue insert_queue updates_account change_account account_name require
    change write when pure transaction
create_account-failed_example =
    create_account-failed message request broken {x = "commit failed"}
      {t = (create_account message request broken).1} refl

nobody : (user : ℕ) → find_membership user 2 directory.user_accounts ≡ none
nobody user = ground (arith, nat_beq_iff 1 2)

create_account-IsCreated_example :
    IsCreated message request 2 (create_account message request site).1.tables
unfolding create_account build_account insert_account store_account add_admins insert_member
    admin_of create_volcano_queue insert_queue updates_account change_account account_name require
    change write when pure transaction
create_account-IsCreated_example =
    create_account-IsCreated message request site {id = 2}
      {t = (create_account message request site).1} refl nobody refl

abbrev as_admin : MemberReq
as_admin = record { access_mode = b'3' ∷ []; role = b'3' ∷ []; quota = [] }

update_user_project-revokes_example :
    ◌≢◌
      (auth_protected jwt manager 200 post (record {
        faults = [];
        tables = (update_user_project 1 1 as_admin site).1.tables.directory;
      })).0
      (ok message)
unfolding update_user_project change_member updates_member parse_up_to require first ask found write
    pure
update_user_project-revokes_example =
    update_user_project-revokes 1 1 as_admin site {t = (update_user_project 1 1 as_admin site).1} 3
      jwt manager 200 post message refl refl (λ e. absurd (ground arith)) refl refl
      (λ e. absurd (ground arith)) refl
