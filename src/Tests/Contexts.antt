-- ===== src/Tests/Contexts.antt =====
-- Verified addresses, of internal/handler/context.go.
use crater_backend.Prelude.{◌≡◌, refl, true, some, [], ◌∷◌, nat_eq, string_eq}
use crater_backend.Prelude.Int.{pos}
use crater_backend.Prelude.Dict.{get, put}
use crater_backend.Server.{ok, first, ask, found, require}
use crater_backend.Users.{check_if_email_verified}
use crater_backend.Context.{
  Session, send_user_verification_code, store_code, update_user_email, verify_code,
}
use crater_backend.Context.Verified.{on, rows, update_user_email-verified, unsent_code}
use crater_backend.Tests.Sessions.{directory, message, alice}

abbrev fresh : Session
fresh = record { directory = directory; verify_code_cache = [] }

abbrev coded : Session
coded = record { directory = directory; verify_code_cache = ("a@b.c", "012345") ∷ [] }

send_code : (send_user_verification_code message "a@b.c" "012345" true (on fresh)).1.tables ≡ coded
unfolding send_user_verification_code store_code first ask found require put
send_code = refl

update_user_email-verified_example :
    ((update_user_email (pos 500) message "a@b.c" "012345" (on coded)).0 ≡ ok tt)
    × ((check_if_email_verified
          (pos 0)
          (pos 600)
          message
          (rows (update_user_email (pos 500) message "a@b.c" "012345" (on coded)).1)).0
        ≡ ok (true, some (pos 500)))
unfolding verify_code get
update_user_email-verified_example =
    update_user_email-verified (pos 0) (pos 500) (pos 600) message "a@b.c" "012345" coded
      {u = alice} refl refl

unsent_code_example :
    ((update_user_email (pos 500) message "x@y.z" "" (on coded)).0 ≡ ok tt)
    × ((check_if_email_verified
          (pos 0)
          (pos 600)
          message
          (rows (update_user_email (pos 500) message "x@y.z" "" (on coded)).1)).0
        ≡ ok (true, some (pos 500)))
unfolding get
unsent_code_example =
    unsent_code (pos 0) (pos 500) (pos 600) message "x@y.z" coded {u = alice} refl refl refl
