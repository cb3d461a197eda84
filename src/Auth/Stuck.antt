-- ===== src/Auth/Stuck.antt =====
-- A sign-up of internal/handler/auth.go that fails half-way.
use crater_backend.Prelude.{
  ℕ, suc, ◌≡◌, refl, ap, true, false, none, some, [], ◌∷◌, ◌++◌, String, nat_eq, string_eq,
}
use crater_backend.Server.{err, require, first, ask, found, change, write, pure}
use crater_backend.Directory.{Directory, User, find_user_named, last_membership, user_taken}
use crater_backend.Directory.Lookup.{find_user_named-append}
use crater_backend.Token.{Jwt, TokenManager}
use crater_backend.Auth.{
  no_attributes, Outside, create_user, new_attributes, hashed, insert_user, new_user,
}
use crater_backend.Auth.Entry.{signup}
use crater_backend.Auth.Tokens.{open_session}

module _ (out : Outside) (name password : String) (d : Directory) where
  -- What is left in the tables: the user without a membership.
  abbrev left_behind : String → User
  unfolding new_user
  left_behind h =
      record (new_user name (some h)
        (record no_attributes { uid = some "1001"; gid = some "1001" })) { id = d.next_user }

  abbrev tables_left : User → Directory
  tables_left u = record d { users = d.users ++ u ∷ []; next_user = suc d.next_user }

  module _ {h : String} (lab : out.raids_lab ≡ false) (free : find_user_named name d.users ≡ none)
      (hashes : out.hash password ≡ some h) where
    signup_effect :
        user_taken name name d.users ≡ false
        → signup out name password (record { faults = false ∷ false ∷ true ∷ []; tables = d })
          ≡ (err "Create user failed", record { faults = []; tables = tables_left (left_behind h) })
    unfolding signup create_user require ask change write new_attributes hashed insert_user pure
        found new_user
    signup_effect index = rw (lab, free, hashes, index) refl

    named : find_user_named name (tables_left (left_behind h)).users ≡ some (left_behind h)
    unfolding new_user
    named = find_user_named-append d.users (left_behind h) refl free

    signup_again :
        signup out name password (record { faults = []; tables = tables_left (left_behind h) })
        ≡ (err "User already exists", record { faults = []; tables = tables_left (left_behind h) })
    unfolding signup require ask
    signup_again = rw (lab, named) refl

    no_session :
        (jwt : Jwt) (tm : TokenManager) (now : ℕ)
        → last_membership d.next_user d.user_accounts ≡ none
        → (open_session jwt tm now
            (left_behind h)
            (record { faults = []; tables = tables_left (left_behind h) })).0
          ≡ err "User must has at least one queue"
    unfolding open_session require first ask found new_user
    no_session jwt tm now alone = rw alone refl

    -- Without the laboratory's services, and if the name is free, no row has the name or the space, the
    -- hash succeeds and no membership has the next id of a user: a sign-up whose last write, that of the
    -- membership, fails answers with an error, and leaves a user for whom signing up again is refused
    -- and opening a session is refused.
    pub signup-stuck :
        (jwt : Jwt) (tm : TokenManager) (now : ℕ)
        → user_taken name name d.users ≡ false
        → last_membership d.next_user d.user_accounts ≡ none
        → (t : Directory) × (u : User) × (signup out name password
              (record { faults = false ∷ false ∷ true ∷ []; tables = d })
            ≡ (err "Create user failed", record { faults = []; tables = t }))
          × (find_user_named name t.users ≡ some u)
          × ((signup out name password (record { faults = []; tables = t })).0
              ≡ err "User already exists")
          × ((open_session jwt tm now u (record { faults = []; tables = t })).0
              ≡ err "User must has at least one queue")
    signup-stuck jwt tm now index alone = (
      tables_left (left_behind h),
      left_behind h,
      signup_effect index,
      named,
      ap (λ r. r.0) signup_again,
      no_session jwt tm now alone,
    )
