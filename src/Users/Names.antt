-- ===== src/Users/Names.antt =====
-- Names of deleted users of internal/handler/user.go and signing up in internal/handler/auth.go.
use crater_backend.Prelude.{
  ◌≡◌, ◌≢◌, refl, none, ap, ◌∙◌, subst, Bool, true, false, not, ◌&&◌, Option, some, List, [], ◌∷◌,
  String, ◌==◌, nat_eq, string_eq, is_none, Bool-cases, inl, inr, arith,
}
use crater_backend.Server.{State, ok, err, require, ask, found, change, pure}
use crater_backend.Server.Passed.{
  part_passed, require_passed, ask_passed, change_passed, write_ended,
}
use crater_backend.Directory.{Directory, User, UserAttribute, find_user_named, user_taken}
use crater_backend.Auth.{Outside, create_user, new_attributes, hashed, insert_user, new_user}
use crater_backend.Auth.Entry.{signup}
use crater_backend.Auth.Signup.{new_attributes_effect, hashed_effect}
use crater_backend.Users.{change_named, on_users, mark_deleted, delete_user}

-- A name of a row is taken, deleted or not.
taken-deleted :
    (name space : String) (us : List User) {u : User}
    → find_user_named name us ≡ some u
    → user_taken name space (change_named mark_deleted name us) ≡ true
unfolding change_named
taken-deleted name space [] h = absurd (ground arith)
taken-deleted name space (x ∷ us) {u} h = elim (Bool-cases (x.name == name && not x.deleted)) [
  | inl e ↦ ground arith
  | inr e ↦ let rest = taken-deleted name space us {u = u} (ground arith) in ground arith
]

-- No user is found by the name of the rows that were deleted.
find-mark_deleted :
    (name : String) (us : List User)
    → find_user_named name (change_named mark_deleted name us) ≡ none
unfolding change_named
find-mark_deleted name [] = refl
find-mark_deleted name (x ∷ us) =
    let rest = find-mark_deleted name us in
    elim (Bool-cases (x.name == name && not x.deleted)) [
      | inl e ↦ rw e (ground (arith, rest))
      | inr e ↦ rw (e, e) rest
    ]

module _ (out : Outside) (name password : String) where
  insert_free :
      (row : User) (d : Directory) {u : User} {d' : Directory}
      → insert_user row d ≡ some (u, d')
      → user_taken row.name row.space d.users ≡ false
  unfolding insert_user
  insert_free row d h = elim (Bool-cases (user_taken row.name row.space d.users)) [
    | inl e ↦ absurd (ground arith)
    | inr e ↦ e
  ]

  created_free :
      (attr : UserAttribute) (e : String) (s s1 s2 s3 : State Directory) (p : Option String)
      (u : User)
      → new_attributes out name s ≡ (ok attr, s1)
      → hashed out e (some password) s1 ≡ (ok p, s2)
      → insert_user (new_user name p attr) s2.tables ≡ some (u, s3.tables)
      → user_taken name name s.tables.users ≡ false
  unfolding new_user
  created_free attr e s s1 s2 s3 p u g1 g2 g3 =
      let (_, _, _, same) = hashed_effect out name password e s1 g2 in
      subst (λ s. user_taken name name s.tables.users ≡ false)
        (same ∙ new_attributes_effect out name password s g1)
        (insert_free (new_user name p attr) s2.tables g3)

  create_user_free :
      (e : String) (s : State Directory) {u : User} {t : State Directory}
      → create_user out e name (some password) s ≡ (ok u, t)
      → user_taken name name s.tables.users ≡ false
  unfolding create_user
  create_user_free e s h =
      let (attr, s1, g1, h1) = part_passed (new_attributes out name s) _ h in
      let (p, s2, g2, h2) = part_passed (hashed out e (some password) s1) _ h1 in
      let (u, s3, g3, h3) = change_passed e (insert_user (new_user name p attr)) s2 _ h2 in
      created_free attr e s s1 s2 s3 p u g1 g2 g3

  signup_free :
      (s : State Directory) {t : State Directory}
      → signup out name password s ≡ (ok tt, t)
      → user_taken name name s.tables.users ≡ false
  unfolding signup
  signup_free s h =
      let (_, h1) = require_passed _ (not out.raids_lab) s _ h in
      let (s2, same, h2) = ask_passed _ (λ d. find_user_named name d.users) s _ h1 in
      let (_, h3) = require_passed _ (is_none (find_user_named name s.tables.users)) s2 _ h2 in
      let (u, s4, g4, h4) = part_passed (create_user out _ name (some password) s2) _ h3 in
      subst (λ d. user_taken name name d.users ≡ false) same (create_user_free _ s2 g4)

  -- With a name that no user is found by and that the unique index has, Signup gets as far as the
  -- insertion, which fails.
  signup_refused :
      (d : Directory) {h : String}
      → out.raids_lab ≡ false
      → out.hash password ≡ some h
      → find_user_named name d.users ≡ none
      → user_taken name name d.users ≡ true
      → (signup out name password (record { faults = []; tables = d })).0 ≡ err "Create user failed"
  unfolding signup create_user new_attributes hashed insert_user new_user require ask found change
      pure
  signup_refused d outside hash unknown taken = rw (outside, unknown, hash, taken) refl

  -- Without the laboratory's services, and if the password can be hashed: once a user has been deleted,
  -- no user is found by the name, the unique index still has it, and so Signup with the name fails at
  -- the insertion if its queries succeed; whichever of its queries fail, it does not end without an
  -- error.
  pub delete_user-signup :
      (s : State Directory) {u : User} {t t' : State Directory} {h : String} (fs : List Bool)
      → find_user_named name s.tables.users ≡ some u
      → delete_user name s ≡ (ok tt, t)
      → out.raids_lab ≡ false
      → out.hash password ≡ some h
      → (find_user_named name t.tables.users ≡ none)
        × (user_taken name name t.tables.users ≡ true)
        × ((signup out name password (record { faults = []; tables = t.tables })).0
            ≡ err "Create user failed")
        × ◌≢◌ (signup out name password (record { faults = fs; tables = t.tables })) (ok tt, t')
  unfolding delete_user
  delete_user-signup s {u} {t} fs known h outside hash =
      let users : t.tables.users ≡ change_named mark_deleted name s.tables.users =
        ap (λ d. d.users) (write_ended _ (on_users (change_named mark_deleted name)) s h) in
      let unknown : find_user_named name t.tables.users ≡ none =
        rw users (find-mark_deleted name s.tables.users) in
      let taken : user_taken name name t.tables.users ≡ true =
        rw users (taken-deleted name name s.tables.users {u = u} known) in
      (
        unknown,
        taken,
        signup_refused t.tables outside hash unknown taken,
        λ done.
            let free = signup_free (record { faults = fs; tables = t.tables }) done in
            absurd (ground (arith, taken)),
      )
