-- ===== src/Auth/Signup.antt =====
-- Signing up by Signup of internal/handler/auth.go, and what the new user can do afterwards.
use crater_backend.Prelude.{
  suc, ◌≡◌, refl, sym, ap, subst, true, not, Option, none, some, [], ◌∷◌, ◌++◌, String, nat_eq,
  string_eq, is_none, Bool-cases, Option-cases, inl, inr, ◌⊎◌, ◌∙◌, arith,
}
use crater_backend.Server.{State, ok, require, refuse, first, ask, found, pure}
use crater_backend.Server.Passed.{
  part_passed, require_passed, ask_passed, change_passed, write_passed,
}
use crater_backend.Directory.{
  Directory, User, UserAttribute, UserAccount, find_user_named, last_membership, user_taken,
}
use crater_backend.Directory.Lookup.{last_membership-append, find_user_named-append}
use crater_backend.Auth.{
  UidAnswer, unreachable, unknown_uid, uid_and_gid, Outside, create_user, new_attributes, hashed,
  insert_user, new_user, default_membership, add_user_account, normal_auth,
}
use crater_backend.Auth.Entry.{signup}
use crater_backend.Model.Roles.{role_user, status_active, default_account_id}

uid_cases :
    (a : UidAnswer)
    → (a ≡ unreachable)
      ⊎ ((a ≡ unknown_uid) ⊎ ((u : String) × (g : String) × (a ≡ uid_and_gid u g)))
uid_cases unreachable = inl refl
uid_cases unknown_uid = inr (inl refl)
uid_cases (uid_and_gid u g) = inr (inr (u, g, refl))

is_none-none : {A : Type 0} (o : Option A) → is_none o ≡ true → o ≡ none
is_none-none none h = refl
is_none-none (some a) h = absurd (ground arith)

-- A user as Signup makes it: active, with a hash of the password, and with the default account last
-- among its memberships.
pub record IsNew (out : Outside) (name password : String) (d : Directory) : Type 0 where
  pub user : User
  pub member : UserAccount
  pub hash : String
  pub named : find_user_named name d.users ≡ some user
  pub hashes : out.hash password ≡ some hash
  pub stored : user.password ≡ some hash
  pub active : user.status ≡ status_active
  pub role_platform : user.role ≡ role_user
  pub joined : last_membership user.id d.user_accounts ≡ some member
  pub in_default : member.account_id ≡ default_account_id
  pub role_account : member.role ≡ role_user

insert_user_effect :
    (row : User) (d : Directory) {u : User} {d' : Directory}
    → insert_user row d ≡ some (u, d')
    → (u ≡ record row { id = d.next_user })
      × (d' ≡ record d { users = d.users ++ u ∷ []; next_user = suc d.next_user })
unfolding insert_user
insert_user_effect row d {u} {d'} h = elim (Bool-cases (user_taken row.name row.space d.users)) [
  | inl e ↦ absurd (ground arith)
  | inr e ↦
      let same : Path (Option (User × Directory))
          (some (
            record row { id = d.next_user },
            record d {
              users = d.users ++ record row { id = d.next_user } ∷ [];
              next_user = suc d.next_user;
            },
          ))
          (some (u, d')) =
        rw e at h in
      (ground arith, ground arith)
]

module _ (out : Outside) (name password : String) where
  pub new_attributes_effect :
      (s : State Directory) {a : UserAttribute} {t : State Directory}
      → new_attributes out name s ≡ (ok a, t)
      → t ≡ s
  unfolding new_attributes pure refuse
  new_attributes_effect s h = elim (Bool-cases out.raids_lab) [
    | inl e ↦ elim (uid_cases (out.uid_server name)) [
      | inl f ↦ absurd (ground arith)
      | inr (inl f) ↦ absurd (ground arith)
      | inr (inr (u, g, f)) ↦ ground arith
    ]
    | inr e ↦ ground arith
  ]

  pub hashed_effect :
      (e : String) (s : State Directory) {p : Option String} {t : State Directory}
      → hashed out e (some password) s ≡ (ok p, t)
      → (h : String) × (out.hash password ≡ some h) × (p ≡ some h) × (t ≡ s)
  unfolding hashed found pure
  hashed_effect e s h = elim (Option-cases (out.hash password)) [
    | inl f ↦ absurd (ground arith)
    | inr (x, f) ↦ (x, f, ground arith, ground arith)
  ]

  -- What a row and a membership make of tables in which nobody has the name.
  created :
      (attr : UserAttribute) (d d3 d4 : Directory) (u : User) {p : Option String} {h : String}
      → find_user_named name d.users ≡ none
      → out.hash password ≡ some h
      → p ≡ some h
      → insert_user (new_user name p attr) d ≡ some (u, d3)
      → d4 ≡ add_user_account (default_membership u.id) d3
      → IsNew out name password d4
  unfolding new_user default_membership
  created attr d d3 d4 u {p} {h} free hashes stored made joined =
      let (row, table) = insert_user_effect (new_user name p attr) d made in
      let user_name : u.name ≡ name = ap (λ u. u.name) row in
      let appended =
        find_user_named-append d.users u (ap (λ u. u.deleted) row)
          (subst (λ n. find_user_named n d.users ≡ none) (sym user_name) free) in
      let m = record (default_membership u.id) { id = d3.next_user_account } in
      let users : d4.users ≡ d.users ++ u ∷ [] =
        ap (λ d. d.users) joined ∙ ap (λ d. d.users) table in
      record {
        user = u;
        member = m;
        hash = h;
        named = rw (users, sym user_name) appended;
        hashes = hashes;
        stored = ap (λ u. u.password) row ∙ stored;
        active = ap (λ u. u.status) row;
        role_platform = ap (λ u. u.role) row;
        joined = rw (ap (λ d. d.user_accounts) joined) (last_membership-append d3.user_accounts m);
        in_default = refl;
        role_account = refl;
      }

  create_user_effect :
      (e : String) (s : State Directory) {u : User} {t : State Directory}
      → find_user_named name s.tables.users ≡ none
      → create_user out e name (some password) s ≡ (ok u, t)
      → IsNew out name password t.tables
  unfolding create_user pure
  create_user_effect e s {t = t} free h =
      let (attr, s1, g1, h1) = part_passed (new_attributes out name s) _ h in
      let (p, s2, g2, h2) = part_passed (hashed out e (some password) s1) _ h1 in
      let (u, s3, g3, h3) = change_passed e (insert_user (new_user name p attr)) s2 _ h2 in
      let (s4, g4, h4) = write_passed e (add_user_account (default_membership u.id)) s3 _ h3 in
      let (x, hashes, stored, same) = hashed_effect e s1 g2 in
      created attr s2.tables s3.tables t.tables u (rw (same ∙ new_attributes_effect s g1) free)
        hashes stored g3
        (subst (λ s. s.tables ≡ add_user_account (default_membership u.id) s3.tables)
          (ap (λ r. r.1) h4) g4)

  -- A user name that Signup takes without an error is found afterwards with an active user of the role of
  -- a plain user, whose stored hash is that of the password and whose last membership is the role of a
  -- plain user in the default account.
  pub signup-IsNew :
      (s : State Directory) {t : State Directory}
      → signup out name password s ≡ (ok tt, t)
      → IsNew out name password t.tables
  unfolding signup pure
  signup-IsNew s {t = t} h =
      let (_, h1) = require_passed _ (not out.raids_lab) s _ h in
      let (s2, same, h2) = ask_passed _ (λ d. find_user_named name d.users) s _ h1 in
      let (free, h3) = require_passed _ (is_none (find_user_named name s.tables.users)) s2 _ h2 in
      let (u, s4, g4, h4) = part_passed (create_user out _ name (some password) s2) _ h3 in
      subst (λ t. IsNew out name password t.tables) (ap (λ r. r.1) h4)
        (create_user_effect _ s2 (rw same (is_none-none (find_user_named name s.tables.users) free))
          g4)

  -- A user name and a password that Signup takes without an error are accepted by the password check
  -- of Login as long as the tables stay as they are.
  pub normal_auth-signup :
      (s : State Directory) {t : State Directory}
      → signup out name password s ≡ (ok tt, t)
      → (normal_auth out name password (record { faults = []; tables = t.tables })).0 ≡ ok tt
  unfolding normal_auth require first ask found
  normal_auth-signup s {t = t} h =
      let o = signup-IsNew s h in
      let good = out.matches_hash password o.hashes in rw (o.named, o.stored, good) refl
