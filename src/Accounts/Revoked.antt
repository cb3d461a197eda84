-- ===== src/Accounts/Revoked.antt =====
-- Changes of a membership in internal/handler/account.go and the tokens that are around.
use crater_backend.Prelude.{
  ℕ, ◌%◌, ◌^◌, ◌≡◌, ◌≢◌, refl, sym, ap, ◌∙◌, subst, false, Option, some, List, [], ◌∷◌, ◌==◌,
  nat_eq, nat_beq_iff, string_eq, Bool-cases, inl, inr, arith,
}
use crater_backend.Server.{State, ok}
use crater_backend.Server.Passed.{first_passed, found_passed, write_ended}
use crater_backend.Directory.{UserAccount, find_user, find_account, find_membership, is_membership}
use crater_backend.Directory.Lookup.{find_user-id}
use crater_backend.Token.{Jwt, TokenManager, JwtMessage, Request, auth_protected}
use crater_backend.Token.Protected.{auth_protected-IsCurrent}
use crater_backend.Accounts.{Site, or_number}
use crater_backend.Accounts.Members.{
  MemberReq, parse_uint64, change_member, on_members, updates_member, update_user_project,
}

-- The row that a changed membership is.
find-change_member :
    (f : UserAccount → UserAccount) (user account : ℕ) (ms : List UserAccount) {m : UserAccount}
    → ((x : UserAccount) → is_membership user account (f x) ≡ is_membership user account x)
    → find_membership user account ms ≡ some m
    → find_membership user account (change_member f user account ms) ≡ some (f m)
unfolding change_member
find-change_member f user account [] keeps h = absurd (ground arith)
find-change_member f user account (x ∷ ms) {m} keeps h =
    elim (Bool-cases (is_membership user account x)) [
      | inl e ↦ let same : x ≡ m = ground arith in rw (e, keeps x, e) (ap (λ x. some (f x)) same)
      | inr e ↦ rw (e, e) (find-change_member f user account ms {m = m} keeps (rw e at h))
    ]

update_effect :
    (account user : ℕ) (req : MemberReq) (s : State Site) {t : State Site}
    → update_user_project account user req s ≡ (ok tt, t)
    → (m : UserAccount) × (role : ℕ) × (access : ℕ) × (parse_uint64 req.role ≡ some role)
      × (find_membership user account s.tables.directory.user_accounts ≡ some m)
      × (t.tables
          ≡ on_members (change_member (updates_member role access req.quota) user account) s.tables)
unfolding update_user_project
update_effect account user req s h =
    let (a, s1, _, t1, h1) =
      first_passed _ (λ w. find_account account w.directory.accounts) s _ h in
    let (u, s2, _, t2, h2) = first_passed _ (λ w. find_user user w.directory.users) s1 _ h1 in
    let (m, s3, there, t3, h3) =
      first_passed _ (λ w. find_membership user account w.directory.user_accounts) s2 _ h2 in
    let (role, good, h4) = found_passed _ (parse_uint64 req.role) s3 _ h3 in
    let (access, _, h5) = found_passed _ (parse_uint64 req.access_mode) s3 _ h4 in
    (
      m,
      role,
      access,
      good,
      subst (λ w. find_membership user account w.directory.user_accounts ≡ some m) (t2 ∙ t1) there,
      write_ended _ (on_members (change_member (updates_member role access req.quota) user account))
            s3 h5
          ∙ ap (on_members (change_member (updates_member role access req.quota) user account))
              (t3 ∙ t2 ∙ t1),
    )

-- The role of the membership after an update.
updated_role :
    (account user : ℕ) (req : MemberReq) (s : State Site) {t : State Site} (r : ℕ)
    → update_user_project account user req s ≡ (ok tt, t)
    → parse_uint64 req.role ≡ some r
    → ◌≢◌ (r % 2 ^ 8) 0
    → (m : UserAccount) × (find_membership user account t.tables.directory.user_accounts ≡ some m)
      × (m.role ≡ r % 2 ^ 8)
unfolding updates_member
updated_role account user req s {t} r h parsed positive =
    let (m, role, access, good, there, tables) = update_effect account user req s h in
    let same : role ≡ r = ground arith in
    let change = updates_member role access req.quota in
    (
      change m,
      subst (λ w. find_membership user account w.directory.user_accounts ≡ some (change m))
          (sym tables)
          (find-change_member change user account s.tables.directory.user_accounts (λ x. refl)
            there),
      rw same (kept (r % 2 ^ 8) m.role positive),
    )
  where
    kept : (a b : ℕ) → ◌≢◌ a 0 → or_number a b ≡ a
    kept a b h = ground (arith, nat_beq_iff a 0)

-- Once the role of a user in an account has been changed by UpdateUserProject to a role that is not
-- zero in 8 bits, AuthProtected lets no request other than GET through with a token of the user for
-- the account that says another role.
pub update_user_project-revokes :
    (account user : ℕ) (req : MemberReq) (s : State Site) {t : State Site} (r : ℕ) (jwt : Jwt)
    (tm : TokenManager) (now : ℕ) (http : Request) (token : JwtMessage)
    → update_user_project account user req s ≡ (ok tt, t)
    → parse_uint64 req.role ≡ some r
    → ◌≢◌ (r % 2 ^ 8) 0
    → token.user_id ≡ user
    → token.account_id ≡ account
    → ◌≢◌ token.role_account (r % 2 ^ 8)
    → (http.method == "GET") ≡ false
    → ◌≢◌
        (auth_protected jwt tm now http (record { faults = []; tables = t.tables.directory })).0
        (ok token)
update_user_project-revokes account user req s {t} r jwt tm now http token h parsed positive of_user
      of_account other method passed =
    let d = t.tables.directory in
    let (m, joined, role) = updated_role account user req s r h parsed positive in
    let o =
      auth_protected-IsCurrent jwt tm now http (record { faults = []; tables = d }) method passed in
    let at_user : find_membership user account d.user_accounts ≡ some o.member =
      subst (λ n. find_membership user n d.user_accounts ≡ some o.member) of_account
        (subst (λ n. find_membership n token.account_id d.user_accounts ≡ some o.member)
          (find_user-id token.user_id d.users o.known ∙ of_user) o.joined) in
    other (sym o.role_account ∙ same_role (sym at_user ∙ joined) ∙ role)
  where
    same_role : {x y : UserAccount} → Path (Option UserAccount) (some x) (some y) → x.role ≡ y.role
    same_role e = ground arith
