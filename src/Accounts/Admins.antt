-- ===== src/Accounts/Admins.antt =====
-- The memberships that CreateAccount of internal/handler/account.go makes for the administrators.
use crater_backend.Prelude.{
  ℕ, ◌≡◌, refl, sym, ap, ◌∙◌, subst, Bool, true, false, none, some, contains, List, [], ◌∷◌, ◌++◌,
  if◌then◌else◌, ◌==◌, nat_eq, nat_beq_iff, string_eq, Bool-cases, inl, inr, ◌⊎◌, arith,
}
use crater_backend.Server.{State, ok}
use crater_backend.Server.Passed.{write_passed, pure_passed}
use crater_backend.Directory.{UserAccount, find_membership, is_membership}
use crater_backend.Directory.Lookup.{find-append_some, find-append_none}
use crater_backend.Model.Roles.{role_admin, access_mode_rw}
use crater_backend.Accounts.{Site, insert_member}
use crater_backend.Accounts.Manage.{admin_of, add_admins}

-- A user who is an administrator of an account, and a list of such users.
pub IsAdminIn : ℕ → List UserAccount → ℕ → Type 0
IsAdminIn account ms user =
    (m : UserAccount) × (find_membership user account ms ≡ some m)
    × (m.role ≡ role_admin)
    × (m.access_mode ≡ access_mode_rw)

pub AllAdmins : ℕ → List UserAccount → List ℕ → Type 0
AllAdmins account ms [] = Unit
AllAdmins account ms (user ∷ users) = IsAdminIn account ms user × AllAdmins account ms users

-- Nobody but administrators is in the account.
abbrev pub OnlyAdmins : ℕ → List UserAccount → Type 0
OnlyAdmins account ms =
    (user : ℕ) → (find_membership user account ms ≡ none) ⊎ IsAdminIn account ms user

pub same_number : (n : ℕ) → (n == n) ≡ true
same_number n = ground (arith, nat_beq_iff n n)

module _ (account : ℕ) (ms : List UserAccount) (n : ℕ) where
  abbrev row_of : ℕ → UserAccount
  row_of user = record (admin_of account user) { id = n }

  kept :
      (x : UserAccount) (user : ℕ)
      → IsAdminIn account ms user
      → IsAdminIn account (ms ++ x ∷ []) user
  unfolding IsAdminIn
  kept x user (m, h, role, mode) = (m, find-append_some user account ms x h, role, mode)

  is_row : (user other : ℕ) → is_membership other account (row_of user) ≡ (user == other)
  unfolding admin_of
  is_row user other = ground (arith, nat_beq_iff account account)

  added :
      (user other : ℕ) {b : Bool}
      → (user == other) ≡ b
      → find_membership other account ms ≡ none
      → find_membership other account (ms ++ row_of user ∷ [])
        ≡ (if b then some (row_of user) else none)
  added user other e h =
      find-append_none other account ms (row_of user) h
      ∙ ap (λ b. if b then some (row_of user) else none) (is_row user other ∙ e)

  joined_now : (user : ℕ) → OnlyAdmins account ms → IsAdminIn account (ms ++ row_of user ∷ []) user
  unfolding IsAdminIn admin_of
  joined_now user only = elim (only user) [
    | inr o ↦ kept (row_of user) user o
    | inl e ↦ (row_of user, added user user (same_number user) e, refl, refl)
  ]

  still_only : (user : ℕ) → OnlyAdmins account ms → OnlyAdmins account (ms ++ row_of user ∷ [])
  still_only user only other = elim (only other) [
    | inr o ↦ inr (kept (row_of user) other o)
    | inl e ↦ elim (Bool-cases (user == other)) [
      | inl f ↦ inr (
          subst (IsAdminIn account (ms ++ row_of user ∷ []))
            (ground (arith, nat_beq_iff user other)) (joined_now user only))
      | inr f ↦ inl (added user other f e)
    ]
  ]

-- What the memberships of the administrators leave of the site.
pub record IsGrown (account : ℕ) (w w' : Site) : Type 0 where
  pub accounts : w'.directory.accounts ≡ w.directory.accounts
  pub queues : w'.queues ≡ w.queues
  pub only : OnlyAdmins account w'.directory.user_accounts
  pub stay :
      (user : ℕ)
      → IsAdminIn account w.directory.user_accounts user
      → IsAdminIn account w'.directory.user_accounts user

one_more :
    (account user : ℕ) (w : Site) {w' : Site}
    → w' ≡ insert_member (admin_of account user) w
    → OnlyAdmins account w.directory.user_accounts
    → IsGrown account w w' × IsAdminIn account w'.directory.user_accounts user
unfolding insert_member
one_more account user w e only =
    subst (λ w'. IsGrown account w w' × IsAdminIn account w'.directory.user_accounts user) (sym e)
      (
        record {
          accounts = refl;
          queues = refl;
          only =
              still_only account w.directory.user_accounts w.directory.next_user_account user only;
          stay =
              λ other. kept account w.directory.user_accounts w.directory.next_user_account _ other;
        },
        joined_now account w.directory.user_accounts w.directory.next_user_account user only,
      )

-- Who is no administrator to be is in the account only if before.
stays_out :
    (account user other : ℕ) (w : Site) {w' : Site}
    → w' ≡ insert_member (admin_of account user) w
    → (user == other) ≡ false
    → find_membership other account w.directory.user_accounts ≡ none
    → find_membership other account w'.directory.user_accounts ≡ none
unfolding insert_member
stays_out account user other w e differs out =
    subst (λ w'. find_membership other account w'.directory.user_accounts ≡ none) (sym e)
      (added account w.directory.user_accounts w.directory.next_user_account user other differs out)

pub add_admins-out :
    (users : List ℕ) (account other : ℕ) (s : State Site) {t : State Site}
    → add_admins users account s ≡ (ok tt, t)
    → contains users other ≡ false
    → find_membership other account s.tables.directory.user_accounts ≡ none
    → find_membership other account t.tables.directory.user_accounts ≡ none
unfolding add_admins
add_admins-out [] account other s h away out =
    let (_, same) = pure_passed tt s h in
    subst (λ t. find_membership other account t.tables.directory.user_accounts ≡ none) same out
add_admins-out (user ∷ users) account other s h away out =
    let (s1, grown, h1) = write_passed _ (insert_member (admin_of account user)) s _ h in
    add_admins-out users account other s1 h1 (ground arith)
      (stays_out account user other s.tables grown (ground arith) out)

pub add_admins_effect :
    (users : List ℕ) (account : ℕ) (s : State Site) {t : State Site}
    → OnlyAdmins account s.tables.directory.user_accounts
    → add_admins users account s ≡ (ok tt, t)
    → IsGrown account s.tables t.tables × AllAdmins account t.tables.directory.user_accounts users
unfolding add_admins AllAdmins
add_admins_effect [] account s {t} only h =
    let (_, same) = pure_passed tt s h in
    (
      subst (λ t. IsGrown account s.tables t.tables) same
          (record { accounts = refl; queues = refl; only = only; stay = λ user o. o }),
      tt,
    )
add_admins_effect (user ∷ users) account s only h =
    let (s1, grown, h1) = write_passed _ (insert_member (admin_of account user)) s _ h in
    let (step, joined) = one_more account user s.tables grown only in
    let (rest, all) = add_admins_effect users account s1 step.only h1 in
    (
      record {
        accounts = rest.accounts ∙ step.accounts;
        queues = rest.queues ∙ step.queues;
        only = rest.only;
        stay = λ user o. rest.stay user (step.stay user o);
      },
      (rest.stay user joined, all),
    )
