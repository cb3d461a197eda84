-- ===== src/Directory/Lookup.antt =====
-- What the lookups of users, accounts and memberships find, for the handlers of internal/handler.
use crater_backend.Prelude.{
  ℕ, ◌≡◌, refl, subst, false, not, ◌&&◌, none, some, List, [], ◌∷◌, if◌then◌else◌, ◌==◌, nat_eq,
  nat_beq_iff, string_eq, ◌++◌, Bool-cases, Option-cases, inl, inr, arith,
}
use crater_backend.Directory.{
  find_user_named, User, Account, UserAccount, find_user, find_account, find_membership,
  last_membership, is_membership,
}

-- No two memberships are of the same user in the same account.
unfoldable pub NoDouble : List UserAccount → Type 0
NoDouble [] = Unit
NoDouble (m ∷ ms) = (find_membership m.user_id m.account_id ms ≡ none) × NoDouble ms

pub find_user-id : (id : ℕ) (us : List User) {u : User} → find_user id us ≡ some u → u.id ≡ id
find_user-id id [] {u} h = absurd (ground arith)
find_user-id id (x ∷ us) {u} h = elim (Bool-cases (x.id == id && not x.deleted)) [
  | inl e ↦ ground (arith, nat_beq_iff x.id id)
  | inr e ↦ find_user-id id us {u = u} (ground arith)
]

pub find_account-id :
    (id : ℕ) (rows : List Account) {a : Account} → find_account id rows ≡ some a → a.id ≡ id
find_account-id id [] {a} h = absurd (ground arith)
find_account-id id (x ∷ rows) {a} h = elim (Bool-cases (x.id == id && not x.deleted)) [
  | inl e ↦ ground (arith, nat_beq_iff x.id id)
  | inr e ↦ find_account-id id rows {a = a} (ground arith)
]

pub last_membership-user :
    (user : ℕ) (ms : List UserAccount) {m : UserAccount}
    → last_membership user ms ≡ some m
    → m.user_id ≡ user
last_membership-user user [] {m} h = absurd (ground arith)
last_membership-user user (x ∷ ms) {m} h = elim (Option-cases (last_membership user ms)) [
  | inl e ↦ ground (arith, nat_beq_iff x.user_id user)
  | inr (l, e) ↦
      let same : l ≡ m = ground arith in
      subst (λ l. l.user_id ≡ user) same (last_membership-user user ms e)
]

-- The membership that a login takes is the one that a request looks up.
pub membership-last :
    (user : ℕ) (ms : List UserAccount) {m : UserAccount}
    → NoDouble ms
    → last_membership user ms ≡ some m
    → find_membership user m.account_id ms ≡ some m
unfolding NoDouble
membership-last user [] n h = absurd (ground arith)
membership-last user (x ∷ ms) {m} (n, ns) h = elim (Option-cases (last_membership user ms)) [
  | inl e ↦ ground (arith, nat_beq_iff x.user_id user, nat_beq_iff x.account_id x.account_id)
  | inr (l, e) ↦
      let there = membership-last user ms ns e in
      let same : l ≡ m = ground arith in
      elim (Bool-cases (is_membership user m.account_id x)) [
        | inl f ↦
            absurd
              (ground (arith, nat_beq_iff x.user_id user, nat_beq_iff x.account_id m.account_id))
        | inr f ↦ ground arith
      ]
]

pub last_membership-append :
    (ms : List UserAccount) (m : UserAccount) → last_membership m.user_id (ms ++ m ∷ []) ≡ some m
last_membership-append [] m = ground (arith, nat_beq_iff m.user_id m.user_id)
last_membership-append (x ∷ ms) m = rw (last_membership-append ms m) refl

-- A row that is appended is found by its name if no other row that is not deleted has it.
pub find_user_named-append :
    (us : List User) (u : User)
    → u.deleted ≡ false
    → find_user_named u.name us ≡ none
    → find_user_named u.name (us ++ u ∷ []) ≡ some u
find_user_named-append [] u h g = ground (arith, h, string_eq.beq_iff u.name u.name)
find_user_named-append (x ∷ us) u h g = elim (Bool-cases (x.name == u.name && not x.deleted)) [
  | inl e ↦ absurd (ground arith)
  | inr e ↦ rw (e, find_user_named-append us u h (ground arith)) refl
]

pub find-append_some :
    (user account : ℕ) (ms : List UserAccount) (x : UserAccount) {m : UserAccount}
    → find_membership user account ms ≡ some m
    → find_membership user account (ms ++ x ∷ []) ≡ some m
find-append_some user account [] x h = absurd (ground arith)
find-append_some user account (y ∷ ms) x {m} h = elim (Bool-cases (is_membership user account y)) [
  | inl e ↦ rw e (rw e at h)
  | inr e ↦ rw e (find-append_some user account ms x {m = m} (rw e at h))
]

pub find-append_none :
    (user account : ℕ) (ms : List UserAccount) (x : UserAccount)
    → find_membership user account ms ≡ none
    → find_membership user account (ms ++ x ∷ [])
      ≡ (if is_membership user account x then some x else none)
find-append_none user account [] x h = refl
find-append_none user account (y ∷ ms) x h = elim (Bool-cases (is_membership user account y)) [
  | inl e ↦ absurd (ground arith)
  | inr e ↦ rw e (find-append_none user account ms x (rw e at h))
]
