-- ===== src/Accounts/Rows.antt =====
-- Rows of accounts and queues that internal/handler/account.go adds or changes, and what is found then.
use crater_backend.Prelude.{
  ℕ, ◌≡◌, refl, ap, ◌∙◌, true, false, not, ◌&&◌, none, some, List, [], ◌∷◌, ◌++◌, String, ◌==◌,
  nat_eq, string_eq, Bool-cases, inl, inr, ◌⊎◌, arith,
}
use Prim.Native.String.{◌++◌ as str_append}
use Prim.Native.String.append.{cons as append_cons}
use Prim.Native.String.compare.{cons-nil as compare_cons}
use text.Mathlib.Text.{is_eq}
use crater_backend.Directory.{Account, QueueQuota, no_quota, find_account}
use crater_backend.Accounts.{
  VolcanoQueue, is_empty, decimal, account_name, or_string, or_quota, change_account,
}
use crater_backend.Accounts.Manage.{find_queue}
use crater_backend.Accounts.Admins.{same_number}

-- Lookups of a row that is added or changed.
pub find_account-append :
    (rows : List Account) (a : Account)
    → a.deleted ≡ false
    → find_account a.id rows ≡ none
    → find_account a.id (rows ++ a ∷ []) ≡ some a
find_account-append [] a live h = rw (live, same_number a.id) refl
find_account-append (x ∷ rows) a live h = elim (Bool-cases (x.id == a.id && not x.deleted)) [
  | inl e ↦ absurd (ground arith)
  | inr e ↦ rw e (find_account-append rows a live (rw e at h))
]

pub find_account-change :
    (f : Account → Account) (id : ℕ) (rows : List Account) {a : Account}
    → ((x : Account) → (f x).id ≡ x.id)
    → ((x : Account) → (f x).deleted ≡ x.deleted)
    → find_account id rows ≡ some a
    → find_account id (change_account f id rows) ≡ some (f a)
unfolding change_account
find_account-change f id [] same live h = absurd (ground arith)
find_account-change f id (x ∷ rows) {a} same live h =
    elim (Bool-cases (x.id == id && not x.deleted)) [
      | inl e ↦
          let it : x ≡ a = ground arith in
          let tests : ((f x).id == id && not (f x).deleted) ≡ true = rw (same x, live x) e in
          rw (e, tests) (ap (λ x. some (f x)) it)
      | inr e ↦ rw (e, e) (find_account-change f id rows {a = a} same live (rw e at h))
    ]

pub find_queue-append :
    (qs : List VolcanoQueue) (q : VolcanoQueue)
    → find_queue q.name qs ≡ none
    → find_queue q.name (qs ++ q ∷ []) ≡ some q
find_queue-append [] q h = ground (arith, string_eq.beq_iff q.name q.name)
find_queue-append (x ∷ qs) q h = elim (Bool-cases (x.name == q.name)) [
  | inl e ↦ absurd (ground arith)
  | inr e ↦ rw e (find_queue-append qs q (rw e at h))
]

-- What the struct writes.
name-not_empty : (id : ℕ) → (account_name id == "") ≡ false
unfolding account_name
name-not_empty id =
    let rest = str_append "-" (decimal 20 id) in
    ap (λ s. s == "") (λ i. append_cons "q" "-" (decimal 20 id) i)
    ∙ ap is_eq (λ i. compare_cons "q" rest i)

pub named_written : (id : ℕ) (b : String) → or_string (account_name id) b ≡ account_name id
named_written id b = rw (name-not_empty id) refl

empty_or : {A : Type 0} (xs : List A) → (xs ≡ []) ⊎ (is_empty xs ≡ false)
empty_or [] = inl refl
empty_or (x ∷ xs) = inr refl

pub quota_written : (q : QueueQuota) → or_quota q no_quota ≡ q
quota_written q = elim (empty_or q.guaranteed) [
  | inr e ↦ rw e refl
  | inl a ↦ elim (empty_or q.deserved) [
    | inr e ↦ ground arith
    | inl b ↦ elim (empty_or q.capability) [ inr e ↦ ground arith | inl c ↦ ground arith ]
  ]
]
