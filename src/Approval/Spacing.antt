-- ===== src/Approval/Spacing.antt =====
-- How often CreateApprovalOrder of internal/handler/approvalorder.go approves orders of a user by
-- itself.
use crater_backend.Prelude.{
  ℕ, ◌≡◌, ◌≢◌, ◌⊎◌, refl, ap, ◌∙◌, Bool, true, false, not, List, [], ◌∷◌, ◌++◌, ◌==◌, nat_eq,
  nat_beq_iff, string_eq, Bool-cases, inl, inr, All, All-append, arith,
}
use crater_backend.Prelude.Int.{ℤ, ltb_ℤ, leb_ℤ}
use crater_backend.Server.{
  State, Result, ok, err, require, write, ask, first, found, attempt, pure, continue,
}
use crater_backend.Approval.{
  Order, Tables, Caller, Clock, OrderRequest, auto_approval_reason, two_days_before,
  recently_auto_approved, check_auto_approval_eligibility, auto_approve, lock_if,
  lock_job_for_approval, new_order, create_approval_order, store_order,
}

-- Two orders of one user that were approved by the system are two days apart, the second as the
-- later one.
abbrev pub Apart : Order → Order → Type 0
Apart a b =
    a.review_notes ≡ auto_approval_reason
    → b.review_notes ≡ auto_approval_reason
    → a.creator_id ≡ b.creator_id
    → ltb_ℤ (two_days_before b.created_at) a.created_at ≡ false

abbrev pub Spaced : List Order → Type 0
Spaced [] = Unit
Spaced (a ∷ os) = All (Apart a) os × Spaced os

auto-effect :
    (clock : Clock) (user : ℕ) (req : OrderRequest) (s : State Tables)
    → ((auto_approve clock user req s).1.tables.orders ≡ s.tables.orders)
      × ((auto_approve clock user req s).1.tables.next_id ≡ s.tables.next_id)
      × ((auto_approve clock user req s).0 ≡ ok true
          → recently_auto_approved user (two_days_before clock.now) s.tables.orders ≡ false)
unfolding auto_approve check_auto_approval_eligibility lock_if lock_job_for_approval require write
    ask first found attempt pure
auto-effect clock user req s = ground arith

-- What a creation did to the orders: nothing, or it put one more at the end.
abbrev Created : Clock → Caller → OrderRequest → Tables → Tables → Type 0
Created clock caller req before after =
    (after.orders ≡ before.orders)
    ⊎ ((auto : Bool) × (after.orders
          ≡ before.orders ++ new_order clock caller.user_id req auto before.next_id ∷ [])
        × (auto ≡ true
            → recently_auto_approved caller.user_id (two_days_before clock.now) before.orders
              ≡ false))

module _ (clock : Clock) (caller : Caller) (req : OrderRequest) (s : State Tables) where
  write-effect :
      (auto : Bool) (s' : State Tables)
      → ((store_order clock caller.user_id req auto s').1.tables.orders ≡ s'.tables.orders)
        ⊎ ((store_order clock caller.user_id req auto s').1.tables.orders
            ≡ s'.tables.orders ++ new_order clock caller.user_id req auto s'.tables.next_id ∷ [])
  unfolding store_order write pure
  write-effect auto s' = ground arith

  stored :
      (r : Result Bool × State Tables)
      → (r.1.tables.orders ≡ s.tables.orders)
      → (r.1.tables.next_id ≡ s.tables.next_id)
      → (r.0 ≡ ok true
          → recently_auto_approved caller.user_id (two_days_before clock.now) s.tables.orders
            ≡ false)
      → Created clock caller req s.tables
          (continue r (store_order clock caller.user_id req)).1.tables
  unfolding store_order write pure
  stored (err e, s') same next fresh = inl same
  stored (ok auto, s') same next fresh = elim (write-effect auto s') [
    | inl kept ↦ inl (kept ∙ same)
    | inr more ↦ inr (auto, rw (← same, ← next) more, λ e. fresh (ap ok e))
  ]

  create-effect :
      Created clock caller req s.tables (create_approval_order clock caller req s).1.tables
  unfolding create_approval_order require
  create-effect =
      let (same, next, fresh) = auto-effect clock caller.user_id req s in
      elim (Bool-cases (not (caller.user_id == 0))) [
        | inl e ↦ rw e (stored (auto_approve clock caller.user_id req s) same next fresh)
        | inr e ↦ rw e (inl refl)
      ]

later_days :
    (now later t : ℤ)
    → leb_ℤ now later ≡ true
    → ltb_ℤ (two_days_before now) t ≡ false
    → ltb_ℤ (two_days_before later) t ≡ false
later_days now later t h g = ground arith

-- What the check for recent orders says.
recent-Apart :
    (user : ℕ) (now : ℤ) (os : List Order) (b : Order)
    → recently_auto_approved user (two_days_before now) os ≡ false
    → b.creator_id ≡ user
    → leb_ℤ now b.created_at ≡ true
    → All (λ a. Apart a b) os
unfolding recently_auto_approved
recent-Apart user now [] b h same later = tt
recent-Apart user now (a ∷ os) b h same later = (
  λ noted noted' creator. ground (
    arith,
    later_days now b.created_at a.created_at,
    nat_beq_iff a.creator_id user,
    string_eq.beq_iff a.review_notes auto_approval_reason,
  ),
  recent-Apart user now os b (ground arith) same later,
)

plain-Apart :
    (os : List Order) (b : Order) → b.review_notes ≢ auto_approval_reason → All (λ a. Apart a b) os
plain-Apart [] b h = tt
plain-Apart (a ∷ os) b h = (λ noted noted' creator. absurd (h noted'), plain-Apart os b h)

Spaced-append :
    (os : List Order) (b : Order) → Spaced os → All (λ a. Apart a b) os → Spaced (os ++ b ∷ [])
Spaced-append [] b s h = (tt, tt)
Spaced-append (a ∷ os) b s h =
    (All-append (Apart a) os (b ∷ []) s.0 (h.0, tt), Spaced-append os b s.1 h.1)

-- The system approves two orders of one user only if they are two days apart: this stays true of all
-- orders in the table through every creation, whoever asks for what and whichever queries fail, if
-- the new row is not dated before the request.
pub create_approval_order-Spaced :
    (clock : Clock) (caller : Caller) (req : OrderRequest) (s : State Tables)
    → leb_ℤ clock.now clock.created ≡ true
    → Spaced s.tables.orders
    → Spaced (create_approval_order clock caller req s).1.tables.orders
unfolding new_order
create_approval_order-Spaced clock caller req s later spaced =
    elim (create-effect clock caller req s) [
      | inl same ↦ rw same spaced
      | inr (false, same, fresh) ↦ rw same (
          Spaced-append _ _ spaced (
            plain-Apart _ (new_order clock caller.user_id req false s.tables.next_id)
              (λ e. ground (arith, string_eq.beq_iff "" auto_approval_reason))))
      | inr (true, same, fresh) ↦ rw same (
          Spaced-append _ _ spaced (
            recent-Apart caller.user_id clock.now _
              (new_order clock caller.user_id req true s.tables.next_id) (fresh refl) refl later))
    ]
