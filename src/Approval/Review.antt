-- ===== src/Approval/Review.antt =====
-- Who may approve, delete and read the orders of internal/handler/approvalorder.go.
use crater_backend.Prelude.{
  ℕ, ◌≡◌, ◌≢◌, ◌⊎◌, refl, false, not, ◌&&◌, none, some, List, [], ◌∷◌, if◌then◌else◌, ◌==◌, nat_eq,
  nat_beq_iff, string_eq, Option-cases, inl, inr, arith,
}
use mathlib.Core.Option
use crater_backend.Model.Roles.{role_admin}
use crater_backend.Server.{State, ok, require, write, ask, first, found}
use crater_backend.Approval.{
  Order, Tables, Caller, UpdateRequest, find_order, change_order, remove_order, updates, approved,
  update_approval_order, delete_approval_order,
}

pub find-change :
    (f : Order → Order) (id i : ℕ) (os : List Order)
    → ((o : Order) → (f o).id ≡ o.id)
    → find_order i (change_order f id os)
      ≡ Option.map (λ o. if i == id then f o else o) (find_order i os)
unfolding change_order
find-change f id i [] keeps = refl
find-change f id i (o ∷ os) keeps = ground (
  arith,
  keeps o,
  find-change f id i os keeps,
  nat_beq_iff o.id id,
  nat_beq_iff i id,
  nat_beq_iff o.id i,
)

-- What an update may do to an order: it is approved afterwards only if it was before.
abbrev pub ApprovedBefore : Tables → Tables → Type 0
ApprovedBefore before after =
    (i : ℕ) (o : Order)
    → find_order i after.orders ≡ some o
    → o.status ≡ approved
    → (o' : Order) × (find_order i before.orders ≡ some o') × (o'.status ≡ approved)

updated_status :
    (req : UpdateRequest) (id i : ℕ) (os : List Order) (o : Order)
    → (req.status == approved) ≡ false
    → find_order i (change_order (updates req) id os) ≡ some o
    → o.status ≡ approved
    → (o' : Order) × (find_order i os ≡ some o') × (o'.status ≡ approved)
unfolding updates
updated_status req id i os o other h same = elim (Option-cases (find_order i os)) [
  | inl e ↦ absurd (ground (arith, find-change (updates req) id i os (λ o. refl)))
  | inr (o', e) ↦ (
    o',
    e,
    ground (
      arith,
      find-change (updates req) id i os (λ o. refl),
      string_eq.beq_iff req.status approved,
    ),
  )
]

module _ (caller : Caller) (id : ℕ) (req : UpdateRequest) where
  update-effect :
      (s : State Tables)
      → ((update_approval_order caller id req s).1.tables ≡ s.tables)
        ⊎ (((req.status == approved && not (caller.role_platform == role_admin)) ≡ false)
            × ((update_approval_order caller id req s).1.tables
                ≡ record s.tables { orders = change_order (updates req) id s.tables.orders }))
  unfolding update_approval_order require write
  update-effect s = ground arith

  -- A user who is not an administrator cannot approve an order: whatever the request asks for, and
  -- whichever queries fail, an order that is approved afterwards was approved before.
  pub update_approval_order-admin :
      (s : State Tables)
      → (caller.role_platform == role_admin) ≡ false
      → ApprovedBefore s.tables (update_approval_order caller id req s).1.tables
  update_approval_order-admin s plain = elim (update-effect s) [
    | inl same ↦ rw same (λ i o h a. (o, h, a))
    | inr (allowed, same) ↦
        rw same (λ i o h a. updated_status req id i s.tables.orders o (ground arith) h a)
  ]

find-remove :
    (id i : ℕ) (os : List Order)
    → find_order i (remove_order id os) ≡ (if i == id then none else find_order i os)
unfolding remove_order
find-remove id i [] = ground arith
find-remove id i (o ∷ os) =
    ground (arith, find-remove id i os, nat_beq_iff o.id id, nat_beq_iff i id, nat_beq_iff o.id i)

module _ (caller : Caller) (id : ℕ) where
  -- What a deletion did: nothing, or it took an order of the user away.
  abbrev Deleted : State Tables → Type 0
  Deleted s =
      (((delete_approval_order caller id s).1.tables ≡ s.tables)
        × ((delete_approval_order caller id s).0 ≢ ok tt))
      ⊎ ((o : Order) × (find_order id s.tables.orders ≡ some o)
          × (o.creator_id ≡ caller.user_id)
          × ((delete_approval_order caller id s).1.tables
              ≡ record s.tables { orders = remove_order id s.tables.orders }))

  delete-absent :
      (s : State Tables)
      → find_order id s.tables.orders ≡ none
      → ((delete_approval_order caller id s).1.tables ≡ s.tables)
        × ((delete_approval_order caller id s).0 ≢ ok tt)
  unfolding delete_approval_order require write first ask found
  delete-absent s e = ground arith

  delete-found :
      (s : State Tables) {o : Order}
      → find_order id s.tables.orders ≡ some o
      → (((delete_approval_order caller id s).1.tables ≡ s.tables)
          × ((delete_approval_order caller id s).0 ≢ ok tt))
        ⊎ ((o.creator_id ≡ caller.user_id)
            × ((delete_approval_order caller id s).1.tables
                ≡ record s.tables { orders = remove_order id s.tables.orders }))
  unfolding delete_approval_order require write first ask found
  delete-found s e = ground arith

  delete-effect : (s : State Tables) → Deleted s
  delete-effect s = elim (Option-cases (find_order id s.tables.orders)) [
    | inl e ↦ inl (delete-absent s e)
    | inr (o, e) ↦ elim (delete-found s e) [
      | inl same ↦ inl same
      | inr (own, after) ↦ inr (o, e, own, after)
    ]
  ]

  -- Whichever queries fail, a deletion leaves every order but that of the request as it is. It takes
  -- the order of the request away only if it is one of the user's own, and always if it succeeds.
  pub delete_approval_order-own :
      (s : State Tables)
      → ((i : ℕ)
          → (i == id) ≡ false
          → find_order i (delete_approval_order caller id s).1.tables.orders
            ≡ find_order i s.tables.orders)
        × ((find_order id (delete_approval_order caller id s).1.tables.orders
              ≡ find_order id s.tables.orders)
            ⊎ ((o : Order) × (find_order id s.tables.orders ≡ some o)
                × (o.creator_id ≡ caller.user_id)))
        × ((delete_approval_order caller id s).0 ≡ ok tt
            → find_order id (delete_approval_order caller id s).1.tables.orders ≡ none)
  delete_approval_order-own s = elim (delete-effect s) [
    | inl (same, failed) ↦ (λ i h. rw same, inl (rw same), λ h. absurd (failed h))
    | inr (o, there, own, after) ↦ (
      λ i h. rw after (ground (arith, find-remove id i s.tables.orders)),
      inr (o, there, own),
      λ h. rw after (ground (arith, find-remove id id s.tables.orders)),
    )
  ]
