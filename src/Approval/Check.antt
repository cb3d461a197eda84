-- ===== src/Approval/Check.antt =====
-- The check of pending orders of internal/handler/approvalorder.go against the jobs they are about.
use crater_backend.Prelude.{
  ℕ, ◌+◌, ◌≡◌, refl, ap, subst, ◌∙◌, Bool, true, false, ◌&&◌, Option, none, some, List, [], ◌∷◌,
  String, if◌then◌else◌, ◌==◌, nat_eq, nat_beq_iff, string_eq, Bool-cases, inl, inr, All, arith,
  contains, Distinct, length, map,
}
use mathlib.Core.Option
use crater_backend.Prelude.Dict.{get}
use crater_backend.Lock.{Job, JobTable}
use crater_backend.Server.{State, ok, write, ask, first, found, attempt, pure, continue, caught}
use crater_backend.Approval.{Order, Tables, find_order, change_order, pending, cancelled, type_job}
use crater_backend.Approval.Jobs.{
  pending_job_orders, is_job_running, check_order, check_orders, judge_order, cancel_counted,
  cancel_approval_order, update_approval_order_by_job_status,
}
use crater_backend.Approval.Review.{find-change}

abbrev pub ids : List Order → List ℕ
ids = map (λ o. o.id)

absent-find : (i : ℕ) (os : List Order) → contains (ids os) i ≡ false → find_order i os ≡ none
absent-find i [] h = refl
absent-find i (o ∷ os) h = ground (arith, absent-find i os)

-- The orders that the check reads, and where they stand.
find-other :
    (o : Order) (os ps : List Order)
    → contains (ids ps) o.id ≡ false
    → All (λ p. find_order p.id os ≡ some p) ps
    → All (λ p. find_order p.id (o ∷ os) ≡ some p) ps
find-other o os [] d h = tt
find-other o os (p ∷ ps) d h = (
  ground (arith, nat_beq_iff o.id p.id, nat_beq_iff p.id o.id),
  find-other o os ps (ground arith) h.1,
)

find_self : (os : List Order) → Distinct (ids os) → All (λ o. find_order o.id os ≡ some o) os
find_self [] d = tt
find_self (o ∷ os) d =
    (ground (arith, nat_beq_iff o.id o.id), find-other o os os d.0 (find_self os d.1))

All-pending {ℓ} : (P : Order → Type ℓ) (os : List Order) → All P os → All P (pending_job_orders os)
All-pending P [] h = tt
All-pending P (o ∷ os) h = elim (Bool-cases (o.status == pending && o.kind == type_job)) [
  | inl e ↦ rw e (h.0, All-pending P os h.1)
  | inr e ↦ rw e (All-pending P os h.1)
]

contains-pending :
    (i : ℕ) (os : List Order)
    → contains (ids os) i ≡ false
    → contains (ids (pending_job_orders os)) i ≡ false
contains-pending i [] h = refl
contains-pending i (o ∷ os) h = ground (arith, contains-pending i os)

Distinct-pending : (os : List Order) → Distinct (ids os) → Distinct (ids (pending_job_orders os))
Distinct-pending [] d = tt
Distinct-pending (o ∷ os) d = ground (arith, contains-pending o.id os, Distinct-pending os)

abbrev if_pending : Option Order → Option Order
if_pending none = none
if_pending (some o) = if o.status == pending && o.kind == type_job then some o else none

find-pending :
    (i : ℕ) (os : List Order)
    → Distinct (ids os)
    → find_order i (pending_job_orders os) ≡ if_pending (find_order i os)
find-pending i [] d = refl
find-pending i (o ∷ os) d = ground (
  arith,
  find-pending i os d.1,
  nat_beq_iff o.id i,
  absent-find i (pending_job_orders os),
  contains-pending i os,
)

module _ (status_text : String → String) where
  -- The reason to cancel an order about a job, if there is one.
  abbrev pub reason_to_cancel : Option Job → Option String
  reason_to_cancel none = some "Job not found"
  reason_to_cancel (some j) = if is_job_running j.status then none else some (status_text j.status)

  abbrev pub cancel_for : Option String → Order → Order
  cancel_for none o = o
  cancel_for (some reason) o = record o { status = cancelled; review_notes = reason }

  -- What becomes of an order.
  abbrev pub checked : JobTable → Order → Order
  checked jobs o =
      if o.status == pending && o.kind == type_job
      then cancel_for (reason_to_cancel (get o.name jobs)) o
      else o

  -- One round, and all of them, if no query fails.
  abbrev cancel_in : Option String → ℕ → List Order → List Order
  cancel_in none id os = os
  cancel_in (some reason) id os = change_order (cancel_for (some reason)) id os

  abbrev process : JobTable → List Order → List Order → List Order
  process jobs [] os = os
  process jobs (p ∷ ps) os =
      process jobs ps (cancel_in (reason_to_cancel (get p.name jobs)) p.id os)

  abbrev pub reliable : Tables → State Tables
  reliable d = record { faults = []; tables = d }

  judge-run :
      (o : Option Job) (p : Order) (d : Tables)
      → (n : ℕ) × (continue
            (caught (found "Job not found" o (reliable d)))
            (judge_order status_text p)
          ≡ (ok n, reliable (record d { orders = cancel_in (reason_to_cancel o) p.id d.orders })))
  unfolding judge_order cancel_counted cancel_approval_order attempt found write pure
  judge-run none p d = (1, refl)
  judge-run (some j) p d = elim (Bool-cases (is_job_running j.status)) [
    | inl f ↦ (0, rw f refl)
    | inr f ↦ (1, rw f refl)
  ]

  check_orders-run :
      (ps : List Order) (d : Tables)
      → (n : ℕ) × (check_orders status_text ps (reliable d)
          ≡ (ok n, reliable (record d { orders = process d.jobs ps d.orders })))
  unfolding check_orders check_order attempt first ask pure
  check_orders-run [] d = (0, refl)
  check_orders-run (p ∷ ps) d =
      let (n, one) = judge-run (get p.name d.jobs) p d in
      let (m, rest) =
        check_orders-run ps
          (record d { orders = cancel_in (reason_to_cancel (get p.name d.jobs)) p.id d.orders }) in
      (n + m, rw (one, rest) refl)

  same_map : (o : Option Order) (b : Bool) → o ≡ Option.map (λ o. if b then o else o) o
  same_map none b = refl
  same_map (some o) true = refl
  same_map (some o) false = refl

  false-map :
      (f : Order → Order) (o : Option Order) → Option.map (λ o. if false then f o else o) o ≡ o
  false-map f none = refl
  false-map f (some o) = refl

  find-cancel_in :
      (r : Option String) (id i : ℕ) (os : List Order)
      → find_order i (cancel_in r id os)
        ≡ Option.map (λ o. if i == id then cancel_for r o else o) (find_order i os)
  find-cancel_in none id i os = same_map (find_order i os) (i == id)
  find-cancel_in (some reason) id i os = find-change (cancel_for (some reason)) id i os (λ o. refl)

  abbrev outcome : JobTable → Option Order → Option Order → Option Order
  outcome jobs none old = old
  outcome jobs (some p) old = some (cancel_for (reason_to_cancel (get p.name jobs)) p)

  module _ (jobs : JobTable) where
    still :
        (p : Order) (r : Option String) (ps os : List Order)
        → contains (ids ps) p.id ≡ false
        → All (λ o. find_order o.id os ≡ some o) ps
        → All (λ o. find_order o.id (cancel_in r p.id os) ≡ some o) ps
    still p r [] os d h = tt
    still p r (o ∷ ps) os d h = (
      ground (arith, find-cancel_in r p.id o.id os, nat_beq_iff o.id p.id),
      still p r ps os (ground arith) h.1,
    )

    -- The rounds over orders that stand in the table, each id once.
    find-process :
        (ps : List Order) (i : ℕ) (os : List Order)
        → Distinct (ids ps)
        → All (λ p. find_order p.id os ≡ some p) ps
        → find_order i (process jobs ps os) ≡ outcome jobs (find_order i ps) (find_order i os)
    find-process [] i os d h = refl
    find-process (p ∷ ps) i os d h =
        let r = reason_to_cancel (get p.name jobs) in
        let rest = find-process ps i (cancel_in r p.id os) d.1 (still p r ps os d.0 h.1) in
        let here = find-cancel_in r p.id i os in
        elim (Bool-cases (p.id == i)) [
          | inl e ↦
              let same : p.id ≡ i = (nat_beq_iff p.id i).0 e in
              let gone : find_order i ps ≡ none =
                absent-find i ps (subst (λ k. contains (ids ps) k ≡ false) same d.0) in
              let old : find_order i os ≡ some p = subst (λ k. find_order k os ≡ some p) same h.0 in
              let mine : (i == p.id) ≡ true = ground (arith, nat_beq_iff i p.id) in
              rw (e, rest, gone, here, old, mine) refl
          | inr e ↦
              let other : (i == p.id) ≡ false =
                ground (arith, nat_beq_iff i p.id, nat_beq_iff p.id i) in
              rw (e, rest, here, other)
                (ap (outcome jobs (find_order i ps)) (false-map (cancel_for r) (find_order i os)))
        ]

  judged :
      (jobs : JobTable) (o : Option Order)
      → outcome jobs (if_pending o) o ≡ Option.map (checked jobs) o
  judged jobs none = refl
  judged jobs (some o) = elim (Bool-cases (o.status == pending && o.kind == type_job)) [
    | inl e ↦ rw e refl
    | inr e ↦ rw e refl
  ]

  -- On a table that has each id once, and if no query fails, the check cancels exactly the pending
  -- orders about jobs that are not there or do not run, leaves every other order and all else as it
  -- is, and reports how many orders it checked.
  pub update_by_job_status-checked :
      (d : Tables)
      → Distinct (ids d.orders)
      → (n : ℕ) × (os : List Order) × (update_approval_order_by_job_status status_text (reliable d)
          ≡ (ok (length (pending_job_orders d.orders), n), reliable (record d { orders = os })))
        × ((i : ℕ) → find_order i os ≡ Option.map (checked d.jobs) (find_order i d.orders))
  unfolding update_approval_order_by_job_status ask pure
  update_by_job_status-checked d distinct =
      let ps = pending_job_orders d.orders in
      let (n, run) = check_orders-run ps d in
      let stands =
        All-pending (λ p. find_order p.id d.orders ≡ some p) d.orders
          (find_self d.orders distinct) in
      (
        n,
        process d.jobs ps d.orders,
        rw run refl,
        λ i.
            find-process d.jobs ps i d.orders (Distinct-pending d.orders distinct) stands
            ∙ ap (λ o. outcome d.jobs o (find_order i d.orders)) (find-pending i d.orders distinct)
            ∙ judged d.jobs (find_order i d.orders),
      )
