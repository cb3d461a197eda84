-- ===== src/Accounts/Leftover.antt =====
-- What a request for a new account of internal/handler/account.go that fails leaves of the queues of
-- Volcano, which no rollback of the database takes away.
use crater_backend.Prelude.{
  ℕ, ◌≡◌, ◌⊎◌, refl, sym, ap, ◌∙◌, subst, Bool, true, false, not, Option, none, some, List, [], ◌∷◌,
  ◌++◌, String, string_eq, Bool-cases, Option-cases, inl, inr, arith,
}
use crater_backend.Server.{
  State, M, Result, ok, err, continue, require, transaction, settle, write, write_with, change,
  change_with, changed, pure, when, ◌>>◌,
}
use crater_backend.Server.Keeps.{Keeps, Keeps-bind, Keeps-pure, Keeps-write, Keeps-change}
use crater_backend.Directory.{Account, account_taken}
use crater_backend.Token.{JwtMessage}
use crater_backend.Accounts.{
  Site, AccountReq, VolcanoQueue, is_empty, restore, insert_account, store_account, insert_member,
  others,
}
use crater_backend.Accounts.Manage.{
  admin_of, add_admins, find_queue, insert_queue, create_volcano_queue, new_account, named_account,
  build_account, create_account,
}

module _ (token : JwtMessage) (req : AccountReq) (qs : List VolcanoQueue) where
  -- One queue more, made for the caller with the quota of the request.
  abbrev pub OneMore : List VolcanoQueue → Type 0
  OneMore qs' =
      (q : VolcanoQueue) × (q.created_by ≡ token.username)
      × (q.quota ≡ req.quota)
      × (qs' ≡ qs ++ q ∷ [])

  abbrev Left : Result ℕ × State Site → Type 0
  Left (ok id, s) = (s.tables.queues ≡ qs) ⊎ OneMore s.tables.queues
  Left (err e, s) = s.tables.queues ≡ qs

  abbrev Same : Site → Type 0
  Same w = w.queues ≡ qs

  -- The queues after a change, or those of the start.
  abbrev queues_of : {A : Type 0} → Option (A × Site) → List VolcanoQueue
  queues_of none = qs
  queues_of (some (a, w)) = w.queues

  insert-Same :
      (b : Account) (w : Site) (a : Account) (w' : Site)
      → Same w
      → insert_account b w ≡ some (a, w')
      → Same w'
  unfolding insert_account
  insert-Same b w a w' p h = elim (Bool-cases (account_taken b.name b.space w.directory.accounts)) [
    | inl e ↦ absurd (ground arith)
    | inr e ↦ sym (ap queues_of (rw e at h)) ∙ p
  ]

  store-Same :
      (b : Account) (w : Site) (w' : Site) → Same w → store_account b w ≡ some (tt, w') → Same w'
  unfolding store_account
  store-Same b w w' p h =
      elim (Bool-cases (account_taken b.name b.space (others b.id w.directory.accounts))) [
        | inl e ↦ absurd (ground arith)
        | inr e ↦ sym (ap queues_of (rw e at h)) ∙ p
      ]

  admins-Same : (users : List ℕ) (account : ℕ) → Keeps Same (add_admins users account)
  unfolding add_admins insert_member
  admins-Same [] account = Keeps-pure Same tt
  admins-Same (user ∷ users) account =
      Keeps-bind Same (Keeps-write Same _ (insert_member (admin_of account user)) (λ w p. p))
        (λ _. admins-Same users account)

  before-Left :
      {A : Type 0} (r : Result A × State Site) (f : A → M Site ℕ)
      → Same r.1.tables
      → ((a : A) (s : State Site) → Same s.tables → Left (f a s))
      → Left (continue r f)
  before-Left (ok a, s) f p k = k a s p
  before-Left (err e, s) f p k = p

  queue-Left :
      (a : Account) (id : ℕ) (s : State Site)
      → Same s.tables
      → Left (continue (create_volcano_queue token.username a req s) (λ _. pure id))
  unfolding create_volcano_queue change pure
  queue-Left a id s p = made s.faults
    where
      q : VolcanoQueue
      q = record { name = a.name; created_by = token.username; quota = req.quota; running = 0 }

      inserted :
          (fs : List Bool)
          → Left (
              continue
                (changed fs "create queue failed" s.tables (insert_queue q s.tables))
                (λ _. pure id))
      inserted fs = elim (Option-cases (find_queue a.name s.tables.queues)) [
        | inl e ↦ rw (insert_queue, e) (inr (q, refl, refl, ap (λ qs. qs ++ q ∷ []) p))
        | inr (x, e) ↦ rw (insert_queue, e) p
      ]

      made :
          (fs : List Bool)
          → Left (
              continue
                (change_with fs "create queue failed" (insert_queue q) s.tables)
                (λ _. pure id))
      made [] = inserted []
      made (true ∷ fs) = p
      made (false ∷ fs) = inserted fs

  last-Left :
      (without : Bool) (a : Account) (id : ℕ) (s : State Site)
      → Same s.tables
      → Left (
          continue
            (when (not without) (create_volcano_queue token.username a req) s)
            (λ _. pure id))
  unfolding when pure
  last-Left true a id s p = inl p
  last-Left false a id s p = queue-Left a id s p

  inserted-Same :
      Keeps Same (change "create account failed" (insert_account (new_account req.nickname)))
  inserted-Same =
      Keeps-change Same _ (insert_account (new_account req.nickname))
        (λ w a w' p h. insert-Same (new_account req.nickname) w a w' p h)

  stored-Same : (b : Account) → Keeps Same (change "update account failed" (store_account b))
  stored-Same b = Keeps-change Same _ (store_account b) (λ w _ w' p h. store-Same b w w' p h)

  build-Left : (s : State Site) → Same s.tables → Left (build_account token req s)
  unfolding build_account
  build-Left s p =
      before-Left (change "create account failed" (insert_account (new_account req.nickname)) s) _
        (inserted-Same.kept s p)
        (λ a s1 p1.
          before-Left (add_admins req.admins a.id s1) _ ((admins-Same req.admins a.id).kept s1 p1)
            (λ _ s2 p2.
              before-Left (change "update account failed" (store_account (named_account req a)) s2)
                _ ((stored-Same (named_account req a)).kept s2 p2)
                (λ _ s3 p3. last-Left req.without_volcano (named_account req a) a.id s3 p3)))

  settled-Left :
      (old : Site) (r : Result ℕ × State Site) {x : String} {t : State Site}
      → Left r
      → settle restore old (continue r (λ a. write "commit failed" (λ d. d) >> pure a)) ≡ (err x, t)
      → (t.tables.queues ≡ qs) ⊎ ((x ≡ "commit failed") × OneMore t.tables.queues)
  unfolding write pure
  settled-Left old (err y, s) l h = inl (sym (ap (λ r. r.1.tables.queues) h) ∙ l)
  settled-Left old (ok id, s) {x} {t} l h = committed s.faults h
    where
      committed :
          (fs : List Bool)
          → settle restore old
              (continue (write_with fs "commit failed" (λ d. d) s.tables) (λ _. pure id))
            ≡ (err x, t)
          → (t.tables.queues ≡ qs) ⊎ ((x ≡ "commit failed") × OneMore t.tables.queues)
      committed [] h = absurd (ground arith)
      committed (false ∷ fs) h = absurd (ground arith)
      committed (true ∷ fs) h =
          let same : s.tables.queues ≡ t.tables.queues = ap (λ r. r.1.tables.queues) h in
          elim l [ inl p ↦ inl (sym same ∙ p) | inr m ↦ inr (ground arith, subst OneMore same m) ]

  pub create-Left :
      (s : State Site) {x : String} {t : State Site}
      → Same s.tables
      → create_account token req s ≡ (err x, t)
      → (t.tables.queues ≡ qs) ⊎ ((x ≡ "commit failed") × OneMore t.tables.queues)
  unfolding create_account require transaction
  create-Left s {x} {t} p h = checked (not (is_empty req.admins)) h
    where
      checked :
          (c : Bool)
          → continue
              (require "Admins is empty" c s)
              (λ _. transaction restore "commit failed" (build_account token req))
            ≡ (err x, t)
          → (t.tables.queues ≡ qs) ⊎ ((x ≡ "commit failed") × OneMore t.tables.queues)
      checked true h = settled-Left s.tables (build_account token req s) (build-Left s p) h
      checked false h = inl (sym (ap (λ r. r.1.tables.queues) h) ∙ p)
