-- ===== src/Accounts/Created.antt =====
-- What CreateAccount of internal/handler/account.go has made when it succeeds.
use crater_backend.Prelude.{
  ℕ, suc, ◌≡◌, refl, sym, ap, ◌∙◌, subst, false, not, contains, Option, none, some, [], ◌∷◌, ◌++◌,
  String, nat_eq, string_eq, Bool-cases, Option-cases, inl, inr, arith,
}
use crater_backend.Server.{State, Result, continue, ok, pure, when}
use crater_backend.Server.Passed.{
  part_passed, require_passed, change_passed, pure_passed, transaction_passed,
}
use crater_backend.Directory.{Account, no_quota, find_account, find_membership, account_taken}
use crater_backend.Token.{JwtMessage}
use crater_backend.Accounts.{
  Site, AccountReq, VolcanoQueue, is_empty, restore, account_name, insert_account, store_account,
  updates_account, change_account, others,
}
use crater_backend.Accounts.Manage.{
  add_admins, insert_queue, create_volcano_queue, new_account, named_account, build_account,
  create_account, find_queue,
}
use crater_backend.Accounts.Admins.{AllAdmins, OnlyAdmins, add_admins_effect, add_admins-out}
use crater_backend.Accounts.Rows.{
  find_account-append, find_account-change, find_queue-append, named_written, quota_written,
}

-- The new account: its name and its space are made of its id, and its quota is that of the request;
-- the administrators of the request are administrators with full access in it, and no other user is in
-- it; and unless the request is without Volcano, there is a queue of its name with its quota.
pub record IsCreated (token : JwtMessage) (req : AccountReq) (id : ℕ) (w : Site) : Type 0 where
  pub account : Account
  pub known : find_account id w.directory.accounts ≡ some account
  pub name : account.name ≡ account_name id
  pub space : account.space ≡ account_name id
  pub quota : account.quota ≡ req.quota
  pub admins : AllAdmins id w.directory.user_accounts req.admins
  pub others :
      (user : ℕ)
      → contains req.admins user ≡ false
      → find_membership user id w.directory.user_accounts ≡ none
  pub queue :
      req.without_volcano ≡ false
      → (q : VolcanoQueue) × (find_queue (account_name id) w.queues ≡ some q)
        × (q.quota ≡ req.quota)
        × (q.created_by ≡ token.username)

module _ (token : JwtMessage) (req : AccountReq) where
  -- The effect of each of the three parts on the site.
  insert_effect :
      (w : Site) {a : Account} {w' : Site}
      → find_account w.directory.next_account w.directory.accounts ≡ none
      → insert_account (new_account req.nickname) w ≡ some (a, w')
      → (a ≡ record (new_account req.nickname) { id = w.directory.next_account })
        × (find_account w.directory.next_account w'.directory.accounts ≡ some a)
        × (w'.directory.user_accounts ≡ w.directory.user_accounts)
        × (w'.queues ≡ w.queues)
  unfolding insert_account
  insert_effect w {a} {w'} fresh h = elim (Bool-cases (account_taken "" "" w.directory.accounts)) [
    | inl e ↦ absurd (ground arith)
    | inr e ↦
        let row = record (new_account req.nickname) { id = w.directory.next_account } in
        let same : Path (Option (Account × Site))
            (some (
              row,
              record w {
                directory = record w.directory {
                  accounts = w.directory.accounts ++ row ∷ [];
                  next_account = suc w.directory.next_account;
                };
              },
            ))
            (some (a, w')) =
          rw e at h in
        let is_row : row ≡ a = ground arith in
        let is_site : record w {
          directory = record w.directory {
            accounts = w.directory.accounts ++ row ∷ [];
            next_account = suc w.directory.next_account;
          };
        }
            ≡ w' =
          ground arith in
        (
          sym is_row,
          subst (λ w'. find_account w.directory.next_account w'.directory.accounts ≡ some a) is_site
              (find_account-append w.directory.accounts row refl fresh ∙ ap some is_row),
          sym (ap (λ w. w.directory.user_accounts) is_site),
          sym (ap (λ w. w.queues) is_site),
        )
  ]

  store_effect :
      (b : Account) (w : Site) {a : Account} {w' : Site}
      → find_account b.id w.directory.accounts ≡ some a
      → store_account b w ≡ some (tt, w')
      → (find_account b.id w'.directory.accounts ≡ some (updates_account b a))
        × (w'.directory.user_accounts ≡ w.directory.user_accounts)
        × (w'.queues ≡ w.queues)
  unfolding store_account updates_account
  store_effect b w {a} {w'} known h =
      elim (Bool-cases (account_taken b.name b.space (others b.id w.directory.accounts))) [
        | inl e ↦ absurd (ground arith)
        | inr e ↦
            let same : Path (Option (Unit {0} × Site))
                (some (
                  tt,
                  record w {
                    directory = record w.directory {
                      accounts = change_account (updates_account b) b.id w.directory.accounts;
                    };
                  },
                ))
                (some (tt, w')) =
              rw e at h in
            let is_site : record w {
              directory = record w.directory {
                accounts = change_account (updates_account b) b.id w.directory.accounts;
              };
            }
                ≡ w' =
              ground arith in
            (
              subst (λ w'. find_account b.id w'.directory.accounts ≡ some (updates_account b a))
                  is_site
                  (find_account-change (updates_account b) b.id w.directory.accounts (λ x. refl)
                    (λ x. refl) known),
              sym (ap (λ w. w.directory.user_accounts) is_site),
              sym (ap (λ w. w.queues) is_site),
            )
      ]

  queue_effect :
      (q : VolcanoQueue) (w : Site) {w' : Site}
      → insert_queue q w ≡ some (tt, w')
      → (w'.directory ≡ w.directory) × (find_queue q.name w'.queues ≡ some q)
  unfolding insert_queue
  queue_effect q w {w'} h = elim (Option-cases (find_queue q.name w.queues)) [
    | inr (x, e) ↦ absurd (ground arith)
    | inl e ↦
        let same : Path (Option (Unit {0} × Site))
            (some (tt, record w { queues = w.queues ++ q ∷ [] })) (some (tt, w')) =
          rw (insert_queue, e) at h in
        let is_site : record w { queues = w.queues ++ q ∷ [] } ≡ w' = ground arith in
        (
          sym (ap (λ w. w.directory) is_site),
          subst (λ w'. find_queue q.name w'.queues ≡ some q) is_site
              (find_queue-append w.queues q e),
        )
  ]

  -- The queue, unless the request is without one.
  HasQueue : String → Site → Type 0
  HasQueue name w =
      req.without_volcano ≡ false
      → (q : VolcanoQueue) × (find_queue name w.queues ≡ some q)
        × (q.quota ≡ req.quota)
        × (q.created_by ≡ token.username)

  volcano_effect :
      (a : Account) (s : State Site) {B : Type 0}
      (k : Unit {0} → State Site → Result B × State Site) {b : B} {t : State Site}
      → continue (when (not req.without_volcano) (create_volcano_queue token.username a req) s) k
        ≡ (ok b, t)
      → (s' : State Site) × (s'.tables.directory ≡ s.tables.directory)
        × HasQueue a.name s'.tables
        × (k tt s' ≡ (ok b, t))
  unfolding when HasQueue create_volcano_queue pure
  volcano_effect a s k h = elim (Bool-cases req.without_volcano) [
    | inl e ↦ (s, refl, (λ f. absurd (ground arith)), rw e at h)
    | inr e ↦
        let q : VolcanoQueue = record {
          name = a.name;
          created_by = token.username;
          quota = req.quota;
          running = 0;
        } in
        let (_, s', made, h') = change_passed _ (insert_queue q) s k (rw e at h) in
        let (same, found) = queue_effect q s.tables made in
        (s', same, (λ _. (q, found, refl, refl)), h')
  ]

  fields :
      (a : Account)
      → a.quota ≡ no_quota
      → ((updates_account (named_account req a) a).name ≡ account_name a.id)
        × ((updates_account (named_account req a) a).space ≡ account_name a.id)
        × ((updates_account (named_account req a) a).quota ≡ req.quota)
  unfolding updates_account
  fields a e =
      (named_written a.id a.name, named_written a.id a.space, rw e (quota_written req.quota))

  assembled :
      (w : Site) (s1 s2 s3 s4 : State Site) (a : Account)
      → find_account w.directory.next_account w.directory.accounts ≡ none
      → ((user : ℕ)
          → find_membership user w.directory.next_account w.directory.user_accounts ≡ none)
      → insert_account (new_account req.nickname) w ≡ some (a, s1.tables)
      → add_admins req.admins a.id s1 ≡ (ok tt, s2)
      → store_account (named_account req a) s2.tables ≡ some (tt, s3.tables)
      → s4.tables.directory ≡ s3.tables.directory
      → HasQueue (account_name a.id) s4.tables
      → IsCreated token req a.id s4.tables
  unfolding HasQueue
  assembled w s1 s2 s3 s4 a fresh nobody made grown stored same queue =
      let (row, known, users1, _) = insert_effect w fresh made in
      let id : w.directory.next_account ≡ a.id = ap (λ a. a.id) (sym row) in
      let nobody1 : (user : ℕ)
          → find_membership user a.id s1.tables.directory.user_accounts ≡ none =
        λ user.
          subst (λ ms. find_membership user a.id ms ≡ none) (sym users1)
            (subst (λ n. find_membership user n w.directory.user_accounts ≡ none) id
              (nobody user)) in
      let only : OnlyAdmins a.id s1.tables.directory.user_accounts = λ user. inl (nobody1 user) in
      let (g, all) = add_admins_effect req.admins a.id s1 only grown in
      let there : find_account a.id s2.tables.directory.accounts ≡ some a =
        subst (λ rows. find_account a.id rows ≡ some a) (sym g.accounts)
          (subst (λ n. find_account n s1.tables.directory.accounts ≡ some a) id known) in
      let (written, users3, _) = store_effect (named_account req a) s2.tables there stored in
      let row4 = updates_account (named_account req a) a in
      let (name, space, quota) = fields a (ap (λ a. a.quota) row) in
      record {
        account = row4;
        known = subst (λ d. find_account a.id d.accounts ≡ some row4) (sym same) written;
        name = name;
        space = space;
        quota = quota;
        admins =
            subst (λ ms. AllAdmins a.id ms req.admins)
              (sym (ap (λ d. d.user_accounts) same ∙ users3)) all;
        others = λ user away.
            subst (λ ms. find_membership user a.id ms ≡ none)
              (sym (ap (λ d. d.user_accounts) same ∙ users3))
              (add_admins-out req.admins a.id user s1 grown away (nobody1 user));
        queue = queue;
      }

  build_effect :
      (s : State Site) {id : ℕ} {t : State Site}
      → find_account s.tables.directory.next_account s.tables.directory.accounts ≡ none
      → ((user : ℕ)
          → find_membership user s.tables.directory.next_account s.tables.directory.user_accounts
            ≡ none)
      → build_account token req s ≡ (ok id, t)
      → IsCreated token req id t.tables
  unfolding build_account
  build_effect s {id} {t} fresh nobody h =
      let (a, s1, made, h1) = change_passed _ (insert_account (new_account req.nickname)) s _ h in
      let (_, s2, grown, h2) = part_passed (add_admins req.admins a.id s1) _ h1 in
      let (_, s3, stored, h3) = change_passed _ (store_account (named_account req a)) s2 _ h2 in
      let (s4, same, queue, h4) = volcano_effect (named_account req a) s3 _ h3 in
      let (value, last) = pure_passed a.id s4 h4 in
      subst (λ t. IsCreated token req id t.tables) last
        (subst (λ id. IsCreated token req id s4.tables) value
          (assembled s.tables s1 s2 s3 s4 a fresh nobody made grown stored same queue))

  -- If no account has the next id of an account and nobody is in an account of that id, then a request
  -- for a new account that ends without an error has made the account of the id that it answers: its
  -- name and space are made of the id, its quota is that of the request, the administrators of the
  -- request are administrators with full access in it, no other user is in it, the caller included, and
  -- unless the request is without Volcano there is a queue of its name with its quota and the label of
  -- the caller.
  pub create_account-IsCreated :
      (s : State Site) {id : ℕ} {t : State Site}
      → find_account s.tables.directory.next_account s.tables.directory.accounts ≡ none
      → ((user : ℕ)
          → find_membership user s.tables.directory.next_account s.tables.directory.user_accounts
            ≡ none)
      → create_account token req s ≡ (ok id, t)
      → IsCreated token req id t.tables
  unfolding create_account
  create_account-IsCreated s fresh nobody h =
      let (_, h1) = require_passed _ (not (is_empty req.admins)) s _ h in
      let (s1, built, same) =
        transaction_passed restore "commit failed" (build_account token req) s h1 in
      subst (IsCreated token req _) (sym same) (build_effect s fresh nobody built)
