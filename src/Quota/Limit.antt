-- ===== src/Quota/Limit.antt =====
-- The limit of an account of pkg/aitaskctl/quota.go: a task that passes the check does not take the
-- account over it, and its removal gives everything back.
use crater_backend.Prelude.{
  ◌≡◌, ◌⊎◌, refl, sym, ◌∙◌, true, false, none, some, String, if◌then◌else◌, ◌==◌, nat_eq, string_eq,
  list_eq, Distinct, is_some, arith, Option-cases, Bool-cases, inl, inr,
}
use crater_backend.Prelude.Dict.{get, put, keys, get-put_self, get-remove-put}
use crater_backend.Resources.{
  Quantity, ResourceList, amount, add_resource_list, check_resource_list_exceed,
}
use crater_backend.Resources.Amounts.{get-add_resource_list, sub-add_resource_list, get-sub-add}
use crater_backend.Resources.Exceed.{Within, check_resource_list_exceed_iff}
use crater_backend.Model.{AiTask, high_slo, low_slo}
use crater_backend.Model.Key.{Text, key_func}
use crater_backend.Quota.{
  Decoder, requested, QuotaInfo, charge, add_task, discharge, delete_task, check_hard_quota_exceed,
}
use crater_backend.Quota.Ledger.{Distinct-requested}

-- Two records of the same account: the same tasks on the books, of every resource the same amounts in
-- use, and every entry of the first as it was. An entry that only the second has is one of no amount.
pub record SameBooks {Q : Type 0} ⦃n : Quantity Q⦄ (before after : QuotaInfo Q) : Type 0 where
  pub tasks : (j : Text) → get j after.used_tasks ≡ get j before.used_tasks
  pub hard_amounts : (k : String) → amount k after.hard_used ≡ amount k before.hard_used
  pub soft_amounts : (k : String) → amount k after.soft_used ≡ amount k before.soft_used
  pub hard_entries :
      (k : String) (q : Q) → get k before.hard_used ≡ some q → get k after.hard_used ≡ some q
  pub soft_entries :
      (k : String) (q : Q) → get k before.soft_used ≡ some q → get k after.soft_used ≡ some q

module _ {Q : Type 0} ⦃n : Quantity Q⦄ ⦃d : Decoder Q⦄ (t : AiTask) (info : QuotaInfo Q) where
  -- What AddTask does to the hard account: a new guaranteed task adds what it asks for, and nothing
  -- else changes it.
  pub hard_used-add_task : (add_task t info).hard_used ≡ (
      if is_some (get (key_func t) info.used_tasks)
      then info.hard_used
      else (if t.slo == high_slo
          then add_resource_list info.hard_used (requested t)
          else info.hard_used))
  unfolding add_task charge
  hard_used-add_task = elim (Option-cases (get (key_func t) info.used_tasks)) [
    | inl e ↦
        rw (e, add_task)
          (elim (Bool-cases (t.slo == high_slo)) [
            | inl f ↦ rw f
            | inr f ↦ rw f (elim (Bool-cases (t.slo == low_slo)) [ inl g ↦ rw g | inr g ↦ rw g ])
          ])
    | inr (u, e) ↦ rw (e, add_task)
  ]

  pub hard-add_task : (add_task t info).hard ≡ info.hard
  unfolding add_task charge
  hard-add_task = elim (Option-cases (get (key_func t) info.used_tasks)) [
    | inl e ↦
        rw (e, add_task)
          (elim (Bool-cases (t.slo == high_slo)) [
            | inl f ↦ rw f
            | inr f ↦ rw f (elim (Bool-cases (t.slo == low_slo)) [ inl g ↦ rw g | inr g ↦ rw g ])
          ])
    | inr (u, e) ↦ rw (e, add_task)
  ]

  module _ (distinct : Distinct (keys info.hard_used))
      (passed : check_hard_quota_exceed t info ≡ false) where
    -- A new guaranteed task that passed the check leaves every resource that its account uses
    -- within the account's hard limit.
    pub add_task-Within :
        t.slo ≡ high_slo
        → get (key_func t) info.used_tasks ≡ none
        → Within (add_task t info).hard (add_task t info).hard_used
    unfolding check_hard_quota_exceed
    add_task-Within high fresh =
        let mine : (t.slo == high_slo) ≡ true = ground arith in
        let other : (t.slo == low_slo) ≡ false = ground arith in
        let within : check_resource_list_exceed info.hard info.hard_used (requested t) ≡ false =
          rw other at passed in
        let parts =
          (check_resource_list_exceed_iff info.hard info.hard_used (requested t) distinct
              (Distinct-requested d t)).0
            within in
        rw (hard-add_task, hard_used-add_task, fresh, mine)
          (λ k q g. parts k q (
            sym (get-add_resource_list info.hard_used (requested t) k (Distinct-requested d t))
            ∙ g))

    -- Whatever its SLO, a task that passed the check leaves the hard account as it was or within
    -- the limit.
    pub add_task_safe :
        ((add_task t info).hard_used ≡ info.hard_used)
        ⊎ Within (add_task t info).hard (add_task t info).hard_used
    add_task_safe = elim (Option-cases (get (key_func t) info.used_tasks)) [
      | inr (u, e) ↦ inl (rw (hard_used-add_task, e))
      | inl e ↦ elim (Bool-cases (t.slo == high_slo)) [
        | inl f ↦ inr (add_task-Within (ground arith) e)
        | inr f ↦ inl (rw (hard_used-add_task, e, f))
      ]
    ]

  used-add_task :
      get (key_func t) info.used_tasks ≡ none
      → (add_task t info).used_tasks ≡ put (key_func t) t info.used_tasks
  unfolding add_task charge
  used-add_task e =
      rw (e, add_task)
        (elim (Bool-cases (t.slo == high_slo)) [
          | inl f ↦ rw f
          | inr f ↦ rw f (elim (Bool-cases (t.slo == low_slo)) [ inl g ↦ rw g | inr g ↦ rw g ])
        ])

  -- Deleting a task that was new when it was added gives back every amount: the tasks on the books are
  -- those from before, of every resource the same amounts are in use, and every entry that was there is
  -- as it was. An entry that the task brought in stays, and is of no amount.
  pub delete_task-add_task :
      get (key_func t) info.used_tasks ≡ none → SameBooks info (delete_task t (add_task t info))
  unfolding delete_task add_task charge discharge
  delete_task-add_task fresh =
      let k = key_func t in
      let there = get-put_self k t info.used_tasks in
      let gone = get-remove-put k t info.used_tasks fresh in
      let back = λ (a : ResourceList Q) (r : String).
        sub-add_resource_list a (requested t) r (Distinct-requested d t) in
      let entry = λ (a : ResourceList Q) (r : String) (q : Q) (e : get r a ≡ some q).
        get-sub-add a (requested t) r (Distinct-requested d t) e in
      rw (fresh, add_task)
        (elim (Bool-cases (t.slo == high_slo)) [
          | inl f ↦
              rw (f, there, delete_task, f)
                (record {
                  tasks = gone;
                  hard_amounts = back info.hard_used;
                  soft_amounts = λ r. refl;
                  hard_entries = entry info.hard_used;
                  soft_entries = λ r q e. e;
                })
          | inr f ↦ rw f (elim (Bool-cases (t.slo == low_slo)) [
            | inl g ↦
                rw (g, there, delete_task, f, g)
                  (record {
                    tasks = gone;
                    hard_amounts = λ r. refl;
                    soft_amounts = back info.soft_used;
                    hard_entries = λ r q e. e;
                    soft_entries = entry info.soft_used;
                  })
            | inr g ↦
                rw (g, there, delete_task, f, g)
                  (record {
                    tasks = gone;
                    hard_amounts = λ r. refl;
                    soft_amounts = λ r. refl;
                    hard_entries = λ r q e. e;
                    soft_entries = λ r q e. e;
                  })
          ])
        ])
