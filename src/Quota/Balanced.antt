-- ===== src/Quota/Balanced.antt =====
-- The two accounts of a QuotaInfo of pkg/aitaskctl/quota.go through AddTask and DeleteTask.
use crater_backend.Prelude.{
  ◌≡◌, none, some, ◌==◌, nat_eq, string_eq, list_eq, Distinct, arith, Option-cases, Bool-cases, inl,
  inr,
}
use crater_backend.Prelude.Dict.{get, put, remove, keys, Distinct-put, Distinct-remove}
use crater_backend.Resources.{Quantity}
use crater_backend.Model.{AiTask, high_slo, low_slo}
use crater_backend.Model.Key.{Text, key_func}
use crater_backend.Quota.{Decoder, QuotaInfo, charge, add_task, discharge, delete_task}
use crater_backend.Quota.Ledger.{Ledger, Ledger-charge, Ledger-put, Ledger-discharge, Ledger-remove}

module _ {Q : Type 0} ⦃n : Quantity Q⦄ ⦃d : Decoder Q⦄ where
  -- The books of an account: both accounts are exact.
  pub record IsBalanced (info : QuotaInfo Q) : Type 0 where
    pub listed : Distinct (keys info.used_tasks)
    pub high : Ledger high_slo info.hard_used info.used_tasks
    pub low : Ledger low_slo info.soft_used info.used_tasks

  module _ (t : AiTask) (info : QuotaInfo Q) (v : IsBalanced info) where
    charge-IsBalanced :
        get (key_func t) info.used_tasks ≡ none
        → IsBalanced (charge t (record info { used_tasks = put (key_func t) t info.used_tasks }))
    unfolding charge
    charge-IsBalanced fresh =
        let k = key_func t in
        let listed = Distinct-put k t info.used_tasks v.listed in
        elim (Bool-cases (t.slo == high_slo)) [
          | inl e ↦ rw e (record {
            listed = listed;
            high =
                Ledger-charge high_slo info.hard_used info.used_tasks v.high k t fresh
                  (ground arith);
            low = Ledger-put low_slo info.soft_used info.used_tasks v.low k t fresh (ground arith);
          })
          | inr e ↦ rw e (elim (Bool-cases (t.slo == low_slo)) [
            | inl f ↦ rw f (record {
              listed = listed;
              high = Ledger-put high_slo info.hard_used info.used_tasks v.high k t fresh e;
              low =
                  Ledger-charge low_slo info.soft_used info.used_tasks v.low k t fresh
                    (ground arith);
            })
            | inr f ↦ rw f (record {
              listed = listed;
              high = Ledger-put high_slo info.hard_used info.used_tasks v.high k t fresh e;
              low = Ledger-put low_slo info.soft_used info.used_tasks v.low k t fresh f;
            })
          ])
        ]

    -- AddTask keeps both accounts exact: what is used of a resource stays the sum of what the
    -- tasks on the books ask for, for any SLO and whether the task is new or not.
    pub add_task-IsBalanced : IsBalanced (add_task t info)
    unfolding add_task
    add_task-IsBalanced = elim (Option-cases (get (key_func t) info.used_tasks)) [
      | inl e ↦ rw (e, add_task) (charge-IsBalanced e)
      | inr (u, e) ↦ rw (e, add_task) v
    ]

  module _ (k : Text) (t : AiTask) (info : QuotaInfo Q) (v : IsBalanced info) where
    discharge-IsBalanced :
        get k info.used_tasks ≡ some t
        → IsBalanced (discharge t (record info { used_tasks = remove k info.used_tasks }))
    unfolding discharge
    discharge-IsBalanced stored =
        let listed = Distinct-remove k info.used_tasks v.listed in
        elim (Bool-cases (t.slo == high_slo)) [
          | inl e ↦ rw e (record {
            listed = listed;
            high =
                Ledger-discharge high_slo info.hard_used info.used_tasks v.high k t v.listed stored
                  (ground arith);
            low =
                Ledger-remove low_slo info.soft_used info.used_tasks v.low k t v.listed stored
                  (ground arith);
          })
          | inr e ↦ rw e (elim (Bool-cases (t.slo == low_slo)) [
            | inl f ↦ rw f (record {
              listed = listed;
              high =
                  Ledger-remove high_slo info.hard_used info.used_tasks v.high k t v.listed stored
                    e;
              low =
                  Ledger-discharge low_slo info.soft_used info.used_tasks v.low k t v.listed stored
                    (ground arith);
            })
            | inr f ↦ rw f (record {
              listed = listed;
              high =
                  Ledger-remove high_slo info.hard_used info.used_tasks v.high k t v.listed stored
                    e;
              low =
                  Ledger-remove low_slo info.soft_used info.used_tasks v.low k t v.listed stored f;
            })
          ])
        ]

  -- DeleteTask keeps both accounts exact: it pays back what the task on the books asked for, which
  -- need not be what the task that it is called with asks for.
  pub delete_task-IsBalanced :
      (t : AiTask) (info : QuotaInfo Q) → IsBalanced info → IsBalanced (delete_task t info)
  unfolding delete_task
  delete_task-IsBalanced t info v = elim (Option-cases (get (key_func t) info.used_tasks)) [
    | inl e ↦ rw (e, delete_task) v
    | inr (u, e) ↦ rw (e, delete_task) (discharge-IsBalanced (key_func t) u info v e)
  ]
