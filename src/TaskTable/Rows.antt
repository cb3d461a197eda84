-- ===== src/TaskTable/Rows.antt =====
-- What the calls of pkg/aitaskctl/task.go return and leave of the rows.
use crater_backend.Prelude.{
  ℕ, ◌≡◌, ◌⊎◌, refl, ◌∙◌, true, false, some, List, [], ◌∷◌, String, ◌==◌, nat_eq, string_eq,
  contains, All, Bool-cases, Option-cases, inl, inr, arith,
}
use crater_backend.Prelude.Dict.{get, values, get-put, get-put_self}
use crater_backend.Model.{AiTask}
use crater_backend.TaskTable.{
  TaskTable, Access, get_by_id, change_row, stamp, update_status, is_listed, listed_tasks,
  list_by_user_and_statuses,
}

-- What a listed row is.
abbrev pub Listed : String → List String → AiTask → Type 0
Listed user statuses t =
    (t.user_name ≡ user)
    × ((statuses ≡ []) ⊎ ((contains statuses t.status ≡ true) × (t.is_deleted ≡ false)))

is_listed-Listed :
    (user : String) (statuses : List String) (t : AiTask)
    → is_listed user statuses t ≡ true
    → Listed user statuses t
unfolding is_listed
is_listed-Listed user [] t h = ((string_eq.beq_iff t.user_name user).0 h, inl refl)
is_listed-Listed user (s ∷ statuses) t h =
    let own : (t.user_name == user) ≡ true = ground arith in
    ((string_eq.beq_iff t.user_name user).0 own, inr (ground arith, ground arith))

listed_tasks-Listed :
    (user : String) (statuses : List String) (ts : List AiTask)
    → All (Listed user statuses) (listed_tasks user statuses ts)
unfolding listed_tasks
listed_tasks-Listed user statuses [] = tt
listed_tasks-Listed user statuses (t ∷ ts) = elim (Bool-cases (is_listed user statuses t)) [
  | inl e ↦ rw e (is_listed-Listed user statuses t e, listed_tasks-Listed user statuses ts)
  | inr e ↦ rw e (listed_tasks-Listed user statuses ts)
]

-- Every row that a query for a user's tasks returns is the user's, and if statuses were given, it
-- has one of them and is not marked as deleted.
pub list_by_user_and_statuses-Listed :
    (db : Access) (user : String) (statuses : List String) (rows : TaskTable) {ts : List AiTask}
    → list_by_user_and_statuses db user statuses rows ≡ some ts
    → All (Listed user statuses) ts
unfolding list_by_user_and_statuses
list_by_user_and_statuses-Listed db user statuses rows {ts} h = elim (Bool-cases db.reads) [
  | inr e ↦ absurd (ground arith)
  | inl e ↦
      let same : listed_tasks user statuses (values rows) ≡ ts = ground arith in
      rw (← same) (listed_tasks-Listed user statuses (values rows))
]

change_row-other :
    (db : Access) (f : AiTask → AiTask) (id other : ℕ) (rows : TaskTable)
    → (id == other) ≡ false
    → get other (change_row db f id rows).1 ≡ get other rows
unfolding change_row
change_row-other db f id other rows h = elim (Bool-cases db.writes) [
  | inr e ↦ rw e refl
  | inl e ↦ rw e (elim (Option-cases (get id rows)) [
    | inl g ↦ rw (g, change_row) refl
    | inr (t, g) ↦ rw (g, change_row) (get-put id other (f t) rows ∙ rw h refl)
  ])
]

change_row-own :
    (db : Access) (f : AiTask → AiTask) (id : ℕ) (rows : TaskTable) {t : AiTask}
    → db.writes ≡ true
    → get id rows ≡ some t
    → ((change_row db f id rows).0 ≡ true) × (get id (change_row db f id rows).1 ≡ some (f t))
unfolding change_row
change_row-own db f id rows {t} w g = rw (w, g, change_row) (refl, get-put_self id (f t) rows)

get_by_id-reads :
    (db : Access) (id : ℕ) (rows : TaskTable) → db.reads ≡ true → get_by_id db id rows ≡ get id rows
unfolding get_by_id
get_by_id-reads db id rows r = rw r refl

-- A change to the status that a row has.
update_status-same :
    (db : Access) (now id : ℕ) (status reason : String) (rows : TaskTable) {t : AiTask}
    → db.reads ≡ true
    → get id rows ≡ some t
    → t.status ≡ status
    → update_status db now id status reason rows ≡ (true, rows)
unfolding update_status
update_status-same db now id status reason rows {t} r g e =
    let found : get_by_id db id rows ≡ some t = get_by_id-reads db id rows r ∙ g in
    let equal : (t.status == status) ≡ true = (string_eq.beq_iff t.status status).1 e in
    rw (found, update_status, equal) refl

module _ (db : Access) (now id : ℕ) (status reason : String) (rows : TaskTable) where
  -- A change of a task's status leaves every other row as it was.
  pub update_status-other :
      (other : ℕ)
      → (id == other) ≡ false
      → get other (update_status db now id status reason rows).1 ≡ get other rows
  unfolding update_status
  update_status-other other h = elim (Option-cases (get_by_id db id rows)) [
    | inl e ↦ rw (e, update_status) refl
    | inr (t, e) ↦
        rw (e, update_status)
          (elim (Bool-cases (t.status == status)) [
            | inl f ↦ rw f refl
            | inr f ↦ rw f (change_row-other db _ id other rows h)
          ])
  ]

  update_status-done :
      {t : AiTask}
      → db.reads ≡ true
      → db.writes ≡ true
      → get id rows ≡ some t
      → let (done, after) = update_status db now id status reason rows in
        (done ≡ true) × ((u : AiTask) × (get id after ≡ some u) × (u.status ≡ status))
  unfolding update_status
  update_status-done {t} r w g =
      let found : get_by_id db id rows ≡ some t = get_by_id-reads db id rows r ∙ g in
      elim (Bool-cases (t.status == status)) [
        | inl f ↦
            rw (found, update_status, f) (refl, (t, g, (string_eq.beq_iff t.status status).0 f))
        | inr f ↦
            let change : AiTask → AiTask =
              λ row. record (stamp now status row) { status = status; status_reason = reason } in
            let (done, there) = change_row-own db change id rows w g in
            rw (found, update_status, f) (done, (change t, there, refl))
      ]

  -- If the queries succeed and there is a row, a change of its status succeeds and leaves a row with
  -- that status; a second change to the same status, at any later time and for any reason, succeeds
  -- and changes nothing, so that the times and the reason of the first stay.
  pub update_status_twice :
      (t : AiTask)
      → db.reads ≡ true
      → db.writes ≡ true
      → get id rows ≡ some t
      → let (done, after) = update_status db now id status reason rows in
        (done ≡ true)
        × ((u : AiTask) × (get id after ≡ some u) × (u.status ≡ status))
        × ((later : ℕ) (again : String)
            → update_status db later id status again after ≡ (true, after))
  update_status_twice t r w g =
      let (done, row) = update_status-done r w g in
      (
        done,
        row,
        λ later again.
            update_status-same db later id status again
              (update_status db now id status reason rows).1 r row.1 row.2,
      )
