-- ===== src/Schedule/Stored.antt =====
-- What a run and a change of the schedule leave in the tables.
use hydra_server.Shared.{
  ℕ, zero, suc, String, ◌≡◌, refl, ap, ◌∙◌, true, false, ◌⊎◌, inl, inr, none, some, List, [], ◌∷◌,
  take, any, first, select, ◌==◌, str-eq, str_refl, arith, Bool-cases, Option-cases, first-end,
  first-updated, first-some_inv, first-none_inv, mem_of_any,
}
use hydra_server.Schedule.{Job, TaskRow, find, has_id, task_of, stored_task, upsert}
use hydra_server.Schedule.Running.{RunRow, of_task, trim_runs, record_run, run_history}

select-trim :
    (n : ℕ) (id : String) (runs : List RunRow)
    → select (of_task id) (trim_runs n id runs) ≡ take n (select (of_task id) runs)
unfolding trim_runs
select-trim zero id [] = refl
select-trim (suc n) id [] = refl
select-trim zero id (r ∷ runs) = elim (Bool-cases (of_task id r)) [
  | inl y ↦ rw y (select-trim zero id runs)
  | inr k ↦ rw (k, k) (select-trim zero id runs)
]
select-trim (suc n) id (r ∷ runs) = elim (Bool-cases (of_task id r)) [
  | inl y ↦ rw y (ap (λ (l : List RunRow). r ∷ l) (select-trim n id runs))
  | inr k ↦ rw k (select-trim (suc n) id runs)
]

select-trim_other :
    (n : ℕ) (id other : String) (runs : List RunRow)
    → (id == other) ≡ false
    → select (of_task other) (trim_runs n id runs) ≡ select (of_task other) runs
unfolding trim_runs
select-trim_other n id other [] d = refl
select-trim_other zero id other (r ∷ runs) d = ground (
  arith,
  str-eq r.task_id id,
  str-eq r.task_id other,
  str-eq id other,
  select-trim_other zero id other runs d,
)
select-trim_other (suc n) id other (r ∷ runs) d = elim (Bool-cases (of_task id r)) [
  | inl y ↦ rw (y, select-trim_other n id other runs d) refl
  | inr k ↦ rw (k, select-trim_other (suc n) id other runs d) refl
]

-- The log of a task after one more run is its newest fifty runs, the new one first; the logs of the
-- other tasks are what they were.
pub record_run-newest :
    (id other : String) (run : RunRow) (runs : List RunRow)
    → run.task_id ≡ id
    → (id == other) ≡ false
    → (select (of_task id) (record_run id run runs) ≡ take 50 (run ∷ select (of_task id) runs))
      × (select (of_task other) (record_run id run runs) ≡ select (of_task other) runs)
unfolding record_run
record_run-newest id other run runs own d =
    let mine : of_task id run ≡ true = rw own (str_refl id) in
    let apart : of_task other run ≡ false = rw own d in
    (
      select-trim run_history id (run ∷ runs) ∙ rw mine refl,
      select-trim_other run_history id other (run ∷ runs) d ∙ rw apart refl,
    )

any-none :
    (id : String) (rows : List TaskRow)
    → any (has_id id) rows ≡ false
    → first (has_id id) rows ≡ none
any-none id [] e = refl
any-none id (r ∷ rows) e = ground (arith, any-none id rows)

-- The row of an id after an INSERT with its ON CONFLICT DO UPDATE.
pub first-upsert :
    (row : TaskRow) (f : TaskRow → TaskRow) (rows : List TaskRow)
    → ((r : TaskRow) → (f r).id ≡ r.id)
    → (later : TaskRow) × (first (has_id row.id) (upsert row f rows) ≡ some later)
      × ((later ≡ row) ⊎ ((r : TaskRow) × (later ≡ f r)))
      × (later.id ≡ row.id)
first-upsert row f rows same = elim (Bool-cases (any (has_id row.id) rows)) [
  | inr n ↦ (
    row,
    rw n (first-end (has_id row.id) rows row (any-none row.id rows n) (str_refl row.id)),
    inl refl,
    refl,
  )
  | inl y ↦ elim (Option-cases (first (has_id row.id) rows)) [
    | inl e ↦
        let (a, m, p) = mem_of_any (has_id row.id) rows y in
        absurd (cc (first-none_inv (has_id row.id) rows e m, p))
    | inr (r, e) ↦
        let (m, p) = first-some_inv (has_id row.id) rows e in
        let kept : (x : TaskRow) → has_id row.id (f x) ≡ has_id row.id x =
          λ (x : TaskRow). ap (λ (t : String). t == row.id) (same x) in
        (
          f r,
          rw y (first-updated (has_id row.id) (has_id row.id) f r rows kept e ∙ rw p refl),
          inr (r, refl),
          same r ∙ (str-eq r.id row.id).0 p,
        )
  ]
]

-- What `get` reads after a write of the task's row.
pub stored-upsert :
    (jobs : List Job) (job : Job) (row : TaskRow) (f : TaskRow → TaskRow) (rows : List TaskRow)
    → find jobs job.id ≡ some job
    → row.id ≡ job.id
    → ((r : TaskRow) → (f r).id ≡ r.id)
    → (later : TaskRow) × (stored_task jobs (upsert row f rows) job ≡ task_of later job)
      × ((later ≡ row) ⊎ ((r : TaskRow) × (later ≡ f r)))
unfolding stored_task
stored-upsert jobs job row f rows e i same =
    let (later, g, o, k) = first-upsert row f rows same in
    let found : first (has_id job.id) (upsert row f rows) ≡ some later = rw (← i) g in
    let named : find jobs later.id ≡ some job = rw (k, i) e in
    (later, rw (stored_task, found, named) refl, o)
