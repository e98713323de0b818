-- ===== src/Schedule/Checked.antt =====
-- What an accepted change of the schedule has passed, and what is read back of it.
use hydra_server.Shared.{
  ℕ, String, ◌≤◌, ◌≡◌, refl, sym, ap, ◌∙◌, Memᴰ, Bool, true, false, inl, inr, Option, none, some,
  List, length, ltb, str-eq, arith, Bool-cases, Option-cases, first-some_inv,
}
use hydra_server.ApiError.{ok, ok-injective}
use hydra_server.Triggers.{Trigger, validate}
use hydra_server.Triggers.Timer.{Calendar}
use hydra_server.Schedule.{
  Job, Task, TaskRow, find, job_id, is_schedulable, schedulable_job, stored_task, get,
  next_timer_run, if_enabled, validate_all, new_row, rescheduled, reschedule, update_to,
  update_task, max_triggers, unwrap_or, task_of,
}
use hydra_server.Schedule.Stored.{stored-upsert}
use hydra_server.Schedule.Earliest.{IsEarliest, validate_all-inv, if_enabled-IsEarliest}

-- The task carries no more triggers than it may, each passes its check, and its next run is the
-- earliest of its timers from `now` on, or none while the task is off.
abbrev pub IsSound : Calendar → ℕ → List Job → String → Task → Type 0
IsSound calendar now jobs id task =
    (length task.triggers ≤ 8)
    × ((t : Trigger) → Memᴰ t task.triggers → validate (is_schedulable jobs) id t ≡ none)
    × (task.enabled ≡ true → IsEarliest calendar now task.triggers task.next_run_at)
    × (task.enabled ≡ false → task.next_run_at ≡ none)

schedulable-inv : (o : Option Job) (job : Job) → schedulable_job o ≡ some job → o ≡ some job
schedulable-inv none job e = absurd (cc e)
schedulable-inv (some j) job e = ground arith

get-inv :
    (jobs : List Job) (rows : List TaskRow) (id : String) (task : Task)
    → get jobs rows id ≡ ok task
    → (job : Job) × (schedulable_job (find jobs id) ≡ some job)
      × (job.id ≡ id)
      × (find jobs job.id ≡ some job)
unfolding get
get-inv jobs rows id task e = elim (Option-cases (schedulable_job (find jobs id))) [
  | inl n ↦ absurd (cc (rw (get, n) at e))
  | inr (job, p) ↦
      let f : find jobs id ≡ some job = schedulable-inv (find jobs id) job p in
      let (m, q) = first-some_inv (job_id id) jobs f in
      let i : job.id ≡ id = (str-eq job.id id).0 q in (job, p, i, ap (find jobs) i ∙ f)
]

get-run :
    (jobs : List Job) (rows : List TaskRow) (id : String) (job : Job)
    → schedulable_job (find jobs id) ≡ some job
    → get jobs rows id ≡ ok (stored_task jobs rows job)
unfolding get
get-run jobs rows id job e = rw (get, e) refl

reschedule-stored :
    (calendar : Calendar) (now : ℕ) (jobs : List Job) (job : Job) (id : String) (enabled : Bool)
    → (triggers : List Trigger) (rows : List TaskRow) → find jobs job.id ≡ some job
    → job.id ≡ id
    → (row : TaskRow) × (stored_task jobs (reschedule calendar now id enabled triggers rows) job
        ≡ task_of row job)
      × (row.enabled ≡ enabled)
      × (row.triggers ≡ triggers)
      × (row.next_run_at ≡ if_enabled enabled (next_timer_run calendar now triggers))
unfolding reschedule
reschedule-stored calendar now jobs job id enabled triggers rows e i =
    let next = if_enabled enabled (next_timer_run calendar now triggers) in
    let (row, g, o) =
      stored-upsert jobs job (new_row now id enabled triggers next)
        (rescheduled now enabled triggers next) rows e (sym i) (λ r. refl) in
    elim o [
      | inl p ↦ (
        row,
        g,
        ap (λ (r : TaskRow). r.enabled) p,
        ap (λ (r : TaskRow). r.triggers) p,
        ap (λ (r : TaskRow). r.next_run_at) p,
      )
      | inr (r, p) ↦ (
        row,
        g,
        ap (λ (x : TaskRow). x.enabled) p,
        ap (λ (x : TaskRow). x.triggers) p,
        ap (λ (x : TaskRow). x.next_run_at) p,
      )
    ]

update_to-IsSound :
    (calendar : Calendar) (now : ℕ) (jobs : List Job) (job : Job) (id : String) (enabled : Bool)
    → (triggers : List Trigger) (rows : List TaskRow) (task : Task)
    → schedulable_job (find jobs id) ≡ some job
    → job.id ≡ id
    → find jobs job.id ≡ some job
    → (update_to calendar now jobs id enabled triggers rows).0 ≡ ok task
    → IsSound calendar now jobs id task × (task.enabled ≡ enabled) × (task.triggers ≡ triggers)
unfolding update_to
update_to-IsSound calendar now jobs job id enabled triggers rows task p i f e =
    elim (Bool-cases (ltb max_triggers (length triggers))) [
      | inl y ↦ absurd (cc (rw (update_to, y) at e))
      | inr n ↦ elim (Option-cases (validate_all (is_schedulable jobs) id triggers)) [
        | inr (message, v) ↦ absurd (cc (rw (update_to, n, v) at e))
        | inl v ↦
            let (row, g, en, tr, nx) =
              reschedule-stored calendar now jobs job id enabled triggers rows f i in
            let read : get jobs (reschedule calendar now id enabled triggers rows) id ≡ ok task =
              rw (update_to, n, v) at e in
            let same : task_of row job ≡ task =
              sym g
              ∙ ok-injective (
                  sym (get-run jobs (reschedule calendar now id enabled triggers rows) id job p)
                  ∙ read) in
            let t : task.triggers ≡ triggers = ap (λ (x : Task). x.triggers) (sym same) ∙ tr in
            let b : task.enabled ≡ enabled = ap (λ (x : Task). x.enabled) (sym same) ∙ en in
            let u : task.next_run_at ≡ if_enabled enabled (next_timer_run calendar now triggers) =
              ap (λ (x : Task). x.next_run_at) (sym same) ∙ nx in
            let timer : task.next_run_at
                ≡ if_enabled task.enabled (next_timer_run calendar now task.triggers) =
              rw (t, b) u in
            let checked : validate_all (is_schedulable jobs) id task.triggers ≡ none = rw t v in
            let (on, off) =
              if_enabled-IsEarliest calendar now task.enabled task.triggers task.next_run_at
                timer in
            (
              (
                rw t (ground (arith, n)),
                validate_all-inv (is_schedulable jobs) id task.triggers checked,
                on,
                off,
              ),
              b,
              t,
            )
      ]
    ]

-- A change of a task that is accepted is read back as it was asked for, with what the request left out
-- as it was; and the task has then at most eight triggers, each of them passes `validate`, and its next
-- run is, while it is on, a time at which one of them next asks for a run and none of them asks for an
-- earlier one, and none while it is off.
pub update_task-IsSound :
    (calendar : Calendar) (now : ℕ) (jobs : List Job) (id : String) (enabled : Option Bool)
    → (triggers : Option (List Trigger)) (rows : List TaskRow) (before task : Task)
    → get jobs rows id ≡ ok before
    → (update_task calendar now jobs id enabled triggers rows).0 ≡ ok task
    → IsSound calendar now jobs id task
      × (task.enabled ≡ unwrap_or enabled before.enabled)
      × (task.triggers ≡ unwrap_or triggers before.triggers)
unfolding update_task
update_task-IsSound calendar now jobs id enabled triggers rows before task g e =
    let (job, p, i, f) = get-inv jobs rows id before g in
    update_to-IsSound calendar now jobs job id (unwrap_or enabled before.enabled)
      (unwrap_or triggers before.triggers) rows task p i f (rw (update_task, g) at e)
