-- ===== src/Schedule.antt =====
-- schedule.rs: the scheduled tasks. The table of jobs (jobs.rs) is a parameter, and so is what a job
-- answers. Times are nanoseconds after the epoch; the column `triggers` holds the list it encodes.
pub mod Running
pub mod Due
pub mod Claims
pub mod Stored
pub mod Punctual
pub mod Earliest
pub mod Checked
mod Tests
use hydra_server.Shared.{
  ℕ, String, ◌+◌, ◌*◌, Bool, true, false, not, ◌&&◌, ◌||◌, Option, none, some, List, [], ◌∷◌, ◌++◌,
  length, any, first, update, if◌then◌else◌, ltb, ◌==◌,
}
use Prim.Native.String.{◌++◌ as ◌+++◌}
use hydra_server.Shared.Int.{ℤ}
use hydra_server.ApiError.{ApiError, Result, ok, err, not_found, bad_request}
use hydra_server.CloudSaves.State.{Event}
use hydra_server.Achievements.{and_then}
use hydra_server.Triggers.{Trigger, validate}
use hydra_server.Triggers.Timer.{Calendar, ns_per_minute, next_run}

-- A job of `JOBS`, with what `default_schedule` answers for it.
pub record Job : Type 0 where
  pub id : String
  pub title : String
  pub schedulable : Bool
  pub default_enabled : Bool
  pub default_triggers : List Trigger

-- A row of `scheduled_tasks`.
pub record TaskRow : Type 0 where
  pub id : String
  pub enabled : Bool
  pub triggers : List Trigger
  pub next_run_at : Option ℕ
  pub last_run_at : Option ℕ
  pub last_status : Option String
  pub last_summary : Option String
  pub last_duration_ms : Option ℤ
  pub updated_at : ℕ

pub record Task : Type 0 where
  pub job : Job
  pub enabled : Bool
  pub triggers : List Trigger
  pub next_run_at : Option ℕ
  pub last_run_at : Option ℕ
  pub last_status : Option String
  pub last_summary : Option String
  pub last_duration_ms : Option ℤ

abbrev pub job_id : String → Job → Bool
job_id id job = job.id == id

abbrev pub has_id : String → TaskRow → Bool
has_id id row = row.id == id

-- `jobs::find`
abbrev pub find : List Job → String → Option Job
find jobs id = first (job_id id) jobs

abbrev pub is_schedulable : List Job → String → Bool
is_schedulable jobs id = any (λ job. job_id id job && job.schedulable) jobs

abbrev pub schedulable_job : Option Job → Option Job
schedulable_job none = none
schedulable_job (some job) = if job.schedulable then some job else none

abbrev pub task_of : TaskRow → Job → Task
task_of row job = record {
  job = job;
  enabled = row.enabled;
  triggers = row.triggers;
  next_run_at = row.next_run_at;
  last_run_at = row.last_run_at;
  last_status = row.last_status;
  last_summary = row.last_summary;
  last_duration_ms = row.last_duration_ms;
}

abbrev pub task_from_row : List Job → TaskRow → Option Task
task_from_row jobs row = and_then (find jobs row.id) (λ job. some (task_of row job))

abbrev pub default_task : Job → Task
default_task job = record {
  job = job;
  enabled = job.default_enabled;
  triggers = job.default_triggers;
  next_run_at = none;
  last_run_at = none;
  last_status = none;
  last_summary = none;
  last_duration_ms = none;
}

abbrev or_default : Option Task → Job → Task
or_default none job = default_task job
or_default (some task) job = task

-- The task of a job, whether it has a row or not.
unfoldable pub stored_task : List Job → List TaskRow → Job → Task
stored_task jobs rows job =
    or_default (and_then (first (has_id job.id) rows) (task_from_row jobs)) job

abbrev no_task : String → ApiError
no_task id = not_found ("no scheduled task named " +++ id)

unfoldable pub get : List Job → List TaskRow → String → Result Task
unfolding stored_task
get jobs rows id = elim (schedulable_job (find jobs id)) [
  | none ↦ err (no_task id)
  | some job ↦ ok (stored_task jobs rows job)
]

unfoldable pub list : List Job → List TaskRow → List Task
unfolding stored_task
list [] rows = []
list (job ∷ jobs) rows =
    let rest = list jobs rows in
    if job.schedulable then stored_task (job ∷ []) rows job ∷ rest else rest

-- `min` of two times, of which `none` is no run
abbrev pub sooner : Option ℕ → Option ℕ → Option ℕ
sooner none b = b
sooner (some a) none = some a
sooner (some a) (some b) = some (if ltb b a then b else a)

-- `Task::next_timer_run`
unfoldable pub next_timer_run : Calendar → ℕ → List Trigger → Option ℕ
unfolding next_run
next_timer_run calendar from [] = none
next_timer_run calendar from (t ∷ triggers) =
    sooner (next_run calendar from t) (next_timer_run calendar from triggers)

abbrev pub if_enabled : Bool → Option ℕ → Option ℕ
if_enabled enabled next = if enabled then next else none

abbrev pub max_triggers : ℕ
max_triggers = 8

-- The first refusal of a trigger.
unfoldable pub validate_all : (String → Bool) → String → List Trigger → Option String
unfolding validate
validate_all known owner [] = none
validate_all known owner (t ∷ triggers) = elim (validate known owner t) [
  | some message ↦ some message
  | none ↦ validate_all known owner triggers
]

abbrev pub new_row : ℕ → String → Bool → List Trigger → Option ℕ → TaskRow
new_row now id enabled triggers next = record {
  id = id;
  enabled = enabled;
  triggers = triggers;
  next_run_at = next;
  last_run_at = none;
  last_status = none;
  last_summary = none;
  last_duration_ms = none;
  updated_at = now;
}

abbrev pub rescheduled : ℕ → Bool → List Trigger → Option ℕ → TaskRow → TaskRow
rescheduled now enabled triggers next row = record row {
  enabled = enabled;
  triggers = triggers;
  next_run_at = next;
  updated_at = now;
}

-- INSERT … ON CONFLICT(id) DO UPDATE
abbrev pub upsert : TaskRow → (TaskRow → TaskRow) → List TaskRow → List TaskRow
upsert row f rows =
    if any (has_id row.id) rows then update (has_id row.id) f rows else rows ++ row ∷ []

abbrev pub unwrap_or {ℓ} : {A : Type ℓ} → Option A → A → A
unwrap_or none d = d
unwrap_or (some a) d = a

-- The write of `update`.
unfoldable pub reschedule :
    Calendar → ℕ → String → Bool → List Trigger → List TaskRow → List TaskRow
unfolding next_timer_run
reschedule calendar now id enabled triggers rows =
    let next = if_enabled enabled (next_timer_run calendar now triggers) in
    upsert (new_row now id enabled triggers next) (rescheduled now enabled triggers next) rows

-- `update`, for the triggers that the task is to have.
unfoldable pub update_to :
    Calendar
    → ℕ
    → List Job
    → String
    → Bool
    → List Trigger
    → List TaskRow
    → Result Task × List TaskRow
unfolding validate_all reschedule get
update_to calendar now jobs id enabled triggers rows =
    if ltb max_triggers (length triggers)
    then (err (bad_request "a task can carry at most 8 triggers"), rows)
    else elim (validate_all (is_schedulable jobs) id triggers) [
      | some message ↦ (err (bad_request message), rows)
      | none ↦
          let later = reschedule calendar now id enabled triggers rows in (get jobs later id, later)
    ]

unfoldable pub update_task :
    Calendar
    → ℕ
    → List Job
    → String
    → Option Bool
    → Option (List Trigger)
    → List TaskRow
    → Result Task × List TaskRow
unfolding get update_to
update_task calendar now jobs id enabled triggers rows = elim (get jobs rows id) [
  | err e ↦ (err e, rows)
  | ok current ↦
      update_to calendar now jobs id (unwrap_or enabled current.enabled)
        (unwrap_or triggers current.triggers) rows
]

abbrev pub first_run_delay_minutes : ℕ
first_run_delay_minutes = 5

abbrev pub first_row : ℕ → Job → TaskRow
first_row now job =
    new_row now job.id job.default_enabled job.default_triggers
      (if_enabled job.default_enabled (some (now + first_run_delay_minutes * ns_per_minute)))

-- `ensure_rows`: ON CONFLICT DO NOTHING
unfoldable pub ensure_rows : ℕ → List Job → List TaskRow → List TaskRow
ensure_rows now [] rows = rows
ensure_rows now (job ∷ jobs) rows = ensure_rows now jobs (
    if job.schedulable && not (any (has_id job.id) rows)
    then rows ++ first_row now job ∷ []
    else rows)
