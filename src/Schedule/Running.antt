-- ===== src/Schedule/Running.antt =====
-- schedule.rs: a run of a task, from the claim that keeps a second one out to what it records.
use hydra_server.Shared.{
  ℕ, zero, suc, String, ◌-◌, ◌/◌, Bool, Option, none, some, List, [], ◌∷◌, ◌++◌, any, delete,
  if◌then◌else◌, ◌==◌,
}
use Prim.Native.String.{◌++◌ as ◌+++◌}
use hydra_server.Shared.Int.{ℤ, pos}
use hydra_server.ApiError.{ApiError, Result, ok, err, new}
use hydra_server.Triggers.{Trigger}
use hydra_server.Triggers.Timer.{Calendar}
use hydra_server.Schedule.{Job, Task, TaskRow, get, next_timer_run, if_enabled, new_row, upsert}

-- `Reason`, with what its label is made of.
pub data Reason : Type 0 where
  timer : Trigger → Reason
  started : Reason
  after : (parent : String) → Reason
  event : (kind summary : String) → Reason
  condition : Trigger → (measured : ℤ) → Reason
  manual : Reason

-- `Reason::kind`
unfoldable pub kind : Reason → String
kind (timer t) = "timer"
kind started = "startup"
kind (after parent) = "after"
kind (event k summary) = "event"
kind (condition t measured) = "condition"
kind manual = "manual"

-- A row of `scheduled_task_runs`, less its texts.
pub record RunRow : Type 0 where
  pub task_id : String
  pub reason : Reason
  pub started_at : ℕ
  pub finished_at : ℕ
  pub status : String
  pub summary : String

-- An event of the log.
pub record Logged : Type 0 where
  pub kind : String
  pub summary : String
  pub at : ℕ

pub record Schedule : Type 0 where
  pub tasks : List TaskRow
  -- the newest first, which is the order of their ids
  pub runs : List RunRow
  -- `running_tasks`
  pub running : List String
  pub events : List Logged

abbrev pub run_history : ℕ
run_history = 50

abbrev pub is_running : String → List String → Bool
is_running id running = any (λ r. r == id) running

-- `Claim::take`: `insert` of a set, which answers whether the value is new
unfoldable pub take_claim : String → List String → Option (List String)
take_claim id running = if is_running id running then none else some (id ∷ running)

-- `Claim::drop`
unfoldable pub drop_claim : String → List String → List String
drop_claim id running = delete (λ r. r == id) running

abbrev pub of_task : String → RunRow → Bool
of_task id r = r.task_id == id

-- DELETE … AND id NOT IN (… ORDER BY id DESC LIMIT n): the newest n rows of the task stay.
unfoldable pub trim_runs : ℕ → String → List RunRow → List RunRow
trim_runs n id [] = []
trim_runs zero id (r ∷ runs) =
    let rest = trim_runs zero id runs in if of_task id r then rest else r ∷ rest
trim_runs (suc n) id (r ∷ runs) =
    let rest = trim_runs (if of_task id r then n else suc n) id runs in r ∷ rest

unfoldable pub record_run : String → RunRow → List RunRow → List RunRow
unfolding trim_runs
record_run id run runs = trim_runs run_history id (run ∷ runs)

-- `result["summary"].as_str().unwrap_or("Done")`
abbrev summary_or : Option String → String
summary_or none = "Done"
summary_or (some s) = s

-- What a job answered: the summary of its result, if that has one, or an error.
abbrev pub Outcome : Type 0
Outcome = Result (Option String)

abbrev pub status_of : Outcome → String
status_of (ok s) = "ok"
status_of (err e) = "error"

abbrev pub summary_of : Outcome → String
summary_of (ok s) = summary_or s
summary_of (err e) = e.message

-- `(finished - started).num_milliseconds()`, for a run that ends no earlier than it starts
abbrev pub duration_ms : ℕ → ℕ → ℕ
duration_ms start finish = (finish - start) / 1000000

abbrev pub ran : ℕ → ℕ → Option ℕ → Outcome → TaskRow → TaskRow
ran start finish next outcome row = record row {
  next_run_at = next;
  last_run_at = some start;
  last_status = some (status_of outcome);
  last_summary = some (summary_of outcome);
  last_duration_ms = some (pos (duration_ms start finish));
}

-- The kind of the event that a run is logged by.
abbrev pub event_kind : Reason → Outcome → String
event_kind reason (err e) = "system.task.failed"
event_kind manual (ok s) = "admin.task.run"
event_kind _ (ok s) = "system.task.ran"

abbrev pub event_summary : String → Reason → Outcome → String
event_summary title reason (err e) = title +++ (" failed: " +++ e.message)
event_summary title manual (ok s) = "Ran " +++ (title +++ (" by hand — " +++ summary_or s))
event_summary title _ (ok s) = title +++ (": " +++ summary_or s)

-- A run that has its claim: the task as it was read, and since when it runs.
pub record Active : Type 0 where
  pub id : String
  pub task : Task
  pub reason : Reason
  pub since : ℕ

abbrev conflict : Task → ApiError
conflict task = new 409 (task.job.title +++ " is already running")

-- The begin of `run`, up to the call of the job.
unfoldable pub begin_run : List Job → String → Reason → ℕ → Schedule → Result Active × Schedule
unfolding get take_claim
begin_run jobs id reason start s = elim (get jobs s.tasks id) [
  | err e ↦ (err e, s)
  | ok task ↦ elim (take_claim id s.running) [
    | none ↦ (err (conflict task), s)
    | some running ↦ (
      ok (record { id = id; task = task; reason = reason; since = start }),
      record s { running = running },
    )
  ]
]

abbrev pub run_row : Active → ℕ → Outcome → RunRow
run_row a finish outcome = record {
  task_id = a.id;
  reason = a.reason;
  started_at = a.since;
  finished_at = finish;
  status = status_of outcome;
  summary = summary_of outcome;
}

abbrev pub next_of : Calendar → Active → ℕ → Option ℕ
next_of calendar a finish =
    if_enabled a.task.enabled (next_timer_run calendar finish a.task.triggers)

-- The rest of `run`, once the job has answered; the claim is dropped last.
unfoldable pub end_run : Calendar → Active → ℕ → Outcome → Schedule → Schedule
unfolding record_run drop_claim
end_run calendar a finish outcome s =
    let next = next_of calendar a finish in
    let f = ran a.since finish next outcome in
    record {
      tasks = upsert (f (new_row finish a.id a.task.enabled a.task.triggers next)) f s.tasks;
      runs = record_run a.id (run_row a finish outcome) s.runs;
      running = drop_claim a.id s.running;
      events =
          s.events
          ++ record {
            kind = event_kind a.reason outcome;
            summary = event_summary a.task.job.title a.reason outcome;
            at = finish;
          }
            ∷ [];
    }
