-- ===== src/Schedule/Tests.antt =====
-- A task and one of its runs, and the theorems of the schedule at them.
use hydra_server.Shared.{
  String, ◌*◌, ◌≤◌, ◌≡◌, refl, true, false, none, some, List, [], ◌∷◌, count, if◌then◌else◌, arith,
}
use hydra_server.Shared.Int.{pos}
use hydra_server.ApiError.{ok}
use hydra_server.Triggers.{Trigger, every, minute}
use hydra_server.Triggers.Timer.{Calendar, ns_per_minute}
use hydra_server.Schedule.{
  next_timer_run, Job, Task, TaskRow, get, update_task, ensure_rows, stored_task, unwrap_or,
}
use hydra_server.Schedule.Running.{timer, manual, Schedule, Active, is_running, begin_run, end_run}
use hydra_server.Schedule.Due.{Surroundings, fired, due, after_parent}
use hydra_server.Schedule.Claims.{here, next, begins, Reach-one_run, runs_of}
use hydra_server.Schedule.Punctual.{end_run-not_due, end_run-forgets, after_parent-misses}
use hydra_server.Schedule.Checked.{IsSound, update_task-IsSound}

abbrev calendar : Calendar
calendar = record {
  first_of_month = λ t. none;
  first_of_next = λ t. none;
  add_months = λ t n. none;
}

abbrev hourly : Trigger
hourly = every (pos 60) minute none none none

abbrev job : String → Job
job id = record {
  id = id;
  title = "Sweep";
  schedulable = true;
  default_enabled = true;
  default_triggers = hourly ∷ [];
}

abbrev jobs : List Job
jobs = job "sweep" ∷ job "vacuum" ∷ []

abbrev rows : List TaskRow
rows = ensure_rows 0 jobs []

abbrev idle : Schedule
idle = record { tasks = rows; runs = []; running = []; events = [] }

abbrev sweeping : Active
sweeping = record {
  id = "sweep";
  task = stored_task jobs rows (job "sweep");
  reason = manual;
  since = 10;
}

abbrev busy : Schedule
busy = record idle { running = "sweep" ∷ [] }

begin_run_run : begin_run jobs "sweep" manual 10 idle ≡ (ok sweeping, busy)
unfolding begin_run
begin_run_run = refl

abbrev around : Surroundings
around = record { started_at = 0; measure = λ m. pos 0; ascii_lower = λ s. s }

due_run :
    due around jobs idle (6 * ns_per_minute)
    ≡ ("sweep", timer hourly) ∷ ("vacuum", timer hourly) ∷ []
unfolding due ensure_rows
due_run = refl

not_yet_run : due around jobs idle (4 * ns_per_minute) ≡ []
unfolding due ensure_rows
not_yet_run = refl

Reach-one_run_example :
    (count (runs_of "sweep") (sweeping ∷ []) ≤ 1)
    × (count (runs_of "sweep") (sweeping ∷ [])
        ≡ (if is_running "sweep" ("sweep" ∷ []) then 1 else 0))
Reach-one_run_example =
    Reach-one_run calendar jobs (record { schedule = idle; active = [] })
      (record { schedule = busy; active = sweeping ∷ [] }) "sweep" refl refl
      (next here (begins "sweep" manual 10 idle busy sweeping [] begin_run_run))

end_run-not_due_example :
    fired around
      (end_run calendar sweeping 20 (ok none) busy)
      (stored_task jobs (end_run calendar sweeping 20 (ok none) busy).tasks (job "sweep"))
      15
      hourly
    ≡ none
end_run-not_due_example =
    end_run-not_due calendar around jobs (job "sweep") sweeping 20 15 (ok none) busy (pos 60) minute
      none none none refl refl (omega arith)

abbrev timerless : Active
timerless = record sweeping { task = record sweeping.task { triggers = [] } }

end_run-forgets_example :
    fired around
      (end_run calendar timerless 20 (ok none) busy)
      (stored_task jobs (end_run calendar timerless 20 (ok none) busy).tasks (job "sweep"))
      900
      hourly
    ≡ none
unfolding stored_task ensure_rows next_timer_run
end_run-forgets_example =
    end_run-forgets calendar around jobs (job "sweep") timerless 20 900 (ok none) busy (pos 60)
      minute none none none refl refl refl

after_parent-misses_example :
    after_parent (end_run calendar sweeping 20 (ok none) busy).tasks "sweep" (pos 0) (some 12) 30
    ≡ none
after_parent-misses_example =
    after_parent-misses calendar sweeping 20 12 30 (pos 0) (ok none) busy (omega arith)

abbrev switched_off : Task
switched_off = record (stored_task jobs rows (job "sweep")) { enabled = false; next_run_at = none }

update_run : (update_task calendar 5 jobs "sweep" (some false) none rows).0 ≡ ok switched_off
unfolding update_task ensure_rows
update_run = refl

get_run : get jobs rows "sweep" ≡ ok (stored_task jobs rows (job "sweep"))
unfolding get
get_run = refl

update_task-IsSound_example :
    IsSound calendar 5 jobs "sweep" switched_off
    × (switched_off.enabled ≡ unwrap_or (some false) (stored_task jobs rows (job "sweep")).enabled)
    × (switched_off.triggers ≡ unwrap_or none (stored_task jobs rows (job "sweep")).triggers)
update_task-IsSound_example =
    update_task-IsSound calendar 5 jobs "sweep" (some false) none rows
      (stored_task jobs rows (job "sweep")) switched_off get_run update_run
