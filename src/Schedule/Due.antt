-- ===== src/Schedule/Due.antt =====
-- schedule.rs: which tasks ask to run at a tick, and why. What `Metric::measure` reads is a
-- parameter, of which nothing is assumed.
use hydra_server.Shared.{
  ℕ, String, ◌-◌, ◌*◌, Bool, true, false, not, ◌&&◌, ◌||◌, Option, none, some, List, [], ◌∷◌, any,
  first, if◌then◌else◌, ltb, leb, ◌==◌,
}
use hydra_server.Shared.Int.{ℤ, pos, negsuc, ◌+ℤ◌, ◌*ℤ◌, ltb_ℤ}
use hydra_server.Shared.Texts.{trim, starts_with}
use hydra_server.Achievements.{and_then}
use hydra_server.Triggers.{Trigger, Metric, every, startup, after_task, on_event, condition, holds}
use hydra_server.Triggers.Timer.{ns_per_minute}
use hydra_server.Schedule.{Job, Task, TaskRow, has_id, list}
use hydra_server.Schedule.Running.{Reason, timer, started, after, event, Logged, Schedule}

abbrev pub tick_seconds : ℕ
tick_seconds = 30

-- `now >= base + Duration::minutes(minutes)`
abbrev pub waited : ℕ → ℤ → ℕ → Bool
waited base minutes now = not (ltb_ℤ (pos now) (pos base +ℤ minutes *ℤ pos ns_per_minute))

-- `min_gap_minutes.max(0)`
abbrev not_negative : ℤ → ℤ
not_negative (pos n) = pos n
not_negative (negsuc n) = pos 0

abbrev pub is_none_or : Option ℕ → (ℕ → Bool) → Bool
is_none_or none p = true
is_none_or (some t) p = p t

unfoldable pub gap_elapsed : Option ℕ → ℤ → ℕ → Bool
gap_elapsed last_run gap now = is_none_or last_run (λ last. waited last (not_negative gap) now)

-- `AfterTask`, for the parent's row
abbrev pub parent_finished : String → ℤ → Option ℕ → ℕ → TaskRow → Option Reason
parent_finished parent delay last_run now row = and_then row.last_run_at (λ finished.
    if is_none_or last_run (λ last. ltb last finished) && waited finished delay now
    then some (after parent)
    else none)

abbrev pub is_ok : Option String → Bool
is_ok none = false
is_ok (some s) = s == "ok"

unfoldable pub after_parent : List TaskRow → String → ℤ → Option ℕ → ℕ → Option Reason
after_parent rows parent delay last_run now =
    and_then (first (has_id parent) rows)
      (λ row. if is_ok row.last_status then parent_finished parent delay last_run now row else none)

-- `kind LIKE 'prefix%'`, which takes ASCII letters in either case; `lower` is that of ASCII.
abbrev like_prefix : (String → String) → String → Logged → Bool
like_prefix lower prefix e = starts_with (lower (trim prefix)) (lower e.kind)

abbrev is_nil : List String → Bool
is_nil [] = true
is_nil (k ∷ kinds) = false

abbrev pub matches : (String → String) → List String → ℕ → Logged → Bool
matches lower kinds since e =
    ltb since e.at && (is_nil kinds || any (λ k. like_prefix lower k e) kinds)

-- ORDER BY at DESC LIMIT 1, which says nothing of two events of one time: here the later row.
unfoldable pub latest : (Logged → Bool) → List Logged → Option Logged
latest p [] = none
latest p (e ∷ events) = elim (latest p events) [
  | none ↦ if p e then some e else none
  | some l ↦ if p e && ltb l.at e.at then some e else some l
]

abbrev since_of : Option ℕ → ℕ → ℕ
since_of none now = now - tick_seconds * 2 * 1000000000
since_of (some last) now = last

unfoldable pub recent_event :
    (String → String) → List Logged → List String → Option ℕ → ℕ → Option Reason
unfolding latest
recent_event lower events kinds last_run now =
    and_then (latest (matches lower kinds (since_of last_run now)) events)
      (λ e. some (event e.kind e.summary))

-- What the ticks read beside the tables: the server's start, and the metrics.
pub record Surroundings : Type 0 where
  pub started_at : ℕ
  pub measure : Metric → ℤ
  pub ascii_lower : String → String

abbrev pub is_due : Option ℕ → ℕ → Bool
is_due none now = false
is_due (some next) now = leb next now

-- One trigger of an enabled task.
unfoldable pub fired : Surroundings → Schedule → Task → ℕ → Trigger → Option Reason
unfolding holds after_parent recent_event gap_elapsed
fired w s task now (every count unit at_minute weekday on) =
    if is_due task.next_run_at now
    then some (timer (every count unit at_minute weekday on))
    else none
fired w s task now (startup delay) =
    if waited w.started_at delay now && is_none_or task.last_run_at (λ last. ltb last w.started_at)
    then some started
    else none
fired w s task now (after_task parent delay) =
    after_parent s.tasks parent delay task.last_run_at now
fired w s task now (on_event kinds gap) =
    if not (gap_elapsed task.last_run_at gap now)
    then none
    else recent_event w.ascii_lower s.events kinds task.last_run_at now
fired w s task now (condition metric comparison value gap) =
    if not (gap_elapsed task.last_run_at gap now)
    then none
    else if holds comparison (w.measure metric) value
    then some (Reason.condition (condition metric comparison value gap) (w.measure metric))
    else none

-- The first trigger that fired.
unfoldable pub first_fired : Surroundings → Schedule → Task → ℕ → List Trigger → Option Reason
unfolding fired
first_fired w s task now [] = none
first_fired w s task now (t ∷ triggers) = elim (fired w s task now t) [
  | some reason ↦ some reason
  | none ↦ first_fired w s task now triggers
]

unfoldable pub asking_to_run : Surroundings → Schedule → Task → ℕ → Option Reason
unfolding first_fired
asking_to_run w s task now =
    if not task.enabled then none else first_fired w s task now task.triggers

abbrev asks : Task → Option Reason → List (String × Reason) → List (String × Reason)
asks task none rest = rest
asks task (some reason) rest = (task.job.id, reason) ∷ rest

unfoldable pub due_among : Surroundings → Schedule → ℕ → List Task → List (String × Reason)
unfolding asking_to_run
due_among w s now [] = []
due_among w s now (task ∷ tasks) = asks task (asking_to_run w s task now) (due_among w s now tasks)

-- `due`
unfoldable pub due : Surroundings → List Job → Schedule → ℕ → List (String × Reason)
unfolding due_among list
due w jobs s now = due_among w s now (list jobs s.tasks)
