-- ===== src/Triggers.antt =====
-- triggers.rs: the triggers of a scheduled task, their checks and the next run of a timer. A time is
-- nanoseconds after the epoch, which is a midnight and a Thursday. What chrono knows of months and
-- the list of tasks of jobs.rs are parameters. `Unit` of the source is `TimeUnit`.
pub mod Timer
pub mod Next
use Prim.Native.String.{◌++◌}
use hydra_server.Shared.{
  ℕ, zero, suc, String, ◌+◌, ◌-◌, ◌*◌, ◌/◌, ◌%◌, Bool, true, false, not, ◌&&◌, ◌||◌, Option, none,
  some, List, [], ◌∷◌, length, any, all, if◌then◌else◌, ltb, leb, nat_eq, ◌==◌,
}
use hydra_server.Shared.Int.{ℤ, pos, negsuc, ltb_ℤ, pos_part}
use hydra_server.Shared.Texts.{is_space}
use hydra_server.Limits.{i64_max}
use hydra_server.CloudSaves.Request.{codes}

abbrev pub minutes_per_day : ℕ
minutes_per_day = 24 * 60

abbrev pub min_gap_minutes : ℕ
min_gap_minutes = 5

pub data TimeUnit : Type 0 where
  minute hour day week month : TimeUnit

unfoldable pub minutes : TimeUnit → ℕ
minutes minute = 1
minutes hour = 60
minutes day = minutes_per_day
minutes week = 7 * minutes_per_day
minutes month = 28 * minutes_per_day

pub data Metric : Type 0 where
  pending_uploads unresolved_games expired_events database_bytes free_disk_bytes : Metric

pub data Comparison : Type 0 where
  above below : Comparison

-- `Comparison::holds`
unfoldable pub holds : Comparison → ℤ → ℤ → Bool
holds above measured threshold = ltb_ℤ threshold measured
holds below measured threshold = ltb_ℤ measured threshold

pub data Trigger : Type 0 where
  every :
      (count : ℤ)
      → (unit : TimeUnit) → (at_minute : Option ℤ) → (weekday : Option ℤ) → (on : Option ℤ)
      → Trigger
  startup : (delay_minutes : ℤ) → Trigger
  after_task : (task : String) → (delay_minutes : ℤ) → Trigger
  on_event : (kinds : List String) → (min_gap_minutes : ℤ) → Trigger
  condition : Metric → Comparison → (value : ℤ) → (min_gap_minutes : ℤ) → Trigger

-- `(low..=high).contains(&z)`
abbrev pub within : ℕ → ℕ → ℤ → Bool
within low high (pos n) = leb low n && leb n high
within low high (negsuc n) = false

abbrev outside : ℕ → ℕ → Option ℤ → Bool
outside low high none = false
outside low high (some z) = not (within low high z)

-- `count.saturating_mul(minutes)` for a count that is not negative
abbrev pub saturating_mul : ℕ → ℕ → ℕ
saturating_mul a b = if ltb i64_max (a * b) then i64_max else a * b

-- `kind.trim().is_empty()`
abbrev is_blank : String → Bool
is_blank kind = all is_space (codes kind)

-- The refusals below are `none` where the check passes.
unfoldable pub bounded_delay : ℤ → Option String
bounded_delay delay =
    if not (within 0 (7 * minutes_per_day) delay)
    then some "that delay is longer than a week"
    else none

unfoldable pub validate_every : ℕ → TimeUnit → Option ℤ → Option ℤ → Option ℤ → Option String
unfolding minutes
validate_every count unit at_minute weekday on =
    if ltb (saturating_mul count (minutes unit)) min_gap_minutes
    then some "the shortest interval this server runs is 5 minutes"
    else if ltb (366 * minutes_per_day) (saturating_mul count (minutes unit))
    then some "that interval is longer than a year"
    else if outside 0 (minutes_per_day - 1) at_minute
    then some "the run time has to be a minute of the day"
    else if outside 0 6 weekday
    then some "that isn't a day of the week"
    else if outside 1 31 on
    then some "that isn't a day of the month"
    else none

abbrev no_task : String → String
no_task task = "there is no task called " ++ task

-- `is_schedulable` answers `jobs::find(task).is_some_and(|job| job.schedulable)`.
unfoldable pub validate : (String → Bool) → String → Trigger → Option String
unfolding validate_every bounded_delay
validate is_schedulable owner (every count unit at_minute weekday on) =
    if ltb_ℤ count (pos 1)
    then some "an interval has to be at least 1"
    else validate_every (pos_part count) unit at_minute weekday on
validate is_schedulable owner (startup delay) = bounded_delay delay
validate is_schedulable owner (after_task task delay) =
    if task == owner
    then some "a task can't wait for itself"
    else if not (is_schedulable task)
    then some (no_task task)
    else bounded_delay delay
validate is_schedulable owner (on_event kinds gap) =
    if ltb 12 (length kinds)
    then some "that is more event kinds than one trigger should carry"
    else if any is_blank kinds
    then some "an event kind can't be blank"
    else bounded_delay gap
validate is_schedulable owner (condition metric comparison value gap) =
    if ltb_ℤ value (pos 0) then some "a threshold can't be negative" else bounded_delay gap
