-- ===== src/Triggers/Timer.antt =====
-- triggers.rs from `next_run` on: when a timer runs next.
use hydra_server.Shared.{
  ℕ, zero, suc, ◌+◌, ◌-◌, ◌*◌, ◌/◌, ◌%◌, Option, none, some, if◌then◌else◌, ltb, leb,
}
use hydra_server.Shared.Int.{ℤ, pos, negsuc}
use hydra_server.Triggers.{
  TimeUnit, minute, hour, day, week, month, Trigger, every, minutes_per_day,
}

abbrev pub ns_per_minute : ℕ
ns_per_minute = 60 * 1000000000

abbrev pub ns_per_day : ℕ
ns_per_day = minutes_per_day * ns_per_minute

unfoldable pub midnight : ℕ → ℕ
midnight at = at - at % ns_per_day

-- `num_days_from_monday` of a time's day
unfoldable pub weekday_of : ℕ → ℕ
weekday_of at = (at / ns_per_day + 3) % 7

-- `rem_euclid`
unfoldable pub rem_euclid : ℤ → ℕ → ℕ
rem_euclid (pos n) m = n % m
rem_euclid (negsuc n) m = m - 1 - n % m

-- `while candidate <= from { candidate += step }`, for so many rounds at most.
unfoldable pub advance : ℕ → ℕ → ℕ → ℕ → ℕ
advance zero step from candidate = candidate
advance (suc fuel) step from candidate =
    let later = advance fuel step from (candidate + step) in
    if leb candidate from then later else candidate

-- A candidate is not before midnight and a step is a day or more, so two rounds end the loops.
unfoldable pub step_days : ℕ → ℕ → ℤ → ℕ
unfolding advance midnight rem_euclid
step_days from count at_minute =
    advance 2 (count * ns_per_day) from
      (midnight from + rem_euclid at_minute minutes_per_day * ns_per_minute)

unfoldable pub step_weeks : ℕ → ℕ → ℤ → ℤ → ℕ
unfolding advance midnight weekday_of rem_euclid
step_weeks from count weekday at_minute =
    let ahead = (rem_euclid weekday 7 + 7 - weekday_of from) % 7 in
    advance 2 (count * (7 * ns_per_day)) from
      (midnight from + ahead * ns_per_day + rem_euclid at_minute minutes_per_day * ns_per_minute)

-- What chrono knows of months: the first of a time's month, the days of that month by its first day
-- and that of the next (`None` where chrono has no such date), and `checked_add_months`.
pub record Calendar : Type 0 where
  pub first_of_month : ℕ → Option ℕ
  pub first_of_next : ℕ → Option ℕ
  pub add_months : ℕ → ℕ → Option ℕ

abbrev or_else : Option ℕ → ℕ → ℕ
or_else none d = d
or_else (some n) d = n

unfoldable pub days_in_month : Calendar → ℕ → ℕ
days_in_month calendar anchor = elim (calendar.first_of_month anchor) [
  | none ↦ 30
  | some first ↦ elim (calendar.first_of_next anchor) [
    | none ↦ 30
    | some next ↦ (next - first) / ns_per_day
  ]
]

-- `day.clamp(1, length) - 1`, for a month of a day or more
abbrev clamp_day : ℤ → ℕ → ℕ
clamp_day (pos n) most = (if ltb n 1 then 1 else if ltb most n then most else n) - 1
clamp_day (negsuc n) most = 0

unfoldable pub on_day : Calendar → ℕ → ℤ → ℕ
unfolding days_in_month
on_day calendar anchor on =
    or_else (calendar.first_of_month anchor) anchor
    + clamp_day on (days_in_month calendar anchor) * ns_per_day

-- The rounds of the loop of `step_months` that are left.
unfoldable pub try_months : Calendar → ℕ → ℕ → ℕ → ℤ → ℕ → ℕ → ℕ
unfolding on_day
try_months calendar zero months from on offset anchor = from + 30 * ns_per_day
try_months calendar (suc rounds) months from on offset anchor =
    let candidate = on_day calendar anchor on + offset in
    let rest =
      try_months calendar rounds months from on offset
        (or_else (calendar.add_months anchor months) (anchor + 30 * ns_per_day)) in
    if ltb from candidate then candidate else rest

-- `count.clamp(1, 120)`, for a count of one or more
abbrev clamp_months : ℕ → ℕ
clamp_months count = if ltb 120 count then 120 else count

unfoldable pub step_months : Calendar → ℕ → ℕ → ℤ → ℤ → ℕ
unfolding try_months midnight rem_euclid
step_months calendar from count on at_minute =
    try_months calendar 14 (clamp_months count) from on
      (rem_euclid at_minute minutes_per_day * ns_per_minute) (midnight from)

-- `count.max(1)`
abbrev pub at_least_one : ℤ → ℕ
at_least_one (pos n) = if ltb n 1 then 1 else n
at_least_one (negsuc n) = 1

abbrev pub unwrap_or : Option ℤ → ℤ → ℤ
unwrap_or none d = d
unwrap_or (some z) d = z

abbrev next_every : Calendar → ℕ → ℕ → TimeUnit → ℤ → ℤ → ℤ → ℕ
next_every calendar from count minute at_minute weekday on = from + count * ns_per_minute
next_every calendar from count hour at_minute weekday on = from + count * (60 * ns_per_minute)
next_every calendar from count day at_minute weekday on = step_days from count at_minute
next_every calendar from count week at_minute weekday on = step_weeks from count weekday at_minute
next_every calendar from count month at_minute weekday on =
    step_months calendar from count on at_minute

unfoldable pub next_run : Calendar → ℕ → Trigger → Option ℕ
unfolding step_days step_weeks step_months
next_run calendar from (every count unit at_minute weekday on) = some (
    next_every calendar from (at_least_one count) unit (unwrap_or at_minute (pos 0))
      (unwrap_or weekday (pos 0)) (unwrap_or on (pos 1)))
next_run calendar from _ = none
