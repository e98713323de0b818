-- ===== src/Triggers/Next.antt =====
-- When the next run of a timer falls.
use hydra_server.Shared.{
  ℕ, zero, suc, ◌+◌, ◌-◌, ◌*◌, ◌/◌, ◌%◌, ◌<◌, ◌≤◌, ◌≡◌, some, some-injective, arith, if◌then◌else◌,
  ltb, leb, Bool-cases, leb→le, ◌∙◌, inl, inr,
}
use hydra_server.Shared.Int.{ℤ, pos, negsuc}
use hydra_server.Triggers.{
  minute, hour, day, week, month, Trigger, every, startup, after_task, on_event, condition,
  minutes_per_day,
}
use hydra_server.Triggers.Timer.{
  ns_per_minute, ns_per_day, midnight, weekday_of, rem_euclid, advance, step_days, step_weeks,
  Calendar, on_day, try_months, at_least_one, unwrap_or, next_run,
}

pub rem_euclid-lt : (z : ℤ) (m : ℕ) → rem_euclid z (suc m) < suc m
unfolding rem_euclid
rem_euclid-lt (pos n) m = omega arith
rem_euclid-lt (negsuc n) m = omega arith

-- Two rounds end the loop where one step leads past `from`.
advance-two :
    (step from candidate : ℕ)
    → from < candidate + step
    → advance 2 step from candidate ≡ (if leb candidate from then candidate + step else candidate)
unfolding advance
advance-two step from candidate h = ground (arith, h)

-- More than two rounds change nothing there.
advance-more :
    (k step from candidate : ℕ)
    → from < candidate + step
    → advance (suc (suc k)) step from candidate ≡ advance 2 step from candidate
unfolding advance
advance-more k step from candidate h = ground (arith, h)

-- The first candidate of a step of days or weeks is the time of day on a day of the future or today.
start-le : (from : ℕ) → from < midnight from + ns_per_day
unfolding midnight
start-le from = omega arith

midnight-le : (from : ℕ) → midnight from ≤ from
unfolding midnight
midnight-le from = omega arith

offset-lt : (at_minute : ℤ) → rem_euclid at_minute minutes_per_day * ns_per_minute < ns_per_day
offset-lt at_minute = omega (arith, rem_euclid-lt at_minute 1439)

-- A time of day, so many whole days after a midnight.
time_of_day :
    (from days m : ℕ) → m < ns_per_day → (midnight from + days * ns_per_day + m) % ns_per_day ≡ m
unfolding midnight
time_of_day from days m h = omega arith

weekday-after :
    (from days m : ℕ)
    → m < ns_per_day
    → weekday_of (midnight from + days * ns_per_day + m) ≡ (weekday_of from + days) % 7
unfolding midnight weekday_of
weekday-after from days m h =
    let q : (from - from % ns_per_day + days * ns_per_day + m) / ns_per_day
        ≡ from / ns_per_day + days =
      omega arith in
    rw q (omega arith)

-- A daily timer of one day or more runs after `from`, no later than its count of days after it,
-- and at its minute of the day.
pub step_days-on_time :
    (from count : ℕ) (at_minute : ℤ)
    → 1 ≤ count
    → (from < step_days from count at_minute)
      × (step_days from count at_minute ≤ from + count * ns_per_day)
      × (step_days from count at_minute % ns_per_day
          ≡ rem_euclid at_minute minutes_per_day * ns_per_minute)
unfolding step_days
step_days-on_time from count at_minute h =
    let m = rem_euclid at_minute minutes_per_day * ns_per_minute in
    let k : m < ns_per_day = offset-lt at_minute in
    let l = start-le from in
    let two = advance-two (count * ns_per_day) from (midnight from + m) (omega (arith, l, h)) in
    elim (Bool-cases (leb (midnight from + m) from)) [
      | inl y ↦
          let z : midnight from + m + count * ns_per_day ≡ midnight from + count * ns_per_day + m =
            omega arith in
          rw (step_days, two, y, z)
            (omega (arith, l, h), ground (arith, y, z), time_of_day from count m k)
      | inr n ↦
          let z : midnight from + m ≡ midnight from + 0 * ns_per_day + m = omega arith in
          rw (step_days, two, n)
            (ground arith, omega (arith, midnight-le from, k, h), rw z (time_of_day from 0 m k))
    ]

weekday_of-lt : (at : ℕ) → weekday_of at < 7
unfolding weekday_of
weekday_of-lt at = omega arith

reaches :
    (today target days : ℕ)
    → today < 7
    → target < 7
    → days % 7 ≡ (target + 7 - today) % 7
    → (today + days) % 7 ≡ target
reaches today target days h k e = omega (arith, h, k, e)

-- A weekly timer of one week or more runs after `from`, no later than its count of weeks after it,
-- on its weekday, and at its minute of the day.
pub step_weeks-on_time :
    (from count : ℕ) (weekday at_minute : ℤ)
    → 1 ≤ count
    → (from < step_weeks from count weekday at_minute)
      × (step_weeks from count weekday at_minute ≤ from + count * (7 * ns_per_day))
      × (weekday_of (step_weeks from count weekday at_minute) ≡ rem_euclid weekday 7)
      × (step_weeks from count weekday at_minute % ns_per_day
          ≡ rem_euclid at_minute minutes_per_day * ns_per_minute)
unfolding step_weeks
step_weeks-on_time from count weekday at_minute h =
    let m = rem_euclid at_minute minutes_per_day * ns_per_minute in
    let w = rem_euclid weekday 7 in
    let ahead = (w + 7 - weekday_of from) % 7 in
    let k : m < ns_per_day = offset-lt at_minute in
    let a : ahead < 7 = omega arith in
    let l = start-le from in
    let two =
      advance-two (count * (7 * ns_per_day)) from (midnight from + ahead * ns_per_day + m)
        (omega (arith, l, h)) in
    let on_day : (days : ℕ) → days % 7 ≡ ahead → (weekday_of from + days) % 7 ≡ w =
      λ days q. reaches (weekday_of from) w days (weekday_of-lt from) (rem_euclid-lt weekday 6) q in
    elim (Bool-cases (leb (midnight from + ahead * ns_per_day + m) from)) [
      | inl y ↦
          let days = ahead + count * 7 in
          let z : midnight from + ahead * ns_per_day + m + count * (7 * ns_per_day)
              ≡ midnight from + days * ns_per_day + m =
            omega arith in
          rw (step_weeks, two, y, z)
            (
              omega (arith, l, h),
              omega (arith, leb→le _ _ y),
              weekday-after from days m k ∙ on_day days (omega (arith, a)),
              time_of_day from days m k,
            )
      | inr n ↦
          rw (step_weeks, two, n)
            (
              ground arith,
              omega (arith, midnight-le from, k, h, a),
              weekday-after from ahead m k ∙ on_day ahead (omega (arith, a)),
              time_of_day from ahead m k,
            )
    ]

try_months-after :
    (calendar : Calendar) (rounds months from : ℕ) (on : ℤ) (offset anchor : ℕ)
    → from < try_months calendar rounds months from on offset anchor
unfolding try_months
try_months-after calendar zero months from on offset anchor = omega arith
try_months-after calendar (suc rounds) months from on offset anchor =
    elim (Bool-cases (ltb from (on_day calendar anchor on + offset))) [
      | inl y ↦ rw (y, try_months) (ground arith)
      | inr n ↦ rw (n, try_months) (try_months-after calendar rounds months from on offset _)
    ]

at_least_one-le : (count : ℤ) → 1 ≤ at_least_one count
at_least_one-le (pos n) = ground arith
at_least_one-le (negsuc n) = omega arith

-- The loops that look for the next day or week of a timer end: from the candidates that the code starts
-- with, for a count of one or more, any number of rounds past two finds what two rounds find, which is
-- after the time asked at.
pub advance-ends :
    (k from count : ℕ) (weekday at_minute : ℤ)
    → 1 ≤ count
    → (advance
          (suc (suc k))
          (count * ns_per_day)
          from
          (midnight from + rem_euclid at_minute minutes_per_day * ns_per_minute)
        ≡ step_days from count at_minute)
      × (advance (suc (suc k)) (count * (7 * ns_per_day)) from (
            midnight from
            + (rem_euclid weekday 7 + 7 - weekday_of from) % 7 * ns_per_day
            + rem_euclid at_minute minutes_per_day * ns_per_minute)
          ≡ step_weeks from count weekday at_minute)
      × (from < step_days from count at_minute)
      × (from < step_weeks from count weekday at_minute)
unfolding step_days step_weeks
advance-ends k from count weekday at_minute h = (
  advance-more k (count * ns_per_day) from
      (midnight from + rem_euclid at_minute minutes_per_day * ns_per_minute)
      (omega (arith, h, start-le from)),
  advance-more k (count * (7 * ns_per_day)) from
      (midnight from
        + (rem_euclid weekday 7 + 7 - weekday_of from) % 7 * ns_per_day
        + rem_euclid at_minute minutes_per_day * ns_per_minute)
      (omega (arith, h, start-le from)),
  (step_days-on_time from count at_minute h).0,
  (step_weeks-on_time from count weekday at_minute h).0,
)

-- A timer, whatever it was set to, runs next strictly after the time it is asked at.
pub next_run-after :
    (calendar : Calendar) (from u : ℕ) (t : Trigger) → next_run calendar from t ≡ some u → from < u
unfolding next_run
next_run-after calendar from u (every count minute at_minute weekday on) e =
    rw (← some-injective _ _ e) (omega (arith, at_least_one-le count))
next_run-after calendar from u (every count hour at_minute weekday on) e =
    rw (← some-injective _ _ e) (omega (arith, at_least_one-le count))
next_run-after calendar from u (every count day at_minute weekday on) e =
    rw (← some-injective _ _ e)
      (step_days-on_time from (at_least_one count) (unwrap_or at_minute (pos 0))
        (at_least_one-le count)).0
next_run-after calendar from u (every count week at_minute weekday on) e =
    rw (← some-injective _ _ e)
      (step_weeks-on_time from (at_least_one count) (unwrap_or weekday (pos 0))
        (unwrap_or at_minute (pos 0)) (at_least_one-le count)).0
next_run-after calendar from u (every count month at_minute weekday on) e =
    rw (← some-injective _ _ e)
      (try_months-after calendar 14 _ from (unwrap_or on (pos 1)) _ (midnight from))
next_run-after calendar from u (startup delay) e = cc
next_run-after calendar from u (after_task task delay) e = cc
next_run-after calendar from u (on_event kinds gap) e = cc
next_run-after calendar from u (condition metric comparison value gap) e = cc
