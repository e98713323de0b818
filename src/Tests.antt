-- ===== src/Tests.antt =====
-- The theorems of the smaller modules at concrete values.
use hydra_server.Shared.{
  ℕ, String, ◌+◌, ◌-◌, ◌*◌, ◌/◌, ◌%◌, ◌<◌, ◌≡◌, ◌≢◌, refl, true, false, Option, none, some, [], ◌∷◌,
  arith, str-eq,
}
use hydra_server.Shared.Int.{ℤ, pos}
use hydra_server.Json.{str, num, obj, empty, member}
use hydra_server.ApiError.{ApiError}
use hydra_server.Limits.{RuntimeSettings, Overrides, UserRow, for_user, save}
use hydra_server.Limits.Resolve.{InRange, for_user-save}
use hydra_server.RateLimit
use hydra_server.RateLimit.{
  Guard, Config, check, record_failure, record_success, key_of, locked_error,
}
use hydra_server.RateLimit.Lockout.{misses, check-misses}
use hydra_server.Triggers.{every, month, minutes_per_day}
use hydra_server.Triggers.Timer.{
  Calendar, advance, midnight, step_days, ns_per_minute, ns_per_day, weekday_of, rem_euclid,
  step_weeks, next_run,
}
use hydra_server.Triggers.Next.{next_run-after, advance-ends}

abbrev taken : ApiError
taken = record {
  status = 409;
  message = "taken";
  extra = some (obj (member "message" (str "other") (member "left" (num (pos 3)) empty)));
}

abbrev defaults : RuntimeSettings
defaults = record { max_bytes_per_user = 0; backups_per_game_limit = 5; auto_delete_saves = false }

abbrev user_row : String → Option ℤ → UserRow
user_row id bytes = record {
  id = id;
  max_bytes_override = bytes;
  backups_per_game_override = none;
  auto_delete_saves_override = none;
}

abbrev half : Overrides
half = record {
  max_bytes_per_user = some 50;
  backups_per_game_limit = none;
  auto_delete_saves = some true;
}

saved_run :
    save (user_row "ada" none ∷ user_row "bob" none ∷ []) "ada" half
    ≡ some (
      record (user_row "ada" (some (pos 50))) { auto_delete_saves_override = some (pos 1) }
          ∷ user_row "bob" none
          ∷ [],
      true,
    )
unfolding save
saved_run = refl

half-InRange : InRange half
half-InRange = (omega arith, omega arith, omega arith)

for_user-save_example :
    for_user
      (record (user_row "ada" (some (pos 50))) { auto_delete_saves_override = some (pos 1) }
        ∷ user_row "bob" none
        ∷ [])
      defaults
      "ada"
    ≡ record { max_bytes_per_user = 50; backups_per_game_limit = 5; auto_delete_saves = true }
for_user-save_example =
    for_user-save (user_row "ada" none ∷ user_row "bob" none ∷ []) _ defaults "ada" "ada" half
      half-InRange saved_run

abbrev config : Config
config = record { login_max_attempts = 2; login_lockout_minutes = 15 }

abbrev admin_a : String
admin_a = "admin:a"

no_entry : RateLimit.get admin_a [] ≡ none
unfolding RateLimit.get
no_entry = refl

scopes_differ : admin_a ≢ "portal:a"
scopes_differ p = cc ((str-eq admin_a "portal:a").1 p)

-- Two misses a second apart, and a third attempt two seconds later.
check-misses_example :
    check 3000000000 "admin:a" (misses config "admin:a" (0 ∷ 1000000000 ∷ []) [])
    ≡ some (locked_error 15)
check-misses_example =
    check-misses config "admin:a" 0 3000000000 (1000000000 ∷ []) [] no_entry refl (omega arith)

abbrev one_miss : Guard
one_miss = (record_failure config 0 "portal:a" []).1

-- A Thursday at noon.
abbrev noon : ℕ
noon = 720 * ns_per_minute

-- Months of thirty days.
abbrev thirty : Calendar
thirty = record {
  first_of_month = λ at. some (at / (30 * ns_per_day) * (30 * ns_per_day));
  first_of_next = λ at. some ((at / (30 * ns_per_day) + 1) * (30 * ns_per_day));
  add_months = λ at n. some (at + n * (30 * ns_per_day));
}

next_month : next_run thirty noon (every (pos 1) month none none (some (pos 2))) ≡ some ns_per_day
unfolding next_run
next_month = refl

next_run-after_example : noon < ns_per_day
next_run-after_example =
    next_run-after thirty noon ns_per_day (every (pos 1) month none none (some (pos 2))) next_month

advance-ends_example :
    (advance 5
        (1 * ns_per_day)
        noon
        (midnight noon + rem_euclid (pos 60) minutes_per_day * ns_per_minute)
      ≡ step_days noon 1 (pos 60))
    × (advance 5 (1 * (7 * ns_per_day)) noon (
          midnight noon
          + (rem_euclid (pos 3) 7 + 7 - weekday_of noon) % 7 * ns_per_day
          + rem_euclid (pos 60) minutes_per_day * ns_per_minute)
        ≡ step_weeks noon 1 (pos 3) (pos 60))
    × (noon < step_days noon 1 (pos 60))
    × (noon < step_weeks noon 1 (pos 3) (pos 60))
advance-ends_example = advance-ends 3 noon 1 (pos 3) (pos 60) (omega arith)
