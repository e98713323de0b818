-- ===== src/RateLimit.antt =====
-- ratelimit.rs: the lock on an address after too many failed sign-ins. Times are nanoseconds, and
-- `now - at < w` is written `now < at + w`, which is the same on whole numbers.
pub mod Lockout
pub mod Apart
use Prim.Native.String.{◌++◌}
use hydra_server.Shared.{
  ℕ, zero, suc, String, ◌+◌, ◌-◌, ◌*◌, ◌/◌, ◌%◌, ◌^◌, Bool, true, false, not, ◌||◌, Option, none,
  some, List, [], ◌∷◌, if◌then◌else◌, ltb, leb, nat_eq, ◌==◌, select, delete,
}
use hydra_server.Shared.Texts.{digits}
use hydra_server.ApiError.{ApiError, Result, ok, err, new}

pub record Attempts : Type 0 where
  pub failures : ℕ
  pub first_failure_at : Option ℕ
  pub locked_until : Option ℕ

-- `Attempts::default()`
abbrev pub no_attempts : Attempts
no_attempts = record { failures = 0; first_failure_at = none; locked_until = none }

-- An entry of the map; a key has one entry.
pub record Entry : Type 0 where
  pub key : String
  pub attempts : Attempts

abbrev pub Guard : Type 0
Guard = List Entry

pub record Config : Type 0 where
  pub login_max_attempts : ℕ
  pub login_lockout_minutes : ℕ

abbrev pub key_of : String → String → String
key_of scope ip = scope ++ (":" ++ ip)

abbrev pub second : ℕ
second = 1000000000

abbrev pub minute : ℕ
minute = 60 * second

-- `WINDOW_MINUTES`
abbrev pub window : ℕ
window = 15 * minute

unfoldable pub get : String → Guard → Option Attempts
get k [] = none
get k (e ∷ guard) = if e.key == k then some e.attempts else get k guard

-- `*guard.entry(k) = a`
unfoldable pub set : String → Attempts → Guard → Guard
set k a [] = record { key = k; attempts = a } ∷ []
set k a (e ∷ guard) =
    if e.key == k then record { key = k; attempts = a } ∷ guard else e ∷ set k a guard

abbrev pub locked_message : ℕ → String
locked_message minutes =
    "too many failed attempts — try again in " ++ (digits minutes minutes "" ++ " minute(s)")

abbrev pub locked_error : ℕ → ApiError
locked_error minutes = new 429 (locked_message minutes)

-- The refusal by the time that is left, in whole seconds.
abbrev pub refuse_for : ℕ → Option ApiError
refuse_for remaining = if leb remaining 0 then none else some (locked_error (remaining / 60 + 1))

-- An entry that has no deadline, or one that has passed, does not refuse.
abbrev pub standing : ℕ → Option ℕ → Option ApiError
standing now none = none
standing now (some until) = refuse_for ((until - now) / second)

abbrev pub standing_of : ℕ → Option Attempts → Option ApiError
standing_of now none = none
standing_of now (some a) = standing now a.locked_until

-- `none` lets the attempt through.
unfoldable pub check : ℕ → String → Guard → Option ApiError
check now k guard = standing_of now (get k guard)

abbrev pub is_recent : ℕ → Option ℕ → Bool
is_recent now none = false
is_recent now (some at) = ltb now (at + window)

abbrev pub is_locked : ℕ → Option ℕ → Bool
is_locked now none = false
is_locked now (some until) = ltb now until

-- What the clean-up keeps.
abbrev pub is_live : ℕ → Entry → Bool
is_live now e = is_recent now e.attempts.first_failure_at || is_locked now e.attempts.locked_until

abbrev pub or_default : Option Attempts → Attempts
or_default none = no_attempts
or_default (some a) = a

-- Failures past the window stop counting.
unfoldable pub refreshed : ℕ → Attempts → Attempts
refreshed now a =
    if is_recent now a.first_failure_at
    then a
    else record a { failures = 0; first_failure_at = some now }

abbrev pub at_least_one : ℕ → ℕ
at_least_one n = if leb 1 n then n else 1

-- One failure more, in a `u32`, and the deadline when it was the last straw.
unfoldable pub counted : Config → ℕ → Attempts → Attempts × Option ℕ
counted config now a =
    let failures = (a.failures + 1) % 2 ^ 32 in
    let until = some (now + at_least_one config.login_lockout_minutes * minute) in
    if leb (at_least_one config.login_max_attempts) failures
    then (record a { failures = failures; locked_until = until }, until)
    else (record a { failures = failures }, none)

-- The guard after a miss, with the failures that count and the deadline.
unfoldable pub record_failure : Config → ℕ → String → Guard → (ℕ × Option ℕ) × Guard
unfolding refreshed counted
record_failure config now k guard =
    let live = select (is_live now) guard in
    let (a, until) = counted config now (refreshed now (or_default (get k live))) in
    ((a.failures, until), set k a live)

-- `guard.remove(k)`
unfoldable pub record_success : String → Guard → Guard
record_success k guard = delete (λ e. e.key == k) guard
