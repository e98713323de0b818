-- ===== src/Achievements.antt =====
-- achievements.rs: the unlocked achievements of a game and their union-merge. An achievement is the
-- JSON value that the launcher sent. `str::to_uppercase` is a parameter, of which nothing is assumed.
pub mod Merge
pub mod Again
pub mod Stored
mod Tests
use hydra_server.Shared.{
  ℕ, String, Bool, true, false, Option, none, some, List, [], ◌∷◌, ◌++◌, if◌then◌else◌, ◌==◌,
}
use hydra_server.Shared.Int.{ℤ, pos, negsuc, ltb_ℤ}
use hydra_server.Json.{Json, str, num, obj, lookup}
use hydra_server.Limits.{i64_max}

-- `Value::get`
unfoldable pub get : Json → String → Option Json
unfolding lookup
get (obj m) key = lookup key m
get _ key = none

-- `Value::as_str`
abbrev pub as_str : Json → Option String
as_str (str s) = some s
as_str _ = none

-- `Value::as_i64`: an integer in the range of `i64`
abbrev pub as_i64 : Json → Option ℤ
as_i64 (num z) =
    if ltb_ℤ (pos i64_max) z then none else if ltb_ℤ z (negsuc i64_max) then none else some z
as_i64 _ = none

abbrev pub and_then {ℓ κ} : {A : Type ℓ} {B : Type κ} → Option A → (A → Option B) → Option B
and_then none f = none
and_then (some a) f = f a

abbrev pub or_else {ℓ} : {A : Type ℓ} → Option A → Option A → Option A
or_else none next = next
or_else (some a) next = some a

unfoldable pub achievement_name : Json → Option String
unfolding get
achievement_name achievement = and_then (get achievement "name") as_str

unfoldable pub unlock_time : Json → Option ℤ
unfolding get
unlock_time achievement =
    and_then (or_else (get achievement "unlockTime") (get achievement "unlockedAt")) as_i64

abbrev or_latest : Option ℤ → ℤ
or_latest none = pos i64_max
or_latest (some z) = z

unfoldable pub unlocked_at : Json → ℤ
unfolding unlock_time
unlocked_at achievement = or_latest (unlock_time achievement)

-- `achievement_name(entry).map(str::to_uppercase)`
unfoldable pub upper_name : (String → String) → Json → Option String
unfolding achievement_name
upper_name upper achievement = and_then (achievement_name achievement) (λ name. some (upper name))

abbrev is_name : String → Option String → Bool
is_name key none = false
is_name key (some name) = name == key

abbrev pub named : (String → String) → String → Json → Bool
named upper key achievement = is_name key (upper_name upper achievement)

-- Which of two values of one name stays: the later one only where its time is before the other's.
unfoldable pub kept : Json → Json → Json
unfolding unlocked_at
kept achievement entry =
    if ltb_ℤ (unlocked_at achievement) (unlocked_at entry) then achievement else entry

-- The first entry of the name keeps the earlier time; a new name goes last.
unfoldable pub put : (String → String) → String → Json → List Json → List Json
put upper key achievement [] = achievement ∷ []
put upper key achievement (entry ∷ merged) =
    let rest = put upper key achievement merged in
    if named upper key entry then kept achievement entry ∷ merged else entry ∷ rest

-- A round of the loop; a value without a name is skipped.
unfoldable pub absorb : (String → String) → List Json → Json → List Json
unfolding put
absorb upper merged achievement = elim (upper_name upper achievement) [
  | none ↦ merged
  | some key ↦ put upper key achievement merged
]

unfoldable pub absorb_all : (String → String) → List Json → List Json → List Json
unfolding absorb
absorb_all upper merged [] = merged
absorb_all upper merged (achievement ∷ rest) =
    absorb_all upper (absorb upper merged achievement) rest

unfoldable pub merge_achievements : (String → String) → List Json → List Json → List Json
unfolding absorb_all
merge_achievements upper existing incoming = absorb_all upper [] (existing ++ incoming)
