-- ===== src/Limits.antt =====
-- limits.rs and the settings of state.rs that it reads: what one account is allowed.
pub mod Resolve
use hydra_server.Shared.{
  ℕ, String, ◌-◌, ◌^◌, Bool, true, false, not, Option, none, some, List, map, first, update, any,
  if◌then◌else◌, ltb, ◌==◌,
}
use hydra_server.Shared.Int.{ℤ, pos, negsuc}

pub record RuntimeSettings : Type 0 where
  pub max_bytes_per_user : ℕ
  pub backups_per_game_limit : ℕ
  pub auto_delete_saves : Bool

pub record Limits : Type 0 where
  pub max_bytes_per_user : ℕ
  pub backups_per_game_limit : ℕ
  pub auto_delete_saves : Bool

pub record Overrides : Type 0 where
  pub max_bytes_per_user : Option ℕ
  pub backups_per_game_limit : Option ℕ
  pub auto_delete_saves : Option Bool

-- `Overrides::default()`
abbrev pub no_overrides : Overrides
no_overrides = record {
  max_bytes_per_user = none;
  backups_per_game_limit = none;
  auto_delete_saves = none;
}

-- The columns of a `users` row that this module reads and writes.
pub record UserRow : Type 0 where
  pub id : String
  pub max_bytes_override : Option ℤ
  pub backups_per_game_override : Option ℤ
  pub auto_delete_saves_override : Option ℤ

abbrev pub u32_max : ℕ
u32_max = 2 ^ 32 - 1

abbrev pub i64_max : ℕ
i64_max = 2 ^ 63 - 1

-- `bytes.max(0) as u64`
abbrev bytes_of : ℤ → ℕ
bytes_of (pos n) = n
bytes_of (negsuc n) = 0

-- `limit.clamp(1, u32::MAX as i64) as u32`
abbrev limit_of : ℤ → ℕ
limit_of (pos n) = if ltb n 1 then 1 else if ltb u32_max n then u32_max else n
limit_of (negsuc n) = 1

-- `flag != 0`
abbrev flag_of : ℤ → Bool
flag_of (pos n) = ltb 0 n
flag_of (negsuc n) = true

abbrev map_option {ℓ κ} : {A : Type ℓ} {B : Type κ} → (A → B) → Option A → Option B
map_option f none = none
map_option f (some a) = some (f a)

abbrev unwrap_or {ℓ} : {A : Type ℓ} → Option A → A → A
unwrap_or none d = d
unwrap_or (some a) d = a

unfoldable pub from_row : UserRow → Overrides
from_row row = record {
  max_bytes_per_user = map_option bytes_of row.max_bytes_override;
  backups_per_game_limit = map_option limit_of row.backups_per_game_override;
  auto_delete_saves = map_option flag_of row.auto_delete_saves_override;
}

unfoldable pub resolve : Overrides → RuntimeSettings → Limits
resolve o defaults = record {
  max_bytes_per_user = unwrap_or o.max_bytes_per_user defaults.max_bytes_per_user;
  backups_per_game_limit = unwrap_or o.backups_per_game_limit defaults.backups_per_game_limit;
  auto_delete_saves = unwrap_or o.auto_delete_saves defaults.auto_delete_saves;
}

abbrev is_user : String → UserRow → Bool
is_user user_id row = row.id == user_id

-- `row.map(from_row).unwrap_or_default()`
unfoldable pub overrides : List UserRow → String → Overrides
overrides users user_id = elim (first (is_user user_id) users) [
  | none ↦ no_overrides
  | some row ↦ from_row row
]

unfoldable pub for_user : List UserRow → RuntimeSettings → String → Limits
for_user users settings user_id = resolve (overrides users user_id) settings

-- `i64::try_from` of each byte count, which fails past `i64::MAX`
abbrev to_column : Option ℕ → Option (Option ℤ)
to_column none = some none
to_column (some n) = if ltb i64_max n then none else some (some (pos n))

-- `i64::from(flag)`
abbrev flag_column : Bool → ℤ
flag_column true = pos 1
flag_column false = pos 0

-- The columns that the UPDATE sets.
abbrev written : Option ℤ → Overrides → UserRow → UserRow
written column o row = record row {
  max_bytes_override = column;
  backups_per_game_override = map_option pos o.backups_per_game_limit;
  auto_delete_saves_override = map_option flag_column o.auto_delete_saves;
}

-- `none` is the decode error; otherwise the table after the UPDATE and whether it found the user.
unfoldable pub save : List UserRow → String → Overrides → Option (List UserRow × Bool)
save users user_id o = elim (to_column o.max_bytes_per_user) [
  | none ↦ none
  | some column ↦
      some (update (is_user user_id) (written column o) users, any (is_user user_id) users)
]
