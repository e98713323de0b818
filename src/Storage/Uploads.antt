-- ===== src/Storage/Uploads.antt =====
-- storage.rs: the quota held against the bytes of uploads as they arrive. What is never negative in
-- the source's `i64`s is a natural number here, and a comparison of differences is written with sums.
use hydra_server.Shared.{
  ℕ, String, ◌+◌, ◌-◌, ◌*◌, Bool, not, ◌&&◌, Option, none, some, List, [], ◌∷◌, if◌then◌else◌, ltb,
  leb, nat_eq, ◌==◌,
}
use hydra_server.Shared.Int.{ℤ, pos_part, neg_part}
use hydra_server.ApiError.{ApiError}
use hydra_server.Limits.{i64_max}
use hydra_server.Storage.{quota_error}

abbrev pub quota_refresh_bytes : ℕ
quota_refresh_bytes = 8 * 1024 * 1024

-- Where the bytes of a key are charged, and what the database counts for the key already.
pub record QuotaTarget : Type 0 where
  pub user_id : String
  pub counted_bytes : ℕ

-- `i64::try_from(bytes).unwrap_or(i64::MAX)`
abbrev pub clipped : ℕ → ℕ
clipped bytes = if leb bytes i64_max then bytes else i64_max

-- `used` is what the database has for the owner: `(quota - (used - counted)).max(0)`.
unfoldable pub remaining_quota : ℕ → ℤ → QuotaTarget → ℕ
remaining_quota quota used target =
    clipped quota + target.counted_bytes + neg_part used - pos_part used

-- An entry of the map of uploads in progress, with its key.
pub record InFlight : Type 0 where
  pub key : String
  pub user_id : String
  pub extra_bytes : ℕ

abbrev pub InFlightUploads : Type 0
InFlightUploads = List InFlight

unfoldable pub publish : String → String → ℕ → InFlightUploads → InFlightUploads
publish key user extra [] = record { key = key; user_id = user; extra_bytes = extra } ∷ []
publish key user extra (e ∷ uploads) =
    if e.key == key
    then record e { extra_bytes = extra } ∷ uploads
    else e ∷ publish key user extra uploads

unfoldable pub release : String → InFlightUploads → InFlightUploads
release key [] = []
release key (e ∷ uploads) =
    let rest = release key uploads in if e.key == key then rest else e ∷ rest

-- `total.saturating_add(signed(extra))` of the owner's other uploads
unfoldable pub extra_bytes : String → String → InFlightUploads → ℕ
extra_bytes user except [] = 0
extra_bytes user except (e ∷ uploads) =
    let rest = extra_bytes user except uploads in
    if (e.user_id == user) && not (e.key == except)
    then clipped (clipped e.extra_bytes + rest)
    else rest

pub record QuotaGate : Type 0 where
  pub quota : ℕ
  pub key : String
  pub target : QuotaTarget
  pub budget : ℕ
  pub read_at : ℕ
  pub declared : ℕ

-- `open`, from the key's target, the account's quota and what it stores.
unfoldable pub open_gate : String → Option QuotaTarget → ℕ → ℤ → ℕ → Option QuotaGate
unfolding remaining_quota
open_gate key none quota used declared = none
open_gate key (some target) quota used declared =
    if nat_eq quota 0
    then none
    else some (record {
      quota = quota;
      key = key;
      target = target;
      budget = remaining_quota quota used target;
      read_at = 0;
      declared = declared;
    })

-- The budget is read again after so many bytes; `used` is what the read finds.
unfoldable pub refresh : QuotaGate → ℤ → ℕ → QuotaGate
unfolding remaining_quota
refresh gate used written =
    if leb (gate.read_at + quota_refresh_bytes) written
    then record gate { budget = remaining_quota gate.quota used gate.target; read_at = written }
    else gate

-- `written.max(self.declared)`
abbrev pub footprint : QuotaGate → ℕ → ℕ
footprint gate written = if leb gate.declared written then written else gate.declared

abbrev pub published : QuotaGate → ℕ → InFlightUploads → InFlightUploads
published gate written uploads =
    publish gate.key gate.target.user_id (footprint gate written - gate.target.counted_bytes)
      uploads

abbrev pub refused : QuotaGate → ℕ → InFlightUploads → Bool
refused gate written uploads =
    ltb gate.budget
      (clipped (footprint gate written) + extra_bytes gate.target.user_id gate.key uploads)

-- The check of a chunk: `none` lets it through.
unfoldable pub check_chunk :
    QuotaGate → ℤ → ℕ → InFlightUploads → Option ApiError × QuotaGate × InFlightUploads
unfolding refresh publish extra_bytes
check_chunk gate used written uploads =
    let now = refresh gate used written in
    let seen = published now written uploads in
    (if refused now written seen then some quota_error else none, now, seen)
