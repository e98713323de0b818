-- ===== src/CloudSaves/State.antt =====
-- The tables of migrations/0008_cloud_saves.sql and those that the handlers read beside them.
-- JSON columns hold the value they encode, and times are nanoseconds: every time column is written
-- by `to_rfc3339` in UTC, so the order of the texts is that of the times.
use hydra_server.Shared.{
  ℕ, String, Bool, true, false, ◌&&◌, Option, none, some, List, [], ◌∷◌, ◌++◌, map, ◌==◌,
}
use hydra_server.Shared.Int.{ℤ, pos}
use hydra_server.Json.{Json}
use hydra_server.Limits.{UserRow, RuntimeSettings}
use hydra_server.Storage.{Sized, Metered, Disk}

pub data Status : Type 0 where
  pending committed superseded : Status

abbrev pub is_pending : Status → Bool
is_pending pending = true
is_pending _ = false

abbrev pub is_committed : Status → Bool
is_committed committed = true
is_committed _ = false

-- A version a commit replaced and the server kept.
abbrev pub is_retained : Status → Bool
is_retained superseded = true
is_retained _ = false

pub record Snapshot : Type 0 where
  pub id : String
  pub user_id : String
  pub shop : String
  pub object_id : String
  pub version : ℕ
  pub aggregate_hash : String
  pub file_count : ℕ
  pub total_size : ℤ
  pub platform : Option String
  pub hostname : Option String
  pub custom_path_raw_paths : List String
  pub variants : List Json
  pub status : Status
  pub created_at : ℕ
  pub updated_at : ℕ

pub record StateMetadata : Type 0 where
  pub emulator_id : String
  pub core_id : Option String
  pub version : Option String
  pub host_platform : Option String

-- A row of `cloud_save_snapshot_files`.
pub record FileRow : Type 0 where
  pub snapshot_id : String
  pub variant_id : String
  pub raw_path : String
  pub relative_path : String
  pub hash : String
  pub size : ℕ
  pub last_modified_at : String
  pub state_metadata : Option StateMetadata

-- A row of `cloud_save_blobs`.
pub record BlobRow : Type 0 where
  pub user_id : String
  pub hash : String
  pub size : ℕ
  pub created_at : ℕ

-- What `events::record` is given, less its summary line and its detail object.
pub record Event : Type 0 where
  pub kind : String
  pub user_id : String
  pub game : Option (String × String)
  pub size : Option ℤ

pub record Store : Type 0 where
  pub snapshots : List Snapshot
  pub files : List FileRow
  pub blobs : List BlobRow
  pub disk : Disk
  -- the metered tables beside `cloud_save_blobs`
  pub backups : List Sized
  pub emulation_saves : List Sized
  pub artwork : List Sized
  pub souvenirs : List Sized
  pub users : List UserRow
  pub settings : RuntimeSettings
  pub events : List Event

abbrev pub sized_blob : BlobRow → Sized
sized_blob b = record { user_id = b.user_id; size = pos b.size }

abbrev pub metered : Store → Metered
metered s = record {
  cloud_saves = map sized_blob s.blobs;
  backups = s.backups;
  emulation_saves = s.emulation_saves;
  artwork = s.artwork;
  souvenirs = s.souvenirs;
}

-- `events::record`
abbrev pub record_event : Event → Store → Store
record_event e s = record s { events = s.events ++ e ∷ [] }

abbrev pub game_event : String → String → String → String → Option ℤ → Event
game_event kind user shop object size = record {
  kind = kind;
  user_id = user;
  game = some (shop, object);
  size = size;
}

abbrev pub user_event : String → String → Event
user_event kind user = record { kind = kind; user_id = user; game = none; size = none }

-- The conditions of the statements.
abbrev pub has_id : String → Snapshot → Bool
has_id id r = r.id == id

abbrev pub of_user : String → Snapshot → Bool
of_user user r = r.user_id == user

-- `user_id = ? AND shop = ? AND object_id = ?`
abbrev pub of_game : String → String → String → Snapshot → Bool
of_game user shop object r = (r.user_id == user) && ((r.shop == shop) && (r.object_id == object))

abbrev pub is_current : String → String → String → Snapshot → Bool
is_current user shop object r = of_game user shop object r && is_committed r.status

abbrev pub is_kept : String → String → String → Snapshot → Bool
is_kept user shop object r = of_game user shop object r && is_retained r.status

abbrev pub file_of : String → FileRow → Bool
file_of id f = f.snapshot_id == id

abbrev pub is_blob : String → String → BlobRow → Bool
is_blob user hash b = (b.user_id == user) && (b.hash == hash)
