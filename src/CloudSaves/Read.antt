-- ===== src/CloudSaves/Read.antt =====
-- The requests that only read: `list_snapshots`, `list_all_snapshots`, `restore_manifest` and
-- `snapshot_download_urls`.
use hydra_server.Shared.{
  ℕ, String, Bool, not, ◌&&◌, ◌||◌, Option, none, some, List, [], ◌∷◌, map, select, first,
  if◌then◌else◌, leb, ◌==◌,
}
use hydra_server.Shared.Int.{ℤ}
use hydra_server.Json.{Json}
use hydra_server.ApiError.{Result, ok, err, bad_request, not_found}
use hydra_server.Storage.{StorageClaims, cloud_save_blob_key, sign_download_url}
use hydra_server.CloudSaves.State.{
  is_committed, is_retained, Snapshot, StateMetadata, FileRow, Store, has_id, of_user, is_current,
  file_of,
}
use hydra_server.CloudSaves.Request.{valid_shop}

-- ORDER BY key DESC
abbrev pub insert_desc : (Snapshot → ℕ) → Snapshot → List Snapshot → List Snapshot
insert_desc key r [] = r ∷ []
insert_desc key r (q ∷ rest) =
    let later = insert_desc key r rest in if leb (key q) (key r) then r ∷ q ∷ rest else q ∷ later

unfoldable pub order_desc : (Snapshot → ℕ) → List Snapshot → List Snapshot
order_desc key [] = []
order_desc key (r ∷ rest) = insert_desc key r (order_desc key rest)

pub record RemoteSnapshotSummary : Type 0 where
  pub id : String
  pub version : ℕ
  pub created_at : ℕ
  pub updated_at : ℕ
  pub file_count : ℕ
  pub total_size : ℤ
  pub aggregate_hash : String

abbrev pub summary : Snapshot → RemoteSnapshotSummary
summary r = record {
  id = r.id;
  version = r.version;
  created_at = r.created_at;
  updated_at = r.updated_at;
  file_count = r.file_count;
  total_size = r.total_size;
  aggregate_hash = r.aggregate_hash;
}

unfoldable pub list_snapshots :
    String → String → String → Store → Result (List RemoteSnapshotSummary)
unfolding valid_shop order_desc
list_snapshots user shop object s =
    if not (valid_shop shop)
    then err (bad_request "unsupported shop")
    else ok (
        map summary
          (order_desc (λ r. r.version) (select (is_current user shop object) s.snapshots)))

-- A row of `game_metadata`, which games.rs fills.
pub record GameMetadata : Type 0 where
  pub shop : String
  pub object_id : String
  pub name : Option String
  pub cover_url : Option String

pub record LibrarySnapshotSummary : Type 0 where
  pub snapshot : RemoteSnapshotSummary
  pub shop : String
  pub object_id : String
  pub hostname : Option String
  pub platform : Option String
  pub game_name : Option String
  pub game_cover_url : Option String
  pub status : String

abbrev is_game : Snapshot → GameMetadata → Bool
is_game r g = (g.shop == r.shop) && (g.object_id == r.object_id)

abbrev joined : Option GameMetadata → (GameMetadata → Option String) → Option String
joined none column = none
joined (some g) column = column g

abbrev library_summary : List GameMetadata → Snapshot → LibrarySnapshotSummary
library_summary games r = record {
  snapshot = summary r;
  shop = r.shop;
  object_id = r.object_id;
  hostname = r.hostname;
  platform = r.platform;
  game_name = joined (first (is_game r) games) (λ g. g.name);
  game_cover_url = joined (first (is_game r) games) (λ g. g.cover_url);
  status = if is_committed r.status then "current" else "retained";
}

unfoldable pub list_all_snapshots : List GameMetadata → String → Store → List LibrarySnapshotSummary
unfolding order_desc
list_all_snapshots games user s = map (library_summary games) (
    order_desc (λ r. r.updated_at)
      (select (λ r. of_user user r && (is_committed r.status || is_retained r.status)) s.snapshots))

pub record ManifestFile : Type 0 where
  pub variant_id : String
  pub raw_path : String
  pub relative_path : String
  pub hash : String
  pub size : ℕ
  pub last_modified_at : String
  pub state_metadata : Option StateMetadata

pub record RestoreManifest : Type 0 where
  pub id : String
  pub version : ℕ
  pub shop : String
  pub object_id : String
  pub custom_path_raw_paths : List String
  pub variants : List Json
  pub files : List ManifestFile

abbrev pub is_committed_of : String → String → Snapshot → Bool
is_committed_of user id r = has_id id r && (of_user user r && is_committed r.status)

unfoldable pub fetch_committed : String → String → Store → Result Snapshot
fetch_committed user id s = elim (first (is_committed_of user id) s.snapshots) [
  | none ↦ err (not_found "snapshot not found")
  | some r ↦ ok r
]

abbrev pub manifest_file : FileRow → ManifestFile
manifest_file f = record {
  variant_id = f.variant_id;
  raw_path = f.raw_path;
  relative_path = f.relative_path;
  hash = f.hash;
  size = f.size;
  last_modified_at = f.last_modified_at;
  state_metadata = f.state_metadata;
}

unfoldable pub fetch_manifest_files : String → Store → List ManifestFile
fetch_manifest_files id s = map manifest_file (select (file_of id) s.files)

unfoldable pub restore_manifest : String → String → Store → Result RestoreManifest
unfolding fetch_committed fetch_manifest_files
restore_manifest user id s = elim (fetch_committed user id s) [
  | err e ↦ err e
  | ok r ↦ ok (record {
    id = r.id;
    version = r.version;
    shop = r.shop;
    object_id = r.object_id;
    custom_path_raw_paths = r.custom_path_raw_paths;
    variants = r.variants;
    files = fetch_manifest_files id s;
  })
]

abbrev pub download_url : ℕ → String → ManifestFile → ManifestFile × StorageClaims
download_url now user f = (f, sign_download_url now (cloud_save_blob_key user f.hash))

unfoldable pub snapshot_download_urls :
    ℕ → String → String → Store → Result (List (ManifestFile × StorageClaims))
unfolding fetch_committed fetch_manifest_files sign_download_url
snapshot_download_urls now user id s = elim (fetch_committed user id s) [
  | err e ↦ err e
  | ok r ↦ ok (map (download_url now user) (fetch_manifest_files id s))
]
