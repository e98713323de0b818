-- ===== src/CloudSaves/Tests.antt =====
-- One account's saves of one game, and the theorems of the cloud saves at them.
mod Saving
mod Versions
mod Serving
use Prim.Native.Nat.{◌<◌}
use hydra_server.Shared.{
  ℕ, String, ◌≤◌, ◌≡◌, ◌≢◌, refl, Bool, true, false, Option, none, some, List, [], ◌∷◌, Memᴰ, arith,
  first, select, any, length,
}
use hydra_server.Shared.Int.{◌+ℤ◌, ℤ, pos}
use hydra_server.ApiError.{Result, ok, err}
use hydra_server.Limits.{resolve, overrides, for_user, RuntimeSettings}
use hydra_server.Storage.{
  used_bytes, sum_sizes, exceeds_quota, cloud_save_blob_key, store_object, Disk,
  sign_blob_upload_url,
}
use hydra_server.CloudSaves.State.{
  Store, Snapshot, FileRow, BlobRow, Event, Status, pending, committed, superseded, game_event,
}
use hydra_server.CloudSaves.Request.{valid_shop, is_sha256, FileInput, PrepareRequest}
use hydra_server.CloudSaves.Prepare.{
  is_stored, current_version, Checksum, PrepareResponse, upload, prepare_snapshot,
}
use hydra_server.CloudSaves.Commit.{commit_snapshot}
use hydra_server.CloudSaves.Reach.{
  Elsewhere, fresh, Step, Reach, here, next, prepares, uploads, commits, Reach-IsValid,
  fresh-IsValid,
}

abbrev digest : Checksum
digest h = some h

abbrev settings : RuntimeSettings
settings = record {
  max_bytes_per_user = 1000;
  backups_per_game_limit = 5;
  auto_delete_saves = false;
}

abbrev elsewhere : Elsewhere
elsewhere = record {
  backups = [];
  emulation_saves = [];
  artwork = [];
  souvenirs = [];
  users = [];
  settings = settings;
  events = [];
}

abbrev hash_a : String
hash_a = "aaaaaaaaaaaaaaaaaaaaaaaaaaaaaaaaaaaaaaaaaaaaaaaaaaaaaaaaaaaaaaaa"

abbrev hash_b : String
hash_b = "bbbbbbbbbbbbbbbbbbbbbbbbbbbbbbbbbbbbbbbbbbbbbbbbbbbbbbbbbbbbbbbb"

abbrev file_a : FileInput
file_a = record {
  variant_id = hash_a;
  raw_path = "C:/saves";
  relative_path = "slot1.sav";
  hash = hash_a;
  size_bytes = pos 3;
  last_modified_at = "2026-01-01T00:00:00Z";
  state_metadata = none;
}

abbrev request : ℕ → FileInput → PrepareRequest
request base f = record {
  shop = "steam";
  object_id = "440";
  platform = none;
  hostname = some "desk";
  snapshot_hash = hash_a;
  base_version = pos base;
  custom_path_raw_paths = [];
  variants = [];
  files = f ∷ [];
}

abbrev row_of : String → ℕ → Status → ℕ → ℕ → Snapshot
row_of id version status created updated = record {
  id = id;
  user_id = "ada";
  shop = "steam";
  object_id = "440";
  version = version;
  aggregate_hash = hash_a;
  file_count = 1;
  total_size = pos 3;
  platform = none;
  hostname = some "desk";
  custom_path_raw_paths = [];
  variants = [];
  status = status;
  created_at = created;
  updated_at = updated;
}

abbrev manifest_of : String → FileRow
manifest_of id = record {
  snapshot_id = id;
  variant_id = hash_a;
  raw_path = "C:/saves";
  relative_path = "slot1.sav";
  hash = hash_a;
  size = 3;
  last_modified_at = "2026-01-01T00:00:00Z";
  state_metadata = none;
}

abbrev blob : BlobRow
blob = record { user_id = "ada"; hash = hash_a; size = 3; created_at = 2 }

abbrev on_disk : Disk
on_disk = store_object (cloud_save_blob_key "ada" hash_a) 3 (λ k. none)

abbrev server : List Snapshot → List FileRow → List BlobRow → Disk → List Event → Store
server snapshots files blobs disk events = record {
  snapshots = snapshots;
  files = files;
  blobs = blobs;
  disk = disk;
  backups = [];
  emulation_saves = [];
  artwork = [];
  souvenirs = [];
  users = [];
  settings = settings;
  events = events;
}

abbrev committed_event : Event
committed_event = game_event "cloud_save.committed" "ada" "steam" "440" (some (pos 3))

-- After a prepare; once its file has arrived; and after the commit.
abbrev prepared : Store
prepared = server (row_of "one" 1 pending 1 1 ∷ []) (manifest_of "one" ∷ []) [] (λ k. none) []

abbrev uploaded : Store
uploaded = server (row_of "one" 1 pending 1 1 ∷ []) (manifest_of "one" ∷ []) [] on_disk []

abbrev saved : Store
saved =
    server (row_of "one" 1 committed 1 2 ∷ []) (manifest_of "one" ∷ []) (blob ∷ []) on_disk
      (committed_event ∷ [])

-- A second version of the same bytes took the place of the first.
abbrev replaced : Store
replaced =
    server (row_of "one" 1 superseded 1 4 ∷ row_of "two" 2 committed 3 4 ∷ [])
      (manifest_of "one" ∷ manifest_of "two" ∷ []) (blob ∷ []) on_disk
      (committed_event ∷ committed_event ∷ [])

-- Two machines prepared from the same version.
abbrev racing : Store
racing =
    server (row_of "one" 1 pending 1 1 ∷ row_of "two" 1 pending 1 1 ∷ [])
      (manifest_of "one" ∷ manifest_of "two" ∷ []) [] on_disk []

abbrev prepare_answer : PrepareResponse
prepare_answer = record {
  pending_snapshot_id = "one";
  snapshot_hash = hash_a;
  files =
      upload hash_a "C:/saves" "slot1.sav" (sign_blob_upload_url 1 "ada" hash_a 3) 3 hash_a ∷ [];
}

prepared-Reach : Reach digest (fresh elsewhere) prepared
unfolding prepare_snapshot valid_shop is_sha256 current_version for_user resolve overrides
    exceeds_quota ◌+ℤ◌ is_stored used_bytes sum_sizes
prepared-Reach = next here (prepares 1 "one" "ada" (request 0 file_a) (fresh elsewhere))

uploaded-Reach : Reach digest (fresh elsewhere) uploaded
unfolding store_object
uploaded-Reach = next prepared-Reach (uploads "ada" hash_a 3 prepared (λ b m. elim m [ ]))

saved-Reach : Reach digest (fresh elsewhere) saved
unfolding commit_snapshot store_object for_user resolve overrides
saved-Reach = next uploaded-Reach (commits 2 "ada" "one" uploaded)

resaved-Reach : Reach digest (fresh elsewhere) (
    server
      (row_of "one" 1 committed 1 2 ∷ row_of "two" 2 pending 3 3 ∷ [])
      (manifest_of "one" ∷ manifest_of "two" ∷ [])
      (blob ∷ [])
      on_disk
      (committed_event ∷ []))
unfolding prepare_snapshot valid_shop is_sha256 current_version for_user resolve overrides
    exceeds_quota ◌+ℤ◌ is_stored store_object used_bytes sum_sizes
resaved-Reach = next saved-Reach (prepares 3 "two" "ada" (request 1 file_a) saved)

replaced-Reach : Reach digest (fresh elsewhere) replaced
unfolding commit_snapshot store_object for_user resolve overrides
replaced-Reach = next resaved-Reach (commits 4 "ada" "two" _)

racing-Reach : Reach digest (fresh elsewhere) racing
unfolding prepare_snapshot valid_shop is_sha256 current_version for_user resolve overrides
    exceeds_quota ◌+ℤ◌ is_stored used_bytes sum_sizes
racing-Reach = next uploaded-Reach (prepares 1 "two" "ada" (request 0 file_a) uploaded)
