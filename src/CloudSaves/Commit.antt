-- ===== src/CloudSaves/Commit.antt =====
-- `commit_snapshot`: the pending row is read, its blobs are registered one by one, and one
-- transaction makes it the current save. The parts are functions of their own, since other requests
-- may run between them.
use hydra_server.Shared.{
  ℕ, String, Bool, true, false, ◌&&◌, Option, none, some, List, [], ◌∷◌, ◌++◌, select, update,
  first, any, if◌then◌else◌, nat_eq, ◌==◌,
}
use hydra_server.Shared.Int.{ℤ}
use hydra_server.Json.{Json, obj, member, empty, str}
use hydra_server.ApiError.{ApiError, Result, ok, err, bad_request, not_found, with_extra}
use hydra_server.Limits.{for_user}
use hydra_server.Storage.{cloud_save_blob_key}
use hydra_server.CloudSaves.State.{
  committed, superseded, is_pending, Snapshot, FileRow, BlobRow, Store, record_event, game_event,
  has_id, of_user, is_current, is_kept, is_blob, file_of,
}
use hydra_server.CloudSaves.Gc.{drop_snapshots, collect_orphan_blobs}

pub record CommitResponse : Type 0 where
  pub snapshot_id : String
  pub version : ℕ
  pub file_count : ℕ
  pub total_size : ℤ
  pub aggregate_hash : String

abbrev code_extra : String → Json
code_extra code = obj (member "code" (str code) empty)

abbrev pub pending_not_found : ApiError
pending_not_found =
    with_extra (not_found "pending snapshot not found")
      (code_extra "game/cloud-save-pending-snapshot-not-found")

abbrev pub never_uploaded : ApiError
never_uploaded =
    with_extra (bad_request "a snapshot file was never uploaded")
      (code_extra "game/cloud-save-pending-snapshot-incomplete")

abbrev pub unexpected_size : ApiError
unexpected_size =
    with_extra (bad_request "an uploaded snapshot file has an unexpected size")
      (code_extra "game/cloud-save-pending-snapshot-incomplete")

abbrev pub is_pending_of : String → String → Snapshot → Bool
is_pending_of user id r = has_id id r && (of_user user r && is_pending r.status)

-- `SELECT DISTINCT hash, size_in_bytes`
abbrev pub same_content : FileRow → FileRow → Bool
same_content f g = (f.hash == g.hash) && nat_eq f.size g.size

unfoldable pub distinct : List FileRow → List FileRow
distinct [] = []
distinct (f ∷ rest) =
    let later = distinct rest in if any (same_content f) later then later else f ∷ later

-- INSERT … ON CONFLICT DO UPDATE SET size_in_bytes: a row that is there keeps its created_at.
unfoldable pub upsert_blob : ℕ → String → String → ℕ → List BlobRow → List BlobRow
upsert_blob now user hash size blobs =
    if any (is_blob user hash) blobs
    then update (is_blob user hash) (λ b. record b { size = size }) blobs
    else blobs ++ record { user_id = user; hash = hash; size = size; created_at = now } ∷ []

-- The loop over the manifest's content; what is registered before a refusal stays.
unfoldable pub register_blobs : ℕ → String → List FileRow → Store → Option ApiError × Store
unfolding upsert_blob
register_blobs now user [] s = (none, s)
register_blobs now user (f ∷ rest) s = elim (s.disk (cloud_save_blob_key user f.hash)) [
  | none ↦ (some never_uploaded, s)
  | some length ↦
      if nat_eq length f.size
      then register_blobs now user rest
          (record s { blobs = upsert_blob now user f.hash f.size s.blobs })
      else (some unexpected_size, s)
]

abbrev pub supersede : ℕ → Snapshot → Snapshot
supersede now r = record r { status = superseded; updated_at = now }

-- `superseded.iter().chain(kept.iter())`
abbrev pub older : String → String → String → Store → List Snapshot
older user shop object s =
    select (is_current user shop object) s.snapshots
    ++ select (is_kept user shop object) s.snapshots

-- The older saves of the game: dropped with their manifests where the account lets the server
-- delete, kept as retained versions otherwise.
unfoldable pub retire : Bool → ℕ → String → String → String → Store → Store
unfolding drop_snapshots
retire true now user shop object s = drop_snapshots (older user shop object s) s
retire false now user shop object s = record s {
  snapshots = update (is_current user shop object) (supersede now) s.snapshots;
}

abbrev pub promote : ℕ → Snapshot → Snapshot
promote now r = record r { status = committed; updated_at = now }

-- The transaction. The UPDATE looks for the id alone.
unfoldable pub commit_tx : Bool → ℕ → String → String → String → String → Store → Store
unfolding retire
commit_tx auto_delete now user shop object id s =
    let retired = retire auto_delete now user shop object s in
    record retired { snapshots = update (has_id id) (promote now) retired.snapshots }

-- The end of the handler, from the row that was read at its start.
unfoldable pub commit_row : ℕ → String → Snapshot → Store → Store
unfolding commit_tx collect_orphan_blobs
commit_row now user r s =
    let auto_delete = (for_user s.users s.settings user).auto_delete_saves in
    record_event (game_event "cloud_save.committed" user r.shop r.object_id (some r.total_size))
      (collect_orphan_blobs user (commit_tx auto_delete now user r.shop r.object_id r.id s))

abbrev pub commit_response : Snapshot → CommitResponse
commit_response r = record {
  snapshot_id = r.id;
  version = r.version;
  file_count = r.file_count;
  total_size = r.total_size;
  aggregate_hash = r.aggregate_hash;
}

unfoldable pub commit_found :
    ℕ → String → Snapshot → Option ApiError × Store → Result CommitResponse × Store
unfolding commit_row
commit_found now user r (none, s) = (ok (commit_response r), commit_row now user r s)
commit_found now user r (some e, s) = (err e, s)

unfoldable pub commit_snapshot : ℕ → String → String → Store → Result CommitResponse × Store
unfolding register_blobs distinct commit_found
commit_snapshot now user id s = elim (first (is_pending_of user id) s.snapshots) [
  | none ↦ (err pending_not_found, s)
  | some r ↦
      commit_found now user r (register_blobs now user (distinct (select (file_of id) s.files)) s)
]
