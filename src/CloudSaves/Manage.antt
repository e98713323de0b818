-- ===== src/CloudSaves/Manage.antt =====
-- `delete_snapshots`, `delete_snapshot` and `restore_snapshot`. The last two read a row and then run
-- a transaction that checks it again, since another request may have changed it in between.
use hydra_server.Shared.{
  ℕ, String, ◌+◌, Bool, not, ◌&&◌, Option, none, some, List, [], ◌∷◌, select, delete, update, count,
  first, any, if◌then◌else◌, nat_eq, leb,
}
use hydra_server.ApiError.{ApiError, Result, ok, err, new, bad_request, not_found}
use hydra_server.CloudSaves.State.{
  committed, is_retained, Snapshot, Store, record_event, game_event, has_id, of_user, of_game,
  is_current, file_of,
}
use hydra_server.CloudSaves.Request.{valid_shop}
use hydra_server.CloudSaves.Gc.{drop_snapshots, collect_orphan_blobs}
use hydra_server.CloudSaves.Commit.{CommitResponse, supersede}

-- The status code of an answer without a body.
abbrev pub no_content : ℕ
no_content = 204

unfoldable pub delete_snapshots : String → String → String → Store → Result ℕ × Store
unfolding valid_shop drop_snapshots collect_orphan_blobs
delete_snapshots user shop object s =
    if not (valid_shop shop) then (err (bad_request "unsupported shop"), s) else (
      ok no_content,
      record_event (game_event "cloud_save.deleted" user shop object none) (
          collect_orphan_blobs user
            (drop_snapshots (select (of_game user shop object) s.snapshots) s)),
    )

abbrev pub is_owned : String → String → Snapshot → Bool
is_owned user id r = has_id id r && of_user user r

-- `id = ? AND user_id = ? AND status = 'superseded'`
abbrev pub is_retained_of : String → String → Snapshot → Bool
is_retained_of user id r = has_id id r && (of_user user r && is_retained r.status)

abbrev pub no_longer_retained : ApiError
no_longer_retained = new 409 "snapshot is no longer retained"

-- `none` is the conflict, which rolls back.
unfoldable pub delete_tx : String → String → Store → Option Store
delete_tx user id s =
    let files =
      if any (is_retained_of user id) s.snapshots then delete (file_of id) s.files else s.files in
    if nat_eq (count (is_retained_of user id) s.snapshots) 1
    then some (record s { files = files; snapshots = delete (is_retained_of user id) s.snapshots })
    else none

unfoldable pub delete_checked : String → String → Snapshot → Store → Result ℕ × Store
unfolding delete_tx collect_orphan_blobs
delete_checked user id r s = elim (delete_tx user id s) [
  | none ↦ (err no_longer_retained, s)
  | some deleted ↦ (
    ok no_content,
    record_event (game_event "cloud_save.deleted" user r.shop r.object_id (some r.total_size))
        (collect_orphan_blobs user deleted),
  )
]

unfoldable pub delete_snapshot : String → String → Store → Result ℕ × Store
unfolding delete_checked
delete_snapshot user id s = elim (first (is_owned user id) s.snapshots) [
  | none ↦ (err (not_found "snapshot not found"), s)
  | some r ↦
      if not (is_retained r.status)
      then (err (bad_request "only a retained version can be deleted on its own"), s)
      else delete_checked user id r s
]

-- COALESCE(MAX(version), 0)
unfoldable pub max_version : List Snapshot → ℕ
max_version [] = 0
max_version (r ∷ rest) =
    let later = max_version rest in if leb later r.version then r.version else later

abbrev pub restore : ℕ → ℕ → Snapshot → Snapshot
restore now version r = record r { status = committed; version = version; updated_at = now }

unfoldable pub next_version : String → String → String → Store → ℕ
unfolding max_version
next_version user shop object s = max_version (select (of_game user shop object) s.snapshots) + 1

-- `none` is the conflict, which rolls back.
unfoldable pub restore_tx : ℕ → String → String → String → String → Store → Option (ℕ × Store)
unfolding next_version
restore_tx now user shop object id s =
    let version = next_version user shop object s in
    let demoted = update (is_current user shop object) (supersede now) s.snapshots in
    if nat_eq (count (is_retained_of user id) demoted) 1
    then some (
      version,
      record s { snapshots = update (is_retained_of user id) (restore now version) demoted },
    )
    else none

unfoldable pub restore_checked :
    ℕ → String → String → Snapshot → Store → Result CommitResponse × Store
unfolding restore_tx
restore_checked now user id r s = elim (restore_tx now user r.shop r.object_id id s) [
  | none ↦ (err no_longer_retained, s)
  | some (version, restored) ↦ (
    ok (record {
      snapshot_id = id;
      version = version;
      file_count = r.file_count;
      total_size = r.total_size;
      aggregate_hash = r.aggregate_hash;
    }),
    record_event (game_event "cloud_save.restored" user r.shop r.object_id (some r.total_size))
        restored,
  )
]

unfoldable pub restore_snapshot : ℕ → String → String → Store → Result CommitResponse × Store
unfolding restore_checked
restore_snapshot now user id s = elim (first (is_owned user id) s.snapshots) [
  | none ↦ (err (not_found "snapshot not found"), s)
  | some r ↦
      if not (is_retained r.status)
      then (err (bad_request "only a retained version can be restored"), s)
      else restore_checked now user id r s
]
