-- ===== src/CloudSaves/RestoreLaws.antt =====
-- `restore_snapshot` and `delete_snapshot`: what they do to the versions of a game.
use hydra_server.Shared.{
  ℕ, String, ◌<◌, ◌≡◌, refl, ap, true, some, Memᴰ, arith, str-eq, first, select,
}
use hydra_server.ApiError.{ok}
use hydra_server.CloudSaves.State.{
  committed, superseded, is_retained, Snapshot, Store, is_current, of_game, file_of,
}
use hydra_server.CloudSaves.Manage.{restore_snapshot, next_version, is_retained_of}
use hydra_server.CloudSaves.Invariant.{IsValid}
use hydra_server.CloudSaves.Restoring
use hydra_server.CloudSaves.Restoring.{next_version-newest}

-- From tables in order, restoring a retained version succeeds and answers with a version that is
-- greater than every version of the game. The restored row is then the game's current save, with that
-- version, the status of a committed one, the time of the request and all else as it was; and no
-- manifest, no blob row and no file on disk has changed.
pub restore_snapshot-ok :
    (now : ℕ) (user id : String) (r : Snapshot) (s : Store)
    → IsValid s
    → Memᴰ r s.snapshots
    → is_retained_of user id r ≡ true
    → let t = (restore_snapshot now user id s).1 in
      let version = next_version user r.shop r.object_id s in
      ((restore_snapshot now user id s).0
        ≡ ok (record {
          snapshot_id = id;
          version = version;
          file_count = r.file_count;
          total_size = r.total_size;
          aggregate_hash = r.aggregate_hash;
        }))
      × ((q : Snapshot)
          → Memᴰ q s.snapshots
          → of_game user r.shop r.object_id q ≡ true
          → q.version < version)
      × (first (is_current user r.shop r.object_id) t.snapshots
          ≡ some (record r { status = committed; version = version; updated_at = now }))
      × (t.files ≡ s.files)
      × (t.blobs ≡ s.blobs)
      × (t.disk ≡ s.disk)
unfolding Restoring.response Restoring.version
restore_snapshot-ok now user id r s v m h =
    let i : r.id ≡ id = ground (arith, str-eq r.id id) in
    let p : r.user_id ≡ user = ground (arith, str-eq r.user_id user) in
    let kept : is_retained r.status ≡ true = ground arith in
    let same = Restoring.run-after now r s v m kept in
    rw (← i) (
      rw (← p) (
        Restoring.run-ok now r s v m kept,
        λ q k g. next_version-newest r.user_id r.shop r.object_id q s k g,
        Restoring.current-run now r s v m kept,
        same.1,
        same.2,
        same.3,
      ))

-- From tables in order, the save that a restore replaces is kept as a retained version, with its own
-- version and its own manifest, and the game's current save is then the row that was restored, with a
-- greater version: the restore can be undone, and every launcher sees it as a newer save.
pub restore_snapshot-replaced :
    (now : ℕ) (user id : String) (r q : Snapshot) (s : Store)
    → IsValid s
    → Memᴰ r s.snapshots
    → is_retained_of user id r ≡ true
    → Memᴰ q s.snapshots
    → is_current user r.shop r.object_id q ≡ true
    → let t = (restore_snapshot now user id s).1 in
      Memᴰ (record q { status = superseded; updated_at = now }) t.snapshots
      × (select (file_of q.id) t.files ≡ select (file_of q.id) s.files)
      × ((after : Snapshot) × (first (is_current user r.shop r.object_id) t.snapshots ≡ some after)
          × (after.id ≡ r.id)
          × (q.version < after.version))
unfolding Restoring.version next_version
restore_snapshot-replaced now user id r q s v m h k c =
    let i : r.id ≡ id = ground (arith, str-eq r.id id) in
    let p : r.user_id ≡ user = ground (arith, str-eq r.user_id user) in
    let kept : is_retained r.status ≡ true = ground arith in
    let newest = next_version-newest r.user_id r.shop r.object_id q s k (ground (arith, p)) in
    rw (← i) (
      rw (← p) (
        Restoring.replaced-run now r s v m kept q k (rw p c),
        ap (select (file_of q.id)) (Restoring.run-after now r s v m kept).1,
        (_, Restoring.current-run now r s v m kept, refl, newest),
      ))
