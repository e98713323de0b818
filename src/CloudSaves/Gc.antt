-- ===== src/CloudSaves/Gc.antt =====
-- `collect_orphan_blobs` and `sweep_stale_pending`.
pub mod Keeps
use hydra_server.Shared.{
  ℕ, String, ◌-◌, ◌*◌, Bool, true, false, not, ◌&&◌, List, [], ◌∷◌, map, select, delete, any,
  if◌then◌else◌, ltb, ◌==◌,
}
use hydra_server.Storage.{Disk, delete_object, cloud_save_blob_key}
use hydra_server.CloudSaves.State.{
  Snapshot, FileRow, BlobRow, Store, is_pending, of_user, has_id, file_of, is_blob, record_event,
  user_event,
}

-- EXISTS: a manifest row of one of the owner's snapshots names the hash.
unfoldable pub is_referenced : List Snapshot → List FileRow → String → String → Bool
is_referenced snapshots files user hash =
    any (λ f. (f.hash == hash) && any (λ r. has_id f.snapshot_id r && of_user user r) snapshots)
      files

abbrev pub is_orphan : Store → String → BlobRow → Bool
is_orphan s user b = (b.user_id == user) && not (is_referenced s.snapshots s.files b.user_id b.hash)

-- The loop over the orphans: the file goes first, then its row.
unfoldable pub free_blobs : String → List BlobRow → Store → Store
unfolding delete_object
free_blobs user [] s = s
free_blobs user (b ∷ rest) s = free_blobs user rest (record s {
  disk = delete_object (cloud_save_blob_key user b.hash) s.disk;
  blobs = delete (is_blob user b.hash) s.blobs;
})

abbrev pub is_empty {ℓ} : {A : Type ℓ} → List A → Bool
is_empty [] = true
is_empty (x ∷ xs) = false

unfoldable pub collect_orphan_blobs : String → Store → Store
unfolding is_referenced free_blobs
collect_orphan_blobs user s =
    let orphans = select (is_orphan s user) s.blobs in
    let freed = free_blobs user orphans s in
    if is_empty orphans then freed else record_event (user_event "system.gc" user) freed

-- `for id in ids { DELETE files; DELETE snapshots }`
unfoldable pub drop_snapshots : List Snapshot → Store → Store
drop_snapshots [] s = s
drop_snapshots (r ∷ rest) s = drop_snapshots rest (record s {
  files = delete (file_of r.id) s.files;
  snapshots = delete (has_id r.id) s.snapshots;
})

-- 24 hours in nanoseconds
abbrev pub pending_snapshot_ttl : ℕ
pending_snapshot_ttl = 24 * 60 * 60 * 1000000000

abbrev pub is_stale : ℕ → String → Snapshot → Bool
is_stale cutoff user r = of_user user r && (is_pending r.status && ltb r.created_at cutoff)

unfoldable pub sweep_stale_pending : ℕ → String → Store → Store
unfolding drop_snapshots collect_orphan_blobs
sweep_stale_pending now user s =
    let stale = select (is_stale (now - pending_snapshot_ttl) user) s.snapshots in
    let swept = drop_snapshots stale s in
    if is_empty stale then swept else collect_orphan_blobs user swept
