-- ===== src/CloudSaves/Committing.antt =====
-- The run of `commit_snapshot` on a snapshot that has arrived, step by step.
use hydra_server.Shared.{
  ℕ, String, ◌≡◌, ap, ◌∙◌, Bool, true, none, some, List, Memᴰ, arith, ◌==◌, str_refl, if◌then◌else◌,
  ◌&&◌, select, count_mono, first, mem-select_inv, first-some_of_unique,
}
use hydra_server.ApiError.{ok}
use hydra_server.Limits.{for_user}
use hydra_server.Storage.{Disk, cloud_save_blob_key}
use hydra_server.CloudSaves.State.{
  is_pending, Snapshot, FileRow, Store, is_current, has_id, file_of,
}
use hydra_server.CloudSaves.Gc.{is_referenced}
use hydra_server.CloudSaves.Gc.Keeps.{collect-SameRows, collect-disk}
use hydra_server.CloudSaves.Commit.{
  commit_response, commit_snapshot, commit_found, commit_row, commit_tx, register_blobs, distinct,
  promote, is_pending_of,
}
use hydra_server.CloudSaves.Invariant.{IsValid}
use hydra_server.CloudSaves.Invariant.Commits.{commit_snapshot-IsValid, retire-Fewer}
use hydra_server.CloudSaves.Invariant.Replace.{retire-IsValid}
use hydra_server.CloudSaves.Invariant.Loop.{BlobsAdded, register-BlobsAdded, BlobsAdded-IsValid}
use hydra_server.CloudSaves.Committed.{Arrived, mem-distinct_inv, register-none, first-commit_tx}

-- The run of the handler on a snapshot all of whose files have arrived.
module _ (now : ℕ) (r : Snapshot) (s : Store) (v : IsValid s) (m : Memᴰ r s.snapshots)
    (p : is_pending r.status ≡ true) (arrived : Arrived s r.user_id r.id) where
  unfoldable pub contents : List FileRow
  contents = distinct (select (file_of r.id) s.files)

  unfoldable pub registered : Store
  unfolding contents
  registered = (register_blobs now r.user_id contents s).1

  pub added : BlobsAdded s registered
  unfolding registered
  added = register-BlobsAdded now r.user_id contents s

  found : first (is_pending_of r.user_id r.id) s.snapshots ≡ some r
  found =
      first-some_of_unique (is_pending_of r.user_id r.id) s.snapshots
        (omega (
          arith,
          v.ids r.id,
          count_mono (is_pending_of r.user_id r.id) (has_id r.id) s.snapshots (λ a h. ground arith),
        ))
        m (ground (arith, str_refl r.id, str_refl r.user_id))

  all_here : (register_blobs now r.user_id contents s).0 ≡ none
  unfolding contents
  all_here = register-none now r.user_id contents s (λ f k.
      let (mf, o) =
        mem-select_inv (file_of r.id) s.files
          (mem-distinct_inv f (select (file_of r.id) s.files) k) in
      arrived f mf o)

  pub run :
      commit_snapshot now r.user_id r.id s
      ≡ (ok (commit_response r), commit_row now r.user_id r registered)
  unfolding commit_snapshot registered contents
  run = rw (found, commit_snapshot) (rw (all_here, commit_found))

  unfoldable pub auto_delete : Bool
  auto_delete = (for_user registered.users registered.settings r.user_id).auto_delete_saves

  pub run-snapshots :
      (commit_snapshot now r.user_id r.id s).1.snapshots
      ≡ (commit_tx auto_delete now r.user_id r.shop r.object_id r.id registered).snapshots
  unfolding commit_row auto_delete
  run-snapshots = rw run (collect-SameRows r.user_id _).snapshots

  unfoldable pub committed_store : Store
  committed_store = commit_tx auto_delete now r.user_id r.shop r.object_id r.id registered

  pub run-files : (commit_snapshot now r.user_id r.id s).1.files ≡ committed_store.files
  unfolding commit_row auto_delete committed_store
  run-files = rw run (collect-SameRows r.user_id _).files

  pub run-disk :
      (u h : String)
      → is_referenced committed_store.snapshots committed_store.files u h ≡ true
      → (commit_snapshot now r.user_id r.id s).1.disk (cloud_save_blob_key u h)
        ≡ s.disk (cloud_save_blob_key u h)
  unfolding commit_row auto_delete committed_store commit_tx
  run-disk u h e =
      let fewer = retire-Fewer auto_delete now r.user_id r.shop r.object_id registered in
      rw run (
        collect-disk r.user_id u h committed_store e
        ∙ ap (λ (d : Disk). d (cloud_save_blob_key u h)) (fewer.disk ∙ added.disk))

  pub current-run :
      (u sh o : String)
      → first (is_current u sh o) (commit_snapshot now r.user_id r.id s).1.snapshots ≡ (
          if (u == r.user_id) && ((sh == r.shop) && (o == r.object_id))
          then some (promote now r)
          else first (is_current u sh o) s.snapshots)
  current-run u sh o =
      let rv = BlobsAdded-IsValid added v in
      let one =
        rw run-snapshots at ((commit_snapshot-IsValid now r.user_id r.id s v).current u sh o) in
      rw run-snapshots (
        first-commit_tx auto_delete now r u sh o registered rv (rw added.snapshots m) p one
          ((retire-IsValid auto_delete now r.user_id r.shop r.object_id registered rv).ids r.id)
        ∙ rw added.snapshots)
