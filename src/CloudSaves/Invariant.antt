-- ===== src/CloudSaves/Invariant.antt =====
-- The invariant of the cloud save tables, and that the statements of cloud_saves.rs keep it.
pub mod Register
pub mod Loop
pub mod Replace
pub mod Commits
pub mod Handlers
pub mod Retained
pub mod Restores
use hydra_server.Shared.{
  ℕ, String, ◌≤◌, ◌≡◌, refl, sym, ap, ◌∙◌, Bool, true, false, not, ◌&&◌, Option, none, some, List,
  [], ◌∷◌, Memᴰ, arith, inl, inr, select, delete, update, count, any, if◌then◌else◌, ◌==◌, str-eq,
  Bool-cases, mem-select_inv, mem-select, mem-delete_inv, mem-delete, mem-update_inv, any_of_mem,
  mem_of_any, count-select-le, count-update-le, count-update-add,
}
use hydra_server.Storage.{cloud_save_blob_key}
use hydra_server.CloudSaves.State.{
  Status, committed, superseded, is_pending, Snapshot, FileRow, BlobRow, Event, Store, of_user,
  has_id, of_game, is_current, file_of, is_blob, record_event,
}
use hydra_server.CloudSaves.Gc.{is_referenced, collect_orphan_blobs}
use hydra_server.CloudSaves.Gc.Keeps.{
  SameRows, collect-SameRows, BlobsStored, collect-BlobsStored, collect-disk, collect-blob, Dropped,
  listed,
}

-- The file's bytes are on disk, whole, and counted in the owner's quota.
abbrev pub Held : Store → String → FileRow → Type 0
Held s user f =
    (s.disk (cloud_save_blob_key user f.hash) ≡ some f.size)
    × (any (is_blob user f.hash) s.blobs ≡ true)

pub record IsValid (s : Store) : Type 0 where
  -- the primary key
  pub ids : (id : String) → count (has_id id) s.snapshots ≤ 1
  -- the unique index: one current save for a game
  pub current : (u sh o : String) → count (is_current u sh o) s.snapshots ≤ 1
  -- the foreign key
  pub owned : (f : FileRow) → Memᴰ f s.files → any (has_id f.snapshot_id) s.snapshots ≡ true
  pub stored : BlobsStored s
  -- every save that can be restored, current or retained, has all its bytes
  pub kept :
      (r : Snapshot) (f : FileRow)
      → Memᴰ r s.snapshots
      → Memᴰ f s.files
      → has_id f.snapshot_id r ≡ true
      → is_pending r.status ≡ false
      → Held s r.user_id f

pub event-IsValid : (e : Event) {s : Store} → IsValid s → IsValid (record_event e s)
event-IsValid e v = record {
  ids = v.ids;
  current = v.current;
  owned = v.owned;
  stored = v.stored;
  kept = v.kept;
}

pub referenced_of :
    (r : Snapshot) (f : FileRow) (s : Store)
    → Memᴰ r s.snapshots
    → Memᴰ f s.files
    → has_id f.snapshot_id r ≡ true
    → is_referenced s.snapshots s.files r.user_id f.hash ≡ true
unfolding is_referenced
referenced_of r f s mr mf h = any_of_mem _ s.files mf (
    ground (
      arith,
      str-eq f.hash f.hash,
      str-eq r.user_id r.user_id,
      any_of_mem (λ q. has_id f.snapshot_id q && of_user r.user_id q) s.snapshots mr,
    ))

pub collect-IsValid :
    (user : String) {s : Store} → IsValid s → IsValid (collect_orphan_blobs user s)
collect-IsValid user {s} v = record {
  ids = λ id. rw same.snapshots (v.ids id);
  current = λ u sh o. rw same.snapshots (v.current u sh o);
  owned = λ f m. rw same.snapshots (v.owned f (rw same.files at m));
  stored = collect-BlobsStored user s v.stored;
  kept = λ r f mr mf h p.
      let mr' = rw same.snapshots at mr in
      let mf' = rw same.files at mf in
      let ref = referenced_of r f s mr' mf' h in
      let (d, b) = v.kept r f mr' mf' h p in
      (collect-disk user r.user_id f.hash s ref ∙ d, collect-blob user r.user_id f.hash s ref b);
}
  where
    same : SameRows s (collect_orphan_blobs user s)
    same = collect-SameRows user s

pub Dropped-IsValid : (l : List Snapshot) {s t : Store} → Dropped l s t → IsValid s → IsValid t
Dropped-IsValid l {s} {t} d v = record {
  ids = λ id. rw d.snapshots (omega (arith, v.ids id, count-select-le (has_id id) _ s.snapshots));
  current = λ u sh o.
      rw d.snapshots
        (omega (arith, v.current u sh o, count-select-le (is_current u sh o) _ s.snapshots));
  owned = λ f m.
      let (mf, q) = mem-delete_inv _ s.files (rw d.files at m) in
      let (r, mr, e) = mem_of_any (has_id f.snapshot_id) s.snapshots (v.owned f mf) in
      rw d.snapshots (
        any_of_mem (has_id f.snapshot_id) _
          (mem-delete _ s.snapshots mr (rw ((str-eq r.id f.snapshot_id).0 e) q)) e);
  stored = λ b m. rw d.disk (v.stored b (rw d.blobs at m));
  kept = λ r f mr mf h p. rw d.disk (
      rw d.blobs (
        v.kept r f (mem-delete_inv _ s.snapshots (rw d.snapshots at mr)).0
          (mem-delete_inv _ s.files (rw d.files at mf)).0 h p));
}
