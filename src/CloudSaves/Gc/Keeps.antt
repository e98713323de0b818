-- ===== src/CloudSaves/Gc/Keeps.antt =====
-- What collecting blobs and dropping snapshots leave alone.
use hydra_server.Shared.{
  String, ◌≡◌, refl, sym, ◌∙◌, Bool, true, false, ◌&&◌, some, List, [], ◌∷◌, Memᴰ, arith, inl, inr,
  select, delete, any, ◌==◌, str-eq, Bool-cases, mem-select_inv, mem-delete_inv, mem-delete,
  any_of_mem, mem_of_any, delete-none, delete-delete,
}
use hydra_server.Storage.{delete_object, cloud_save_blob_key}
use hydra_server.CloudSaves.State.{Snapshot, BlobRow, Store, has_id, file_of, is_blob}
use hydra_server.CloudSaves.Gc.{
  is_referenced, is_orphan, free_blobs, is_empty, collect_orphan_blobs, drop_snapshots,
}

-- The parts of the store that the collector has no business with.
pub record SameRows (s t : Store) : Type 0 where
  pub snapshots : t.snapshots ≡ s.snapshots
  pub files : t.files ≡ s.files

pub SameRows-trans : {s t u : Store} → SameRows s t → SameRows t u → SameRows s u
SameRows-trans a b = record { snapshots = b.snapshots ∙ a.snapshots; files = b.files ∙ a.files }

free_blobs-SameRows :
    (user : String) (l : List BlobRow) (s : Store) → SameRows s (free_blobs user l s)
unfolding free_blobs
free_blobs-SameRows user [] s = record { snapshots = refl; files = refl }
free_blobs-SameRows user (b ∷ l) s =
    let r = free_blobs-SameRows user l _ in record { snapshots = r.snapshots; files = r.files }

pub collect-SameRows : (user : String) (s : Store) → SameRows s (collect_orphan_blobs user s)
unfolding collect_orphan_blobs
collect-SameRows user s =
    ground (arith, free_blobs-SameRows user (select (is_orphan s user) s.blobs) s)

-- A key that is not among those freed.
free_blobs-disk :
    (user u h : String) (l : List BlobRow) (s : Store)
    → any (λ b. (u == user) && (h == b.hash)) l ≡ false
    → (free_blobs user l s).disk (cloud_save_blob_key u h) ≡ s.disk (cloud_save_blob_key u h)
unfolding free_blobs delete_object
free_blobs-disk user u h [] s e = refl
free_blobs-disk user u h (b ∷ l) s e = free_blobs-disk user u h l _ (ground arith) ∙ ground arith

free_blobs-blob :
    (user u h : String) (l : List BlobRow) (s : Store)
    → any (λ b. (u == user) && (h == b.hash)) l ≡ false
    → any (is_blob u h) s.blobs ≡ true
    → any (is_blob u h) (free_blobs user l s).blobs ≡ true
unfolding free_blobs
free_blobs-blob user u h [] s e k = k
free_blobs-blob user u h (b ∷ l) s e k =
    let (c, m, q) = mem_of_any (is_blob u h) s.blobs k in
    free_blobs-blob user u h l _ (ground arith) (
      any_of_mem (is_blob u h) (delete (is_blob user b.hash) s.blobs)
        (mem-delete (is_blob user b.hash) s.blobs m
          (ground (arith, str-eq c.user_id u, str-eq c.hash h)))
        q)

-- A row's blob is on disk, with the row's size.
abbrev pub BlobsStored : Store → Type 0
BlobsStored s =
    (b : BlobRow) → Memᴰ b s.blobs → s.disk (cloud_save_blob_key b.user_id b.hash) ≡ some b.size

free_blobs-BlobsStored :
    (user : String) (l : List BlobRow) (s : Store)
    → BlobsStored s
    → BlobsStored (free_blobs user l s)
unfolding free_blobs delete_object
free_blobs-BlobsStored user [] s h = h
free_blobs-BlobsStored user (b ∷ l) s h =
    free_blobs-BlobsStored user l _
      λ c m. let (k, q) = mem-delete_inv (is_blob user b.hash) s.blobs m in rw q (h c k)

pub collect-BlobsStored :
    (user : String) (s : Store) → BlobsStored s → BlobsStored (collect_orphan_blobs user s)
unfolding collect_orphan_blobs
collect-BlobsStored user s h = elim (Bool-cases (is_empty (select (is_orphan s user) s.blobs))) [
  | inl e ↦ rw e (free_blobs-BlobsStored user (select (is_orphan s user) s.blobs) s h)
  | inr e ↦ rw e (free_blobs-BlobsStored user (select (is_orphan s user) s.blobs) s h)
]

-- A blob that a manifest of its owner names is no orphan.
not_orphan :
    (s : Store) (user u h : String)
    → is_referenced s.snapshots s.files u h ≡ true
    → any (λ b. (u == user) && (h == b.hash)) (select (is_orphan s user) s.blobs) ≡ false
not_orphan s user u h r = elim (Bool-cases found) [
  | inr e ↦ e
  | inl e ↦
      let (b, m, q) = mem_of_any key (select (is_orphan s user) s.blobs) e in
      let (k, o) = mem-select_inv (is_orphan s user) s.blobs m in
      absurd (ground (arith, str-eq b.user_id user, str-eq u user, str-eq h b.hash))
]
  where
    key : BlobRow → Bool
    key b = (u == user) && (h == b.hash)

    found : Bool
    found = any key (select (is_orphan s user) s.blobs)

pub collect-disk :
    (user u h : String) (s : Store)
    → is_referenced s.snapshots s.files u h ≡ true
    → (collect_orphan_blobs user s).disk (cloud_save_blob_key u h)
      ≡ s.disk (cloud_save_blob_key u h)
unfolding collect_orphan_blobs
collect-disk user u h s r = ground (
  arith,
  free_blobs-disk user u h (select (is_orphan s user) s.blobs) s (not_orphan s user u h r),
)

pub collect-blob :
    (user u h : String) (s : Store)
    → is_referenced s.snapshots s.files u h ≡ true
    → any (is_blob u h) s.blobs ≡ true
    → any (is_blob u h) (collect_orphan_blobs user s).blobs ≡ true
unfolding collect_orphan_blobs
collect-blob user u h s r k = ground (
  arith,
  free_blobs-blob user u h (select (is_orphan s user) s.blobs) s (not_orphan s user u h r) k,
)

-- Dropping snapshots takes out the rows of their ids and the files of those, and nothing else.
abbrev pub listed : List Snapshot → String → Bool
listed l id = any (λ q. id == q.id) l

pub record Dropped (l : List Snapshot) (s t : Store) : Type 0 where
  pub snapshots : t.snapshots ≡ delete (λ r. listed l r.id) s.snapshots
  pub files : t.files ≡ delete (λ f. listed l f.snapshot_id) s.files
  pub blobs : t.blobs ≡ s.blobs
  pub disk : t.disk ≡ s.disk

pub drop_snapshots-Dropped : (l : List Snapshot) (s : Store) → Dropped l s (drop_snapshots l s)
unfolding drop_snapshots
drop_snapshots-Dropped [] s = record {
  snapshots = sym (delete-none s.snapshots);
  files = sym (delete-none s.files);
  blobs = refl;
  disk = refl;
}
drop_snapshots-Dropped (q ∷ l) s =
    let d = drop_snapshots-Dropped l _ in
    record {
      snapshots = d.snapshots ∙ delete-delete (λ r. listed l r.id) (has_id q.id) s.snapshots;
      files = d.files ∙ delete-delete (λ f. listed l f.snapshot_id) (file_of q.id) s.files;
      blobs = d.blobs;
      disk = d.disk;
    }
