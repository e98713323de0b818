-- ===== src/CloudSaves/Invariant/Register.antt =====
-- What `prepare_snapshot` and the loop of `commit_snapshot` write keeps the invariant.
use hydra_server.Shared.{
  ℕ, String, ◌≤◌, ◌≡◌, refl, ap, ◌∙◌, true, false, some, some-injective, subst, List, [], ◌∷◌, ◌++◌,
  map, Memᴰ, arith, inl, inr, count, any, if◌then◌else◌, str-eq, str_refl, Bool-cases,
  mem-append_inv, mem-update_inv, mem-map_inv, not_of_any, any-update, any-append_left,
  any-append_right, count-append, count-zero_of_any,
}
use hydra_server.Storage.{cloud_save_blob_key}
use hydra_server.CloudSaves.State.{
  is_pending, Snapshot, FileRow, BlobRow, Store, has_id, is_current, is_blob,
}
use hydra_server.CloudSaves.Request.{FileInput}
use hydra_server.CloudSaves.Prepare.{insert_snapshot, file_row}
use hydra_server.CloudSaves.Commit.{upsert_blob}
use hydra_server.CloudSaves.Gc.Keeps.{BlobsStored}
use hydra_server.CloudSaves.Invariant.{IsValid, Held}

abbrev with_snapshot : Snapshot → List FileRow → Store → Store
with_snapshot row files s = record s {
  snapshots = s.snapshots ++ row ∷ [];
  files = s.files ++ files;
}

module _ (row : Snapshot) (inputs : List FileInput) (s : Store)
    (pend : is_pending row.status ≡ true) (fresh : any (has_id row.id) s.snapshots ≡ false)
    (v : IsValid s) where
  new_files : List FileRow
  new_files = map (file_row row.id) inputs

  is_new : (f : FileRow) → Memᴰ f new_files → f.snapshot_id ≡ row.id
  unfolding new_files file_row
  is_new f m =
      let (i, k, e) = mem-map_inv (file_row row.id) inputs m in
      ap (λ (g : FileRow). g.snapshot_id) e

  ids_after : (id : String) → count (has_id id) (s.snapshots ++ row ∷ []) ≤ 1
  ids_after id = ground (
    arith,
    count-append (has_id id) s.snapshots (row ∷ []),
    v.ids id,
    str-eq row.id id,
    count-zero_of_any (has_id row.id) s.snapshots fresh,
  )

  current_after : (u sh o : String) → count (is_current u sh o) (s.snapshots ++ row ∷ []) ≤ 1
  current_after u sh o =
      ground (arith, count-append (is_current u sh o) s.snapshots (row ∷ []), v.current u sh o)

  owned_after :
      (f : FileRow)
      → Memᴰ f (s.files ++ new_files)
      → any (has_id f.snapshot_id) (s.snapshots ++ row ∷ []) ≡ true
  owned_after f m = elim (mem-append_inv s.files new_files m) [
    | inl old ↦ any-append_left (has_id f.snapshot_id) s.snapshots (row ∷ []) (v.owned f old)
    | inr new ↦
        any-append_right (has_id f.snapshot_id) s.snapshots (row ∷ [])
          (ground (arith, is_new f new, str-eq row.id f.snapshot_id))
  ]

  Held-after :
      (r : Snapshot) (f : FileRow)
      → Memᴰ r (s.snapshots ++ row ∷ [])
      → Memᴰ f (s.files ++ new_files)
      → has_id f.snapshot_id r ≡ true
      → is_pending r.status ≡ false
      → Held s r.user_id f
  Held-after r f mr mf h p = elim (mem-append_inv s.snapshots (row ∷ []) mr) [
    | inr (Memᴰ.head e) ↦ absurd (cc (ap (λ (q : Snapshot). is_pending q.status) e))
    | inr (Memᴰ.tail m) ↦ elim m [ ]
    | inl old ↦ elim (mem-append_inv s.files new_files mf) [
      | inl kept ↦ v.kept r f old kept h p
      | inr new ↦
          absurd (ground (arith, not_of_any (has_id row.id) s.snapshots fresh old, is_new f new))
    ]
  ]

  with_snapshot-IsValid : IsValid (with_snapshot row new_files s)
  with_snapshot-IsValid = record {
    ids = ids_after;
    current = current_after;
    owned = owned_after;
    stored = v.stored;
    kept = Held-after;
  }

-- A pending row under a new id, with its manifest.
pub insert-IsValid :
    (row : Snapshot) (inputs : List FileInput) {s t : Store}
    → is_pending row.status ≡ true
    → insert_snapshot row (map (file_row row.id) inputs) s ≡ some t
    → IsValid s
    → IsValid t
unfolding insert_snapshot new_files
insert-IsValid row inputs {s} {t} pend e v = elim (Bool-cases (any (has_id row.id) s.snapshots)) [
  | inl taken ↦ absurd (ground arith)
  | inr fresh ↦
      subst IsValid (some-injective _ _ (rw fresh at e))
        (with_snapshot-IsValid row inputs s pend fresh v)
]

-- One upsert: the row of the content is there, no other is lost, and all have their bytes.
pub upsert-BlobsStored :
    (now : ℕ) (user hash : String) (size : ℕ) (s : Store)
    → s.disk (cloud_save_blob_key user hash) ≡ some size
    → BlobsStored s
    → BlobsStored (record s { blobs = upsert_blob now user hash size s.blobs })
unfolding upsert_blob
upsert-BlobsStored now user hash size s here h b m =
    elim (Bool-cases (any (is_blob user hash) s.blobs)) [
      | inl old ↦
          let (c, k, e) = mem-update_inv (is_blob user hash) _ s.blobs (rw old at m) in
          updated c e (h c k)
      | inr new ↦ elim (mem-append_inv s.blobs _ (rw new at m)) [
        | inl k ↦ h b k
        | inr (Memᴰ.head e) ↦ rw e here
        | inr (Memᴰ.tail k) ↦ elim k [ ]
      ]
    ]
  where
    resized : BlobRow → BlobRow
    resized c = record c { size = size }

    updated :
        (c : BlobRow)
        → b ≡ (if is_blob user hash c then resized c else c)
        → s.disk (cloud_save_blob_key c.user_id c.hash) ≡ some c.size
        → s.disk (cloud_save_blob_key b.user_id b.hash) ≡ some b.size
    updated c e k = elim (Bool-cases (is_blob user hash c)) [
      | inl y ↦
          let e' : b ≡ resized c = rw y at e in
          let p : c.user_id ≡ user = ground (arith, str-eq c.user_id user) in
          let q : c.hash ≡ hash = ground (arith, str-eq c.hash hash) in rw e' (rw p (rw q here))
      | inr n ↦ let e' : b ≡ c = rw n at e in rw e' k
    ]

pub any-upsert_self :
    (now : ℕ) (user hash : String) (size : ℕ) (blobs : List BlobRow)
    → any (is_blob user hash) (upsert_blob now user hash size blobs) ≡ true
unfolding upsert_blob
any-upsert_self now user hash size blobs = elim (Bool-cases (any (is_blob user hash) blobs)) [
  | inl old ↦ rw old (any-update (is_blob user hash) (is_blob user hash) _ blobs (λ a. refl) ∙ old)
  | inr new ↦
      rw new (
        any-append_right (is_blob user hash) blobs _ (ground (arith, str_refl user, str_refl hash)))
]

pub any-upsert :
    (now : ℕ) (user hash u h : String) (size : ℕ) (blobs : List BlobRow)
    → any (is_blob u h) blobs ≡ true
    → any (is_blob u h) (upsert_blob now user hash size blobs) ≡ true
unfolding upsert_blob
any-upsert now user hash u h size blobs k = elim (Bool-cases (any (is_blob user hash) blobs)) [
  | inl old ↦ rw old (any-update (is_blob u h) (is_blob user hash) _ blobs (λ a. refl) ∙ k)
  | inr new ↦ rw new (any-append_left (is_blob u h) blobs _ k)
]
