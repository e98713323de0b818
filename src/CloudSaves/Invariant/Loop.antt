-- ===== src/CloudSaves/Invariant/Loop.antt =====
-- What the loop over a manifest's content leaves: only blob rows are added, and where it refuses
-- nothing, every file of the manifest is held.
use hydra_server.Shared.{
  ℕ, String, ◌≡◌, refl, ◌∙◌, true, none, some, List, [], ◌∷◌, Memᴰ, arith, inl, inr, any, nat_eq,
  nat_eq_iff, Bool-cases, Option-cases,
}
use hydra_server.Storage.{cloud_save_blob_key}
use hydra_server.CloudSaves.State.{FileRow, Store, is_blob}
use hydra_server.CloudSaves.Commit.{upsert_blob, register_blobs}
use hydra_server.CloudSaves.Gc.Keeps.{BlobsStored}
use hydra_server.CloudSaves.Invariant.{IsValid, Held}
use hydra_server.CloudSaves.Invariant.Register.{upsert-BlobsStored, any-upsert, any-upsert_self}

-- Only blob rows differ, and none is lost.
pub record BlobsAdded (s t : Store) : Type 0 where
  pub snapshots : t.snapshots ≡ s.snapshots
  pub files : t.files ≡ s.files
  pub disk : t.disk ≡ s.disk
  pub stored : BlobsStored s → BlobsStored t
  pub more : (u h : String) → any (is_blob u h) s.blobs ≡ true → any (is_blob u h) t.blobs ≡ true

pub BlobsAdded-IsValid : {s t : Store} → BlobsAdded s t → IsValid s → IsValid t
BlobsAdded-IsValid {s} {t} a v = record {
  ids = λ id. rw a.snapshots (v.ids id);
  current = λ u sh o. rw a.snapshots (v.current u sh o);
  owned = λ f m. rw a.snapshots (v.owned f (rw a.files at m));
  stored = a.stored v.stored;
  kept = λ r f mr mf h p.
      let (d, b) = v.kept r f (rw a.snapshots at mr) (rw a.files at mf) h p in
      (rw a.disk d, a.more r.user_id f.hash b);
}

upsert-BlobsAdded :
    (now : ℕ) (user hash : String) (size : ℕ) (s : Store)
    → s.disk (cloud_save_blob_key user hash) ≡ some size
    → BlobsAdded s (record s { blobs = upsert_blob now user hash size s.blobs })
upsert-BlobsAdded now user hash size s here = record {
  snapshots = refl;
  files = refl;
  disk = refl;
  stored = upsert-BlobsStored now user hash size s here;
  more = λ u h. any-upsert now user hash u h size s.blobs;
}

pub BlobsAdded-refl : (s : Store) → BlobsAdded s s
BlobsAdded-refl s = record {
  snapshots = refl;
  files = refl;
  disk = refl;
  stored = λ h. h;
  more = λ u h k. k;
}

BlobsAdded-trans : {s t u : Store} → BlobsAdded s t → BlobsAdded t u → BlobsAdded s u
BlobsAdded-trans a b = record {
  snapshots = b.snapshots ∙ a.snapshots;
  files = b.files ∙ a.files;
  disk = b.disk ∙ a.disk;
  stored = λ h. b.stored (a.stored h);
  more = λ u h k. b.more u h (a.more u h k);
}

module _ (now : ℕ) (user : String) where
  pub register-BlobsAdded :
      (l : List FileRow) (s : Store) → BlobsAdded s (register_blobs now user l s).1
  unfolding register_blobs
  register-BlobsAdded [] s = BlobsAdded-refl s
  register-BlobsAdded (f ∷ l) s = elim (Option-cases (s.disk (cloud_save_blob_key user f.hash))) [
    | inl e ↦ rw (e, register_blobs) (BlobsAdded-refl s)
    | inr (n, e) ↦ elim (Bool-cases (nat_eq n f.size)) [
      | inr ne ↦ rw (e, register_blobs) (rw ne (BlobsAdded-refl s))
      | inl eq ↦
          rw (e, register_blobs)
            (rw eq (
              BlobsAdded-trans
                (upsert-BlobsAdded now user f.hash f.size s
                  (e ∙ ground (arith, nat_eq_iff n f.size)))
                (register-BlobsAdded l _)))
    ]
  ]

  pub register-Held :
      (l : List FileRow) (s : Store) (f : FileRow)
      → (register_blobs now user l s).0 ≡ none
      → Memᴰ f l
      → Held (register_blobs now user l s).1 user f
  unfolding register_blobs
  register-Held [] s f h m = elim m [ ]
  register-Held (g ∷ l) s f h m = elim (Option-cases (s.disk (cloud_save_blob_key user g.hash))) [
    | inl e ↦ absurd (cc (rw (e, register_blobs) at h))
    | inr (n, e) ↦ elim (Bool-cases (nat_eq n g.size)) [
      | inr ne ↦ absurd (ground arith)
      | inl eq ↦
          rw (e, register_blobs)
            (rw eq (
              held (e ∙ ground (arith, nat_eq_iff n g.size)) (register-Held l next f (ground arith))
                m))
    ]
  ]
    where
      next : Store
      next = record s { blobs = upsert_blob now user g.hash g.size s.blobs }

      held :
          s.disk (cloud_save_blob_key user g.hash) ≡ some g.size
          → (Memᴰ f l → Held (register_blobs now user l next).1 user f)
          → Memᴰ f (g ∷ l)
          → Held (register_blobs now user l next).1 user f
      held here rest (Memᴰ.tail k) = rest k
      held here rest (Memᴰ.head k) =
          let a = register-BlobsAdded l next in
          rw k (rw a.disk here, a.more user g.hash (any-upsert_self now user g.hash g.size s.blobs))
