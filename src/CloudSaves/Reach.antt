-- ===== src/CloudSaves/Reach.antt =====
-- What every sequence of requests leaves: the tables from an empty server on.
use hydra_server.Shared.{
  ℕ, String, ◌≡◌, true, none, some, List, [], Memᴰ, arith, str-eq, ap, sym, ◌∙◌, mem_of_any, inl,
  inr, Bool-cases,
}
use hydra_server.Limits.{UserRow, RuntimeSettings}
use hydra_server.Storage.{Sized, store_object, cloud_save_blob_key, key_eq}
use hydra_server.CloudSaves.State.{Store, FileRow, BlobRow, Event, is_blob}
use hydra_server.CloudSaves.Request.{PrepareRequest}
use hydra_server.CloudSaves.Prepare.{Checksum, prepare_snapshot}
use hydra_server.CloudSaves.Commit.{commit_snapshot}
use hydra_server.CloudSaves.Manage.{delete_snapshots, delete_snapshot, restore_snapshot}
use hydra_server.CloudSaves.Invariant.{IsValid}
use hydra_server.CloudSaves.Invariant.Commits.{commit_snapshot-IsValid}
use hydra_server.CloudSaves.Invariant.Handlers.{prepare_snapshot-IsValid, delete_snapshots-IsValid}
use hydra_server.CloudSaves.Invariant.Retained.{delete_snapshot-IsValid}
use hydra_server.CloudSaves.Invariant.Restores.{restore_snapshot-IsValid}

-- What the other parts of the server own.
pub record Elsewhere : Type 0 where
  pub backups : List Sized
  pub emulation_saves : List Sized
  pub artwork : List Sized
  pub souvenirs : List Sized
  pub users : List UserRow
  pub settings : RuntimeSettings
  pub events : List Event

abbrev pub with_elsewhere : Elsewhere → Store → Store
with_elsewhere e s = record s {
  backups = e.backups;
  emulation_saves = e.emulation_saves;
  artwork = e.artwork;
  souvenirs = e.souvenirs;
  users = e.users;
  settings = e.settings;
  events = e.events;
}

-- One request, with its time and the id it draws, a finished blob upload, or a change elsewhere.
-- An upload is stored only where its bytes have the SHA-256 that its key names, so a blob that is
-- registered is overwritten by the same bytes.
pub data Step (checksum : Checksum) : Store → Store → Type 0 where
  prepares :
      (now : ℕ) (id user : String) (r : PrepareRequest) (s : Store)
      → Step checksum s (prepare_snapshot checksum now id user r s).1
  commits :
      (now : ℕ) (user id : String) (s : Store) → Step checksum s (commit_snapshot now user id s).1
  deletes :
      (user shop object : String) (s : Store)
      → Step checksum s (delete_snapshots user shop object s).1
  deletes_version : (user id : String) (s : Store) → Step checksum s (delete_snapshot user id s).1
  restores :
      (now : ℕ) (user id : String) (s : Store) → Step checksum s (restore_snapshot now user id s).1
  uploads :
      (user hash : String) (length : ℕ) (s : Store)
      → ((b : BlobRow)
          → Memᴰ b s.blobs
          → key_eq (cloud_save_blob_key user hash) (cloud_save_blob_key b.user_id b.hash) ≡ true
          → b.size ≡ length)
      → Step checksum s
          (record s { disk = store_object (cloud_save_blob_key user hash) length s.disk })
  changes : (e : Elsewhere) (s : Store) → Step checksum s (with_elsewhere e s)

pub data Reach (checksum : Checksum) (s : Store) : Store → Type 0 where
  here : Reach checksum s s
  next : {t u : Store} → Reach checksum s t → Step checksum t u → Reach checksum s u

abbrev uploaded : String → String → ℕ → Store → Store
uploaded user hash length s = record s {
  disk = store_object (cloud_save_blob_key user hash) length s.disk;
}

upload-IsValid :
    (user hash : String) (length : ℕ) (s : Store)
    → ((b : BlobRow)
        → Memᴰ b s.blobs
        → key_eq (cloud_save_blob_key user hash) (cloud_save_blob_key b.user_id b.hash) ≡ true
        → b.size ≡ length)
    → IsValid s
    → IsValid (uploaded user hash length s)
unfolding store_object
upload-IsValid user hash length s same v = record {
  ids = v.ids;
  current = v.current;
  owned = v.owned;
  stored = λ b m. elim (Bool-cases (is_blob user hash b)) [
    | inl y ↦ rw y (ap (λ (n : ℕ). some n) (sym (same b m y)))
    | inr n ↦ rw n (v.stored b m)
  ];
  kept = λ r f mr mf h p.
      let (d, k) = v.kept r f mr mf h p in
      let (b, m, e) = mem_of_any (is_blob r.user_id f.hash) s.blobs k in
      (rewritten r.user_id f b m e d, k);
}
  where
    rewritten :
        (u : String) (f : FileRow) (b : BlobRow)
        → Memᴰ b s.blobs
        → is_blob u f.hash b ≡ true
        → s.disk (cloud_save_blob_key u f.hash) ≡ some f.size
        → (uploaded user hash length s).disk (cloud_save_blob_key u f.hash) ≡ some f.size
    rewritten u f b m e d =
        let p : b.user_id ≡ u = ground (arith, str-eq b.user_id u) in
        let q : b.hash ≡ f.hash = ground (arith, str-eq b.hash f.hash) in
        let size : some b.size ≡ some f.size = sym (v.stored b m) ∙ rw p (rw q d) in
        ground (arith, same b m)

pub Step-IsValid : {checksum : Checksum} {s t : Store} → Step checksum s t → IsValid s → IsValid t
Step-IsValid {checksum} (prepares now id user r s) v =
    prepare_snapshot-IsValid checksum now id user r s v
Step-IsValid (commits now user id s) v = commit_snapshot-IsValid now user id s v
Step-IsValid (deletes user shop object s) v = delete_snapshots-IsValid user shop object s v
Step-IsValid (deletes_version user id s) v = delete_snapshot-IsValid user id s v
Step-IsValid (restores now user id s) v = restore_snapshot-IsValid now user id s v
Step-IsValid (uploads user hash length s same) v = upload-IsValid user hash length s same v
Step-IsValid (changes e s) v = record {
  ids = v.ids;
  current = v.current;
  owned = v.owned;
  stored = v.stored;
  kept = v.kept;
}

-- From tables in order, any requests, uploads and changes elsewhere leave them in order: an id is
-- used once, a game has at most one current save, a manifest belongs to a snapshot, a blob row has its
-- bytes on disk, and every file of a current or retained save is on disk, whole, with a blob row.
pub Reach-IsValid : {checksum : Checksum} {s t : Store} → IsValid s → Reach checksum s t → IsValid t
Reach-IsValid v here = v
Reach-IsValid v (next r st) = Step-IsValid st (Reach-IsValid v r)

-- A server with no cloud save yet.
abbrev pub fresh : Elsewhere → Store
fresh e = with_elsewhere e (record {
  snapshots = [];
  files = [];
  blobs = [];
  disk = λ k. none;
  backups = [];
  emulation_saves = [];
  artwork = [];
  souvenirs = [];
  users = [];
  settings = e.settings;
  events = [];
})

pub fresh-IsValid : (e : Elsewhere) → IsValid (fresh e)
fresh-IsValid e = record {
  ids = λ i. omega arith;
  current = λ u sh o. omega arith;
  owned = λ f m. elim m [ ];
  stored = λ b m. elim m [ ];
  kept = λ r f mr mf h p. elim mr [ ];
}
