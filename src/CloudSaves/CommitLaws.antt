-- ===== src/CloudSaves/CommitLaws.antt =====
-- `commit_snapshot`: when it succeeds, and what is current afterwards.
use hydra_server.Shared.{
  ℕ, String, ◌≡◌, ap, sym, subst, ◌∙◌, ◌⊎◌, true, none, some, some-injective, List, [], ◌∷◌, Memᴰ,
  arith, ◌==◌, str-eq, if◌then◌else◌, ◌&&◌, ◌||◌, select, first, any, nat_eq, inl, inr, Bool-cases,
  Option-cases, mem-select,
}
use hydra_server.ApiError.{ApiError, Result, ok, err, err-injective}
use hydra_server.Storage.{cloud_save_blob_key}
use hydra_server.CloudSaves.State.{
  committed, is_blob, is_pending, Snapshot, FileRow, Store, is_current, file_of,
}
use hydra_server.CloudSaves.Commit.{
  CommitResponse, commit_response, commit_snapshot, commit_found, commit_row, register_blobs,
  distinct, is_pending_of, pending_not_found, never_uploaded, unexpected_size,
}
use hydra_server.CloudSaves.Invariant.{IsValid}
use hydra_server.CloudSaves.Invariant.Commits.{mem-distinct}
use hydra_server.CloudSaves.Invariant.Loop.{
  BlobsAdded, register-BlobsAdded, BlobsAdded-refl, register-Held,
}
use hydra_server.CloudSaves.Committed.{Arrived}
use hydra_server.CloudSaves.Committing

-- From tables in order, the commit of a pending snapshot all of whose files have arrived succeeds.
-- The answer carries the snapshot's own version, count, size and hash; the snapshot is then the
-- current save of its game, with the status of a committed one, the time of the request and all else as
-- it was; and every other game, of this account or another, has the current save
-- that it had.
pub commit_snapshot-ok :
    (now : ℕ) (user id : String) (r : Snapshot) (s : Store) (u sh o : String)
    → IsValid s
    → Memᴰ r s.snapshots
    → is_pending_of user id r ≡ true
    → Arrived s user id
    → ((commit_snapshot now user id s).0
        ≡ ok (record {
          snapshot_id = r.id;
          version = r.version;
          file_count = r.file_count;
          total_size = r.total_size;
          aggregate_hash = r.aggregate_hash;
        }))
      × (first (is_current u sh o) (commit_snapshot now user id s).1.snapshots ≡ (
          if (u == user) && ((sh == r.shop) && (o == r.object_id))
          then some (record r { status = committed; updated_at = now })
          else first (is_current u sh o) s.snapshots))
commit_snapshot-ok now user id r s u sh o v m h arrived =
    let i : r.id ≡ id = ground (arith, str-eq r.id id) in
    let p : r.user_id ≡ user = ground (arith, str-eq r.user_id user) in
    let a : Arrived s r.user_id r.id = rw i (rw p arrived) in
    let pend : is_pending r.status ≡ true = ground arith in
    rw (← i) (
      rw (← p) (
        ap (λ (x : Result CommitResponse × Store). x.0) (Committing.run now r s v m pend a),
        Committing.current-run now r s v m pend a u sh o,
      ))

register-err :
    (now : ℕ) (user : String) (l : List FileRow) (s : Store) (e : ApiError)
    → (register_blobs now user l s).0 ≡ some e
    → (e ≡ never_uploaded) ⊎ (e ≡ unexpected_size)
unfolding register_blobs
register-err now user [] s e h = cc
register-err now user (f ∷ l) s e h =
    elim (Option-cases (s.disk (cloud_save_blob_key user f.hash))) [
      | inl n ↦ inl (sym (some-injective _ _ (rw (n, register_blobs) at h)))
      | inr (k, y) ↦ elim (Bool-cases (nat_eq k f.size)) [
        | inr ne ↦ inr (sym (some-injective _ _ (rw ne at (rw (y, register_blobs) at h))))
        | inl eq ↦ register-err now user l _ e (rw eq at (rw (y, register_blobs) at h))
      ]
    ]

module _ (now : ℕ) (user id : String) (s : Store) where
  manifest : List FileRow
  manifest = distinct (select (file_of id) s.files)

  -- The three ways that the handler goes.
  commit_snapshot-cases :
      (first (is_pending_of user id) s.snapshots ≡ none)
        × (commit_snapshot now user id s ≡ (err pending_not_found, s))
      ⊎ (((e : ApiError) × ((register_blobs now user manifest s).0 ≡ some e)
            × (commit_snapshot now user id s ≡ (err e, (register_blobs now user manifest s).1)))
          ⊎ ((r : Snapshot) × ((register_blobs now user manifest s).0 ≡ none)
              × (commit_snapshot now user id s ≡ (
                ok (commit_response r),
                commit_row now user r (register_blobs now user manifest s).1,
              ))))
  unfolding commit_snapshot manifest
  commit_snapshot-cases = elim (Option-cases (first (is_pending_of user id) s.snapshots)) [
    | inl n ↦ inl (n, rw (n, commit_snapshot))
    | inr (r, y) ↦ elim (Option-cases (register_blobs now user manifest s).0) [
      | inr (e, k) ↦ inr (inl (e, k, rw (y, commit_snapshot) (rw (k, commit_found))))
      | inl k ↦ inr (inr (r, k, rw (y, commit_snapshot) (rw (k, commit_found))))
    ]
  ]

commit_snapshot-BlobsAdded :
    (now : ℕ) (user id : String) (s t : Store) (e : ApiError)
    → commit_snapshot now user id s ≡ (err e, t)
    → BlobsAdded s t × ((e ≡ pending_not_found) ⊎ ((e ≡ never_uploaded) ⊎ (e ≡ unexpected_size)))
commit_snapshot-BlobsAdded now user id s t e h = elim (commit_snapshot-cases now user id s) [
  | inl (n, k) ↦
      let p = sym k ∙ h in
      (
        subst (BlobsAdded s) (ap (λ (x : Result CommitResponse × Store). x.1) p)
            (BlobsAdded-refl s),
        inl (sym (err-injective (ap (λ (x : Result CommitResponse × Store). x.0) p))),
      )
  | inr (inl (d, n, k)) ↦
      let p = sym k ∙ h in
      let q = err-injective (ap (λ (x : Result CommitResponse × Store). x.0) p) in
      (
        subst (BlobsAdded s) (ap (λ (x : Result CommitResponse × Store). x.1) p)
            (register-BlobsAdded now user (manifest now user id s) s),
        inr (
            subst (λ x. (x ≡ never_uploaded) ⊎ (x ≡ unexpected_size)) q
              (register-err now user (manifest now user id s) s d n)),
      )
  | inr (inr (r, n, k)) ↦ absurd (cc (ap (λ (x : Result CommitResponse × Store). x.0) (sym k ∙ h)))
]

-- A commit that is refused leaves every snapshot, every manifest and every file on disk as it was,
-- and loses no blob row; and its error is one of the three that tell the launcher to start again.
pub commit_snapshot-err :
    (now : ℕ) (user id : String) (s t : Store) (e : ApiError) (u h : String)
    → commit_snapshot now user id s ≡ (err e, t)
    → (t.snapshots ≡ s.snapshots)
      × (t.files ≡ s.files)
      × (t.disk ≡ s.disk)
      × ((any (is_blob u h) s.blobs || any (is_blob u h) t.blobs) ≡ any (is_blob u h) t.blobs)
      × ((e ≡ pending_not_found) ⊎ ((e ≡ never_uploaded) ⊎ (e ≡ unexpected_size)))
commit_snapshot-err now user id s t e u h p =
    let (a, c) = commit_snapshot-BlobsAdded now user id s t e p in
    (a.snapshots, a.files, a.disk, ground (arith, a.more u h), c)

-- A commit succeeds only where every file of the manifest is on disk with the size that the
-- manifest gives.
pub commit_snapshot-held :
    (now : ℕ) (user id : String) (s t : Store) (resp : CommitResponse) (f : FileRow)
    → commit_snapshot now user id s ≡ (ok resp, t)
    → Memᴰ f s.files
    → file_of id f ≡ true
    → s.disk (cloud_save_blob_key user f.hash) ≡ some f.size
unfolding manifest distinct
commit_snapshot-held now user id s t resp f h m o = elim (commit_snapshot-cases now user id s) [
  | inl (n, k) ↦ absurd (cc (ap (λ (x : Result CommitResponse × Store). x.0) (sym k ∙ h)))
  | inr (inl (d, n, k)) ↦ absurd (cc (ap (λ (x : Result CommitResponse × Store). x.0) (sym k ∙ h)))
  | inr (inr (r, n, k)) ↦
      let l = manifest now user id s in
      let (g, mg, p, q) =
        mem-distinct f (select (file_of id) s.files) (mem-select (file_of id) s.files m o) in
      rw p (
        rw q (rw (← (register-BlobsAdded now user l s).disk) (register-Held now user l s g n mg).0))
]
