-- ===== src/CloudSaves/Serve.antt =====
-- What a launcher is served, after any requests.
use hydra_server.Shared.{
  ℕ, String, ◌≤◌, ◌≡◌, refl, ap, ◌∙◌, some, List, [], ◌∷◌, Memᴰ, arith, str-eq, length, length-map,
  suc, select, first, inl, inr, Bool-cases, Option-cases, mem-map_inv, mem-select_inv,
  first-some_inv,
}
use hydra_server.ApiError.{ok, ok-injective}
use hydra_server.Storage.{StorageClaims, sign_download_url, cloud_save_blob_key}
use hydra_server.CloudSaves.State.{Snapshot, Store, is_current, file_of}
use hydra_server.CloudSaves.Request.{valid_shop}
use hydra_server.CloudSaves.Prepare.{Checksum}
use hydra_server.CloudSaves.Read.{
  RemoteSnapshotSummary, ManifestFile, list_snapshots, order_desc, insert_desc,
  snapshot_download_urls, fetch_committed, fetch_manifest_files, is_committed_of, download_url,
  manifest_file, summary,
}
use hydra_server.CloudSaves.Invariant.{IsValid}
use hydra_server.CloudSaves.Reach.{Elsewhere, fresh, fresh-IsValid, Reach, Reach-IsValid}

length-insert_desc :
    (key : Snapshot → ℕ) (r : Snapshot) (l : List Snapshot)
    → length (insert_desc key r l) ≡ length (r ∷ l)
length-insert_desc key r [] = refl
length-insert_desc key r (q ∷ l) = ground (arith, length-insert_desc key r l)

length-order_desc : (key : Snapshot → ℕ) (l : List Snapshot) → length (order_desc key l) ≡ length l
unfolding order_desc
length-order_desc key [] = refl
length-order_desc key (r ∷ l) =
    length-insert_desc key r (order_desc key l) ∙ ap (λ (n : ℕ). suc n) (length-order_desc key l)

-- After any requests, a listing of a game has at most one entry.
pub list_snapshots-le-one :
    {checksum : Checksum} (e : Elsewhere) {t : Store}
    → Reach checksum (fresh e) t
    → (user shop object : String) (l : List RemoteSnapshotSummary)
    → list_snapshots user shop object t ≡ ok l
    → length l ≤ 1
unfolding list_snapshots
list_snapshots-le-one e {t} reach user shop object l h = elim (Bool-cases (valid_shop shop)) [
  | inr n ↦ absurd (ground arith)
  | inl y ↦
      let v = Reach-IsValid (fresh-IsValid e) reach in
      let rows = select (is_current user shop object) t.snapshots in
      let p = ok-injective (rw y at h) in
      rw (← p) (
        omega (
          arith,
          v.current user shop object,
          length-order_desc (λ r. r.version) rows,
          length-map (order_desc (λ r. r.version) rows) summary,
        ))
]

-- After any requests, every file of a save that a launcher is given download links for is on disk
-- under the linked key, in its own account's space, with the size the manifest says.
pub snapshot_download_urls-on_disk :
    {checksum : Checksum} (e : Elsewhere) {t : Store}
    → Reach checksum (fresh e) t
    → (now : ℕ) (user id : String) (l : List (ManifestFile × StorageClaims))
    → snapshot_download_urls now user id t ≡ ok l
    → (f : ManifestFile) (c : StorageClaims) → Memᴰ (f, c) l
    → (c.key ≡ cloud_save_blob_key user f.hash) × (t.disk c.key ≡ some f.size)
unfolding snapshot_download_urls sign_download_url fetch_committed fetch_manifest_files
snapshot_download_urls-on_disk e {t} reach now user id l h f c m =
    elim (Option-cases (first (is_committed_of user id) t.snapshots)) [
      | inl n ↦ absurd (cc (rw (n, snapshot_download_urls) at h))
      | inr (r, y) ↦
          let p = ok-injective (rw (y, snapshot_download_urls) at h) in
          linked r y
            (mem-map_inv (download_url now user) (fetch_manifest_files id t) (rw (← p) at m))
    ]
  where
    v : IsValid t
    v = Reach-IsValid (fresh-IsValid e) reach

    linked :
        (r : Snapshot)
        → first (is_committed_of user id) t.snapshots ≡ some r
        → ((g : ManifestFile) × Memᴰ g (fetch_manifest_files id t)
            × ((f, c) ≡ download_url now user g))
        → (c.key ≡ cloud_save_blob_key user f.hash) × (t.disk c.key ≡ some f.size)
    linked r y (g, k, p) =
        let (a, m, q) = mem-map_inv manifest_file (select (file_of id) t.files) k in
        let (ma, o) = mem-select_inv (file_of id) t.files m in
        let (mr, i) = first-some_inv (is_committed_of user id) t.snapshots y in
        let pf : f ≡ manifest_file a = ap (λ (x : ManifestFile × StorageClaims). x.0) p ∙ q in
        let pc : c ≡ sign_download_url now (cloud_save_blob_key user g.hash) =
          ap (λ (x : ManifestFile × StorageClaims). x.1) p in
        let u : r.user_id ≡ user = ground (arith, str-eq r.user_id user) in
        let (d, b) =
          v.kept r a mr ma
            (ground (arith, str-eq r.id a.snapshot_id, str-eq r.id id, str-eq a.snapshot_id id))
            (ground arith) in
        rw pc (rw q (rw pf (refl, rw u at d)))
