-- ===== src/CloudSaves/Tests/Serving.antt =====
-- What is served, and the invariant, at the stores of the tests.
use hydra_server.Shared.{◌≤◌, ◌≡◌, refl, some, [], ◌∷◌, length, Memᴰ}
use hydra_server.ApiError.{ok}
use hydra_server.Storage.{StorageClaims, cloud_save_blob_key, sign_download_url}
use hydra_server.CloudSaves.State.{committed}
use hydra_server.CloudSaves.Read.{summary, manifest_file, list_snapshots, snapshot_download_urls}
use hydra_server.CloudSaves.Invariant.{IsValid}
use hydra_server.CloudSaves.Reach.{fresh-IsValid, Reach-IsValid}
use hydra_server.CloudSaves.Serve.{list_snapshots-le-one, snapshot_download_urls-on_disk}
use hydra_server.CloudSaves.Tests.{
  elsewhere, hash_a, row_of, manifest_of, saved, replaced, saved-Reach, replaced-Reach,
}

listed_run :
    list_snapshots "ada" "steam" "440" replaced ≡ ok (summary (row_of "two" 2 committed 3 4) ∷ [])
unfolding list_snapshots
listed_run = refl

list_snapshots-le-one_example : length (summary (row_of "two" 2 committed 3 4) ∷ []) ≤ 1
list_snapshots-le-one_example =
    list_snapshots-le-one elsewhere replaced-Reach "ada" "steam" "440"
      (summary (row_of "two" 2 committed 3 4) ∷ []) listed_run

abbrev link : StorageClaims
link = sign_download_url 7 (cloud_save_blob_key "ada" hash_a)

links_run :
    snapshot_download_urls 7 "ada" "one" saved ≡ ok ((manifest_file (manifest_of "one"), link) ∷ [])
unfolding snapshot_download_urls
links_run = refl

snapshot_download_urls-on_disk_example :
    (link.key ≡ cloud_save_blob_key "ada" hash_a) × (saved.disk link.key ≡ some 3)
snapshot_download_urls-on_disk_example =
    snapshot_download_urls-on_disk elsewhere saved-Reach 7 "ada" "one"
      ((manifest_file (manifest_of "one"), link) ∷ []) links_run (manifest_file (manifest_of "one"))
      link (Memᴰ.head refl)

Reach-IsValid_example : IsValid replaced
Reach-IsValid_example = Reach-IsValid (fresh-IsValid elsewhere) replaced-Reach
