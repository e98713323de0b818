-- ===== src/CloudSaves/Tests/Saving.antt =====
-- Prepare and commit, at the stores of the tests.
use hydra_server.CloudSaves.Request.{request_problem}
use hydra_server.Shared.{
  ℕ, String, ◌≤◌, ◌≡◌, ◌⊎◌, refl, false, ◌||◌, none, some, [], ◌∷◌, Memᴰ, arith, first, select, any,
  ◌&&◌, ◌*◌, ◌^◌,
}
use hydra_server.Shared.Int.{◌+ℤ◌, ◌≤ℤ◌, pos}
use hydra_server.ApiError.{ok, err}
use hydra_server.Limits.{resolve, overrides, for_user, i64_max}
use hydra_server.Storage.{sum_sizes, exceeds_quota, store_object, cloud_save_blob_key, used_bytes}
use hydra_server.CloudSaves.State.{FileRow, pending, is_current, is_blob, file_of}
use hydra_server.CloudSaves.Request.{valid_shop, is_sha256, FileInput, PrepareRequest}
use hydra_server.CloudSaves.Gc.{sweep_stale_pending, is_referenced, collect_orphan_blobs}
use hydra_server.CloudSaves.Prepare.{
  is_stored, prepare_snapshot, pending_row, file_row, current_version, over_quota, incoming_bytes,
}
use hydra_server.CloudSaves.Commit.{
  commit_snapshot, commit_response, promote, pending_not_found, never_uploaded, unexpected_size,
}
use hydra_server.CloudSaves.Reach.{fresh, fresh-IsValid, Reach-IsValid}
use hydra_server.CloudSaves.PrepareLaws.{prepare_snapshot-ok, prepare_snapshot-answers, AnswersAll}
use hydra_server.CloudSaves.CommitLaws.{
  commit_snapshot-ok, commit_snapshot-held, commit_snapshot-err,
}
use hydra_server.CloudSaves.QuotaLaws.{quota_of, prepare_snapshot-fits, over_quota-wraps}
use hydra_server.CloudSaves.NewBytes.{new_bytes, holds, stored_bytes, total_of}
use hydra_server.CloudSaves.GcLaws.{collect_orphan_blobs_exact}
use hydra_server.CloudSaves.Tests.{
  digest, elsewhere, hash_a, hash_b, file_a, request, row_of, manifest_of, prepared, uploaded,
  saved, prepare_answer, uploaded-Reach,
}

prepared_run :
    prepare_snapshot digest 1 "one" "ada" (request 0 file_a) (fresh elsewhere)
    ≡ (ok prepare_answer, prepared)
unfolding prepare_snapshot valid_shop is_sha256 current_version for_user resolve overrides
    exceeds_quota ◌+ℤ◌ is_stored used_bytes sum_sizes
prepared_run = refl

prepare_snapshot-ok_example :
    (pos 0 ≡ pos 0)
    × ((u sh o : String) → first (is_current u sh o) prepared.snapshots ≡ none)
    × Memᴰ (row_of "one" 1 pending 1 1) prepared.snapshots
    × (select (file_of "one") prepared.files ≡ manifest_of "one" ∷ [])
unfolding current_version pending_row file_row
prepare_snapshot-ok_example =
    prepare_snapshot-ok digest 1 "one" "ada" (request 0 file_a) (fresh elsewhere) prepared
      prepare_answer (fresh-IsValid elsewhere) prepared_run

prepare_snapshot-answers_example :
    AnswersAll digest
      (sweep_stale_pending 1 "ada" (fresh elsewhere))
      1
      "ada"
      (file_a ∷ [])
      prepare_answer.files
prepare_snapshot-answers_example =
    prepare_snapshot-answers digest 1 "one" "ada" (request 0 file_a) (fresh elsewhere) prepared
      prepare_answer prepared_run

prepare_snapshot-fits_example :
    stored_bytes (sweep_stale_pending 1 "ada" (fresh elsewhere)) "ada"
      +ℤ pos (new_bytes (sweep_stale_pending 1 "ada" (fresh elsewhere)) "ada" (file_a ∷ []))
    ≤ℤ pos (quota_of (sweep_stale_pending 1 "ada" (fresh elsewhere)) "ada")
unfolding quota_of for_user resolve overrides sweep_stale_pending new_bytes holds
prepare_snapshot-fits_example =
    prepare_snapshot-fits digest 1 "one" "ada" (request 0 file_a) (fresh elsewhere) prepared
      prepare_answer prepared_run (omega arith) (omega arith) (omega arith)

commit_run :
    commit_snapshot 2 "ada" "one" uploaded
    ≡ (ok (commit_response (row_of "one" 1 pending 1 1)), saved)
unfolding commit_snapshot store_object for_user resolve overrides
commit_run = refl

arrived :
    (f : FileRow)
    → Memᴰ f uploaded.files
    → uploaded.disk (cloud_save_blob_key "ada" f.hash) ≡ some f.size
unfolding store_object
arrived f (Memᴰ.head e) = rw e refl
arrived f (Memᴰ.tail m) = elim m [ ]

commit_snapshot-ok_example :
    ((commit_snapshot 2 "ada" "one" uploaded).0 ≡ ok (commit_response (row_of "one" 1 pending 1 1)))
    × (first (is_current "ada" "steam" "440") (commit_snapshot 2 "ada" "one" uploaded).1.snapshots
        ≡ some (promote 2 (row_of "one" 1 pending 1 1)))
unfolding file_row
commit_snapshot-ok_example =
    commit_snapshot-ok 2 "ada" "one" (row_of "one" 1 pending 1 1) uploaded "ada" "steam" "440"
      (Reach-IsValid (fresh-IsValid elsewhere) uploaded-Reach) (Memᴰ.head refl) refl
      (λ f m h. arrived f m)

commit_snapshot-held_example : uploaded.disk (cloud_save_blob_key "ada" hash_a) ≡ some 3
commit_snapshot-held_example =
    commit_snapshot-held 2 "ada" "one" uploaded saved (commit_response (row_of "one" 1 pending 1 1))
      (manifest_of "one") commit_run (Memᴰ.head refl) refl

missing : commit_snapshot 2 "ada" "one" prepared ≡ (err never_uploaded, prepared)
unfolding commit_snapshot
missing = refl

commit_snapshot-err_example :
    (prepared.snapshots ≡ prepared.snapshots)
    × (prepared.files ≡ prepared.files)
    × (prepared.disk ≡ prepared.disk)
    × ((false || any (is_blob "ada" hash_a) prepared.blobs)
        ≡ any (is_blob "ada" hash_a) prepared.blobs)
    × ((never_uploaded ≡ pending_not_found)
        ⊎ ((never_uploaded ≡ never_uploaded) ⊎ (never_uploaded ≡ unexpected_size)))
commit_snapshot-err_example =
    commit_snapshot-err 2 "ada" "one" prepared prepared never_uploaded "ada" hash_a missing

collect_orphan_blobs_exact_example :
    any (is_blob "ada" hash_a) (collect_orphan_blobs "ada" saved).blobs ≡ (
      any (is_blob "ada" hash_a) saved.blobs
      && is_referenced saved.snapshots saved.files "ada" hash_a)
collect_orphan_blobs_exact_example = collect_orphan_blobs_exact "ada" hash_a saved

-- Three declared sizes whose sum is 2^64.
abbrev sized : String → ℕ → FileInput
sized h n = record file_a { hash = h; size_bytes = pos n }

abbrev large : PrepareRequest
large = record (request 0 file_a) {
  files = sized hash_a i64_max ∷ sized hash_b i64_max ∷ sized "c" 2 ∷ [];
}

sum : new_bytes (fresh elsewhere) "ada" large.files ≡ 1 * 2 ^ 64
unfolding new_bytes holds
sum = refl

bound : quota_of (fresh elsewhere) "ada" ≤ i64_max
unfolding quota_of for_user resolve overrides
bound = omega arith

room : stored_bytes (fresh elsewhere) "ada" ≤ℤ pos (quota_of (fresh elsewhere) "ada")
unfolding quota_of stored_bytes total_of for_user resolve overrides
room = omega arith

over_quota-wraps_example :
    over_quota (fresh elsewhere) "ada" (incoming_bytes (fresh elsewhere) "ada" large) ≡ false
over_quota-wraps_example = over_quota-wraps "ada" large (fresh elsewhere) 1 sum bound room

fields_run : request_problem (request 1 file_a) ≡ none
unfolding request_problem valid_shop is_sha256
fields_run = refl
