-- ===== src/CloudSaves/Tests/Versions.antt =====
-- Restores, races and the transactions, at the stores of the tests.
use hydra_server.Shared.{String, ◌<◌, ◌≡◌, ◌≢◌, refl, true, none, some, Memᴰ, first, str-eq, select}
use hydra_server.Shared.Int.{pos}
use hydra_server.ApiError.{ok}
use hydra_server.Storage.{cloud_save_blob_key, store_object}
use hydra_server.CloudSaves.State.{
  Snapshot, FileRow, pending, committed, superseded, is_current, of_game, file_of,
}
use hydra_server.CloudSaves.Commit.{commit_snapshot, commit_tx, commit_response, promote}
use hydra_server.CloudSaves.Manage.{restore_snapshot, next_version}
use hydra_server.CloudSaves.Reach.{fresh-IsValid, Reach-IsValid}
use hydra_server.CloudSaves.Invariant.{IsValid}
use hydra_server.CloudSaves.RestoreLaws.{restore_snapshot-ok, restore_snapshot-replaced}
use hydra_server.CloudSaves.Races.{commit_tx-twice, commit_snapshot-overwrites}
use hydra_server.CloudSaves.Tests.{
  elsewhere, hash_a, row_of, uploaded, replaced, racing, uploaded-Reach, replaced-Reach,
  racing-Reach,
}

uploaded-IsValid : IsValid uploaded
uploaded-IsValid = Reach-IsValid (fresh-IsValid elsewhere) uploaded-Reach

replaced-IsValid : IsValid replaced
replaced-IsValid = Reach-IsValid (fresh-IsValid elsewhere) replaced-Reach

racing-IsValid : IsValid racing
racing-IsValid = Reach-IsValid (fresh-IsValid elsewhere) racing-Reach

abbrev old : Snapshot
old = row_of "one" 1 superseded 1 4

abbrev newer : Snapshot
newer = row_of "two" 2 committed 3 4

next_version-run : next_version "ada" "steam" "440" replaced ≡ 3
unfolding next_version
next_version-run = refl

restore_snapshot-ok_example :
    ((restore_snapshot 9 "ada" "one" replaced).0
      ≡ ok (record {
        snapshot_id = "one";
        version = 3;
        file_count = 1;
        total_size = pos 3;
        aggregate_hash = hash_a;
      }))
    × ((q : Snapshot)
        → Memᴰ q replaced.snapshots
        → of_game "ada" "steam" "440" q ≡ true
        → q.version < 3)
    × (first (is_current "ada" "steam" "440") (restore_snapshot 9 "ada" "one" replaced).1.snapshots
        ≡ some (record old { status = committed; version = 3; updated_at = 9 }))
    × ((restore_snapshot 9 "ada" "one" replaced).1.files ≡ replaced.files)
    × ((restore_snapshot 9 "ada" "one" replaced).1.blobs ≡ replaced.blobs)
    × ((restore_snapshot 9 "ada" "one" replaced).1.disk ≡ replaced.disk)
unfolding next_version
restore_snapshot-ok_example =
    restore_snapshot-ok 9 "ada" "one" old replaced replaced-IsValid (Memᴰ.head refl) refl

restore_snapshot-replaced_example :
    let t = (restore_snapshot 9 "ada" "one" replaced).1 in
    Memᴰ (record newer { status = superseded; updated_at = 9 }) t.snapshots
    × (select (file_of newer.id) t.files ≡ select (file_of newer.id) replaced.files)
    × ((after : Snapshot) × (first (is_current "ada" "steam" "440") t.snapshots ≡ some after)
        × (after.id ≡ "one")
        × (2 < after.version))
restore_snapshot-replaced_example =
    restore_snapshot-replaced 9 "ada" "one" old newer replaced replaced-IsValid (Memᴰ.head refl)
      refl (Memᴰ.tail (Memᴰ.head refl)) refl

commit_tx-twice_example :
    first
      (is_current "ada" "steam" "440")
      (commit_tx true 6 "ada" "steam" "440" "one"
        (commit_tx true 5 "ada" "steam" "440" "one" uploaded)).snapshots
    ≡ none
commit_tx-twice_example =
    commit_tx-twice 5 6 "ada" "steam" "440" (row_of "one" 1 pending 1 1) uploaded uploaded-IsValid
      (Memᴰ.head refl) refl refl

racing-disk : racing.disk (cloud_save_blob_key "ada" hash_a) ≡ some 3
unfolding store_object
racing-disk = refl

all_arrived :
    (f : FileRow)
    → Memᴰ f racing.files
    → racing.disk (cloud_save_blob_key "ada" f.hash) ≡ some f.size
all_arrived f (Memᴰ.head e) = rw e racing-disk
all_arrived f (Memᴰ.tail (Memᴰ.head e)) = rw e racing-disk
all_arrived f (Memᴰ.tail (Memᴰ.tail m)) = elim m [ ]

abbrev two : String
two = "two"

ids_apart : two ≢ "one"
ids_apart p = cc ((str-eq two "one").1 p)

commit_snapshot-overwrites_example :
    ((commit_snapshot 5 "ada" "one" racing).0 ≡ ok (commit_response (row_of "one" 1 pending 1 1)))
    × ((commit_snapshot 6 "ada" "two" (commit_snapshot 5 "ada" "one" racing).1).0
        ≡ ok (commit_response (row_of "two" 1 pending 1 1)))
    × (first
          (is_current "ada" "steam" "440")
          (commit_snapshot 6 "ada" "two" (commit_snapshot 5 "ada" "one" racing).1).1.snapshots
        ≡ some (promote 6 (row_of "two" 1 pending 1 1)))
    × ((promote 6 (row_of "two" 1 pending 1 1)).version
        ≡ (promote 5 (row_of "one" 1 pending 1 1)).version)
commit_snapshot-overwrites_example =
    commit_snapshot-overwrites 5 6 (row_of "one" 1 pending 1 1) (row_of "two" 1 pending 1 1) racing
      racing-IsValid (Memᴰ.head refl) (Memᴰ.tail (Memᴰ.head refl)) refl refl ids_apart refl
      (λ f m h. all_arrived f m) (λ f m h. all_arrived f m)
