-- ===== src/CloudSaves/Prepare.antt =====
-- `prepare_snapshot`, with `enforce_quota`. The digest that an upload must carry is computed by the
-- hex and base64 crates, which are a parameter: `none` is a hash that does not decode.
use hydra_server.Shared.{
  ℕ, String, ◌+◌, ◌-◌, ◌%◌, ◌^◌, Bool, true, false, not, ◌&&◌, Option, none, some, List, [], ◌∷◌,
  ◌++◌, map, length, first, any, if◌then◌else◌, leb, nat_eq, ◌==◌,
}
use hydra_server.Shared.Int.{ℤ, pos, negsuc, pos_part}
use hydra_server.ApiError.{ApiError, Result, ok, err, new, bad_request, database_error}
use hydra_server.Limits.{for_user, i64_max}
use hydra_server.Storage.{
  StorageClaims, used_bytes, exceeds_quota, quota_error, cloud_save_blob_key, sign_blob_upload_url,
}
use hydra_server.CloudSaves.State.{
  pending, Snapshot, FileRow, Store, metered, record_event, game_event, user_event, has_id,
  is_current, is_blob,
}
use hydra_server.CloudSaves.Request.{FileInput, PrepareRequest, request_problem}
use hydra_server.CloudSaves.Gc.{sweep_stale_pending}

abbrev pub Checksum : Type 0
Checksum = String → Option String

-- `Skip` and `Upload` of `PrepareSnapshotFile`.
pub data PreparedFile : Type 0 where
  skip : (variant_id raw_path relative_path : String) → PreparedFile
  upload :
      (variant_id raw_path relative_path : String)
      → (upload_url : StorageClaims) → (content_length : ℕ) → (checksum : String) → PreparedFile

pub record PrepareResponse : Type 0 where
  pub pending_snapshot_id : String
  pub snapshot_hash : String
  pub files : List PreparedFile

-- The version of the current save, or 0.
unfoldable pub current_version : List Snapshot → String → String → String → ℕ
current_version snapshots user shop object = elim (first (is_current user shop object) snapshots) [
  | none ↦ 0
  | some r ↦ r.version
]

abbrev pub is_some {ℓ} : {A : Type ℓ} → Option A → Bool
is_some none = false
is_some (some a) = true

-- A row, and the bytes on disk behind it.
unfoldable pub is_stored : Store → String → String → Bool
is_stored s user hash =
    any (is_blob user hash) s.blobs && is_some (s.disk (cloud_save_blob_key user hash))

-- `sizes_by_hash`: the last size of each hash.
abbrev pub insert_size : String → ℕ → List (String × ℕ) → List (String × ℕ)
insert_size h n [] = (h, n) ∷ []
insert_size h n ((g, m) ∷ rest) = if g == h then (g, n) ∷ rest else (g, m) ∷ insert_size h n rest

unfoldable pub sizes_by_hash : List FileInput → List (String × ℕ) → List (String × ℕ)
sizes_by_hash [] acc = acc
sizes_by_hash (f ∷ rest) acc = sizes_by_hash rest (insert_size f.hash (pos_part f.size_bytes) acc)

unfoldable pub sum_new : Store → String → List (String × ℕ) → ℕ
sum_new s user [] = 0
sum_new s user ((h, n) ∷ rest) =
    let later = sum_new s user rest in if is_stored s user h then later else n + later

-- An `i64` sum of sizes that are not negative, as a release build adds them: modulo 2^64.
unfoldable pub wrap_i64 : ℕ → ℤ
wrap_i64 n = let m = n % 2 ^ 64 in if leb m i64_max then pos m else negsuc (2 ^ 64 - 1 - m)

unfoldable pub incoming_bytes : Store → String → PrepareRequest → ℤ
unfolding sizes_by_hash sum_new wrap_i64
incoming_bytes s user r = wrap_i64 (sum_new s user (sizes_by_hash r.files []))

abbrev sum_files : List FileInput → ℕ
sum_files [] = 0
sum_files (f ∷ rest) = pos_part f.size_bytes + sum_files rest

-- The refusal, if there is one, of an upload that the quota has no room for.
unfoldable pub over_quota : Store → String → ℤ → Bool
over_quota s user incoming =
    let quota = (for_user s.users s.settings user).max_bytes_per_user in
    not (nat_eq quota 0) && exceeds_quota quota (used_bytes (metered s) user) incoming

unfoldable pub pending_row : ℕ → String → String → PrepareRequest → ℕ → Snapshot
unfolding wrap_i64
pending_row now id user r version = record {
  id = id;
  user_id = user;
  shop = r.shop;
  object_id = r.object_id;
  version = version;
  aggregate_hash = r.snapshot_hash;
  file_count = length r.files;
  total_size = wrap_i64 (sum_files r.files);
  platform = r.platform;
  hostname = r.hostname;
  custom_path_raw_paths = r.custom_path_raw_paths;
  variants = r.variants;
  status = pending;
  created_at = now;
  updated_at = now;
}

unfoldable pub file_row : String → FileInput → FileRow
file_row id f = record {
  snapshot_id = id;
  variant_id = f.variant_id;
  raw_path = f.raw_path;
  relative_path = f.relative_path;
  hash = f.hash;
  size = pos_part f.size_bytes;
  last_modified_at = f.last_modified_at;
  state_metadata = f.state_metadata;
}

-- The transaction: `none` where the id is taken, which the primary key refuses.
unfoldable pub insert_snapshot : Snapshot → List FileRow → Store → Option Store
insert_snapshot row files s =
    if any (has_id row.id) s.snapshots
    then none
    else some (record s { snapshots = s.snapshots ++ row ∷ []; files = s.files ++ files })

-- The answer for one file; only a hash that does not decode makes it fail.
unfoldable pub answer_file : Checksum → Store → ℕ → String → FileInput → Option PreparedFile
answer_file checksum s now user f =
    if is_stored s user f.hash
    then some (skip f.variant_id f.raw_path f.relative_path)
    else elim (checksum f.hash) [
      | none ↦ none
      | some digest ↦ some (
          upload f.variant_id f.raw_path f.relative_path
            (sign_blob_upload_url now user f.hash (pos_part f.size_bytes)) (pos_part f.size_bytes)
            digest)
    ]

unfoldable pub answer_files :
    Checksum → Store → ℕ → String → List FileInput → Option (List PreparedFile)
unfolding answer_file
answer_files checksum s now user [] = some []
answer_files checksum s now user (f ∷ rest) =
    let later = answer_files checksum s now user rest in
    elim (answer_file checksum s now user f) [
      | none ↦ none
      | some a ↦ elim later [ none ↦ none | some as_ ↦ some (a ∷ as_) ]
    ]

abbrev pub conflict_error : ApiError
conflict_error = new 409 "cloud save has changed on another device — sync again before uploading"

-- From the INSERT on. `before` is the store that `existing` was read from.
unfoldable pub register_snapshot :
    Checksum → ℕ → String → String → PrepareRequest → ℕ → Store → Result PrepareResponse × Store
unfolding insert_snapshot answer_files pending_row file_row
register_snapshot checksum now id user r version before =
    elim (insert_snapshot (pending_row now id user r version) (map (file_row id) r.files) before) [
      | none ↦ (err database_error, before)
      | some s ↦ elim (answer_files checksum before now user r.files) [
        | none ↦ (err (bad_request "invalid file hash"), s)
        | some files ↦ (
          ok (record { pending_snapshot_id = id; snapshot_hash = r.snapshot_hash; files = files }),
          s,
        )
      ]
    ]

abbrev pub is_version : ℤ → ℕ → Bool
is_version (pos n) v = nat_eq n v
is_version (negsuc n) v = false

-- After the sweep: the version check, the quota, then the rows.
unfoldable pub prepare_swept :
    Checksum → ℕ → String → String → PrepareRequest → Store → Result PrepareResponse × Store
unfolding over_quota incoming_bytes register_snapshot
prepare_swept checksum now id user r s =
    let version = current_version s.snapshots user r.shop r.object_id in
    if not (is_version r.base_version version)
    then (
      err conflict_error,
      record_event (game_event "cloud_save.conflict" user r.shop r.object_id none) s,
    )
    else if over_quota s user (incoming_bytes s user r)
    then (err quota_error, record_event (user_event "cloud_save.quota_exceeded" user) s)
    else register_snapshot checksum now id user r (version + 1) s

unfoldable pub prepare_snapshot :
    Checksum → ℕ → String → String → PrepareRequest → Store → Result PrepareResponse × Store
unfolding request_problem sweep_stale_pending prepare_swept
prepare_snapshot checksum now id user r s = elim (request_problem r) [
  | some message ↦ (err (bad_request message), s)
  | none ↦ prepare_swept checksum now id user r (sweep_stale_pending now user s)
]
