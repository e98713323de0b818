-- ===== src/Storage.antt =====
-- storage.rs: what an account's stored bytes are, the quota they are held against, and where a
-- cloud save blob is kept.
pub mod Quota
pub mod Uploads
pub mod Links
pub mod Body
pub mod Landed
pub mod Pieces
pub mod Together
mod Tests
use hydra_server.Shared.{
  ℕ, String, ◌+◌, ◌*◌, ◌/◌, Bool, ◌&&◌, Option, none, some, List, [], ◌∷◌, if◌then◌else◌, ltb, leb,
  ◌==◌,
}
use hydra_server.Shared.Int.{ℤ, pos, negsuc, ◌+ℤ◌, ltb_ℤ}
use hydra_server.ApiError.{ApiError, new}
use hydra_server.Limits.{i64_max}

-- A row of a metered table: its owner and its size column, an `i64` that may be negative in
-- `emulation_saves`.
pub record Sized : Type 0 where
  pub user_id : String
  pub size : ℤ

-- METERED_TABLES, in its order; the first, `cloud_save_blobs`, is read out of the cloud saves.
pub record Metered : Type 0 where
  pub cloud_saves : List Sized
  pub backups : List Sized
  pub emulation_saves : List Sized
  pub artwork : List Sized
  pub souvenirs : List Sized

-- `SELECT COALESCE(SUM(size), 0) FROM t WHERE user_id = owner`
unfoldable pub sum_sizes : String → List Sized → ℤ
sum_sizes owner [] = pos 0
sum_sizes owner (row ∷ rows) =
    let rest = sum_sizes owner rows in if row.user_id == owner then row.size +ℤ rest else rest

-- The sums are taken to be in the range of `i64`, past which SQLite answers with an error.
unfoldable pub used_bytes : Metered → String → ℤ
used_bytes m owner =
    sum_sizes owner m.cloud_saves
    +ℤ sum_sizes owner m.backups
    +ℤ sum_sizes owner m.emulation_saves
    +ℤ sum_sizes owner m.artwork
    +ℤ sum_sizes owner m.souvenirs

-- `i64::MIN` is -(i64_max + 1).
abbrev pub i64_min : ℤ
i64_min = negsuc i64_max

-- `i64::saturating_add`
unfoldable pub saturating_add : ℤ → ℤ → ℤ
saturating_add a b =
    let sum = a +ℤ b in
    if ltb_ℤ (pos i64_max) sum then pos i64_max else if ltb_ℤ sum i64_min then i64_min else sum

-- `i64::try_from(bytes).unwrap_or(i64::MAX)`
unfoldable pub signed : ℕ → ℤ
signed bytes = if leb bytes i64_max then pos bytes else pos i64_max

unfoldable pub exceeds_quota : ℕ → ℤ → ℤ → Bool
unfolding saturating_add signed
exceeds_quota quota used incoming =
    ltb 0 quota && ltb_ℤ (signed quota) (saturating_add used incoming)

abbrev pub quota_error : ApiError
quota_error = new 413 "storage quota exceeded — free up space or ask the server admin"

-- `cloud-saves/{user_id}/{hash}`: a key names the owner and the content, and no two pairs share a
-- key, since a hash holds no slash.
pub record BlobKey : Type 0 where
  pub user_id : String
  pub hash : String

abbrev pub cloud_save_blob_key : String → String → BlobKey
cloud_save_blob_key user_id hash = record { user_id = user_id; hash = hash }

abbrev pub key_eq : BlobKey → BlobKey → Bool
key_eq a b = (b.user_id == a.user_id) && (b.hash == a.hash)

-- The storage directory, as far as it holds cloud save blobs: the length of each file there.
abbrev pub Disk : Type 0
Disk = BlobKey → Option ℕ

-- `delete_object`
unfoldable pub delete_object : BlobKey → Disk → Disk
delete_object key disk k = if key_eq key k then none else disk k

-- The end of a finished upload: the file of the key is there with the bytes that arrived.
unfoldable pub store_object : BlobKey → ℕ → Disk → Disk
store_object key length disk k = if key_eq key k then some length else disk k

abbrev pub nanos_per_second : ℕ
nanos_per_second = 1000000000

-- The claims that a storage URL's token carries; the URL is known by them.
pub record StorageClaims : Type 0 where
  pub op : String
  pub key : BlobKey
  pub max : ℕ
  pub exp : ℕ
  pub sha256 : Option String

abbrev pub upload_token_ttl : ℕ
upload_token_ttl = 60 * 60

abbrev pub download_token_ttl : ℕ
download_token_ttl = 60 * 15

unfoldable pub sign_url_with_hash : ℕ → String → BlobKey → ℕ → ℕ → Option String → StorageClaims
sign_url_with_hash now op key max ttl sha256 = record {
  op = op;
  key = key;
  max = max;
  exp = now / nanos_per_second + ttl;
  sha256 = sha256;
}

unfoldable pub sign_blob_upload_url : ℕ → String → String → ℕ → StorageClaims
unfolding sign_url_with_hash
sign_blob_upload_url now user hash size =
    sign_url_with_hash now "put" (cloud_save_blob_key user hash) size upload_token_ttl (some hash)

unfoldable pub sign_download_url : ℕ → BlobKey → StorageClaims
unfolding sign_url_with_hash
sign_download_url now key = sign_url_with_hash now "get" key 0 download_token_ttl none
