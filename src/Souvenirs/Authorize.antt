-- ===== src/Souvenirs/Authorize.antt =====
-- souvenirs.rs: the reservation of a capture and the arrival of its picture.
use Prim.Native.String.{◌++◌ as ◌+++◌}
use hydra_server.Shared.{
  ℕ, String, ◌+◌, ◌*◌, ◌/◌, Bool, true, false, not, ◌||◌, Option, none, some, [], first, update,
  if◌then◌else◌, nat_eq, ◌==◌,
}
use hydra_server.Shared.Int.{ℤ, pos, ltb_ℤ}
use hydra_server.Shared.Texts.{is_empty, trim, trim_start}
use hydra_server.Json.{str, obj, member, empty}
use hydra_server.ApiError.{ApiError, Result, ok, err, new, with_extra, bad_request, database_error}
use hydra_server.Storage.{nanos_per_second, used_bytes}
use hydra_server.Storage.Links.{Claims, upload_limit, sign_upload_url, check_quota}
use hydra_server.Souvenirs.{
  Souvenir, Gallery, Letters, pending, metered, storage_key, of_client, has_key, insert_souvenir,
}

abbrev pub max_souvenir_bytes : ℕ
max_souvenir_bytes = 20 * 1024 * 1024

abbrev pub upload_ttl_seconds : ℕ
upload_ttl_seconds = 60 * 60

-- `ALLOWED_EXTENSIONS.contains(&ext)`
abbrev pub allowed_extension : String → Bool
allowed_extension ext = (ext == "jpg") || ((ext == "jpeg") || ((ext == "png") || (ext == "webp")))

pub record AuthorizeRequest : Type 0 where
  pub image_ext : String
  pub image_length : ℤ
  pub client_id : Option String
  pub remote_game_id : Option String

-- The UUIDs that the request draws: a client id where it sent none, the row's id, the file's name.
pub record Fresh : Type 0 where
  pub client : String
  pub id : String
  pub file : String

-- The answer: the key alone, or with the link to upload to and when it ends.
pub data Authorization : Type 0 where
  claimed : (image_key : String) → Authorization
  upload_to : (image_key : String) → (link : Claims) → (expires_at : ℕ) → Authorization

unfoldable pub extension_of : Letters → String → String
extension_of letters ext = letters.lower (trim_start (λ c. nat_eq c b'.') (trim ext))

abbrev pub client_of : Option String → String → String
client_of none fresh = fresh
client_of (some id) fresh = if is_empty id then fresh else id

unfoldable pub authorization : ℕ → String → ℕ → Authorization
unfolding sign_upload_url
authorization now key limit =
    upload_to key (sign_upload_url now key limit)
      ((now / nanos_per_second + upload_ttl_seconds) * 1000)

-- A refusal by the quota carries the code of the souvenir limit.
abbrev pub souvenir_limit : ApiError → ApiError
souvenir_limit error =
    if nat_eq error.status 413
    then with_extra error (obj (member "code" (str "achievements/souvenir-limit-reached") empty))
    else error

-- The answer for a capture that is reserved already.
abbrev pub authorize_again : ℕ → ℕ → Souvenir → Authorization
authorize_again now limit row =
    if row.is_uploaded then claimed row.image_key else authorization now row.image_key limit

unfoldable pub reserved_row : ℕ → String → String → String → Option String → String → Souvenir
reserved_row now user id client remote key = record {
  id = id;
  user_id = user;
  client_id = client;
  remote_game_id = remote;
  shop = none;
  object_id = none;
  image_key = key;
  is_uploaded = false;
  size_in_bytes = 0;
  status = pending;
  primary_achievement_name = none;
  achievement_names = [];
  captured_at = pos (now / 1000000);
  visibility = "PUBLIC";
  created_at = now;
  updated_at = now;
}

-- A new reservation.
unfoldable pub reserve : ℕ → ℕ → ℤ → Souvenir → Gallery → Result Authorization × Gallery
unfolding check_quota insert_souvenir used_bytes
reserve now limit length row g =
    elim (check_quota g.users g.settings row.user_id (used_bytes (metered g) row.user_id) length) [
      | some error ↦ (err (souvenir_limit error), g)
      | none ↦ elim (insert_souvenir row g.souvenirs) [
        | none ↦ (err database_error, g)
        | some rows ↦ (ok (authorization now row.image_key limit), record g { souvenirs = rows })
      ]
    ]

-- `authorize` past its checks
unfoldable pub authorize_within :
    Letters → ℕ → Fresh → String → AuthorizeRequest → ℕ → Gallery → Result Authorization × Gallery
unfolding reserve reserved_row storage_key extension_of
authorize_within letters now fresh user request limit g =
    let client = client_of request.client_id fresh.client in
    elim (first (of_client user client) g.souvenirs) [
      | some row ↦ (ok (authorize_again now limit row), g)
      | none ↦
          reserve now limit request.image_length
            (reserved_row now user fresh.id client request.remote_game_id
              (storage_key user (fresh.file +++ ("." +++ extension_of letters request.image_ext))))
            g
    ]

unfoldable pub authorize :
    Letters → ℕ → Fresh → String → AuthorizeRequest → Gallery → Result Authorization × Gallery
unfolding authorize_within
authorize letters now fresh user request g =
    if not (allowed_extension (extension_of letters request.image_ext))
    then (err (bad_request "unsupported image format"), g)
    else elim (upload_limit request.image_length) [
      | none ↦ (err (bad_request "imageLength is required"), g)
      | some limit ↦
          if ltb_ℤ (pos max_souvenir_bytes) request.image_length
          then (err (new 413 "screenshot is too large"), g)
          else authorize_within letters now fresh user request limit g
    ]

-- `mark_uploaded`; `upload` has put the file there.
abbrev pub uploaded : ℕ → ℕ → Souvenir → Souvenir
uploaded now written r = record r { is_uploaded = true; size_in_bytes = written; updated_at = now }

unfoldable pub mark_uploaded : ℕ → String → ℕ → Gallery → Gallery
mark_uploaded now key written g = record g {
  souvenirs = update (has_key key) (uploaded now written) g.souvenirs;
}
