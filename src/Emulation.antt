-- ===== src/Emulation.antt =====
-- emulation.rs: emulator saves. A slot is a platform, an emulator, a kind and an identity; a commit
-- makes a save the one of its slot. The length of a save is what the launcher declared, an i64.
pub mod Replaced
pub mod Slots
mod Tests
use hydra_server.Shared.{
  ℕ, String, ◌+◌, ◌*◌, Bool, true, false, not, ◌&&◌, ◌||◌, Option, none, some, List, [], ◌∷◌, ◌++◌,
  any, first, select, update, delete, count, if◌then◌else◌, nat_eq, ◌==◌, opt_str_eq,
}
use Prim.Native.String.{◌++◌ as ◌+++◌}
use hydra_server.Shared.Int.{ℤ, pos, ◌+ℤ◌, ltb_ℤ}
use hydra_server.Json.{Json}
use hydra_server.ApiError.{ApiError, Result, ok, err, new, bad_request, not_found, database_error}
use hydra_server.Limits.{UserRow, RuntimeSettings, for_user}
use hydra_server.Storage.{Metered, used_bytes}
use hydra_server.Storage.Links.{
  Claims, upload_limit, sign_upload_url, sign_download_url, check_quota,
}
use hydra_server.CloudSaves.State.{Event}
use hydra_server.Achievements.{or_else}

abbrev pub max_emulation_save_bytes : ℕ
max_emulation_save_bytes = 512 * 1024 * 1024

-- A row of `emulation_saves`. `metadata` holds the value that it encodes.
pub record EmulationSave : Type 0 where
  pub id : String
  pub user_id : String
  pub platform : String
  pub emulator : String
  pub save_kind : String
  pub save_identity : String
  pub artifact_length_in_bytes : ℤ
  pub file_name : Option String
  pub hostname : Option String
  pub local_last_modified_at : Option String
  pub label : Option String
  pub metadata : Option Json
  pub shop : Option String
  pub object_id : Option String
  pub is_uploaded : Bool
  pub last_uploaded_at : Option ℕ
  pub superseded_at : Option ℕ
  pub created_at : ℕ
  pub updated_at : ℕ

pub record Saves : Type 0 where
  pub saves : List EmulationSave
  -- the files on disk, by key
  pub files : String → Bool
  -- the metered tables beside `emulation_saves`
  pub elsewhere : Metered
  pub users : List UserRow
  pub settings : RuntimeSettings
  pub events : List Event

unfoldable pub save_key : String → String
save_key id = "emulation-saves/" +++ (id +++ ".bin")

abbrev pub has_id : String → EmulationSave → Bool
has_id id s = s.id == id

-- `id = ? AND user_id = ?`
abbrev pub owned : String → String → EmulationSave → Bool
owned user id s = (s.id == id) && (s.user_id == user)

unfoldable pub sum_lengths : String → List EmulationSave → ℤ
sum_lengths user [] = pos 0
sum_lengths user (s ∷ saves) =
    let rest = sum_lengths user saves in
    if s.user_id == user then s.artifact_length_in_bytes +ℤ rest else rest

-- `used_bytes` of storage.rs, whose sum over this table may be negative
unfoldable pub used : Saves → String → ℤ
unfolding used_bytes sum_lengths
used s user =
    used_bytes (record s.elsewhere { emulation_saves = [] }) user +ℤ sum_lengths user s.saves

abbrev is_none : Option ℕ → Bool
is_none none = true
is_none (some t) = false

-- `(? IS NULL OR column = ?)`
abbrev matches : Option String → Option String → Bool
matches none column = true
matches (some v) column = opt_str_eq column (some v)

pub record ListQuery : Type 0 where
  pub platform : Option String
  pub emulator : Option String
  pub save_kind : Option String
  pub shop : Option String
  pub object_id : Option String

-- `is_uploaded = 1 AND superseded_at IS NULL`
abbrev pub is_listed : EmulationSave → Bool
is_listed s = s.is_uploaded && is_none s.superseded_at

abbrev pub asked_for : String → ListQuery → EmulationSave → Bool
asked_for user q s =
    (s.user_id == user)
    && (is_listed s
        && (matches q.platform (some s.platform)
            && (matches q.emulator (some s.emulator)
                && (matches q.save_kind (some s.save_kind)
                    && (matches q.shop s.shop && matches q.object_id s.object_id)))))

-- `list`, less the order of its rows
unfoldable pub list : String → ListQuery → Saves → List EmulationSave
list user q s = select (asked_for user q) s.saves

pub record CreateUploadUrl : Type 0 where
  pub platform : String
  pub emulator : String
  pub save_kind : String
  pub save_identity : String
  pub artifact_length_in_bytes : ℤ
  pub shop : Option String
  pub object_id : Option String

abbrev pub new_save : ℕ → String → String → CreateUploadUrl → EmulationSave
new_save now id user p = record {
  id = id;
  user_id = user;
  platform = p.platform;
  emulator = p.emulator;
  save_kind = p.save_kind;
  save_identity = p.save_identity;
  artifact_length_in_bytes = p.artifact_length_in_bytes;
  file_name = none;
  hostname = none;
  local_last_modified_at = none;
  label = none;
  metadata = none;
  shop = p.shop;
  object_id = p.object_id;
  is_uploaded = false;
  last_uploaded_at = none;
  superseded_at = none;
  created_at = now;
  updated_at = now;
}

-- The INSERT, and the answer: the id and the link.
unfoldable pub reserve :
    ℕ → String → String → CreateUploadUrl → ℕ → Saves → Result (String × Claims) × Saves
unfolding sign_upload_url save_key
reserve now id user p limit s = if any (has_id id) s.saves then (err database_error, s) else (
  ok (id, sign_upload_url now (save_key id) limit),
  record s { saves = s.saves ++ new_save now id user p ∷ [] },
)

-- `id` is the UUID that the request draws.
unfoldable pub create_upload_url :
    ℕ → String → String → CreateUploadUrl → Saves → Result (String × Claims) × Saves
unfolding check_quota used reserve
create_upload_url now id user p s = elim (upload_limit p.artifact_length_in_bytes) [
  | none ↦ (err (bad_request "invalid artifact length"), s)
  | some limit ↦
      if ltb_ℤ (pos max_emulation_save_bytes) p.artifact_length_in_bytes
      then (err (new 413 "emulation save is too large"), s)
      else elim (check_quota s.users s.settings user (used s user) p.artifact_length_in_bytes) [
        | some error ↦ (err error, s)
        | none ↦ reserve now id user p limit s
      ]
]

pub record CommitSave : Type 0 where
  pub artifact_length_in_bytes : Option ℤ
  pub file_name : Option String
  pub hostname : Option String
  pub local_last_modified_at : Option String
  pub label : Option String
  pub metadata : Option Json

-- Another save of the user in the slot of `row`.
abbrev pub same_slot : EmulationSave → EmulationSave → Bool
same_slot row s =
    (s.platform == row.platform)
    && ((s.emulator == row.emulator)
        && ((s.save_kind == row.save_kind) && (s.save_identity == row.save_identity)))

abbrev pub older : String → EmulationSave → EmulationSave → Bool
older user row s = (s.user_id == user) && (not (s.id == row.id) && same_slot row s)

-- `delete_object`
abbrev pub delete_object : String → (String → Bool) → String → Bool
delete_object key files k = if key == k then false else files k

abbrev pub superseded : ℕ → EmulationSave → EmulationSave
superseded now s = record s { superseded_at = or_else s.superseded_at (some now) }

-- One round of the loop over the older saves.
unfoldable pub replace_one : ℕ → Bool → EmulationSave → Saves → Saves
unfolding save_key
replace_one now auto_delete old s =
    if auto_delete || not old.is_uploaded
    then record s {
      saves = delete (has_id old.id) s.saves;
      files = delete_object (save_key old.id) s.files;
    }
    else record s { saves = update (has_id old.id) (superseded now) s.saves }

unfoldable pub replace_all : ℕ → Bool → List EmulationSave → Saves → Saves
unfolding replace_one
replace_all now auto_delete [] s = s
replace_all now auto_delete (old ∷ rows) s =
    replace_all now auto_delete rows (replace_one now auto_delete old s)

abbrev length_or : Option ℤ → ℤ → ℤ
length_or none l = l
length_or (some z) l = z

abbrev pub committed : ℕ → CommitSave → EmulationSave → EmulationSave
committed now p s = record s {
  is_uploaded = true;
  artifact_length_in_bytes = length_or p.artifact_length_in_bytes s.artifact_length_in_bytes;
  file_name = or_else p.file_name s.file_name;
  hostname = or_else p.hostname s.hostname;
  local_last_modified_at = or_else p.local_last_modified_at s.local_last_modified_at;
  label = or_else p.label s.label;
  metadata = or_else p.metadata s.metadata;
  last_uploaded_at = some now;
  updated_at = now;
}

abbrev save_not_found : ApiError
save_not_found = not_found "emulation save not found"

-- `fetch_save`
abbrev pub fetch_save : String → String → Saves → Option EmulationSave
fetch_save user id s = first (owned user id) s.saves

-- The state after the statements of `commit`, for the row it found.
unfoldable pub commit_rows : ℕ → String → CommitSave → EmulationSave → Saves → Saves
unfolding replace_all for_user
commit_rows now user p row s =
    let auto_delete = (for_user s.users s.settings user).auto_delete_saves in
    let rest = replace_all now auto_delete (select (older user row) s.saves) s in
    record rest { saves = update (owned user row.id) (committed now p) rest.saves }

abbrev synced_event : String → EmulationSave → Event
synced_event user row = record {
  kind = "emulation_save.synced";
  user_id = user;
  game = none;
  size = some row.artifact_length_in_bytes;
}

-- The answer and the event, for what is read back.
abbrev answered : String → Option EmulationSave → Saves → Result EmulationSave × Saves
answered user none s = (err save_not_found, s)
answered user (some row) s = (ok row, record s { events = s.events ++ synced_event user row ∷ [] })

unfoldable pub commit : ℕ → String → String → CommitSave → Saves → Result EmulationSave × Saves
unfolding commit_rows
commit now user id p s = elim (fetch_save user id s) [
  | none ↦ (err save_not_found, s)
  | some row ↦
      answered user (fetch_save user id (commit_rows now user p row s))
        (commit_rows now user p row s)
]

unfoldable pub download_url : ℕ → String → String → Saves → Result Claims
unfolding sign_download_url save_key
download_url now user id s = elim (fetch_save user id s) [
  | none ↦ err save_not_found
  | some row ↦
      if not row.is_uploaded
      then err (not_found "save has no uploaded content")
      else ok (sign_download_url now (save_key id))
]

abbrev pub relabelled : ℕ → Option String → Option Json → EmulationSave → EmulationSave
relabelled now label metadata s = record s {
  label = or_else label s.label;
  metadata = or_else metadata s.metadata;
  updated_at = now;
}

abbrev read_back : Option EmulationSave → Result EmulationSave
read_back none = err save_not_found
read_back (some row) = ok row

-- `update`
unfoldable pub update_save :
    ℕ → String → String → Option String → Option Json → Saves → Result EmulationSave × Saves
update_save now user id label metadata s = elim (fetch_save user id s) [
  | none ↦ (err save_not_found, s)
  | some row ↦
      let later = record s {
        saves = update (owned user id) (relabelled now label metadata) s.saves;
      } in
      (read_back (fetch_save user id later), later)
]

-- `delete`: `none` is 200.
unfoldable pub delete_save : String → String → Saves → Option ApiError × Saves
unfolding save_key
delete_save user id s =
    if nat_eq (count (owned user id) s.saves) 0 then (some save_not_found, s) else (
      none,
      record s {
        saves = delete (owned user id) s.saves;
        files = delete_object (save_key id) s.files;
      },
    )
