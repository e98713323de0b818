-- ===== src/Souvenirs.antt =====
-- souvenirs.rs: the tables of migrations/0011_souvenirs.sql and what its handlers share. A souvenir
-- is reserved, then its picture is uploaded, then a sync of achievements claims it.
pub mod Authorize
pub mod Claim
pub mod Manage
pub mod Steps
pub mod Reserved
pub mod Runs
pub mod Retry
pub mod Through
pub mod Sweep
mod Tests
use Prim.Native.String.{◌++◌ as ◌+++◌}
use hydra_server.Shared.{
  ℕ, String, ◌+◌, ◌*◌, Bool, true, false, not, ◌&&◌, ◌||◌, Option, none, some, List, [], ◌∷◌, ◌++◌,
  map, any, if◌then◌else◌, ◌==◌,
}
use hydra_server.Shared.Int.{ℤ, pos}
use hydra_server.Shared.Texts.{is_empty, trim, starts_with, contains, all_chars}
use hydra_server.Json.{Json, str, obj, member, empty}
use hydra_server.ApiError.{ApiError, new, with_extra}
use hydra_server.Limits.{UserRow, RuntimeSettings}
use hydra_server.Storage.{Sized, Metered}
use hydra_server.Storage.Links.{is_key_char}
use hydra_server.CloudSaves.State.{Event}

pub data Status : Type 0 where
  pending ready : Status

abbrev pub is_ready : Status → Bool
is_ready ready = true
is_ready pending = false

abbrev pub is_pending : Status → Bool
is_pending pending = true
is_pending ready = false

-- A row of `souvenirs`. `achievement_names` holds the list that it encodes.
pub record Souvenir : Type 0 where
  pub id : String
  pub user_id : String
  pub client_id : String
  pub remote_game_id : Option String
  pub shop : Option String
  pub object_id : Option String
  pub image_key : String
  pub is_uploaded : Bool
  pub size_in_bytes : ℕ
  pub status : Status
  pub primary_achievement_name : Option String
  pub achievement_names : List String
  pub captured_at : ℤ
  pub visibility : String
  pub created_at : ℕ
  pub updated_at : ℕ

pub record Like : Type 0 where
  pub souvenir_id : String
  pub user_id : String
  pub created_at : ℕ

pub record Report : Type 0 where
  pub souvenir_id : String
  pub owner_user_id : String
  pub reporter_user_id : String
  pub reason : String
  pub description : Option String
  pub created_at : ℕ

-- The column of `users` that these handlers write.
pub record Account : Type 0 where
  pub id : String
  pub souvenirs_visibility : String

pub record Gallery : Type 0 where
  pub souvenirs : List Souvenir
  pub likes : List Like
  pub reports : List Report
  pub accounts : List Account
  -- the pictures on disk, by key
  pub files : String → Bool
  -- the metered tables beside `souvenirs`
  pub elsewhere : Metered
  pub users : List UserRow
  pub settings : RuntimeSettings
  pub events : List Event

-- `str::to_uppercase` and `str::to_lowercase`, of which nothing is assumed.
pub record Letters : Type 0 where
  pub upper : String → String
  pub lower : String → String

abbrev pub sized_souvenir : Souvenir → Sized
sized_souvenir r = record { user_id = r.user_id; size = pos r.size_in_bytes }

abbrev pub metered : Gallery → Metered
metered g = record g.elsewhere { souvenirs = map sized_souvenir g.souvenirs }

abbrev pub conflict : String → String → ApiError
conflict reason client =
    with_extra (new 409 "achievements/souvenir-conflict")
      (obj (member "reason" (str reason) (member "clientId" (str client) empty)))

abbrev pub upload_incomplete : String → ApiError
upload_incomplete client =
    with_extra (new 409 "achievements/souvenir-upload-incomplete")
      (obj (member "clientId" (str client) empty))

unfoldable pub storage_key : String → String → String
storage_key user file = "images/souvenirs/" +++ (user +++ ("/" +++ file))

unfoldable pub key_belongs_to : String → String → Bool
unfolding storage_key
key_belongs_to user key =
    starts_with (storage_key user "") key && (not (contains ".." key) && all_chars is_key_char key)

unfoldable pub normalize_visibility : Letters → String → Option String
normalize_visibility letters value =
    let upper = letters.upper value in
    if upper == "PUBLIC"
    then some "PUBLIC"
    else if upper == "PRIVATE"
    then some "PRIVATE"
    else if upper == "FRIENDS"
    then some "FRIENDS"
    else none

abbrev pub has_name : List String → String → Bool
has_name names name = any (λ n. n == name) names

-- `seen` is the set of the names so far.
unfoldable pub normalize_from : Letters → List String → List String → List String
normalize_from letters seen [] = []
normalize_from letters seen (raw ∷ names) =
    let name = letters.upper (trim raw) in
    let skipped = is_empty name || has_name seen name in
    let rest = normalize_from letters (if skipped then seen else name ∷ seen) names in
    if skipped then rest else name ∷ rest

unfoldable pub normalize_names : Letters → List String → List String
unfolding normalize_from
normalize_names letters names = normalize_from letters [] names

-- The conditions of the statements.
abbrev pub has_id : String → Souvenir → Bool
has_id id r = r.id == id

abbrev pub of_user : String → Souvenir → Bool
of_user user r = r.user_id == user

abbrev pub has_key : String → Souvenir → Bool
has_key key r = r.image_key == key

-- `user_id = ? AND client_id = ?`
abbrev pub of_client : String → String → Souvenir → Bool
of_client user client r = (r.user_id == user) && (r.client_id == client)

-- `id = ? AND user_id = ?`
abbrev pub owned : String → String → Souvenir → Bool
owned user id r = (r.id == id) && (r.user_id == user)

-- PRIMARY KEY, and the indexes on `(user_id, client_id)` and `image_key`
abbrev pub clashes : Souvenir → Souvenir → Bool
clashes row r =
    has_id row.id r || (of_client row.user_id row.client_id r || has_key row.image_key r)

unfoldable pub insert_souvenir : Souvenir → List Souvenir → Option (List Souvenir)
insert_souvenir row rows = if any (clashes row) rows then none else some (rows ++ row ∷ [])

abbrev pub record_event : Event → Gallery → Gallery
record_event e g = record g { events = g.events ++ e ∷ [] }
