-- ===== src/Souvenirs/Claim.antt =====
-- souvenirs.rs: the claim of a reservation by a sync of achievements, and the sync of achievements.rs
-- as a whole.
use hydra_server.Shared.{
  ℕ, String, Bool, true, false, not, ◌&&◌, ◌||◌, Option, none, some, List, [], ◌∷◌, take, any,
  first, update, if◌then◌else◌, ◌==◌,
}
use hydra_server.Shared.Int.{ℤ}
use hydra_server.Shared.Texts.{is_empty, trim}
use hydra_server.Json.{Json}
use hydra_server.ApiError.{Result, ok, err, bad_request}
use hydra_server.CloudSaves.State.{Event}
use hydra_server.Achievements.{or_else, upper_name}
use hydra_server.Achievements.Stored.{
  GameRow, SyncAchievements, merged_of, synced_shop, synced_object, store_achievements,
}
use hydra_server.Souvenirs.{
  Souvenir, Gallery, Letters, ready, is_ready, conflict, upload_incomplete, key_belongs_to,
  has_name, normalize_names, has_id, of_client, record_event,
}

abbrev pub max_achievements_per_souvenir : ℕ
max_achievements_per_souvenir = 50

pub record SyncSouvenir : Type 0 where
  pub client_id : String
  pub image_key : String
  pub captured_at : ℤ
  pub achievement_names : List String

pub record SyncGame : Type 0 where
  pub remote_id : String
  pub shop : Option String
  pub object_id : Option String

abbrev opt_eq : Option String → String → Bool
opt_eq none s = false
opt_eq (some t) s = t == s

-- `user_id = ? AND remote_game_id = ? AND status = 'ready'`
abbrev pub filed : String → String → Souvenir → Bool
filed user remote r = (r.user_id == user) && (opt_eq r.remote_game_id remote && is_ready r.status)

-- A ready souvenir of the game, not this one, that has one of the names.
abbrev pub captures : String → String → String → List String → Souvenir → Bool
captures user remote id names r =
    filed user remote r && (not (r.id == id) && any (λ n. has_name r.achievement_names n) names)

unfoldable pub achievement_already_captured :
    String → String → String → List String → List Souvenir → Bool
achievement_already_captured user remote id names rows = any (captures user remote id names) rows

abbrev head_of : List String → Option String
head_of [] = none
head_of (n ∷ names) = some n

abbrev pub claimed_row : ℕ → SyncGame → ℤ → List String → Souvenir → Souvenir
claimed_row now game captured_at names r = record r {
  status = ready;
  remote_game_id = some game.remote_id;
  shop = or_else game.shop r.shop;
  object_id = or_else game.object_id r.object_id;
  primary_achievement_name = head_of names;
  achievement_names = names;
  captured_at = captured_at;
  updated_at = now;
}

abbrev game_pair : Option String → Option String → Option (String × String)
game_pair (some shop) (some object) = some (shop, object)
game_pair _ _ = none

abbrev pub synced_event : String → SyncGame → ℤ → Event
synced_event user game size = record {
  kind = "souvenir.synced";
  user_id = user;
  game = game_pair game.shop game.object_id;
  size = some size;
}

-- The claim of a reservation that was found.
unfoldable pub claim_row :
    ℕ
    → String
    → SyncGame
    → SyncSouvenir
    → String
    → List String
    → Souvenir
    → Gallery
    → Result String × Gallery
unfolding achievement_already_captured
claim_row now user game souvenir client names row g =
    if not (row.image_key == souvenir.image_key)
    then (err (conflict "reservation_mismatch" client), g)
    else if not row.is_uploaded
    then (err (upload_incomplete client), g)
    else if achievement_already_captured user game.remote_id row.id names g.souvenirs
    then (err (conflict "achievement_already_assigned" client), g)
    else (
      ok row.id,
      record_event (synced_event user game (ℤ.pos row.size_in_bytes)) (record g {
        souvenirs =
            update (has_id row.id) (claimed_row now game souvenir.captured_at names) g.souvenirs;
      }),
    )

abbrev pub is_nil : List String → Bool
is_nil [] = true
is_nil (x ∷ xs) = false

-- The names that a claim files.
unfoldable pub filed_names : Letters → SyncSouvenir → List String
unfolding normalize_names
filed_names letters souvenir =
    take max_achievements_per_souvenir (normalize_names letters souvenir.achievement_names)

unfoldable pub claim_one :
    Letters
    → ℕ
    → String
    → SyncGame
    → SyncSouvenir
    → String
    → List String
    → Gallery
    → Result String × Gallery
unfolding claim_row filed_names
claim_one letters now user game souvenir client unlocked g =
    let names = filed_names letters souvenir in
    if is_nil (normalize_names letters souvenir.achievement_names)
      || not (key_belongs_to user souvenir.image_key)
    then (err (conflict "souvenir_payload_mismatch" client), g)
    else if any (λ n. not (has_name unlocked n)) names
    then (err (conflict "achievement_not_found" client), g)
    else elim (first (of_client user client) g.souvenirs) [
      | none ↦ (err (conflict "reservation_not_found" client), g)
      | some row ↦ claim_row now user game souvenir client names row g
    ]

-- An acknowledgement: the client's id and the souvenir's.
abbrev pub Ack : Type 0
Ack = String × String

abbrev pub acknowledged : String → Result String → Result (List Ack) → Result (List Ack)
acknowledged client (err e) rest = err e
acknowledged client (ok id) (err e) = err e
acknowledged client (ok id) (ok acks) = ok ((client, id) ∷ acks)

abbrev pub state_after : Result String → Gallery → Gallery → Gallery
state_after (err e) now later = now
state_after (ok id) now later = later

-- The loop of `claim_from_sync`: an error ends it, and what was claimed before stays claimed.
unfoldable pub claim_all :
    Letters
    → ℕ
    → String
    → SyncGame
    → List String
    → List SyncSouvenir
    → Gallery
    → Result (List Ack) × Gallery
unfolding claim_one
claim_all letters now user game unlocked [] g = (ok [], g)
claim_all letters now user game unlocked (s ∷ souvenirs) g =
    let client = trim s.client_id in
    let one = claim_one letters now user game s client unlocked g in
    let rest = claim_all letters now user game unlocked souvenirs one.1 in
    if is_empty client
    then (err (bad_request "souvenir is missing a clientId"), g)
    else (acknowledged client one.0 rest.0, state_after one.0 one.1 rest.1)

abbrev name_list : Option String → List String → List String
name_list none names = names
name_list (some n) names = n ∷ names

unfoldable pub unlocked_names : (String → String) → List Json → List String
unlocked_names upper [] = []
unlocked_names upper (a ∷ merged) = name_list (upper_name upper a) (unlocked_names upper merged)

unfoldable pub claim_from_sync :
    Letters
    → ℕ
    → String
    → SyncGame
    → List SyncSouvenir
    → List Json
    → Gallery
    → Result (List Ack) × Gallery
unfolding claim_all unlocked_names
claim_from_sync letters now user game souvenirs merged g =
    claim_all letters now user game (unlocked_names letters.upper merged) souvenirs g

-- The answer of PUT /profile/games/achievements
pub data SyncAnswer : Type 0 where
  body : Option String → Option String → List Json → List Ack → SyncAnswer
  no_content : SyncAnswer

abbrev answer_of : Option String → Option String → List Json → List Ack → SyncAnswer
answer_of (some object) (some shop) merged acks = body (some object) (some shop) merged acks
answer_of _ _ merged [] = no_content
answer_of _ _ merged (a ∷ acks) = body none none merged (a ∷ acks)

abbrev sync_answer :
    Option String → Option String → List Json → Result (List Ack) → Result SyncAnswer
sync_answer object shop merged (err e) = err e
sync_answer object shop merged (ok acks) = ok (answer_of object shop merged acks)

-- The tables that a sync writes.
pub record Profile : Type 0 where
  pub games : List GameRow
  pub gallery : Gallery

unfoldable pub sync :
    Letters
    → ℕ
    → String
    → SyncAchievements
    → List SyncSouvenir
    → Profile
    → Result SyncAnswer × Profile
unfolding merged_of store_achievements claim_from_sync
sync letters now user payload souvenirs p =
    let merged = merged_of letters.upper p.games user payload in
    let shop = synced_shop p.games user payload in
    let object = synced_object p.games user payload in
    let game : SyncGame = record { remote_id = payload.id; shop = shop; object_id = object } in
    let claims = claim_from_sync letters now user game souvenirs merged p.gallery in
    (
      sync_answer object shop merged claims.0,
      record {
        games = store_achievements letters.upper now user payload p.games;
        gallery = claims.1;
      },
    )
