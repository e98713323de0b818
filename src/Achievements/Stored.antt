-- ===== src/Achievements/Stored.antt =====
-- achievements.rs: the table `game_achievements`, what a sync stores in it, and what the profile
-- reads from it. The column `achievements` holds the list that it encodes.
use hydra_server.Shared.{
  ℕ, String, ◌+◌, Bool, true, false, not, ◌&&◌, ◌||◌, Option, none, some, List, [], ◌∷◌, ◌++◌,
  length, any, first, select, delete, update, if◌then◌else◌, ◌==◌,
}
use hydra_server.Json.{Json}
use hydra_server.HiddenGames.{HiddenGame, contains}
use hydra_server.Achievements.{or_else, merge_achievements}

-- A row of `game_achievements`.
pub record GameRow : Type 0 where
  pub user_id : String
  pub remote_game_id : String
  pub shop : Option String
  pub object_id : Option String
  pub achievements : List Json
  pub has_active_steam_import : Option Bool
  pub updated_at : ℕ

abbrev pub is_row : String → String → GameRow → Bool
is_row user remote r = (r.user_id == user) && (r.remote_game_id == remote)

-- `SyncAchievements`, less its souvenirs
pub record SyncAchievements : Type 0 where
  pub id : String
  pub object_id : Option String
  pub shop : Option String
  pub has_active_steam_import : Option Bool
  pub achievements : List Json

abbrev pub shop_of : Option GameRow → Option String
shop_of none = none
shop_of (some r) = r.shop

abbrev pub object_of : Option GameRow → Option String
object_of none = none
object_of (some r) = r.object_id

abbrev pub achievements_of : Option GameRow → List Json
achievements_of none = []
achievements_of (some r) = r.achievements

-- What `sync` merges, and the game it names.
unfoldable pub merged_of : (String → String) → List GameRow → String → SyncAchievements → List Json
unfolding merge_achievements
merged_of upper rows user payload =
    merge_achievements upper (achievements_of (first (is_row user payload.id) rows))
      payload.achievements

abbrev pub synced_shop : List GameRow → String → SyncAchievements → Option String
synced_shop rows user payload = or_else payload.shop (shop_of (first (is_row user payload.id) rows))

abbrev pub synced_object : List GameRow → String → SyncAchievements → Option String
synced_object rows user payload =
    or_else payload.object_id (object_of (first (is_row user payload.id) rows))

abbrev pub new_row :
    ℕ → String → String → Option String → Option String → List Json → Option Bool → GameRow
new_row now user remote shop object merged steam = record {
  user_id = user;
  remote_game_id = remote;
  shop = shop;
  object_id = object;
  achievements = merged;
  has_active_steam_import = steam;
  updated_at = now;
}

-- ON CONFLICT DO UPDATE, with its COALESCEs
abbrev pub overwritten : GameRow → GameRow → GameRow
overwritten excluded r = record r {
  shop = or_else excluded.shop r.shop;
  object_id = or_else excluded.object_id r.object_id;
  achievements = excluded.achievements;
  has_active_steam_import = or_else excluded.has_active_steam_import r.has_active_steam_import;
  updated_at = excluded.updated_at;
}

unfoldable pub upsert : GameRow → List GameRow → List GameRow
upsert row rows =
    if any (is_row row.user_id row.remote_game_id) rows
    then update (is_row row.user_id row.remote_game_id) (overwritten row) rows
    else rows ++ row ∷ []

-- `sync` up to the souvenirs
unfoldable pub store_achievements :
    (String → String) → ℕ → String → SyncAchievements → List GameRow → List GameRow
unfolding merged_of upsert
store_achievements upper now user payload rows =
    upsert
      (new_row now user payload.id (synced_shop rows user payload) (synced_object rows user payload)
        (merged_of upper rows user payload) payload.has_active_steam_import)
      rows

-- DELETE /profile/games/achievements/{remoteGameId}
unfoldable pub reset : String → String → List GameRow → List GameRow
reset user remote rows = delete (is_row user remote) rows

abbrev is_true : Option Bool → Bool
is_true none = false
is_true (some b) = b

abbrev in_shops : (String → String) → List String → Option String → Bool
in_shops lower shops none = true
in_shops lower shops (some shop) = any (λ s. s == lower shop) shops

abbrev is_nil : {A : Type 0} → List A → Bool
is_nil [] = true
is_nil (x ∷ xs) = false

-- `lower` is `str::to_lowercase`.
unfoldable pub counts_toward_stats :
    (String → String) → Option String → Option Bool → List String → Bool → Bool
counts_toward_stats lower shop steam shops steam_library =
    not (steam_library && not (is_true steam)) && (is_nil shops || in_shops lower shops shop)

-- A row that names its game is shown where the game is not hidden.
unfoldable pub shown : List HiddenGame → String → Option String → Option String → Bool
unfolding contains
shown hidden user (some shop) (some object) = not (contains hidden user shop object)
shown hidden user _ _ = true

unfoldable pub sum_counts : List GameRow → ℕ
sum_counts [] = 0
sum_counts (r ∷ rows) = length r.achievements + sum_counts rows

abbrev pub counted_row :
    (String → String) → List HiddenGame → String → List String → Bool → GameRow → Bool
counted_row lower hidden user shops steam_library r =
    shown hidden user r.shop r.object_id
    && counts_toward_stats lower r.shop r.has_active_steam_import shops steam_library

abbrev sum_if_any :
    (String → String) → List HiddenGame → String → List String → Bool → List GameRow → Option ℕ
sum_if_any lower hidden user shops steam_library [] = none
sum_if_any lower hidden user shops steam_library (r ∷ rows) =
    some (sum_counts (select (counted_row lower hidden user shops steam_library) (r ∷ rows)))

-- GET /profile/stats/{userId}: `unlockedAchievementSum`, where `none` is null
unfoldable pub user_stats :
    (String → String) → List HiddenGame → List String → Bool → String → List GameRow → Option ℕ
unfolding counts_toward_stats shown sum_counts
user_stats lower hidden shops steam_library user rows =
    sum_if_any lower hidden user shops steam_library (select (λ r. r.user_id == user) rows)
