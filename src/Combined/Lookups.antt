-- ===== src/Combined/Lookups.antt =====
-- combined_achievements.rs: the definitions of a game's achievements and their cache, and the unlocks
-- of an account.
use hydra_server.Shared.{
  ℕ, String, ◌+◌, ◌*◌, Bool, false, ◌&&◌, Option, none, some, List, [], ◌∷◌, length, first, delete,
  if◌then◌else◌, ltb, leb, nat_eq, ◌==◌,
}
use hydra_server.Shared.Int.{ℤ, ltb_ℤ}
use hydra_server.Shared.Texts.{is_empty, trim_end}
use hydra_server.Json.{Json}
use hydra_server.Achievements.{achievement_name, unlock_time}
use hydra_server.Achievements.Stored.{GameRow}

-- An entry of the cache of definitions.
pub record Cached : Type 0 where
  pub shop : String
  pub object_id : String
  pub language : String
  pub fetched_at : ℕ
  pub answer : List Json

abbrev pub Catalogue : Type 0
Catalogue = String → String → String → String → String → Option (List Json)

-- `DEFINITIONS_TTL`, in seconds
abbrev pub definitions_ttl : ℕ
definitions_ttl = 6 * (60 * 60)

abbrev pub definitions_cache_limit : ℕ
definitions_cache_limit = 2000

abbrev pub of_game : String → String → String → Cached → Bool
of_game shop object language c =
    (c.shop == shop) && ((c.object_id == object) && (c.language == language))

abbrev pub cached_at : ℕ → String → String → String → List Json → Cached
cached_at now shop object language values = record {
  shop = shop;
  object_id = object;
  language = language;
  fetched_at = now;
  answer = values;
}

-- A cached answer that is still good.
unfoldable pub fresh : ℕ → String → String → String → List Cached → Option (List Json)
fresh now shop object language cache = elim (first (of_game shop object language) cache) [
  | none ↦ none
  | some c ↦ if ltb now (c.fetched_at + definitions_ttl) then some c.answer else none
]

-- `cache.insert`, after the cache was emptied if it is full
unfoldable pub remember : ℕ → String → String → String → List Json → List Cached → List Cached
remember now shop object language values cache =
    cached_at now shop object language values
    ∷ (if leb definitions_cache_limit (length cache)
        then []
        else delete (of_game shop object language) cache)

unfoldable pub fetched :
    Catalogue
    → ℕ
    → String
    → String
    → String
    → String
    → String
    → List Cached
    → List Json × List Cached
unfolding remember
fetched catalogue now base token shop object language cache =
    elim (catalogue base token shop object language) [
      | none ↦ ([], cache)
      | some values ↦ (values, remember now shop object language values cache)
    ]

unfoldable pub definitions :
    Catalogue
    → ℕ
    → (url token : String) → String
    → String
    → String
    → List Cached
    → List Json × List Cached
unfolding fresh fetched
definitions catalogue now url token shop object language cache =
    let base = trim_end (λ c. nat_eq c 0x2F) url in
    elim (fresh now shop object language cache) [
      | some values ↦ (values, cache)
      | none ↦
          if is_empty base
          then ([], cache)
          else if is_empty token
          then ([], cache)
          else fetched catalogue now base token shop object language cache
    ]

-- A map from an achievement's name.
abbrev pub Named : Type 0 → Type 0
Named A = List (String × A)

abbrev pub named_value : {A : Type 0} → String → Named A → Option A
named_value key [] = none
named_value key ((k, a) ∷ m) = if k == key then some a else named_value key m

abbrev pub earlier : ℤ → ℤ → ℤ
earlier entry time = if ltb_ℤ time entry then time else entry

-- `entry(name).or_insert(time)`, then the smaller of the two
unfoldable pub note_unlock : String → ℤ → Named ℤ → Named ℤ
note_unlock key time [] = (key, time) ∷ []
note_unlock key time ((k, t) ∷ m) =
    if k == key then (k, earlier t time) ∷ m else (k, t) ∷ note_unlock key time m

unfoldable pub note_all : (String → String) → List Json → Named ℤ → Named ℤ
unfolding note_unlock achievement_name unlock_time
note_all upper [] m = m
note_all upper (a ∷ rest) m = elim (achievement_name a) [
  | none ↦ note_all upper rest m
  | some name ↦ elim (unlock_time a) [
    | none ↦ note_all upper rest m
    | some time ↦ note_all upper rest (note_unlock (upper name) time m)
  ]
]

abbrev is_text : String → Option String → Bool
is_text s none = false
is_text s (some t) = t == s

unfoldable pub unlocks_from :
    (String → String) → String → String → String → List GameRow → Named ℤ → Named ℤ
unfolding note_all
unlocks_from upper user shop object [] m = m
unlocks_from upper user shop object (r ∷ rows) m =
    if (r.user_id == user) && (is_text shop r.shop && is_text object r.object_id)
    then unlocks_from upper user shop object rows (note_all upper r.achievements m)
    else unlocks_from upper user shop object rows m

unfoldable pub unlocks : (String → String) → String → String → String → List GameRow → Named ℤ
unfolding unlocks_from
unlocks upper user shop object rows = unlocks_from upper user shop object rows []
