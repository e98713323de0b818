-- ===== src/Combined.antt =====
-- combined_achievements.rs: the games that an account's stores share, and the one list of their
-- achievements. The official catalogue is a parameter: `catalogue base token shop object language` is
-- what a lookup got, if it succeeded. So are the case mappings and classes of characters.
pub mod Lookups
pub mod Groups
pub mod Links
pub mod Keys
pub mod Placed
pub mod Ordered
pub mod Pairs
mod Tests
use Prim.Native.String.{len}
use hydra_server.Shared.{
  ℕ, String, ◌+◌, ◌*◌, Bool, true, false, not, ◌&&◌, ◌||◌, Option, none, some, List, [], ◌∷◌, ◌++◌,
  length, first, select, delete, if◌then◌else◌, ltb, leb, nat_eq, ◌==◌,
}
use hydra_server.Shared.Texts.{is_empty, is_space, all_chars}
use hydra_server.ApiError.{ApiError, Result, ok, err, not_found}

pub record GameLink : Type 0 where
  pub shop : String
  pub object_id : String
  pub canonical_id : String

-- A row of `game_links`.
pub record LinkRow : Type 0 where
  pub user_id : String
  pub shop : String
  pub object_id : String
  pub canonical_id : String
  pub updated_at : ℕ

-- `char::is_control`
abbrev is_control : ℕ → Bool
is_control c = leb c 0x1F || (leb 0x7F c && leb c 0x9F)

-- `LINKED_SHOPS`
abbrev pub linked_shop : String → Bool
linked_shop shop = (shop == "steam") || (shop == "epic")

unfoldable pub sane : String → Bool
sane value =
    not (is_empty value)
    && (leb (len value) 255 && all_chars (λ c. not (is_control c) && not (is_space c)) value)

-- `is_ascii_alphanumeric`, `:`, `-`, `_` and `.`
abbrev plain_char : ℕ → Bool
plain_char c =
    (leb 0x30 c && leb c 0x39)
    || ((leb 0x41 c && leb c 0x5A)
        || ((leb 0x61 c && leb c 0x7A)
            || (nat_eq c 0x3A || (nat_eq c 0x2D || (nat_eq c 0x5F || nat_eq c 0x2E)))))

unfoldable pub plain_id : String → Bool
unfolding sane
plain_id value = sane value && all_chars plain_char value

-- Which links are stored.
unfoldable pub is_linkable : GameLink → Bool
unfolding sane plain_id
is_linkable link = linked_shop link.shop && (plain_id link.object_id && sane link.canonical_id)

-- The primary key of the table.
abbrev pub is_link : String → String → String → LinkRow → Bool
is_link user shop object r = (r.user_id == user) && ((r.shop == shop) && (r.object_id == object))

abbrev pub link_row : ℕ → String → GameLink → LinkRow
link_row now user link = record {
  user_id = user;
  shop = link.shop;
  object_id = link.object_id;
  canonical_id = link.canonical_id;
  updated_at = now;
}

-- INSERT OR REPLACE
unfoldable pub put_link : ℕ → String → GameLink → List LinkRow → List LinkRow
put_link now user link rows =
    delete (is_link user link.shop link.object_id) rows ++ link_row now user link ∷ []

unfoldable pub put_links : ℕ → String → List GameLink → List LinkRow → List LinkRow
unfolding put_link
put_links now user [] rows = rows
put_links now user (link ∷ links) rows = put_links now user links (put_link now user link rows)

abbrev pub of_owner : String → LinkRow → Bool
of_owner user r = r.user_id == user

unfoldable pub replace_links : ℕ → String → List GameLink → List LinkRow → List LinkRow
unfolding is_linkable put_links
replace_links now user links rows =
    put_links now user (select is_linkable links) (delete (of_owner user) rows)

-- The canonical id of a game, if the account linked it.
unfoldable pub canonical_of : String → String → String → List LinkRow → Option String
canonical_of user shop object rows = elim (first (is_link user shop object) rows) [
  | none ↦ none
  | some r ↦ some r.canonical_id
]

abbrev pub is_copy : String → String → String → LinkRow → Bool
is_copy user canonical shop r =
    (r.user_id == user) && ((r.canonical_id == canonical) && (r.shop == shop))

-- The rows of Steam before those of Epic; within a store the table's order stands for the order by
-- object id.
unfoldable pub copies_of : String → String → List LinkRow → List LinkRow
copies_of user canonical rows =
    select (is_copy user canonical "steam") rows ++ select (is_copy user canonical "epic") rows

abbrev pub not_linked : ApiError
not_linked = not_found "this game isn't linked to another store"

-- The games that the view shows.
unfoldable pub linked_games : String → String → String → List LinkRow → Result (List LinkRow)
unfolding canonical_of copies_of
linked_games user shop object rows = elim (canonical_of user shop object rows) [
  | none ↦ err not_linked
  | some canonical ↦
      if ltb (length (copies_of user canonical rows)) 2
      then err not_linked
      else ok (copies_of user canonical rows)
]
