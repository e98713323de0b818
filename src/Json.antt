-- ===== src/Json.antt =====
-- JSON values as serde_json has them. An object is a list of members with one member for each key;
-- `insert` replaces, as `serde_json::Map` does.
use hydra_server.Shared.{
  String, ◌≡◌, refl, Bool, Option, none, some, arith, if◌then◌else◌, ◌==◌, str-eq,
}
use hydra_server.Shared.Int.{ℤ}

mutual
  pub data Json : Type 0 where
    null : Json
    bool : Bool → Json
    num : ℤ → Json
    -- a number that is not held as an integer, by its text
    float : String → Json
    str : String → Json
    arr : Items → Json
    obj : Members → Json

  pub data Items : Type 0 where
    nil : Items
    cons : Json → Items → Items

  pub data Members : Type 0 where
    empty : Members
    member : String → Json → Members → Members

unfoldable pub insert : String → Json → Members → Members
insert k v empty = member k v empty
insert k v (member j w m) = if j == k then member k v m else member j w (insert k v m)

unfoldable pub lookup : String → Members → Option Json
lookup k empty = none
lookup k (member j w m) = if j == k then some w else lookup k m

-- `Map::extend`
unfoldable pub extend : Members → Members → Members
unfolding insert
extend into empty = into
extend into (member k v m) = extend (insert k v into) m

pub lookup-insert :
    (k j : String) (v : Json) (m : Members)
    → lookup j (insert k v m) ≡ (if k == j then some v else lookup j m)
unfolding insert lookup
lookup-insert k j v empty = refl
lookup-insert k j v (member i w m) =
    ground (arith, str-eq k j, str-eq i k, str-eq i j, lookup-insert k j v m)
