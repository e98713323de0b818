-- ===== src/Combined/Groups.antt =====
-- combined_achievements.rs: how the copies' achievements are paired and grouped.
use Prim.Native.Char.{Char, code}
use Prim.Native.String.{◌++◌ as ◌+++◌}
use hydra_server.Shared.{
  ℕ, suc, String, Bool, true, false, not, Option, none, some, List, [], ◌∷◌, ◌++◌, any, delete,
  if◌then◌else◌, ◌==◌,
}
use hydra_server.Shared.Int.{ℤ}
use hydra_server.Shared.Texts.{is_empty, digits}
use hydra_server.Json.{Json, null, bool, num, float, str, obj, Members, empty, insert}
use hydra_server.Achievements.{get, as_str, and_then, or_else}
use hydra_server.Combined.Lookups.{Named, named_value}

-- What the standard library says of characters.
pub record Alphabet : Type 0 where
  pub upper : String → String
  pub is_alphanumeric : ℕ → Bool
  pub lowered : Char → String

-- One store's copy of a linked game.
pub record Copy : Type 0 where
  pub shop : String
  pub object_id : String
  pub definitions : List Json
  pub unlocks : Named ℤ
  pub images : Named String

-- `definition.get(field).and_then(Value::as_str)`
unfoldable pub text_of : Json → String → Option String
unfolding get
text_of definition field = and_then (get definition field) as_str

abbrev pub text_or : String → Option String → String
text_or other none = other
text_or other (some s) = s

-- The letters and digits of a text, in lower case.
abbrev pub folded : Alphabet → String → String
folded abc String.[] = String.[]
folded abc (String.◌∷◌ c s) =
    let rest = folded abc s in if abc.is_alphanumeric (code c) then abc.lowered c +++ rest else rest

unfoldable pub pairing_key : Alphabet → Json → Option String
unfolding text_of
pairing_key abc definition =
    let display = folded abc (text_or "" (text_of definition "displayName")) in
    if not (is_empty display) then some display else elim (text_of definition "name") [
      | none ↦ none
      | some name ↦ some ("name:" +++ abc.upper name)
    ]

-- `format!("{base_key}#{occurrence}")`
unfoldable pub group_key : String → ℕ → String
group_key base n = base +++ ("#" +++ digits n n "")

abbrev non_empty : Option String → Option String
non_empty none = none
non_empty (some s) = if is_empty s then none else some s

abbrev pub hidden_of : Option Json → Bool
hidden_of (some (bool b)) = b
hidden_of _ = false

abbrev json_or_null {ℓ} : {A : Type ℓ} → (A → Json) → Option A → Json
json_or_null f none = null
json_or_null f (some a) = f a

unfoldable pub unlock_of : Alphabet → Copy → Json → String → Option ℤ
unfolding text_of
unlock_of abc copy definition name =
    or_else (named_value (abc.upper name) copy.unlocks)
      (and_then (text_of definition "externalId") (λ id. named_value (abc.upper id) copy.unlocks))

abbrev with_description : Option String → Members → Members
with_description none m = m
with_description (some s) m = insert "description" (str s) m

abbrev with_points : Option Json → Members → Members
with_points (some (num z)) m = insert "points" (num z) m
with_points (some (float x)) m = insert "points" (float x) m
with_points _ m = m

unfoldable pub variant_of : Alphabet → Copy → Json → String → Json
unfolding insert get unlock_of text_of
variant_of abc copy definition name =
    let icon = text_or "" (text_of definition "icon") in
    obj (
      with_points (get definition "points") (
        with_description (text_of definition "description") (
          insert "shop" (str copy.shop) (
            insert "objectId" (str copy.object_id) (
              insert "name" (str name) (
                insert "displayName"
                  (str (text_or name (non_empty (text_of definition "displayName"))))
                  (insert "hidden" (bool (hidden_of (get definition "hidden"))) (
                    insert "icon" (str icon) (
                      insert "icongray" (str (text_or icon (text_of definition "icongray"))) (
                        insert "unlockTime" (json_or_null num (unlock_of abc copy definition name))
                          (insert "imageUrl"
                            (json_or_null str (named_value (abc.upper name) copy.images))
                            empty)))))))))))

-- The achievement that a definition stands for: its pairing key and its variant.
unfoldable pub paired : Alphabet → Copy → Json → Option (String × Json)
unfolding pairing_key variant_of text_of
paired abc copy definition = elim (text_of definition "name") [
  | none ↦ none
  | some name ↦ elim (pairing_key abc definition) [
    | none ↦ none
    | some base ↦ some (base, variant_of abc copy definition name)
  ]
]

-- `*seen.entry(base).or_insert(0)`, and the count one higher
abbrev pub occurrence : String → Named ℕ → ℕ
occurrence base [] = 0
occurrence base ((k, n) ∷ m) = if k == base then n else occurrence base m

abbrev pub bump : String → Named ℕ → Named ℕ
bump base [] = (base, 1) ∷ []
bump base ((k, n) ∷ m) = if k == base then (k, suc n) ∷ m else (k, n) ∷ bump base m

abbrev pub has_key : {A : Type 0} → String → String × A → Bool
has_key key e = e.0 == key

-- `groups.entry(key).or_default().push(variant)`
abbrev pub push_variant : String → Json → Named (List Json) → Named (List Json)
push_variant key v [] = (key, v ∷ []) ∷ []
push_variant key v ((k, vs) ∷ m) =
    if k == key then (k, vs ++ v ∷ []) ∷ m else (k, vs) ∷ push_variant key v m

pub record Grouping : Type 0 where
  pub order : List String
  pub groups : Named (List Json)

unfoldable pub place : String → Json → Grouping → Grouping
place key v g = record {
  order = if any (has_key key) g.groups then g.order else g.order ++ key ∷ [];
  groups = push_variant key v g.groups;
}

-- What a definition adds to the counts and to the groups; one without a name adds nothing.
abbrev pub counted_key : Option (String × Json) → Named ℕ → Named ℕ
counted_key none seen = seen
counted_key (some (base, v)) seen = bump base seen

abbrev pub placed : Option (String × Json) → Named ℕ → Grouping → Grouping
placed none seen g = g
placed (some (base, v)) seen g = place (group_key base (occurrence base seen)) v g

-- The definitions of one copy, `seen` counting the pairing keys so far.
unfoldable pub place_all : Alphabet → Copy → List Json → Named ℕ → Grouping → Grouping
place_all abc copy [] seen g = g
place_all abc copy (d ∷ ds) seen g =
    let p = paired abc copy d in place_all abc copy ds (counted_key p seen) (placed p seen g)

abbrev pub is_none_left : List Json → Bool
is_none_left [] = true
is_none_left (d ∷ ds) = false

-- The definitions of the first copy that has some.
unfoldable pub fallback_of : List Copy → List Json
fallback_of [] = []
fallback_of (copy ∷ copies) =
    if is_none_left copy.definitions then fallback_of copies else copy.definitions

abbrev pub definitions_of : List Json → Copy → List Json
definitions_of fallback copy = if is_none_left copy.definitions then fallback else copy.definitions

unfoldable pub place_copies : Alphabet → List Json → List Copy → Grouping → Grouping
unfolding place_all
place_copies abc fallback [] g = g
place_copies abc fallback (copy ∷ copies) g =
    place_copies abc fallback copies (place_all abc copy (definitions_of fallback copy) [] g)

-- A group of the answer.
pub record Group : Type 0 where
  pub canonical_achievement_id : String
  pub variants : List Json

abbrev pub group_id : String → String → String
group_id canonical key = canonical +++ (":" +++ key)

abbrev pub group_at : String → String → Option (List Json) → List Group
group_at canonical key none = []
group_at canonical key (some vs) =
    record { canonical_achievement_id = group_id canonical key; variants = vs } ∷ []

-- The groups in order, each taken out of the map; a key that is not in it gives none.
unfoldable pub listed_groups : String → List String → Named (List Json) → List Group
listed_groups canonical [] groups = []
listed_groups canonical (key ∷ keys) groups =
    group_at canonical key (named_value key groups)
    ++ listed_groups canonical keys (delete (has_key key) groups)

abbrev pub no_groups : Grouping
no_groups = record { order = []; groups = [] }

unfoldable pub combine : Alphabet → String → List Copy → List Group
unfolding place_copies listed_groups fallback_of
combine abc canonical copies =
    let g = place_copies abc (fallback_of copies) copies no_groups in
    listed_groups canonical g.order g.groups
