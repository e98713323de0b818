-- ===== src/Combined/Tests.antt =====
-- The theorems of the combined view at concrete values.
use Prim.Native.String.{String}
use hydra_server.Shared.{◌≡◌, refl, some, List, [], ◌∷◌, length, leb, select}
use hydra_server.Json.{Json, str, obj, member, empty}
use hydra_server.ApiError.{ok}
use hydra_server.Combined.{
  GameLink, LinkRow, linked_games, replace_links, canonical_of, is_linkable,
}
use hydra_server.Combined.Groups.{
  place, paired, Alphabet, Copy, combine, group_id, group_key, pairing_key,
}
use hydra_server.Combined.Links.{last_link, replace_links-canonical}
use hydra_server.Combined.Placed.{first_defined, paired_variants}
use hydra_server.Combined.Pairs.{gathered, gathered-combine}
use hydra_server.Shared.Texts.{digits}

abbrev alphabet : Alphabet
alphabet = record {
  upper = λ s. s;
  is_alphanumeric = λ c. leb 0x30 c;
  lowered = λ c. String.◌∷◌ c String.[];
}

abbrev definition : String → String → Json
definition name display = obj (member "name" (str name) (member "displayName" (str display) empty))

abbrev copy : String → String → List Json → Copy
copy shop object definitions = record {
  shop = shop;
  object_id = object;
  definitions = definitions;
  unlocks = [];
  images = [];
}

-- Two stores list "Win" twice, in another order among the rest.
abbrev copies : List Copy
copies =
    copy "steam" "570" (definition "A" "Win" ∷ definition "B" "Lose" ∷ definition "C" "Win!" ∷ [])
    ∷ copy "epic" "ns:570" (definition "X" "Win" ∷ definition "Y" "Win" ∷ [])
    ∷ []

three_groups : length (combine alphabet "c" copies) ≡ 3
unfolding combine paired place group_key digits
three_groups = refl

by_name : pairing_key alphabet (obj (member "name" (str "A") empty)) ≡ some "name:A"
unfolding pairing_key
by_name = refl

gathered-combine_example :
    gathered (group_id "c" (group_key "Win" 1)) (combine alphabet "c" copies)
    ≡ paired_variants alphabet (first_defined copies) "Win" 1 copies
gathered-combine_example = gathered-combine alphabet "c" copies "Win" 1

both_stores : length (paired_variants alphabet (first_defined copies) "Win" 1 copies) ≡ 2
unfolding paired_variants first_defined paired
both_stores = refl

abbrev link : String → String → String → GameLink
link shop object canonical = record { shop = shop; object_id = object; canonical_id = canonical }

abbrev row : String → String → String → String → LinkRow
row user shop object canonical = record {
  user_id = user;
  shop = shop;
  object_id = object;
  canonical_id = canonical;
  updated_at = 0;
}

abbrev links : List GameLink
links = link "steam" "570" "c" ∷ link "epic" "ns:570" "c" ∷ link "gog" "9" "d" ∷ []

abbrev rows : List LinkRow
rows = row "ada" "steam" "570" "old" ∷ row "bob" "steam" "570" "b" ∷ []

replace_links-canonical_example :
    canonical_of "ada" "steam" "570" (replace_links 5 "ada" links rows)
    ≡ last_link "steam" "570" (select is_linkable links)
replace_links-canonical_example = replace_links-canonical 5 "ada" links rows "ada" "steam" "570"

abbrev stored : String → String → LinkRow
stored shop object = record {
  user_id = "ada";
  shop = shop;
  object_id = object;
  canonical_id = "c";
  updated_at = 5;
}

both_linked :
    linked_games "ada" "epic" "ns:570" (replace_links 5 "ada" links rows)
    ≡ ok (stored "steam" "570" ∷ stored "epic" "ns:570" ∷ [])
unfolding linked_games replace_links
both_linked = refl
