-- ===== src/Combined/Links.antt =====
-- combined_achievements.rs: what `replace_links` leaves in the table, and the cache's size.
use hydra_server.Shared.{
  ℕ, String, ◌≤◌, ◌≡◌, refl, sym, ap, ◌∙◌, Bool, true, false, ◌&&◌, Option, none, some, List, [],
  ◌∷◌, ◌++◌, length, first, select, delete, arith, if◌then◌else◌, ◌==◌, str-eq, str_refl, nat_eq,
  Bool-cases, Option-cases, inl, inr, first-end,
}
use hydra_server.Shared.Texts.{trim_end}
use hydra_server.Json.{Json}
use hydra_server.Achievements.{or_else}
use hydra_server.Combined.{
  GameLink, LinkRow, is_linkable, is_link, link_row, put_link, put_links, of_owner, replace_links,
  canonical_of,
}
use hydra_server.Combined.Lookups.{
  Cached, Catalogue, definitions, definitions_cache_limit, of_game, remember, fetched,
}

abbrev names : String → String → GameLink → Bool
names shop object link = (link.shop == shop) && (link.object_id == object)

-- The canonical id that the last link of a game gives it.
unfoldable pub last_link : String → String → List GameLink → Option String
last_link shop object [] = none
last_link shop object (link ∷ links) =
    or_else (last_link shop object links)
      (if names shop object link then some link.canonical_id else none)

first-append_none :
    {A : Type 0} (p : A → Bool) (xs : List A) (y : A)
    → p y ≡ false
    → first p (xs ++ y ∷ []) ≡ first p xs
first-append_none p [] y h = rw h refl
first-append_none p (x ∷ xs) y h = ground (arith, first-append_none p xs y h)

first-delete_self : {A : Type 0} (p : A → Bool) (xs : List A) → first p (delete p xs) ≡ none
first-delete_self p [] = refl
first-delete_self p (x ∷ xs) = ground (arith, first-delete_self p xs)

first-delete_apart :
    {A : Type 0} (p q : A → Bool) (xs : List A)
    → ((a : A) → q a ≡ true → p a ≡ false)
    → first q (delete p xs) ≡ first q xs
first-delete_apart p q [] h = refl
first-delete_apart p q (x ∷ xs) h = ground (arith, h x, first-delete_apart p q xs h)

abbrev same : String → GameLink → String → String → String → Bool
same user link other shop object = (user == other) && names shop object link

abbrev canonical : Option LinkRow → Option String
canonical none = none
canonical (some r) = some r.canonical_id

canonical_of-first :
    (user shop object : String) (rows : List LinkRow)
    → canonical_of user shop object rows ≡ canonical (first (is_link user shop object) rows)
unfolding canonical_of
canonical_of-first user shop object rows = ground arith

meet : (a b c : String) → (c == a) ≡ true → (c == b) ≡ true → (a == b) ≡ true
meet a b c p q = (str-eq a b).1 (sym ((str-eq c a).0 p) ∙ (str-eq c b).0 q)

or_else_assoc : {A : Type 0} (a b c : Option A) → or_else (or_else a b) c ≡ or_else a (or_else b c)
or_else_assoc none b c = refl
or_else_assoc (some a) b c = refl

apart_link :
    (user shop object other store game : String) (r : LinkRow)
    → ((user == other) && ((shop == store) && (object == game))) ≡ false
    → is_link other store game r ≡ true
    → is_link user shop object r ≡ false
apart_link user shop object other store game r n h =
    ground (arith, meet user other r.user_id, meet shop store r.shop, meet object game r.object_id)

put_link-first :
    (now : ℕ) (user : String) (link : GameLink) (rows : List LinkRow) (other shop object : String)
    → canonical (first (is_link other shop object) (put_link now user link rows)) ≡ (
        if same user link other shop object
        then some link.canonical_id
        else canonical (first (is_link other shop object) rows))
unfolding put_link
put_link-first now user link rows other shop object =
    elim (Bool-cases (same user link other shop object)) [
      | inl y ↦
          let owner : user ≡ other = (str-eq _ _).0 (ground arith) in
          let store : link.shop ≡ shop = (str-eq _ _).0 (ground arith) in
          let game : link.object_id ≡ object = (str-eq _ _).0 (ground arith) in
          let old = first-delete_self (is_link user link.shop link.object_id) rows in
          rw (y, ← owner, ← store, ← game)
            (ap canonical (
              first-end (is_link user link.shop link.object_id) _ (link_row now user link) old
                (rw (str_refl user, str_refl link.shop, str_refl link.object_id) refl)))
      | inr n ↦ rw n (
          ap canonical (
            first-append_none (is_link other shop object) _ (link_row now user link) n
            ∙ first-delete_apart _ _ rows
                (λ r h. apart_link user link.shop link.object_id other shop object r n h)))
    ]

put_links-first :
    (now : ℕ) (user : String) (links : List GameLink) (rows : List LinkRow)
    (other shop object : String)
    → canonical (first (is_link other shop object) (put_links now user links rows)) ≡ (
        if user == other
        then or_else
            (last_link shop object links)
            (canonical (first (is_link other shop object) rows))
        else canonical (first (is_link other shop object) rows))
unfolding put_links last_link
put_links-first now user [] rows other shop object = ground arith
put_links-first now user (link ∷ links) rows other shop object =
    let rest = put_links-first now user links (put_link now user link rows) other shop object in
    let here = put_link-first now user link rows other shop object in
    ground (arith, rest, here, or_else_assoc (last_link shop object links))

-- Without the rows of an account there is no link of it, and every other is where it was.
removed :
    (user other shop object : String) (rows : List LinkRow)
    → first (is_link other shop object) (delete (of_owner user) rows)
      ≡ (if user == other then none else first (is_link other shop object) rows)
removed user other shop object [] = ground arith
removed user other shop object (r ∷ rows) = ground (
  arith,
  removed user other shop object rows,
  str-eq user other,
  str-eq r.user_id user,
  str-eq r.user_id other,
  meet user other r.user_id,
)

or_else-none : {A : Type 0} (a : Option A) → or_else a none ≡ a
or_else-none none = refl
or_else-none (some a) = refl

-- After the launcher sent its links, a game of the account has the canonical id that the last valid
-- link of the game gives, and none where no valid link names it; the games of every other account
-- have the id they had.
pub replace_links-canonical :
    (now : ℕ) (user : String) (links : List GameLink) (rows : List LinkRow)
    (other shop object : String)
    → canonical_of other shop object (replace_links now user links rows) ≡ (
        if user == other
        then last_link shop object (select is_linkable links)
        else canonical_of other shop object rows)
unfolding replace_links
replace_links-canonical now user links rows other shop object = ground (
  arith,
  canonical_of-first other shop object (replace_links now user links rows),
  canonical_of-first other shop object rows,
  put_links-first now user (select is_linkable links) (delete (of_owner user) rows) other shop
      object,
  removed user other shop object rows,
  or_else-none (last_link shop object (select is_linkable links)),
)

length-delete : {A : Type 0} (p : A → Bool) (xs : List A) → length (delete p xs) ≤ length xs
length-delete p [] = omega arith
length-delete p (x ∷ xs) = ground (arith, length-delete p xs)

length-remember :
    (now : ℕ) (shop object language : String) (values : List Json) (cache : List Cached)
    → length (remember now shop object language values cache) ≤ definitions_cache_limit
unfolding remember
length-remember now shop object language values cache =
    ground (arith, length-delete (of_game shop object language) cache)

fetched-le :
    (catalogue : Catalogue) (now : ℕ) (base token shop object language : String)
    (cache : List Cached)
    → length cache ≤ definitions_cache_limit
    → length (fetched catalogue now base token shop object language cache).1
      ≤ definitions_cache_limit
unfolding fetched
fetched-le catalogue now base token shop object language cache h =
    elim (Option-cases (catalogue base token shop object language)) [
      | inl n ↦ rw (fetched, n) h
      | inr (values, e) ↦ rw (fetched, e) (length-remember now shop object language values cache)
    ]

-- The cache of definitions never holds more than 2,000 entries, whatever is asked and whatever the
-- catalogue answers.
pub definitions-le :
    (catalogue : Catalogue) (now : ℕ) (url token shop object language : String)
    (cache : List Cached)
    → length cache ≤ definitions_cache_limit
    → length (definitions catalogue now url token shop object language cache).1
      ≤ definitions_cache_limit
unfolding definitions
definitions-le catalogue now url token shop object language cache h =
    let base = trim_end (λ c. nat_eq c 0x2F) url in
    ground (arith, fetched-le catalogue now base token shop object language cache h)
