-- ===== src/HiddenGames.antt =====
-- hidden_games.rs: the games that an account hides from its profile, and what the log is told.
use hydra_server.Shared.{
  ℕ, String, ◌≡◌, refl, sym, ◌∙◌, Bool, true, false, not, ◌&&◌, ◌||◌, none, List, [], ◌∷◌, ◌++◌,
  any, delete, arith, if◌then◌else◌, ◌==◌, str-eq, Bool-cases, inl, inr,
}
use hydra_server.CloudSaves.State.{Event, game_event}

pub record HiddenGame : Type 0 where
  pub id : String
  pub user_id : String
  pub shop : String
  pub object_id : String
  pub created_at : ℕ

-- `user_id = ? AND shop = ? AND object_id = ?`
abbrev pub of_hidden : String → String → String → HiddenGame → Bool
of_hidden user shop object g = (g.user_id == user) && ((g.shop == shop) && (g.object_id == object))

abbrev pub hidden_row : ℕ → String → String → String → String → HiddenGame
hidden_row now id user shop object = record {
  id = id;
  user_id = user;
  shop = shop;
  object_id = object;
  created_at = now;
}

-- The row's id is a new UUID.
unfoldable pub hide :
    ℕ → String → String → String → String → List HiddenGame → List HiddenGame × Event
hide now id user shop object rows = (
  (if any (of_hidden user shop object) rows
      then rows
      else rows ++ hidden_row now id user shop object ∷ []),
  game_event "hidden_games.hidden" user shop object none,
)

unfoldable pub unhide : String → String → String → List HiddenGame → List HiddenGame × Event
unhide user shop object rows = (
  delete (of_hidden user shop object) rows,
  game_event "hidden_games.unhidden" user shop object none,
)

-- `hidden_set` and `HiddenSet::contains`
unfoldable pub contains : List HiddenGame → String → String → String → Bool
contains rows user shop object = any (of_hidden user shop object) rows

any-append : {A : Type 0} (p : A → Bool) (xs ys : List A) → any p (xs ++ ys) ≡ any p xs || any p ys
any-append p [] ys = refl
any-append p (x ∷ xs) ys = ground (arith, any-append p xs ys)

any-delete_self : {A : Type 0} (p : A → Bool) (xs : List A) → any p (delete p xs) ≡ false
any-delete_self p [] = refl
any-delete_self p (x ∷ xs) = ground (arith, any-delete_self p xs)

any-delete_apart :
    {A : Type 0} (p q : A → Bool) (xs : List A)
    → ((a : A) → q a ≡ true → p a ≡ false)
    → any q (delete p xs) ≡ any q xs
any-delete_apart p q [] h = refl
any-delete_apart p q (x ∷ xs) h = ground (arith, h x, any-delete_apart p q xs h)

abbrev same_game : String → String → String → String → String → String → Bool
same_game user shop object owner store game =
    (user == owner) && ((shop == store) && (object == game))

same_game-inv :
    (user shop object owner store game : String)
    → same_game user shop object owner store game ≡ true
    → (user ≡ owner) × (shop ≡ store) × (object ≡ game)
same_game-inv user shop object owner store game e = (
  (str-eq user owner).0 (ground arith),
  (str-eq shop store).0 (ground arith),
  (str-eq object game).0 (ground arith),
)

apart_row :
    (user shop object owner store game : String) (g : HiddenGame)
    → same_game user shop object owner store game ≡ false
    → of_hidden owner store game g ≡ true
    → of_hidden user shop object g ≡ false
apart_row user shop object owner store game g n e =
    elim (Bool-cases (of_hidden user shop object g)) [
      | inr k ↦ k
      | inl k ↦
          let u : g.user_id ≡ user = (str-eq g.user_id user).0 (ground arith) in
          let o : g.user_id ≡ owner = (str-eq g.user_id owner).0 (ground arith) in
          let s : g.shop ≡ shop = (str-eq g.shop shop).0 (ground arith) in
          let t : g.shop ≡ store = (str-eq g.shop store).0 (ground arith) in
          let i : g.object_id ≡ object = (str-eq g.object_id object).0 (ground arith) in
          let j : g.object_id ≡ game = (str-eq g.object_id game).0 (ground arith) in
          let a : (user == owner) ≡ true = (str-eq user owner).1 (sym u ∙ o) in
          let b : (shop == store) ≡ true = (str-eq shop store).1 (sym s ∙ t) in
          let c : (object == game) ≡ true = (str-eq object game).1 (sym i ∙ j) in
          absurd (cc (rw (a, b, c) at n))
    ]

contains-unhide :
    (user shop object owner store game : String) (rows : List HiddenGame)
    → contains (unhide user shop object rows).0 owner store game
      ≡ contains rows owner store game && not (same_game user shop object owner store game)
unfolding unhide contains
contains-unhide user shop object owner store game rows =
    elim (Bool-cases (same_game user shop object owner store game)) [
      | inl y ↦
          let (u, s, o) = same_game-inv user shop object owner store game y in
          let gone : any (of_hidden owner store game) (delete (of_hidden user shop object) rows)
              ≡ false =
            rw (u, s, o) (any-delete_self (of_hidden owner store game) rows) in
          gone ∙ rw y (ground arith)
      | inr n ↦
          any-delete_apart (of_hidden user shop object) (of_hidden owner store game) rows
            (λ g e. apart_row user shop object owner store game g n e)
          ∙ rw n (ground arith)
    ]

contains-hide :
    (now : ℕ) (id user shop object owner store game : String) (rows : List HiddenGame)
    → contains (hide now id user shop object rows).0 owner store game
      ≡ contains rows owner store game || ((user == owner) && ((shop == store) && (object == game)))
unfolding hide contains
contains-hide now id user shop object owner store game rows =
    elim (Bool-cases (any (of_hidden user shop object) rows)) [
      | inl y ↦
          rw (hide, y)
            (elim (Bool-cases (same_game user shop object owner store game)) [
              | inl e ↦
                  let (o, s, g) = same_game-inv user shop object owner store game e in
                  let here : any (of_hidden owner store game) rows ≡ true = rw (← o, ← s, ← g) y in
                  ground (arith, here)
              | inr n ↦ rw n (ground arith)
            ])
      | inr n ↦
          rw (hide, n)
            (any-append (of_hidden owner store game) rows (hidden_row now id user shop object ∷ [])
              ∙ ground arith)
    ]

-- Hiding a game adds it to the games hidden from its owner's profile and unhiding takes it out of
-- them; no other game of the owner, and no game of anyone else, is hidden or shown by either.
pub contains-hide-unhide :
    (now : ℕ) (id user shop object owner store game : String) (rows : List HiddenGame)
    → (contains (hide now id user shop object rows).0 owner store game
        ≡ contains rows owner store game
          || ((user == owner) && ((shop == store) && (object == game))))
      × (contains (unhide user shop object rows).0 owner store game
          ≡ contains rows owner store game
            && not ((user == owner) && ((shop == store) && (object == game))))
contains-hide-unhide now id user shop object owner store game rows = (
  contains-hide now id user shop object owner store game rows,
  contains-unhide user shop object owner store game rows,
)
