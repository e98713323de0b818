-- ===== src/Souvenirs/Retry.antt =====
-- A claim that is made again.
use hydra_server.Shared.{
  ℕ, String, ◌≡◌, refl, sym, ap, ◌∙◌, true, false, Option, none, some, List, first, update, ◌==◌,
  str_refl, arith, first-updated, any-updated, update-update,
}
use hydra_server.Shared.Int.{ℤ}
use hydra_server.ApiError.{Result, ok}
use hydra_server.Achievements.{or_else}
use hydra_server.Souvenirs.{Souvenir, Gallery, Letters, has_id, of_client}
use hydra_server.Souvenirs.Claim.{
  SyncSouvenir, SyncGame, captures, claim_row, claimed_row, claim_one, achievement_already_captured,
  filed_names,
}
use hydra_server.Souvenirs.Runs.{claim_row-inv, claim_row-run, claim_one-inv, claim_one-run}

-- A row that was written again with what it held.
abbrev pub touched : ℕ → Souvenir → Souvenir
touched now r = record r { updated_at = now }

-- The captures that stand in the way of a claim are those before it.
captured-claimed :
    (now : ℕ) (user : String) (game : SyncGame) (captured : ℤ) (names : List String)
    → (row : Souvenir) (rows : List Souvenir)
    → achievement_already_captured user game.remote_id row.id names
        (update (has_id row.id) (claimed_row now game captured names) rows)
      ≡ achievement_already_captured user game.remote_id row.id names rows
unfolding achievement_already_captured
captured-claimed now user game captured names row rows =
    any-updated (captures user game.remote_id row.id names) (has_id row.id)
      (claimed_row now game captured names) rows (λ x h. rw h (ground arith))

or_else-twice : {A : Type 0} (o p : Option A) → or_else o (or_else o p) ≡ or_else o p
or_else-twice none p = refl
or_else-twice (some a) p = refl

claimed-twice :
    (now later : ℕ) (game : SyncGame) (captured : ℤ) (names : List String) (x : Souvenir)
    → claimed_row later game captured names (claimed_row now game captured names x)
      ≡ touched later (claimed_row now game captured names x)
claimed-twice now later game captured names x =
    rw (or_else-twice game.shop x.shop, or_else-twice game.object_id x.object_id) refl

found-claimed :
    (now : ℕ) (user client : String) (game : SyncGame) (captured : ℤ) (names : List String)
    → (row : Souvenir) (rows : List Souvenir) → first (of_client user client) rows ≡ some row
    → first
        (of_client user client)
        (update (has_id row.id) (claimed_row now game captured names) rows)
      ≡ some (claimed_row now game captured names row)
found-claimed now user client game captured names row rows f =
    let own : has_id row.id row ≡ true = str_refl row.id in
    first-updated (of_client user client) (has_id row.id) (claimed_row now game captured names) row
      rows (λ x. refl) f
    ∙ rw own refl

again-row :
    (now later : ℕ) (user : String) (game : SyncGame) (souvenir : SyncSouvenir) (client : String)
    → (names : List String) (row : Souvenir) (g h : Gallery) (id : String)
    → (row.image_key == souvenir.image_key) ≡ true
    → row.is_uploaded ≡ true
    → achievement_already_captured user game.remote_id row.id names g.souvenirs ≡ false
    → row.id ≡ id
    → h.souvenirs
      ≡ update (has_id row.id) (claimed_row now game souvenir.captured_at names) g.souvenirs
    → ((claim_row later user game souvenir client names
          (claimed_row now game souvenir.captured_at names row)
          h).0
        ≡ ok id)
      × ((claim_row later user game souvenir client names
            (claimed_row now game souvenir.captured_at names row)
            h).1.souvenirs
          ≡ update (has_id id) (touched later) h.souvenirs)
again-row now later user game souvenir client names row g h id k u free i e =
    let still : achievement_already_captured user game.remote_id row.id names h.souvenirs ≡ false =
      rw e (captured-claimed now user game souvenir.captured_at names row g.souvenirs ∙ free) in
    let (answer, later_rows) =
      claim_row-run later user game souvenir client names
        (claimed_row now game souvenir.captured_at names row) h k u still in
    let twice : update (has_id row.id) (claimed_row later game souvenir.captured_at names)
          (update (has_id row.id) (claimed_row now game souvenir.captured_at names) g.souvenirs)
        ≡ update (has_id row.id) (touched later)
            (update (has_id row.id) (claimed_row now game souvenir.captured_at names) g.souvenirs) =
      update-update (has_id row.id) (claimed_row later game souvenir.captured_at names)
        (claimed_row now game souvenir.captured_at names) (touched later) g.souvenirs (λ x. refl)
        (λ x. claimed-twice now later game souvenir.captured_at names x) in
    (
      answer ∙ ap (λ (t : String). Result.ok t) i,
      later_rows
          ∙ ap (λ l. update (has_id row.id) (claimed_row later game souvenir.captured_at names) l) e
          ∙ twice
          ∙ ap (λ l. update (has_id row.id) (touched later) l) (sym e)
          ∙ ap (λ t. update (has_id t) (touched later) h.souvenirs) i,
    )

module _ (letters : Letters) where
  -- A souvenir whose claim was acknowledged is acknowledged again with the same id when the sync is
  -- repeated, as long as its names are still unlocked; nothing but the time of its row changes in the
  -- table.
  pub claim_one-again :
      (now later : ℕ) (user : String) (game : SyncGame) (souvenir : SyncSouvenir)
      (client id : String)
      → (unlocked : List String) (g : Gallery)
      → (claim_one letters now user game souvenir client unlocked g).0 ≡ ok id
      → ((claim_one letters later user game souvenir client unlocked
            (claim_one letters now user game souvenir client unlocked g).1).0
          ≡ ok id)
        × ((claim_one letters later user game souvenir client unlocked
              (claim_one letters now user game souvenir client unlocked g).1).1.souvenirs
            ≡ update
                (has_id id)
                (touched later)
                (claim_one letters now user game souvenir client unlocked g).1.souvenirs)
  claim_one-again now later user game souvenir client id unlocked g e =
      let (n, a, (row, f, run)) =
        claim_one-inv letters now user game souvenir client unlocked g id e in
      let names = filed_names letters souvenir in
      let (k, u, free, i, rows) =
        claim_row-inv now user game souvenir client names row g id (ap (λ t. t.0) (sym run) ∙ e) in
      let later_rows : (claim_one letters now user game souvenir client unlocked g).1.souvenirs
          ≡ update (has_id row.id) (claimed_row now game souvenir.captured_at names) g.souvenirs =
        ap (λ t. t.1.souvenirs) run ∙ rows in
      let second : claim_one letters later user game souvenir client unlocked
            (claim_one letters now user game souvenir client unlocked g).1
          ≡ claim_row later user game souvenir client names
              (claimed_row now game souvenir.captured_at names row)
              (claim_one letters now user game souvenir client unlocked g).1 =
        claim_one-run letters later user game souvenir client unlocked
          (claimed_row now game souvenir.captured_at names row)
          (claim_one letters now user game souvenir client unlocked g).1 n a
          (ap (λ l. first (of_client user client) l) later_rows
            ∙ found-claimed now user client game souvenir.captured_at names row g.souvenirs f) in
      let (x, y) =
        again-row now later user game souvenir client names row g
          (claim_one letters now user game souvenir client unlocked g).1 id k u free i later_rows in
      (ap (λ t. t.0) second ∙ x, ap (λ t. t.1.souvenirs) second ∙ y)
