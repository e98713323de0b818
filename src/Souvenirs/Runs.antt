-- ===== src/Souvenirs/Runs.antt =====
-- The branches of a claim of a souvenir.
use hydra_server.Shared.{
  ℕ, String, ◌≡◌, refl, true, false, not, ◌||◌, some, List, any, first, update, ◌==◌, Bool-cases,
  Option-cases, inl, inr,
}
use hydra_server.ApiError.{ok, ok-injective}
use hydra_server.Souvenirs.{
  Souvenir, Gallery, Letters, has_name, has_id, of_client, normalize_names, key_belongs_to,
}
use hydra_server.Souvenirs.Claim.{
  SyncSouvenir, SyncGame, is_nil, claim_row, claimed_row, claim_one, achievement_already_captured,
  filed_names,
}

-- A claim that is acknowledged ran to its end.
pub claim_row-inv :
    (now : ℕ) (user : String) (game : SyncGame) (souvenir : SyncSouvenir) (client : String)
    → (names : List String) (row : Souvenir) (g : Gallery) (id : String)
    → (claim_row now user game souvenir client names row g).0 ≡ ok id
    → ((row.image_key == souvenir.image_key) ≡ true)
      × (row.is_uploaded ≡ true)
      × (achievement_already_captured user game.remote_id row.id names g.souvenirs ≡ false)
      × (row.id ≡ id)
      × ((claim_row now user game souvenir client names row g).1.souvenirs
          ≡ update (has_id row.id) (claimed_row now game souvenir.captured_at names) g.souvenirs)
unfolding claim_row
claim_row-inv now user game souvenir client names row g id e =
    elim (Bool-cases (row.image_key == souvenir.image_key)) [
      | inr n ↦ absurd (cc (rw (claim_row, n) at e))
      | inl k ↦ elim (Bool-cases row.is_uploaded) [
        | inr n ↦ absurd (cc (rw (claim_row, k, n) at e))
        | inl u ↦
            elim (Bool-cases
              (achievement_already_captured user game.remote_id row.id names g.souvenirs)) [
                | inl y ↦ absurd (cc (rw (claim_row, k, u, y) at e))
                | inr free ↦
                    let run : (claim_row now user game souvenir client names row g).1.souvenirs
                        ≡ update (has_id row.id) (claimed_row now game souvenir.captured_at names)
                            g.souvenirs =
                      rw (claim_row, k, u, free) refl in
                    (k, u, free, ok-injective (rw (claim_row, k, u, free) at e), run)
              ]
      ]
    ]

pub claim_row-run :
    (now : ℕ) (user : String) (game : SyncGame) (souvenir : SyncSouvenir) (client : String)
    → (names : List String) (row : Souvenir) (g : Gallery)
    → (row.image_key == souvenir.image_key) ≡ true
    → row.is_uploaded ≡ true
    → achievement_already_captured user game.remote_id row.id names g.souvenirs ≡ false
    → ((claim_row now user game souvenir client names row g).0 ≡ ok row.id)
      × ((claim_row now user game souvenir client names row g).1.souvenirs
          ≡ update (has_id row.id) (claimed_row now game souvenir.captured_at names) g.souvenirs)
unfolding claim_row
claim_row-run now user game souvenir client names row g k u free =
    rw (claim_row, k, u, free) (refl, refl)

module _ (letters : Letters) where
  pub claim_one-inv :
      (now : ℕ) (user : String) (game : SyncGame) (souvenir : SyncSouvenir) (client : String)
      → (unlocked : List String) (g : Gallery) (id : String)
      → (claim_one letters now user game souvenir client unlocked g).0 ≡ ok id
      → (is_nil (normalize_names letters souvenir.achievement_names)
            || not (key_belongs_to user souvenir.image_key)
          ≡ false)
        × (any (λ n. not (has_name unlocked n)) (filed_names letters souvenir) ≡ false)
        × ((row : Souvenir) × (first (of_client user client) g.souvenirs ≡ some row)
            × (claim_one letters now user game souvenir client unlocked g
                ≡ claim_row now user game souvenir client (filed_names letters souvenir) row g))
  unfolding claim_one
  claim_one-inv now user game souvenir client unlocked g id e =
      elim (Bool-cases (
        is_nil (normalize_names letters souvenir.achievement_names)
        || not (key_belongs_to user souvenir.image_key))) [
          | inl y ↦ absurd (cc (rw (claim_one, y) at e))
          | inr n ↦
              elim (Bool-cases
                (any (λ n. not (has_name unlocked n)) (filed_names letters souvenir))) [
                  | inl y ↦ absurd (cc (rw (claim_one, n, y) at e))
                  | inr k ↦ elim (Option-cases (first (of_client user client) g.souvenirs)) [
                    | inl f ↦ absurd (cc (rw (claim_one, n, k, f) at e))
                    | inr (row, f) ↦ (n, k, (row, f, rw (claim_one, n, k, f) refl))
                  ]
                ]
        ]

  pub claim_one-run :
      (now : ℕ) (user : String) (game : SyncGame) (souvenir : SyncSouvenir) (client : String)
      → (unlocked : List String) (row : Souvenir) (g : Gallery)
      → is_nil (normalize_names letters souvenir.achievement_names)
          || not (key_belongs_to user souvenir.image_key)
        ≡ false
      → any (λ n. not (has_name unlocked n)) (filed_names letters souvenir) ≡ false
      → first (of_client user client) g.souvenirs ≡ some row
      → claim_one letters now user game souvenir client unlocked g
        ≡ claim_row now user game souvenir client (filed_names letters souvenir) row g
  unfolding claim_one
  claim_one-run now user game souvenir client unlocked row g n k f = rw (claim_one, n, k, f) refl
