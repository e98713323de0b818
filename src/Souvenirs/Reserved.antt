-- ===== src/Souvenirs/Reserved.antt =====
-- A reservation that is asked for again.
use hydra_server.Shared.{
  ℕ, String, ◌≡◌, refl, sym, ap, ◌∙◌, true, false, none, some, [], ◌∷◌, ◌++◌, any, first, str_refl,
  Bool-cases, Option-cases, inl, inr, first-end,
}
use hydra_server.Shared.Int.{ℤ, pos, ltb_ℤ}
use hydra_server.Shared.Texts.{is_empty}
use hydra_server.ApiError.{Result, ok, ok-injective}
use hydra_server.Storage.{used_bytes}
use hydra_server.Storage.Links.{upload_limit, check_quota}
use hydra_server.Souvenirs.{
  Souvenir, Gallery, Letters, metered, insert_souvenir, of_client, clashes,
}
use hydra_server.Souvenirs.Authorize.{
  AuthorizeRequest, Fresh, Authorization, claimed, upload_to, authorization, authorize_again,
  authorize, authorize_within, reserve, reserved_row, extension_of, allowed_extension,
  max_souvenir_bytes, client_of,
}

-- The key that an answer names.
abbrev pub key_of : Authorization → String
key_of (claimed key) = key
key_of (upload_to key link ends) = key

-- The reservation that a request found or made.
unfoldable pub IsReserved : String → String → String → Gallery → Type 0
IsReserved user client key g =
    (row : Souvenir) × (first (of_client user client) g.souvenirs ≡ some row)
    × (row.image_key ≡ key)

reserve-IsReserved :
    (now limit : ℕ) (length : ℤ) (row : Souvenir) (g h : Gallery) (a : Authorization)
    → first (of_client row.user_id row.client_id) g.souvenirs ≡ none
    → reserve now limit length row g ≡ (ok a, h)
    → IsReserved row.user_id row.client_id (key_of a) h
unfolding reserve insert_souvenir IsReserved authorization
reserve-IsReserved now limit length row g h a n e =
    elim (Option-cases
      (check_quota g.users g.settings row.user_id (used_bytes (metered g) row.user_id) length)) [
        | inr (error, q) ↦ absurd (cc (rw (reserve, q) at e))
        | inl q ↦ elim (Bool-cases (any (clashes row) g.souvenirs)) [
          | inl y ↦ absurd (cc (rw (reserve, q, insert_souvenir, y) at e))
          | inr f ↦
              let run : reserve now limit length row g ≡ (
                ok (authorization now row.image_key limit),
                record g { souvenirs = g.souvenirs ++ row ∷ [] },
              ) =
                rw (reserve, q, insert_souvenir, f) refl in
              let made : Path (Result Authorization × Gallery)
                  (
                    ok (authorization now row.image_key limit),
                    record g { souvenirs = g.souvenirs ++ row ∷ [] },
                  )
                  (ok a, h) =
                sym run ∙ e in
              let later : record g { souvenirs = g.souvenirs ++ row ∷ [] } ≡ h =
                ap (λ t. t.1) made in
              let answer : authorization now row.image_key limit ≡ a =
                ok-injective (ap (λ t. t.0) made) in
              (
                row,
                rw (← later) (
                    first-end (of_client row.user_id row.client_id) g.souvenirs row n
                      (rw (str_refl row.user_id, str_refl row.client_id) refl)),
                ap key_of answer,
              )
        ]
      ]

key_of-again :
    (now limit : ℕ) (row : Souvenir) → key_of (authorize_again now limit row) ≡ row.image_key
unfolding authorization
key_of-again now limit row = elim (Bool-cases row.is_uploaded) [
  | inl y ↦ rw y refl
  | inr n ↦ rw n refl
]

module _ (letters : Letters) where
  pub authorize-inv :
      (now : ℕ) (fresh : Fresh) (user : String) (request : AuthorizeRequest) (g h : Gallery)
      → (a : Authorization) → authorize letters now fresh user request g ≡ (ok a, h)
      → (allowed_extension (extension_of letters request.image_ext) ≡ true)
        × ((limit : ℕ) × (upload_limit request.image_length ≡ some limit)
            × (ltb_ℤ (pos max_souvenir_bytes) request.image_length ≡ false)
            × (authorize_within letters now fresh user request limit g ≡ (ok a, h)))
  unfolding authorize
  authorize-inv now fresh user request g h a e =
      elim (Bool-cases (allowed_extension (extension_of letters request.image_ext))) [
        | inr n ↦ absurd (cc (rw (authorize, n) at e))
        | inl y ↦ elim (Option-cases (upload_limit request.image_length)) [
          | inl n ↦ absurd (cc (rw (authorize, y, n) at e))
          | inr (limit, l) ↦
              elim (Bool-cases (ltb_ℤ (pos max_souvenir_bytes) request.image_length)) [
                | inl b ↦ absurd (cc (rw (authorize, y, l, b) at e))
                | inr b ↦ (y, (limit, l, b, rw (authorize, y, l, b) at e))
              ]
        ]
      ]

  authorize-run :
      (now : ℕ) (fresh : Fresh) (user : String) (request : AuthorizeRequest) (limit : ℕ)
      (g : Gallery)
      → allowed_extension (extension_of letters request.image_ext) ≡ true
      → upload_limit request.image_length ≡ some limit
      → ltb_ℤ (pos max_souvenir_bytes) request.image_length ≡ false
      → authorize letters now fresh user request g
        ≡ authorize_within letters now fresh user request limit g
  unfolding authorize
  authorize-run now fresh user request limit g y l b = rw (authorize, y, l, b) refl

  within-found :
      (now : ℕ) (fresh : Fresh) (user client : String) (request : AuthorizeRequest) (limit : ℕ)
      → (row : Souvenir) (g : Gallery) → client_of request.client_id fresh.client ≡ client
      → first (of_client user client) g.souvenirs ≡ some row
      → authorize_within letters now fresh user request limit g
        ≡ (ok (authorize_again now limit row), g)
  unfolding authorize_within
  within-found now fresh user client request limit row g c f =
      let found : first (of_client user (client_of request.client_id fresh.client)) g.souvenirs
          ≡ some row =
        rw c f in
      rw (authorize_within, found) refl

  pub within-IsReserved :
      (now : ℕ) (fresh : Fresh) (user client : String) (request : AuthorizeRequest) (limit : ℕ)
      → (g h : Gallery) (a : Authorization) → client_of request.client_id fresh.client ≡ client
      → authorize_within letters now fresh user request limit g ≡ (ok a, h)
      → IsReserved user client (key_of a) h
  unfolding authorize_within reserved_row IsReserved
  within-IsReserved now fresh user client request limit g h a c e =
      elim (Option-cases
        (first (of_client user (client_of request.client_id fresh.client)) g.souvenirs)) [
          | inr (row, f) ↦
              let run : authorize_within letters now fresh user request limit g
                  ≡ (ok (authorize_again now limit row), g) =
                rw (authorize_within, f) refl in
              let made : Path (Result Authorization × Gallery)
                  (ok (authorize_again now limit row), g) (ok a, h) =
                sym run ∙ e in
              let same : g ≡ h = ap (λ t. t.1) made in
              let answer : authorize_again now limit row ≡ a = ok-injective (ap (λ t. t.0) made) in
              (row, rw (← same, ← c) f, sym (key_of-again now limit row) ∙ ap key_of answer)
          | inl f ↦ rw (← c) (
              reserve-IsReserved now limit request.image_length _ g h a f
                (rw (authorize_within, f) at e))
        ]

  reserved-again :
      (later : ℕ) (other : Fresh) (user client key : String) (request : AuthorizeRequest)
      (limit : ℕ)
      → (h : Gallery) → client_of request.client_id other.client ≡ client
      → IsReserved user client key h
      → (b : Authorization) × (authorize_within letters later other user request limit h
          ≡ (ok b, h))
        × (key_of b ≡ key)
  unfolding IsReserved
  reserved-again later other user client key request limit h c (row, f, k) = (
    authorize_again later limit row,
    within-found later other user client request limit row h c f,
    key_of-again later limit row ∙ k,
  )

  -- A reservation that is asked for again under its client id, at any later time, is answered with
  -- the key that was given first, and reserves nothing more; so a retry does not lose an upload.
  pub authorize-again :
      (now later : ℕ) (fresh other : Fresh) (user client : String) (request : AuthorizeRequest)
      → (g h : Gallery) (a : Authorization) → request.client_id ≡ some client
      → is_empty client ≡ false
      → authorize letters now fresh user request g ≡ (ok a, h)
      → (b : Authorization) × (authorize letters later other user request h ≡ (ok b, h))
        × (key_of b ≡ key_of a)
  authorize-again now later fresh other user client request g h a c n e =
      let (y, (limit, l, s, w)) = authorize-inv now fresh user request g h a e in
      let own : client_of request.client_id fresh.client ≡ client = rw (c, n) refl in
      let same : client_of request.client_id other.client ≡ client = rw (c, n) refl in
      let (b, f, k) =
        reserved-again later other user client (key_of a) request limit h same
          (within-IsReserved now fresh user client request limit g h a own w) in
      (b, authorize-run later other user request limit h y l s ∙ f, k)
