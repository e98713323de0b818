-- ===== src/Souvenirs/Steps/Keeps.antt =====
-- What the handlers of souvenirs.rs keep of its table.
use hydra_server.Shared.{
  ℕ, String, ◌≡◌, refl, false, first-some_inv, str-eq, Option, List, [], ◌∷◌, Memᴰ, Bool-cases,
  Option-cases, inl, inr, not, leb, any, first, nat_eq, count, arith, ◌||◌, ◌==◌, select,
}
use hydra_server.Shared.Int.{ℤ, pos, ltb_ℤ}
use hydra_server.Shared.Texts.{is_empty, trim}
use hydra_server.ApiError.{Result, ok, err, Result-cases}
use hydra_server.Storage.{used_bytes}
use hydra_server.Storage.Links.{upload_limit, check_quota}
use hydra_server.Souvenirs.{
  Souvenir, Report, Gallery, Letters, is_ready, metered, insert_souvenir, has_name, has_id,
  of_client, of_user, owned, normalize_names, normalize_visibility, key_belongs_to,
}
use hydra_server.Souvenirs.Authorize.{
  AuthorizeRequest, Fresh, authorize, authorize_within, reserve, reserved_row, extension_of,
  allowed_extension, max_souvenir_bytes, client_of,
}
use hydra_server.Souvenirs.Claim.{
  SyncSouvenir, SyncGame, is_nil, claim_row, claim_one, claim_all, achievement_already_captured,
  filed_names, state_after,
}
use hydra_server.Souvenirs.Manage.{
  like, report, report_readable, file_report, readable_souvenir, set_visibility,
  set_account_visibility, remove, delete_owned, purge_for_user, drop_stale, drop_files,
  logged_removal, one_picture, reported, drop_file, delete_souvenirs, allowed_reason,
  report_rate_limit, recent_report,
}
use hydra_server.Souvenirs.Steps.Filed.{
  IsFiled, IsFiled-insert, IsFiled-delete, IsFiled-seen_by, IsFiled-claimed,
}

reserve-IsFiled :
    (now limit : ℕ) (length : ℤ) (row : Souvenir) (g : Gallery)
    → is_ready row.status ≡ false
    → IsFiled g.souvenirs
    → IsFiled (reserve now limit length row g).1.souvenirs
unfolding reserve
reserve-IsFiled now limit length row g e h =
    elim (Option-cases
      (check_quota g.users g.settings row.user_id (used_bytes (metered g) row.user_id) length)) [
        | inr (error, q) ↦ rw (reserve, q) h
        | inl q ↦ elim (Option-cases (insert_souvenir row g.souvenirs)) [
          | inl n ↦ rw (reserve, q, n) h
          | inr (rows, i) ↦ rw (reserve, q, i) (IsFiled-insert row g.souvenirs rows e i h)
        ]
      ]

claim_row-IsFiled :
    (now : ℕ) (user : String) (game : SyncGame) (souvenir : SyncSouvenir) (client : String)
    → (names : List String) (row : Souvenir) (g : Gallery) → Memᴰ row g.souvenirs
    → row.user_id ≡ user
    → IsFiled g.souvenirs
    → IsFiled (claim_row now user game souvenir client names row g).1.souvenirs
unfolding claim_row
claim_row-IsFiled now user game souvenir client names row g m o h =
    elim (Bool-cases (row.image_key == souvenir.image_key)) [
      | inr n ↦ rw (claim_row, n) h
      | inl k ↦ elim (Bool-cases row.is_uploaded) [
        | inr n ↦ rw (claim_row, k, n) h
        | inl u ↦
            elim (Bool-cases
              (achievement_already_captured user game.remote_id row.id names g.souvenirs)) [
                | inl y ↦ rw (claim_row, k, u, y) h
                | inr free ↦
                    rw (claim_row, k, u, free)
                      (IsFiled-claimed now game souvenir.captured_at names user row g.souvenirs h m
                        o free)
              ]
      ]
    ]

state_after-IsFiled :
    (o : Result String) (g h : Gallery)
    → IsFiled g.souvenirs
    → IsFiled h.souvenirs
    → IsFiled (state_after o g h).souvenirs
state_after-IsFiled (err e) g h p q = p
state_after-IsFiled (ok id) g h p q = q

pub like-IsFiled :
    (now : ℕ) (viewer owner id : String) (g : Gallery)
    → IsFiled g.souvenirs
    → IsFiled (like now viewer owner id g).1.souvenirs
unfolding like
like-IsFiled now viewer owner id g h =
    elim (Result-cases (readable_souvenir owner id viewer g.souvenirs)) [
      | inl (e, p) ↦ rw (like, p) h
      | inr (r, p) ↦ rw (like, p) h
    ]

file_report-IsFiled :
    (row : Report) (g : Gallery) → IsFiled g.souvenirs → IsFiled (file_report row g).souvenirs
unfolding file_report
file_report-IsFiled row g h =
    elim (Bool-cases (any (reported row.souvenir_id row.reporter_user_id) g.reports)) [
      | inl y ↦ rw (file_report, y) h
      | inr n ↦ rw (file_report, n) h
    ]

report_readable-IsFiled :
    (now : ℕ) (viewer owner id reason : String) (description : Option String) (g : Gallery)
    → IsFiled g.souvenirs
    → IsFiled (report_readable now viewer owner id reason description g).1.souvenirs
unfolding report_readable
report_readable-IsFiled now viewer owner id reason description g h =
    elim (Bool-cases (leb report_rate_limit (count (recent_report now viewer) g.reports))) [
      | inl y ↦ rw (report_readable, y) h
      | inr n ↦ rw (report_readable, n) (file_report-IsFiled _ g h)
    ]

pub remove-IsFiled :
    (user id : String) (g : Gallery) → IsFiled g.souvenirs → IsFiled (remove user id g).1.souvenirs
unfolding remove
remove-IsFiled user id g h = elim (Option-cases (first (owned user id) g.souvenirs)) [
  | inl n ↦ rw (remove, n) h
  | inr (row, p) ↦ rw (remove, p) (IsFiled-delete (owned user id) g.souvenirs h)
]

logged-IsFiled :
    (user : String) (o : Result ℕ) (g : Gallery)
    → IsFiled g.souvenirs
    → IsFiled (logged_removal user o g).souvenirs
logged-IsFiled user (err e) g h = h
logged-IsFiled user (ok freed) g h = h

pub delete_owned-IsFiled :
    (user id : String) (g : Gallery)
    → IsFiled g.souvenirs
    → IsFiled (delete_owned user id g).1.souvenirs
unfolding delete_owned
delete_owned-IsFiled user id g h =
    logged-IsFiled user (remove user id g).0 (remove user id g).1 (remove-IsFiled user id g h)

drop_files-souvenirs :
    (rows : List Souvenir) (g : Gallery) → (drop_files rows g).souvenirs ≡ g.souvenirs
drop_files-souvenirs [] g = refl
drop_files-souvenirs (r ∷ rows) g = drop_files-souvenirs rows (drop_file r.image_key g)

pub purge_for_user-IsFiled :
    (user : String) (g : Gallery) → IsFiled g.souvenirs → IsFiled (purge_for_user user g).souvenirs
unfolding purge_for_user
purge_for_user-IsFiled user g h =
    rw (drop_files-souvenirs (select (of_user user) g.souvenirs))
      (IsFiled-delete (of_user user) g.souvenirs h)

pub drop_stale-IsFiled :
    (rows : List Souvenir) (g : Gallery)
    → IsFiled g.souvenirs
    → IsFiled (drop_stale rows g).souvenirs
unfolding drop_stale
drop_stale-IsFiled [] g h = h
drop_stale-IsFiled (r ∷ rows) g h =
    drop_stale-IsFiled rows (drop_file r.image_key (delete_souvenirs (has_id r.id) g))
      (IsFiled-delete (has_id r.id) g.souvenirs h)

module _ (letters : Letters) where
  authorize_within-IsFiled :
      (now : ℕ) (fresh : Fresh) (user : String) (request : AuthorizeRequest) (limit : ℕ)
      → (g : Gallery) → IsFiled g.souvenirs
      → IsFiled (authorize_within letters now fresh user request limit g).1.souvenirs
  unfolding authorize_within reserved_row
  authorize_within-IsFiled now fresh user request limit g h =
      elim (Option-cases
        (first (of_client user (client_of request.client_id fresh.client)) g.souvenirs)) [
          | inr (row, f) ↦ rw (authorize_within, f) h
          | inl f ↦
              rw (authorize_within, f) (reserve-IsFiled now limit request.image_length _ g refl h)
        ]

  pub authorize-IsFiled :
      (now : ℕ) (fresh : Fresh) (user : String) (request : AuthorizeRequest) (g : Gallery)
      → IsFiled g.souvenirs
      → IsFiled (authorize letters now fresh user request g).1.souvenirs
  unfolding authorize
  authorize-IsFiled now fresh user request g h =
      elim (Bool-cases (allowed_extension (extension_of letters request.image_ext))) [
        | inr n ↦ rw (authorize, n) h
        | inl y ↦ elim (Option-cases (upload_limit request.image_length)) [
          | inl n ↦ rw (authorize, y, n) h
          | inr (limit, l) ↦
              elim (Bool-cases (ltb_ℤ (pos max_souvenir_bytes) request.image_length)) [
                | inl b ↦ rw (authorize, y, l, b) h
                | inr b ↦
                    rw (authorize, y, l, b)
                      (authorize_within-IsFiled now fresh user request limit g h)
              ]
        ]
      ]

  claim_one-IsFiled :
      (now : ℕ) (user : String) (game : SyncGame) (souvenir : SyncSouvenir) (client : String)
      → (unlocked : List String) (g : Gallery) → IsFiled g.souvenirs
      → IsFiled (claim_one letters now user game souvenir client unlocked g).1.souvenirs
  unfolding claim_one
  claim_one-IsFiled now user game souvenir client unlocked g h =
      elim (Bool-cases (
        is_nil (normalize_names letters souvenir.achievement_names)
        || not (key_belongs_to user souvenir.image_key))) [
          | inl y ↦ rw (claim_one, y) h
          | inr n ↦
              elim (Bool-cases
                (any (λ n. not (has_name unlocked n)) (filed_names letters souvenir))) [
                  | inl y ↦ rw (claim_one, n, y) h
                  | inr k ↦ elim (Option-cases (first (of_client user client) g.souvenirs)) [
                    | inl f ↦ rw (claim_one, n, k, f) h
                    | inr (row, f) ↦
                        let (m, o) = first-some_inv (of_client user client) g.souvenirs f in
                        let own : row.user_id ≡ user = (str-eq row.user_id user).0 (ground arith) in
                        rw (claim_one, n, k, f)
                          (claim_row-IsFiled now user game souvenir client
                            (filed_names letters souvenir) row g m own h)
                  ]
                ]
        ]

  pub claim_all-IsFiled :
      (now : ℕ) (user : String) (game : SyncGame) (unlocked : List String)
      → (souvenirs : List SyncSouvenir) (g : Gallery) → IsFiled g.souvenirs
      → IsFiled (claim_all letters now user game unlocked souvenirs g).1.souvenirs
  unfolding claim_all
  claim_all-IsFiled now user game unlocked [] g h = h
  claim_all-IsFiled now user game unlocked (s ∷ souvenirs) g h =
      let one = claim_one letters now user game s (trim s.client_id) unlocked g in
      let p : IsFiled one.1.souvenirs =
        claim_one-IsFiled now user game s (trim s.client_id) unlocked g h in
      elim (Bool-cases (is_empty (trim s.client_id))) [
        | inl y ↦ rw (claim_all, y) h
        | inr n ↦
            rw (claim_all, n)
              (state_after-IsFiled one.0 one.1 _ p
                (claim_all-IsFiled now user game unlocked souvenirs one.1 p))
      ]

  pub report-IsFiled :
      (now : ℕ) (viewer owner id reason : String) (description : Option String) (g : Gallery)
      → IsFiled g.souvenirs
      → IsFiled (report letters now viewer owner id reason description g).1.souvenirs
  unfolding report
  report-IsFiled now viewer owner id reason description g h =
      elim (Bool-cases (allowed_reason (letters.lower (trim reason)))) [
        | inr n ↦ rw (report, n) h
        | inl y ↦ elim (Bool-cases (viewer == owner)) [
          | inl s ↦ rw (report, y, s) h
          | inr d ↦ elim (Result-cases (readable_souvenir owner id viewer g.souvenirs)) [
            | inl (e, p) ↦ rw (report, y, d, p) h
            | inr (r, p) ↦
                rw (report, y, d, p) (report_readable-IsFiled now viewer owner id _ _ g h)
          ]
        ]
      ]

  pub set_visibility-IsFiled :
      (now : ℕ) (user id value : String) (g : Gallery)
      → IsFiled g.souvenirs
      → IsFiled (set_visibility letters now user id value g).1.souvenirs
  unfolding set_visibility
  set_visibility-IsFiled now user id value g h =
      elim (Option-cases (one_picture (normalize_visibility letters value))) [
        | inl n ↦ rw (set_visibility, n) h
        | inr (v, p) ↦ elim (Bool-cases (nat_eq (count (owned user id) g.souvenirs) 0)) [
          | inl y ↦ rw (set_visibility, p, y) h
          | inr n ↦ rw (set_visibility, p, n) (IsFiled-seen_by now v (owned user id) g.souvenirs h)
        ]
      ]

  pub set_account_visibility-IsFiled :
      (user value : String) (g : Gallery)
      → IsFiled g.souvenirs
      → IsFiled (set_account_visibility letters user value g).1.souvenirs
  unfolding set_account_visibility
  set_account_visibility-IsFiled user value g h =
      elim (Option-cases (normalize_visibility letters value)) [
        | inl n ↦ rw (set_account_visibility, n) h
        | inr (v, p) ↦ rw (set_account_visibility, p) h
      ]
