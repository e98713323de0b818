-- ===== src/Souvenirs/Manage.antt =====
-- souvenirs.rs: likes, reports, visibility and deletion of souvenirs.
use hydra_server.Shared.{
  ℕ, zero, suc, String, ◌-◌, ◌*◌, Bool, false, not, ◌&&◌, ◌||◌, Option, none, some, List, [], ◌∷◌,
  ◌++◌, length, any, first, select, delete, update, count, if◌then◌else◌, ltb, leb, nat_eq, ◌==◌,
}
use hydra_server.Shared.Int.{pos}
use hydra_server.Shared.Texts.{is_empty, trim}
use hydra_server.ApiError.{Result, ok, err, new, not_found, bad_request}
use hydra_server.CloudSaves.State.{Event}
use hydra_server.Storage.{nanos_per_second}
use hydra_server.Souvenirs.{
  Souvenir, Like, Report, Account, Gallery, Letters, is_ready, is_pending, normalize_visibility,
  has_id, of_user, owned, record_event,
}

abbrev pub is_readable : String → String → Souvenir → Bool
is_readable owner id r = owned owner id r && (is_ready r.status && r.is_uploaded)

-- `readable_souvenir`
unfoldable pub readable_souvenir : String → String → String → List Souvenir → Result Souvenir
readable_souvenir owner id viewer rows = elim (first (is_readable owner id) rows) [
  | none ↦ err (not_found "souvenir not found")
  | some r ↦
      if not (owner == viewer) && not (r.visibility == "PUBLIC")
      then err (not_found "souvenir not found")
      else ok r
]

abbrev pub liked : String → String → Like → Bool
liked id viewer l = (l.souvenir_id == id) && (l.user_id == viewer)

abbrev pub like_of : String → Like → Bool
like_of id l = l.souvenir_id == id

pub record LikeAnswer : Type 0 where
  pub like_count : ℕ
  pub liked_by_me : Bool

-- The DELETE of `like`, then its INSERT where nothing was deleted.
unfoldable pub toggle : ℕ → String → String → List Like → List Like
toggle now id viewer likes =
    if nat_eq (count (liked id viewer) likes) 0
    then delete (liked id viewer) likes
      ++ record { souvenir_id = id; user_id = viewer; created_at = now } ∷ []
    else delete (liked id viewer) likes

unfoldable pub like : ℕ → String → String → String → Gallery → Result LikeAnswer × Gallery
unfolding readable_souvenir toggle
like now viewer owner id g = elim (readable_souvenir owner id viewer g.souvenirs) [
  | err e ↦ (err e, g)
  | ok r ↦ (
    ok (record {
      like_count = count (like_of id) (toggle now id viewer g.likes);
      liked_by_me = nat_eq (count (liked id viewer) g.likes) 0;
    }),
    record g { likes = toggle now id viewer g.likes },
  )
]

abbrev pub report_rate_limit : ℕ
report_rate_limit = 30

abbrev pub allowed_reason : String → Bool
allowed_reason reason =
    (reason == "hate")
    || ((reason == "sexual_content")
        || ((reason == "violence") || ((reason == "spam") || (reason == "other"))))

-- `reporter_user_id = ? AND created_at > ?`, an hour ago; `now` is past the epoch's first hour.
abbrev pub recent_report : ℕ → String → Report → Bool
recent_report now viewer r =
    (r.reporter_user_id == viewer) && ltb (now - 3600 * nanos_per_second) r.created_at

-- The index on `(souvenir_id, reporter_user_id)`
abbrev pub reported : String → String → Report → Bool
reported id viewer r = (r.souvenir_id == id) && (r.reporter_user_id == viewer)

-- `chars().take(n)`
abbrev take_chars : ℕ → String → String
take_chars zero s = String.[]
take_chars (suc n) String.[] = String.[]
take_chars (suc n) (String.◌∷◌ c s) = String.◌∷◌ c (take_chars n s)

abbrev description_of : Option String → Option String
description_of none = none
description_of (some text) =
    if is_empty (trim text) then none else some (take_chars 1000 (trim text))

abbrev pub report_row : ℕ → String → String → String → String → Option String → Report
report_row now viewer owner id reason description = record {
  souvenir_id = id;
  owner_user_id = owner;
  reporter_user_id = viewer;
  reason = reason;
  description = description;
  created_at = now;
}

abbrev reported_event : String → Event
reported_event owner = record {
  kind = "souvenir.reported";
  user_id = owner;
  game = none;
  size = none;
}

-- INSERT OR IGNORE, and the event where a row was inserted
unfoldable pub file_report : Report → Gallery → Gallery
file_report row g =
    if any (reported row.souvenir_id row.reporter_user_id) g.reports
    then g
    else record_event (reported_event row.owner_user_id)
        (record g { reports = g.reports ++ row ∷ [] })

-- The status of a report that is accepted.
abbrev pub created : ℕ
created = 201

unfoldable pub report_readable :
    ℕ → String → String → String → String → Option String → Gallery → Result ℕ × Gallery
unfolding file_report
report_readable now viewer owner id reason description g =
    if leb report_rate_limit (count (recent_report now viewer) g.reports)
    then (err (new 429 "too many reports — try again later"), g)
    else (ok created, file_report (report_row now viewer owner id reason description) g)

unfoldable pub report :
    Letters → ℕ → String → String → String → String → Option String → Gallery → Result ℕ × Gallery
unfolding readable_souvenir report_readable
report letters now viewer owner id given description g =
    let reason = letters.lower (trim given) in
    if not (allowed_reason reason)
    then (err (bad_request "unknown report reason"), g)
    else if viewer == owner
    then (err (bad_request "cannot report your own souvenir"), g)
    else elim (readable_souvenir owner id viewer g.souvenirs) [
      | err e ↦ (err e, g)
      | ok r ↦ report_readable now viewer owner id reason (description_of description) g
    ]

abbrev pub one_picture : Option String → Option String
one_picture none = none
one_picture (some v) = if (v == "PUBLIC") || (v == "PRIVATE") then some v else none

abbrev pub seen_by : ℕ → String → Souvenir → Souvenir
seen_by now visibility r = record r { visibility = visibility; updated_at = now }

unfoldable pub set_visibility :
    Letters → ℕ → String → String → String → Gallery → Result String × Gallery
unfolding normalize_visibility
set_visibility letters now user id value g =
    elim (one_picture (normalize_visibility letters value)) [
      | none ↦ (err (bad_request "visibility must be PUBLIC or PRIVATE"), g)
      | some visibility ↦
          if nat_eq (count (owned user id) g.souvenirs) 0
          then (err (not_found "souvenir not found"), g)
          else (
            ok visibility,
            record g { souvenirs = update (owned user id) (seen_by now visibility) g.souvenirs },
          )
    ]

abbrev hides : String → Account → Account
hides visibility a = record a { souvenirs_visibility = visibility }

unfoldable pub set_account_visibility :
    Letters → String → String → Gallery → Result String × Gallery
unfolding normalize_visibility
set_account_visibility letters user value g = elim (normalize_visibility letters value) [
  | none ↦ (err (bad_request "unknown visibility"), g)
  | some visibility ↦ (
    ok visibility,
    record g { accounts = update (λ a. a.id == user) (hides visibility) g.accounts },
  )
]

unfoldable pub hidden_reason : String → Bool → Option String
hidden_reason account_visibility is_owner =
    if is_owner then none else if account_visibility == "PRIVATE" then some "PRIVATE" else none

-- `delete_object`
abbrev pub delete_object : String → (String → Bool) → String → Bool
delete_object key files k = if key == k then false else files k

-- The likes of a deleted souvenir go with it (ON DELETE CASCADE).
abbrev pub delete_souvenirs : (Souvenir → Bool) → Gallery → Gallery
delete_souvenirs p g = record g {
  souvenirs = delete p g.souvenirs;
  likes = delete (λ l. any (λ r. p r && (r.id == l.souvenir_id)) g.souvenirs) g.likes;
}

abbrev pub drop_file : String → Gallery → Gallery
drop_file key g = record g { files = delete_object key g.files }

-- `remove`: the bytes it frees
unfoldable pub remove : String → String → Gallery → Result ℕ × Gallery
remove user id g = elim (first (owned user id) g.souvenirs) [
  | none ↦ (err (not_found "souvenir not found"), g)
  | some row ↦ (ok row.size_in_bytes, drop_file row.image_key (delete_souvenirs (owned user id) g))
]

abbrev deleted_event : String → ℕ → Event
deleted_event user freed = record {
  kind = "souvenir.deleted";
  user_id = user;
  game = none;
  size = some (pos freed);
}

abbrev pub logged_removal : String → Result ℕ → Gallery → Gallery
logged_removal user (err e) g = g
logged_removal user (ok freed) g = record_event (deleted_event user freed) g

unfoldable pub delete_owned : String → String → Gallery → Result ℕ × Gallery
unfolding remove
delete_owned user id g =
    let removed = remove user id g in (removed.0, logged_removal user removed.0 removed.1)

abbrev pub drop_files : List Souvenir → Gallery → Gallery
drop_files [] g = g
drop_files (r ∷ rows) g = drop_files rows (drop_file r.image_key g)

-- `purge_for_user`, with the keys of `storage_keys_for_user`
unfoldable pub purge_for_user : String → Gallery → Gallery
purge_for_user user g =
    let rest = delete_souvenirs (of_user user) g in
    drop_files (select (of_user user) g.souvenirs)
      (record rest { likes = delete (λ l. l.user_id == user) rest.likes })

abbrev pub is_stale : ℕ → Souvenir → Bool
is_stale cutoff r = is_pending r.status && ltb r.created_at cutoff

-- The loop of `sweep_abandoned`.
unfoldable pub drop_stale : List Souvenir → Gallery → Gallery
drop_stale [] g = g
drop_stale (r ∷ rows) g = drop_stale rows (drop_file r.image_key (delete_souvenirs (has_id r.id) g))

unfoldable pub sweep_abandoned : ℕ → Gallery → ℕ × Gallery
unfolding drop_stale
sweep_abandoned cutoff g =
    let stale = select (is_stale cutoff) g.souvenirs in (length stale, drop_stale stale g)
