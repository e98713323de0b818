-- ===== src/Souvenirs/Steps.antt =====
-- Every handler of souvenirs.rs as a step, and what no sequence of steps breaks.
pub mod Filed
pub mod Keeps
use hydra_server.Shared.{
  ℕ, String, ◌≤◌, ◌≡◌, refl, Bool, true, false, first-some_inv, str-eq, str_refl, Option, none,
  some, List, [], ◌∷◌, Memᴰ, Bool-cases, Option-cases, inl, inr, if◌then◌else◌, not, leb, any,
  first, update, nat_eq, count, arith, count-none, unique_of_count, ltb, ◌||◌, ◌==◌, ◌&&◌, select,
}
use hydra_server.Shared.Int.{ℤ, pos, ltb_ℤ}
use hydra_server.Shared.Texts.{is_empty, trim}
use hydra_server.ApiError.{Result, ok, err, Result-cases}
use hydra_server.Storage.Links.{upload_limit, check_quota}
use hydra_server.Souvenirs.{
  Souvenir, Report, Gallery, Letters, is_ready, metered, insert_souvenir, has_name, has_id,
  of_client, of_user, owned, normalize_names, normalize_visibility, key_belongs_to,
}
use hydra_server.Souvenirs.Authorize.{
  AuthorizeRequest, Fresh, authorize, authorize_within, reserve, reserved_row, extension_of,
  allowed_extension, max_souvenir_bytes, client_of, mark_uploaded,
}
use hydra_server.Souvenirs.Claim.{
  SyncSouvenir, SyncGame, filed, is_nil, claim_row, claim_one, claim_all, claim_from_sync,
  achievement_already_captured, filed_names, unlocked_names, state_after,
}
use hydra_server.Souvenirs.Manage.{
  like, report, report_readable, file_report, readable_souvenir, set_visibility,
  set_account_visibility, remove, delete_owned, purge_for_user, sweep_abandoned, drop_stale,
  drop_files, logged_removal, one_picture, reported, drop_file, delete_souvenirs, allowed_reason,
  report_rate_limit, recent_report, is_stale,
}
use hydra_server.Json.{Json}
use hydra_server.Souvenirs.Steps.Filed.{
  IsFiled, IsFiled-insert, IsFiled-delete, IsFiled-seen_by, IsFiled-uploaded, IsFiled-claimed,
  IsFiled-empty,
}
use hydra_server.Souvenirs.Steps.Keeps.{
  authorize-IsFiled, claim_all-IsFiled, like-IsFiled, report-IsFiled, set_visibility-IsFiled,
  set_account_visibility-IsFiled, remove-IsFiled, delete_owned-IsFiled, purge_for_user-IsFiled,
  drop_stale-IsFiled,
}

module _ (letters : Letters) where
  -- One request, the end of one upload, or one round of the sweep.
  pub data Step : Gallery → Gallery → Type 0 where
    authorizes :
        (now : ℕ) (fresh : Fresh) (user : String) (request : AuthorizeRequest) (g : Gallery)
        → Step g (authorize letters now fresh user request g).1
    uploads :
        (now : ℕ) (key : String) (written : ℕ) (g : Gallery)
        → Step g (mark_uploaded now key written g)
    claims :
        (now : ℕ) (user : String) (game : SyncGame) (souvenirs : List SyncSouvenir)
        → (merged : List Json) (g : Gallery)
        → Step g (claim_from_sync letters now user game souvenirs merged g).1
    likes :
        (now : ℕ) (viewer owner id : String) (g : Gallery) → Step g (like now viewer owner id g).1
    reports :
        (now : ℕ) (viewer owner id reason : String) (description : Option String) (g : Gallery)
        → Step g (report letters now viewer owner id reason description g).1
    shows :
        (now : ℕ) (user id value : String) (g : Gallery)
        → Step g (set_visibility letters now user id value g).1
    mirrors :
        (user value : String) (g : Gallery) → Step g (set_account_visibility letters user value g).1
    deletes : (user id : String) (g : Gallery) → Step g (delete_owned user id g).1
    removes : (user id : String) (g : Gallery) → Step g (remove user id g).1
    purges : (user : String) (g : Gallery) → Step g (purge_for_user user g)
    sweeps : (cutoff : ℕ) (g : Gallery) → Step g (sweep_abandoned cutoff g).1

  pub data Reach (start : Gallery) : Gallery → Type 0 where
    here : Reach start start
    next : {g h : Gallery} → Reach start g → Step g h → Reach start h

  Step-IsFiled : {g h : Gallery} → Step g h → IsFiled g.souvenirs → IsFiled h.souvenirs
  unfolding claim_from_sync mark_uploaded sweep_abandoned
  Step-IsFiled (authorizes now fresh user request g) h =
      authorize-IsFiled letters now fresh user request g h
  Step-IsFiled (uploads now key written g) h = IsFiled-uploaded now written _ g.souvenirs h
  Step-IsFiled (claims now user game souvenirs merged g) h =
      claim_all-IsFiled letters now user game (unlocked_names letters.upper merged) souvenirs g h
  Step-IsFiled (likes now viewer owner id g) h = like-IsFiled now viewer owner id g h
  Step-IsFiled (reports now viewer owner id reason description g) h =
      report-IsFiled letters now viewer owner id reason description g h
  Step-IsFiled (shows now user id value g) h = set_visibility-IsFiled letters now user id value g h
  Step-IsFiled (mirrors user value g) h = set_account_visibility-IsFiled letters user value g h
  Step-IsFiled (deletes user id g) h = delete_owned-IsFiled user id g h
  Step-IsFiled (removes user id g) h = remove-IsFiled user id g h
  Step-IsFiled (purges user g) h = purge_for_user-IsFiled user g h
  Step-IsFiled (sweeps cutoff g) h = drop_stale-IsFiled (select (is_stale cutoff) g.souvenirs) g h

  pub Reach-IsFiled :
      {start g : Gallery} → Reach start g → IsFiled start.souvenirs → IsFiled g.souvenirs
  Reach-IsFiled here h = h
  Reach-IsFiled (next r s) h = Step-IsFiled s (Reach-IsFiled r h)

  -- An achievement of a game has one souvenir: from a server without souvenirs, no sequence of
  -- reservations, uploads, syncs, likes, reports, changes of visibility, deletions and sweeps leads to
  -- two ready souvenirs of one account and game that both show an achievement's name.
  pub Reach-one_souvenir :
      (start g : Gallery) (r s : Souvenir) (user remote name : String)
      → start.souvenirs ≡ []
      → Reach start g
      → Memᴰ r g.souvenirs
      → Memᴰ s g.souvenirs
      → filed user remote r ≡ true
      → filed user remote s ≡ true
      → has_name r.achievement_names name ≡ true
      → has_name s.achievement_names name ≡ true
      → r ≡ s
  Reach-one_souvenir start g r s user remote name e c m n a b p q =
      let h : IsFiled g.souvenirs = Reach-IsFiled c (rw e IsFiled-empty) in
      let same : r.id ≡ s.id = h.apart r s user remote name m n a b p q in
      unique_of_count (has_id s.id) g.souvenirs (h.single s.id) m n ((str-eq r.id s.id).1 same)
        (str_refl s.id)
