-- ===== src/Souvenirs/Tests.antt =====
-- One capture, from its reservation to its claim; and the theorems of the souvenirs at it.
use hydra_server.Shared.{
  String, ◌≡◌, refl, true, false, some, List, [], ◌∷◌, Memᴰ, update, select, ◌||◌, leb,
}
use hydra_server.Shared.Int.{◌+ℤ◌, pos}
use hydra_server.Json.{Json, str, obj, member, empty}
use hydra_server.ApiError.{ok}
use hydra_server.Limits.{resolve, overrides, RuntimeSettings}
use hydra_server.Storage.{sum_sizes, Metered}
use hydra_server.Souvenirs.{key_belongs_to, Souvenir, Gallery, Letters, ready, has_id}
use hydra_server.Souvenirs.Authorize.{
  AuthorizeRequest, Fresh, Authorization, authorization, authorize, mark_uploaded,
}
use hydra_server.Souvenirs.Claim.{SyncSouvenir, SyncGame, filed_names, claim_one, claim_from_sync}
use hydra_server.Souvenirs.Manage.{sweep_abandoned, remove}
use hydra_server.Souvenirs.Reserved.{key_of, authorize-again}
use hydra_server.Souvenirs.Retry.{touched, claim_one-again}
use hydra_server.Souvenirs.Sweep.{is_claimed, sweep_abandoned_exact}
use hydra_server.Souvenirs.Steps.Filed.{IsFiled-empty}
use hydra_server.Souvenirs.Steps.{
  Reach, here, next, authorizes, uploads, claims, Reach-IsFiled, Reach-one_souvenir,
}
use hydra_server.Shared.Texts.{trim}
use hydra_server.Achievements.{upper_name}

abbrev letters : Letters
letters = record { upper = λ s. s; lower = λ s. s }

abbrev settings : RuntimeSettings
settings = record {
  max_bytes_per_user = 1000;
  backups_per_game_limit = 5;
  auto_delete_saves = false;
}

abbrev no_rows : Metered
no_rows = record {
  cloud_saves = [];
  backups = [];
  emulation_saves = [];
  artwork = [];
  souvenirs = [];
}

abbrev bare : Gallery
bare = record {
  souvenirs = [];
  likes = [];
  reports = [];
  accounts = [];
  files = λ key. false;
  elsewhere = no_rows;
  users = [];
  settings = settings;
  events = [];
}

abbrev request : AuthorizeRequest
request = record {
  image_ext = ".png";
  image_length = pos 900;
  client_id = some "c1";
  remote_game_id = some "g1";
}

abbrev fresh : String → Fresh
fresh id = record { client = "x"; id = id; file = "f" }

abbrev key : String
key = "images/souvenirs/ada/f.png"

abbrev reserved : Gallery
reserved = (authorize letters 7 (fresh "s1") "ada" request bare).1

abbrev first_answer : Authorization
first_answer = authorization 7 key 900

reserve_run : authorize letters 7 (fresh "s1") "ada" request bare ≡ (ok first_answer, reserved)
unfolding authorize trim resolve overrides ◌+ℤ◌ sum_sizes
reserve_run = refl

too_much :
    (authorize letters 7 (fresh "s1") "ada" (record request { image_length = pos 1001 }) bare).1
    ≡ bare
unfolding authorize trim resolve overrides ◌+ℤ◌ sum_sizes
too_much = refl

abbrev game : SyncGame
game = record { remote_id = "g1"; shop = some "steam"; object_id = some "440" }

abbrev capture : SyncSouvenir
capture = record {
  client_id = "c1";
  image_key = key;
  captured_at = pos 5;
  achievement_names = " WIN " ∷ "RUN" ∷ "WIN" ∷ [];
}

abbrev arrived : Gallery
arrived = mark_uploaded 8 key 900 reserved

abbrev done : Gallery
done = (claim_one letters 9 "ada" game capture "c1" ("RUN" ∷ "WIN" ∷ []) arrived).1

names_run : filed_names letters capture ≡ "WIN" ∷ "RUN" ∷ []
unfolding filed_names trim
names_run = refl

claim_run : (claim_one letters 9 "ada" game capture "c1" ("RUN" ∷ "WIN" ∷ []) arrived).0 ≡ ok "s1"
unfolding claim_one trim key_belongs_to mark_uploaded authorize resolve overrides ◌+ℤ◌ sum_sizes
claim_run = refl

early_run : (claim_one letters 9 "ada" game capture "c1" ("RUN" ∷ "WIN" ∷ []) reserved).1 ≡ reserved
unfolding authorize claim_one trim resolve overrides key_belongs_to ◌+ℤ◌ sum_sizes
early_run = refl

removed_run : (remove "ada" "s1" done).0 ≡ ok 900
unfolding remove claim_one trim key_belongs_to mark_uploaded authorize resolve overrides ◌+ℤ◌
    sum_sizes
removed_run = refl

authorize-again_example :
    (b : Authorization) × (authorize letters 20 (fresh "s2") "ada" request reserved
      ≡ (ok b, reserved))
    × (key_of b ≡ key_of first_answer)
authorize-again_example =
    authorize-again letters 7 20 (fresh "s1") (fresh "s2") "ada" "c1" request bare reserved
      first_answer refl refl reserve_run

claim_one-again_example :
    ((claim_one letters 10 "ada" game capture "c1" ("RUN" ∷ "WIN" ∷ []) done).0 ≡ ok "s1")
    × ((claim_one letters 10 "ada" game capture "c1" ("RUN" ∷ "WIN" ∷ []) done).1.souvenirs
        ≡ update (has_id "s1") (touched 10) done.souvenirs)
claim_one-again_example =
    claim_one-again letters 9 10 "ada" game capture "c1" "s1" ("RUN" ∷ "WIN" ∷ []) arrived claim_run

abbrev unlock : String → Json
unlock name = obj (member "name" (str name) empty)

abbrev merged : List Json
merged = unlock "WIN" ∷ unlock "RUN" ∷ []

abbrev synced : Gallery
synced = (claim_from_sync letters 9 "ada" game (capture ∷ []) merged arrived).1

synced-Reach : Reach letters bare synced
synced-Reach =
    next
      (next (next here (authorizes 7 (fresh "s1") "ada" request bare)) (uploads 8 key 900 reserved))
      (claims 9 "ada" game (capture ∷ []) merged arrived)

abbrev picture : Souvenir
picture = record {
  id = "s1";
  user_id = "ada";
  client_id = "c1";
  remote_game_id = some "g1";
  shop = some "steam";
  object_id = some "440";
  image_key = key;
  is_uploaded = true;
  size_in_bytes = 900;
  status = ready;
  primary_achievement_name = some "WIN";
  achievement_names = "WIN" ∷ "RUN" ∷ [];
  captured_at = pos 5;
  visibility = "PUBLIC";
  created_at = 7;
  updated_at = 9;
}

picture-mem : Memᴰ picture synced.souvenirs
unfolding claim_from_sync trim key_belongs_to upper_name mark_uploaded authorize resolve overrides
    ◌+ℤ◌ sum_sizes
picture-mem = Memᴰ.head refl

Reach-one_souvenir_example : picture ≡ picture
Reach-one_souvenir_example =
    Reach-one_souvenir letters bare synced picture picture "ada" "g1" "RUN" refl synced-Reach
      picture-mem picture-mem refl refl refl refl

sweep_abandoned_exact_example :
    (sweep_abandoned 9 arrived).1.souvenirs
    ≡ select (λ r. is_claimed r.status || leb 9 r.created_at) arrived.souvenirs
sweep_abandoned_exact_example = sweep_abandoned_exact 9 arrived (
    Reach-IsFiled letters {start = bare}
      (next (next here (authorizes 7 (fresh "s1") "ada" request bare)) (uploads 8 key 900 reserved))
      IsFiled-empty)
