-- ===== src/Emulation/Tests.antt =====
-- Two saves of one slot, and the theorems of emulator saves at them.
use hydra_server.Shared.{
  ℕ, String, ◌≡◌, refl, Bool, true, false, Option, none, some, List, [], ◌∷◌, Memᴰ, arith, ◌==◌,
  str-eq,
}
use hydra_server.Shared.Int.{◌+ℤ◌, pos, negsuc}
use hydra_server.Limits.{resolve, overrides, RuntimeSettings, for_user}
use hydra_server.Storage.{sum_sizes, Metered}
use hydra_server.Emulation.{
  EmulationSave, Saves, CommitSave, ListQuery, committed, superseded, is_listed, commit, list, used,
}
use hydra_server.Emulation.Slots.{IsKeyed, in_slot, commit-lists, commit-superseded, commit-keeps}

abbrev settings : Bool → RuntimeSettings
settings auto = record {
  max_bytes_per_user = 1000;
  backups_per_game_limit = 5;
  auto_delete_saves = auto;
}

abbrev no_rows : Metered
no_rows = record {
  cloud_saves = [];
  backups = [];
  emulation_saves = [];
  artwork = [];
  souvenirs = [];
}

abbrev save_of : String → Bool → Option ℕ → EmulationSave
save_of id is_uploaded superseded_at = record {
  id = id;
  user_id = "ada";
  platform = "psx";
  emulator = "duck";
  save_kind = "memory_card";
  save_identity = "slot1";
  artifact_length_in_bytes = pos 3;
  file_name = none;
  hostname = none;
  local_last_modified_at = none;
  label = none;
  metadata = none;
  shop = none;
  object_id = none;
  is_uploaded = is_uploaded;
  last_uploaded_at = none;
  superseded_at = superseded_at;
  created_at = 1;
  updated_at = 1;
}

abbrev shelf : Bool → List EmulationSave → Saves
shelf auto saves = record {
  saves = saves;
  files = λ key. false;
  elsewhere = no_rows;
  users = [];
  settings = settings auto;
  events = [];
}

abbrev card : EmulationSave
card = save_of "one" true none

abbrev newer : EmulationSave
newer = save_of "two" false none

abbrev plain : CommitSave
plain = record {
  artifact_length_in_bytes = none;
  file_name = some "card.mcd";
  hostname = none;
  local_last_modified_at = none;
  label = none;
  metadata = none;
}

abbrev everything : ListQuery
everything = record {
  platform = none;
  emulator = none;
  save_kind = none;
  shop = none;
  object_id = none;
}

two_rows : (s t : EmulationSave) → (s.id == t.id) ≡ false → IsKeyed (s ∷ t ∷ [])
two_rows s t n id = ground (arith, str-eq s.id id, str-eq t.id id, str-eq s.id t.id)

replaced_run :
    list "ada" everything (commit 5 "ada" "two" plain (shelf true (card ∷ newer ∷ []))).1
    ≡ committed 5 plain newer ∷ []
unfolding list commit resolve overrides
replaced_run = refl

negative_run :
    used
      (commit 5 "ada" "two"
        (record plain { artifact_length_in_bytes = some (negsuc 999) })
        (shelf false (card ∷ newer ∷ []))).1
      "ada"
    ≡ negsuc 996
unfolding used ◌+ℤ◌ commit resolve overrides sum_sizes
negative_run = refl

commit-lists_example :
    Memᴰ
      (committed 5 plain newer)
      (commit 5 "ada" "two" plain (shelf true (card ∷ newer ∷ []))).1.saves
    × (is_listed (committed 5 plain newer) ≡ true)
    × ((r : EmulationSave)
        → Memᴰ r (commit 5 "ada" "two" plain (shelf true (card ∷ newer ∷ []))).1.saves
        → in_slot "ada" newer r ≡ true
        → is_listed r ≡ true
        → r ≡ committed 5 plain newer)
commit-lists_example =
    commit-lists 5 "ada" "two" plain newer (shelf true (card ∷ newer ∷ []))
      (two_rows card newer refl) refl refl

abbrev replaced : EmulationSave
replaced = save_of "one" true (some 4)

abbrev current : EmulationSave
current = save_of "two" true none

abbrev kept_both : Saves
kept_both = shelf false (replaced ∷ current ∷ [])

commit-superseded_example : is_listed (superseded 5 current) ≡ false
unfolding commit resolve overrides
commit-superseded_example =
    commit-superseded 5 4 "ada" "one" plain replaced (superseded 5 current) kept_both
      (two_rows replaced current refl) refl refl (Memᴰ.tail (Memᴰ.head refl)) refl

commit-keeps_example :
    (r : EmulationSave) × Memᴰ r
      (commit 5 "ada" "two" plain (shelf false (card ∷ newer ∷ []))).1.saves
    × (r.id ≡ "one")
    × (r.is_uploaded ≡ true)
unfolding for_user resolve overrides
commit-keeps_example =
    commit-keeps 5 "ada" "two" plain card (shelf false (card ∷ newer ∷ []))
      (two_rows card newer refl) refl (Memᴰ.head refl) refl
