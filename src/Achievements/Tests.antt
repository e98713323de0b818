-- ===== src/Achievements/Tests.antt =====
-- A game's achievements, merged; and the theorems of the achievements and hidden games at them.
use hydra_server.Shared.{
  ℕ, String, if◌then◌else◌, ◌≡◌, refl, false, none, some, [], ◌∷◌, ◌++◌, ◌==◌,
}
use hydra_server.Shared.Int.{pos}
use hydra_server.Json.{Json, str, num, obj, member, empty}
use hydra_server.HiddenGames.{hidden_row}
use hydra_server.Achievements.{kept, upper_name, merge_achievements}
use hydra_server.Achievements.Merge.{earliest, earliest-merge}
use hydra_server.Achievements.Again.{merge-again}
use hydra_server.Achievements.Stored.{SyncAchievements, store_achievements, user_stats, reset}

-- Capital letters, for the two names of the tests.
abbrev upper : String → String
upper name = if name == "win" then "WIN" else if name == "Win" then "WIN" else name

abbrev unlock : String → ℕ → Json
unlock name time = obj (member "name" (str name) (member "unlockTime" (num (pos time)) empty))

abbrev nameless : Json
nameless = obj (member "unlockTime" (num (pos 1)) empty)

merge_run :
    merge_achievements upper (unlock "win" 5 ∷ unlock "RUN" 7 ∷ []) (nameless ∷ unlock "Win" 3 ∷ [])
    ≡ unlock "Win" 3 ∷ unlock "RUN" 7 ∷ []
unfolding merge_achievements upper_name kept
merge_run = refl

earliest-merge_example :
    earliest upper "WIN" (merge_achievements upper (unlock "win" 5 ∷ []) (unlock "Win" 3 ∷ []))
    ≡ earliest upper "WIN" ((unlock "win" 5 ∷ []) ++ unlock "Win" 3 ∷ [])
earliest-merge_example = earliest-merge upper "WIN" (unlock "win" 5 ∷ []) (unlock "Win" 3 ∷ [])

merge-again_example :
    merge_achievements upper
      (merge_achievements upper (unlock "win" 5 ∷ []) (unlock "Win" 3 ∷ []))
      (unlock "Win" 3 ∷ [])
    ≡ merge_achievements upper (unlock "win" 5 ∷ []) (unlock "Win" 3 ∷ [])
merge-again_example = merge-again upper (unlock "win" 5 ∷ []) (unlock "Win" 3 ∷ [])

abbrev sync_one : SyncAchievements
sync_one = record {
  id = "g1";
  object_id = some "440";
  shop = some "steam";
  has_active_steam_import = none;
  achievements = unlock "win" 5 ∷ [];
}

store_run :
    user_stats upper
      (hidden_row 1 "h" "ada" "steam" "570" ∷ [])
      []
      false
      "ada"
      (store_achievements upper 9 "ada" sync_one [])
    ≡ some 1
unfolding user_stats store_achievements upper_name
store_run = refl

hidden_run :
    user_stats upper
      (hidden_row 1 "h" "ada" "steam" "440" ∷ [])
      []
      false
      "ada"
      (store_achievements upper 9 "ada" sync_one [])
    ≡ some 0
unfolding user_stats store_achievements
hidden_run = refl

reset_run : reset "ada" "g1" (store_achievements upper 9 "ada" sync_one []) ≡ []
unfolding reset store_achievements
reset_run = refl
