-- ===== src/Souvenirs/Through.antt =====
-- A capture from its reservation to its claim.
use hydra_server.Shared.{String, Bool, ◌&&◌, List, any}
use hydra_server.Souvenirs.{Souvenir, has_name}
use hydra_server.Souvenirs.Claim.{filed}

-- A ready souvenir of the game that shows one of the names.
abbrev pub shows_one : String → String → List String → Souvenir → Bool
shows_one user remote names r =
    filed user remote r && any (λ n. has_name r.achievement_names n) names
