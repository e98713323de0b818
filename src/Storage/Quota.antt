-- ===== src/Storage/Quota.antt =====
-- The quota boundary.
use hydra_server.Shared.{ℕ, ◌+◌, ◌≤◌, ◌<◌, ◌≡◌, ◌↔◌, true, false, arith}
use hydra_server.Shared.Int.{ℤ, pos, ◌+ℤ◌, ◌≤ℤ◌}
use hydra_server.Limits.{i64_max}
use hydra_server.Storage.{exceeds_quota}

-- A quota and a use within the range of `i64`: an upload is refused exactly where the quota is not
-- zero, is less than the use and the new bytes together, and is less than the largest `i64`.
pub exceeds_quota_iff :
    (quota used incoming : ℕ)
    → quota ≤ i64_max
    → used ≤ i64_max
    → (exceeds_quota quota (pos used) (pos incoming) ≡ true)
      ↔ ((0 < quota) × (quota < used + incoming) × (quota < i64_max))
unfolding exceeds_quota ◌+ℤ◌
exceeds_quota_iff quota used incoming hq hu = ground arith

-- A sum that is not refused is within the quota.
pub exceeds_quota-within :
    (quota : ℕ) (used : ℤ) (incoming : ℕ)
    → exceeds_quota quota used (pos incoming) ≡ false
    → 0 < quota
    → quota < i64_max
    → used +ℤ pos incoming ≤ℤ pos quota
unfolding exceeds_quota ◌+ℤ◌
exceeds_quota-within quota used incoming h some_quota bounded = ground arith

-- What is stored already is never refused by itself.
pub exceeds_quota-zero :
    (quota : ℕ) (used : ℤ)
    → used ≤ℤ pos quota
    → quota ≤ i64_max
    → exceeds_quota quota used (pos 0) ≡ false
unfolding exceeds_quota ◌+ℤ◌
exceeds_quota-zero quota used h q = ground arith
