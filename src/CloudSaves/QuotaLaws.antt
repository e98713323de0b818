-- ===== src/CloudSaves/QuotaLaws.antt =====
-- The quota check of `prepare_snapshot`, against plain sums of bytes.
use hydra_server.Shared.{ℕ, String, ◌*◌, ◌^◌, ◌≤◌, ◌<◌, ◌≡◌, ap, ◌∙◌, false, arith}
use hydra_server.Shared.Int.{pos, ◌+ℤ◌, ◌≤ℤ◌}
use hydra_server.ApiError.{ok}
use hydra_server.Limits.{for_user, i64_max}
use hydra_server.Storage.{used_bytes, exceeds_quota}
use hydra_server.Storage.Quota.{exceeds_quota-within, exceeds_quota-zero}
use hydra_server.CloudSaves.State.{Store, metered}
use hydra_server.CloudSaves.Request.{PrepareRequest}
use hydra_server.CloudSaves.Gc.{sweep_stale_pending}
use hydra_server.CloudSaves.Prepare.{
  Checksum, PrepareResponse, prepare_snapshot, over_quota, incoming_bytes, wrap_i64,
}
use hydra_server.CloudSaves.NewBytes.{
  new_bytes, stored_bytes, sum_new-new_bytes, used_bytes-stored_bytes,
}
use hydra_server.CloudSaves.PrepareLaws.{prepare_snapshot-swept}

abbrev pub quota_of : Store → String → ℕ
quota_of s user = (for_user s.users s.settings user).max_bytes_per_user

wrap_i64-small : (n : ℕ) → n ≤ i64_max → wrap_i64 n ≡ pos n
unfolding wrap_i64
wrap_i64-small n h = ground arith

wrap_i64-multiple : (k : ℕ) → wrap_i64 (k * 2 ^ 64) ≡ pos 0
unfolding wrap_i64
wrap_i64-multiple k = ground arith

incoming_bytes-new_bytes :
    (s : Store) (user : String) (r : PrepareRequest)
    → incoming_bytes s user r ≡ wrap_i64 (new_bytes s user r.files)
unfolding incoming_bytes
incoming_bytes-new_bytes s user r = ap wrap_i64 (sum_new-new_bytes s user r.files)

-- Where the new bytes of a request are within the range of `i64`, and the account's quota is not zero
-- and less than the largest `i64`, a request that goes through fits: what the account's rows in the
-- five metered tables add up to, once stale uploads are swept, and the sizes of the files that it does
-- not hold, one for each hash, are within its quota.
pub prepare_snapshot-fits :
    (checksum : Checksum) (now : ℕ) (id user : String) (r : PrepareRequest) (s t : Store)
    (resp : PrepareResponse)
    → prepare_snapshot checksum now id user r s ≡ (ok resp, t)
    → 0 < quota_of (sweep_stale_pending now user s) user
    → quota_of (sweep_stale_pending now user s) user < i64_max
    → new_bytes (sweep_stale_pending now user s) user r.files ≤ i64_max
    → stored_bytes (sweep_stale_pending now user s) user
        +ℤ pos (new_bytes (sweep_stale_pending now user s) user r.files)
      ≤ℤ pos (quota_of (sweep_stale_pending now user s) user)
unfolding over_quota
prepare_snapshot-fits checksum now id user r s t resp e some_quota bounded new =
    let w = sweep_stale_pending now user s in
    let a = (prepare_snapshot-swept checksum now id user r s t resp e).1 in
    let n = new_bytes w user r.files in
    let incoming : incoming_bytes w user r ≡ pos n =
      incoming_bytes-new_bytes w user r ∙ wrap_i64-small n new in
    let b : exceeds_quota (quota_of w user) (used_bytes (metered w) user) (pos n) ≡ false =
      ground (arith, rw incoming at a.room) in
    rw (← used_bytes-stored_bytes w user)
      (exceeds_quota-within (quota_of w user) (used_bytes (metered w) user) n b some_quota bounded)

-- The check does not see declared sizes that add up to a multiple of 2^64: whatever the request
-- would store, an account within a quota in the range of `i64` is let through.
pub over_quota-wraps :
    (user : String) (r : PrepareRequest) (s : Store) (k : ℕ)
    → new_bytes s user r.files ≡ k * 2 ^ 64
    → quota_of s user ≤ i64_max
    → stored_bytes s user ≤ℤ pos (quota_of s user)
    → over_quota s user (incoming_bytes s user r) ≡ false
unfolding over_quota
over_quota-wraps user r s k e q u =
    let none_new : incoming_bytes s user r ≡ pos 0 =
      incoming_bytes-new_bytes s user r ∙ ap wrap_i64 e ∙ wrap_i64-multiple k in
    let within : used_bytes (metered s) user ≤ℤ pos (quota_of s user) =
      rw (used_bytes-stored_bytes s user) u in
    rw none_new
      (ground (arith, exceeds_quota-zero (quota_of s user) (used_bytes (metered s) user) within q))
