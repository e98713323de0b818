-- ===== src/Storage/Together.antt =====
-- Uploads of one account that run at the same time.
use hydra_server.Shared.{
  ℕ, String, ◌+◌, ◌-◌, ◌≤◌, ◌<◌, ◌≡◌, refl, Bool, false, Option, none, some, [], ◌∷◌, arith, any,
  if◌then◌else◌, ap, sym, ◌∙◌, ltb, leb, ◌==◌, str-eq, str_refl, Bool-cases, inl, inr,
}
use hydra_server.Shared.Int.{ℤ, pos_part, neg_part}
use hydra_server.ApiError.{ApiError}
use hydra_server.Limits.{i64_max}
use hydra_server.Storage.{quota_error}
use hydra_server.Storage.Uploads.{
  InFlight, InFlightUploads, QuotaGate, publish, extra_bytes, remaining_quota, refresh, footprint,
  published, check_chunk, clipped, quota_refresh_bytes,
}

abbrev pub has_key : String → InFlight → Bool
has_key key e = e.key == key

-- A new entry of another upload counts whole, as long as the sum is in range.
extra_bytes-publish :
    (user key other : String) (extra : ℕ) (uploads : InFlightUploads)
    → any (has_key key) uploads ≡ false
    → (key == other) ≡ false
    → extra_bytes user other (publish key user extra uploads) < i64_max
    → extra ≤ extra_bytes user other (publish key user extra uploads)
unfolding extra_bytes publish
extra_bytes-publish user key other extra [] n d h = ground (arith, str_refl user)
extra_bytes-publish user key other extra (e ∷ uploads) n d h = ground (
  arith,
  str_refl user,
  str-eq e.key key,
  str-eq e.key other,
  str-eq key other,
  extra_bytes-publish user key other extra uploads,
)

-- The same entry counts after another upload has published its own.
extra_bytes-other :
    (user other : String) (extra : ℕ) (uploads : InFlightUploads)
    → extra_bytes user other (publish other user extra uploads) ≡ extra_bytes user other uploads
unfolding extra_bytes publish
extra_bytes-other user other extra [] = ground (arith, str_refl other)
extra_bytes-other user other extra (e ∷ uploads) =
    ground (arith, str-eq e.key other, extra_bytes-other user other extra uploads)

-- The stored total is what it was when the gate last read it.
abbrev pub Unchanged : QuotaGate → ℤ → ℕ → Type 0
Unchanged gate used written =
    (refresh gate used written).budget ≡ remaining_quota gate.quota used gate.target

-- A gate that reads the total again changes nothing else.
refresh-keeps :
    (gate : QuotaGate) (used : ℤ) (written : ℕ)
    → let now = refresh gate used written in
      (now.key ≡ gate.key) × (now.target ≡ gate.target) × (now.declared ≡ gate.declared)
unfolding refresh
refresh-keeps gate used written =
    elim (Bool-cases (leb (gate.read_at + quota_refresh_bytes) written)) [
      | inl y ↦ rw (refresh, y) (refl, refl, refl)
      | inr n ↦ rw (refresh, n) (refl, refl, refl)
    ]

-- What a check does, in terms of the gate as it came.
check_chunk-run :
    (gate : QuotaGate) (used : ℤ) (written : ℕ) (uploads : InFlightUploads)
    → check_chunk gate used written uploads ≡ (
      if ltb (refresh gate used written).budget (
            clipped (footprint gate written)
            + extra_bytes gate.target.user_id gate.key (published gate written uploads))
          then some quota_error
          else none,
      refresh gate used written,
      published gate written uploads,
    )
unfolding check_chunk
check_chunk-run gate used written uploads =
    let (k, t, d) = refresh-keeps gate used written in rw (check_chunk, k, t, d) refl

room_of :
    (quota counted : ℕ) (used : ℤ) (foot others : ℕ)
    → Path
        (Option ApiError)
        (if ltb (clipped quota + counted + neg_part used - pos_part used) (clipped foot + others)
          then some quota_error
          else none)
        none
    → quota + counted + neg_part used < i64_max
    → 0 < foot
    → pos_part used + foot + others ≤ quota + counted + neg_part used
room_of quota counted used foot others h small some_bytes = ground arith

-- A chunk that is let through leaves room for it, beside what the owner stores and what the owner's
-- other uploads are about to add.
check_chunk-fits :
    (gate later : QuotaGate) (used : ℤ) (written : ℕ) (uploads seen : InFlightUploads)
    → check_chunk gate used written uploads ≡ (none, later, seen)
    → Unchanged gate used written
    → gate.quota + gate.target.counted_bytes + neg_part used < i64_max
    → 0 < footprint gate written
    → (pos_part used + footprint gate written + extra_bytes gate.target.user_id gate.key uploads
        ≤ gate.quota + gate.target.counted_bytes + neg_part used)
unfolding check_chunk refresh remaining_quota
check_chunk-fits gate later used written uploads seen e fresh small some_bytes =
    let run =
      ap (λ (x : Option ApiError × QuotaGate × InFlightUploads). x.0)
        (sym (check_chunk-run gate used written uploads) ∙ e) in
    let same =
      extra_bytes-other gate.target.user_id gate.key
        (footprint gate written - gate.target.counted_bytes) uploads in
    room_of gate.quota gate.target.counted_bytes used (footprint gate written)
      (extra_bytes gate.target.user_id gate.key uploads) (rw (fresh, same, remaining_quota) at run)
      small some_bytes

-- Two uploads of one account do not both fit into the same free space. Where a chunk of an upload
-- that was not in progress is let through, and then a chunk of another that is not empty, whose gate
-- has the stored total as it is and a quota in the range of `i64`, a negative total being added to it:
-- what the account stores and both uploads are within the quota, the bytes that either replaces being
-- counted once.
pub check_chunk-together :
    (a b a_later b_later : QuotaGate) (used : ℤ) (a_written b_written : ℕ)
    (uploads middle seen : InFlightUploads)
    → a.target.user_id ≡ b.target.user_id
    → (a.key == b.key) ≡ false
    → any (has_key a.key) uploads ≡ false
    → Unchanged b used b_written
    → b.quota + b.target.counted_bytes + neg_part used < i64_max
    → 0 < footprint b b_written
    → check_chunk a used a_written uploads ≡ (none, a_later, middle)
    → check_chunk b used b_written middle ≡ (none, b_later, seen)
    → pos_part used + footprint a a_written + footprint b b_written
      ≤ b.quota + a.target.counted_bytes + b.target.counted_bytes + neg_part used
unfolding check_chunk
check_chunk-together a b a_later b_later used a_written b_written uploads middle seen u k n fresh
      small bytes p q =
    let seen_a : published a a_written uploads ≡ middle =
      ap (λ (x : Option ApiError × QuotaGate × InFlightUploads). x.2)
        (sym (check_chunk-run a used a_written uploads) ∙ p) in
    let fits = check_chunk-fits b b_later used b_written middle seen q fresh small bytes in
    let extra : extra_bytes b.target.user_id b.key middle < i64_max
        → footprint a a_written - a.target.counted_bytes
          ≤ extra_bytes b.target.user_id b.key middle =
      rw (← seen_a, ← u)
        (extra_bytes-publish a.target.user_id a.key b.key
          (footprint a a_written - a.target.counted_bytes) uploads n k) in
    omega (arith, fits, extra (omega (arith, fits, small, bytes)))
