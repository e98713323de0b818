-- ===== src/RateLimit/Lockout.antt =====
-- The lock after a run of misses of one address.
use hydra_server.Shared.{
  ℕ, suc, String, ◌+◌, ◌-◌, ◌*◌, ◌/◌, ◌%◌, ◌^◌, ◌<◌, ◌≡◌, refl, true, false, Option, none, some,
  some-injective, ap, ◌∙◌, List, [], ◌∷◌, length, arith, all, if◌then◌else◌, ltb, leb, ◌==◌,
  str_refl, select, Bool-cases, inl, inr,
}
use hydra_server.RateLimit.{
  Attempts, Guard, Config, get, set, check, record_failure, counted, refreshed, is_live, is_recent,
  window, minute, second, at_least_one, or_default, refuse_for, standing,
}

pub get-set : (k : String) (a : Attempts) (guard : Guard) → get k (set k a guard) ≡ some a
unfolding get set
get-set k a [] = rw (str_refl k) refl
get-set k a (e ∷ guard) = elim (Bool-cases (e.key == k)) [
  | inl y ↦ rw y (rw (str_refl k) refl)
  | inr n ↦ rw n (rw n (get-set k a guard))
]

-- The clean-up keeps an entry that is live, and makes none.
get-live :
    (now : ℕ) (k : String) (a : Attempts) (guard : Guard)
    → get k guard ≡ some a
    → (is_recent now a.first_failure_at ≡ true)
    → get k (select (is_live now) guard) ≡ some a
unfolding get
get-live now k a [] h r = cc
get-live now k a (e ∷ guard) h r = elim (Bool-cases (e.key == k)) [
  | inl y ↦
      let p : e.attempts ≡ a = some-injective _ _ (rw y at h) in
      let l : is_live now e ≡ true = rw p (rw r) in rw l (rw y (ap (λ (x : Attempts). some x) p))
  | inr n ↦ elim (Bool-cases (is_live now e)) [
    | inl l ↦ rw l (rw n (get-live now k a guard (rw n at h) r))
    | inr l ↦ rw l (get-live now k a guard (rw n at h) r)
  ]
]

get-none :
    (now : ℕ) (k : String) (guard : Guard)
    → get k guard ≡ none
    → get k (select (is_live now) guard) ≡ none
unfolding get
get-none now k [] h = refl
get-none now k (e ∷ guard) h = elim (Bool-cases (e.key == k)) [
  | inl y ↦ cc (rw y at h)
  | inr n ↦ elim (Bool-cases (is_live now e)) [
    | inl l ↦ rw l (rw n (get-none now k guard (rw n at h)))
    | inr l ↦ rw l (get-none now k guard (rw n at h))
  ]
]

-- Misses of one address at these times, in their order.
unfoldable pub misses : Config → String → List ℕ → Guard → Guard
misses config k [] guard = guard
misses config k (t ∷ ts) guard = misses config k ts (record_failure config t k guard).1

abbrev pub last_of : ℕ → List ℕ → ℕ
last_of t [] = t
last_of t (u ∷ us) = last_of u us

abbrev lock_of : Config → ℕ → ℕ → Option ℕ
lock_of config n t =
    if leb (at_least_one config.login_max_attempts) n
    then some (t + at_least_one config.login_lockout_minutes * minute)
    else none

-- The entry after `n` misses that all count, the last of them at `t`.
abbrev entry_of : Config → ℕ → ℕ → ℕ → Attempts
entry_of config t0 n t = record {
  failures = n;
  first_failure_at = some t0;
  locked_until = lock_of config n t;
}

counted-entry :
    (config : Config) (t0 n t u : ℕ)
    → suc n < 2 ^ 32
    → (counted config u (entry_of config t0 n t)).0 ≡ entry_of config t0 (suc n) u
unfolding counted
counted-entry config t0 n t u h =
    let small : (n + 1) % 2 ^ 32 ≡ suc n = omega arith in
    elim (Bool-cases (leb (at_least_one config.login_max_attempts) (suc n))) [
      | inl y ↦ rw small (rw y refl)
      | inr m ↦
          let fewer : leb (at_least_one config.login_max_attempts) n ≡ false = ground arith in
          rw small (rw m (rw fewer refl))
    ]

step-entry :
    (config : Config) (k : String) (t0 n t u : ℕ) (guard : Guard)
    → suc n < 2 ^ 32
    → u < t0 + window
    → get k guard ≡ some (entry_of config t0 n t)
    → get k (record_failure config u k guard).1 ≡ some (entry_of config t0 (suc n) u)
unfolding record_failure refreshed
step-entry config k t0 n t u guard h w e =
    let live = select (is_live u) guard in
    let r : is_recent u (some t0) ≡ true = ground arith in
    let g = get-live u k (entry_of config t0 n t) guard e r in
    let f : refreshed u (or_default (get k live)) ≡ entry_of config t0 n t =
      rw g (rw (refreshed, r) refl) in
    rw (record_failure, f)
      (get-set k (counted config u (entry_of config t0 n t)).0 live
        ∙ ap (λ (x : Attempts). some x) (counted-entry config t0 n t u h))

first-entry :
    (config : Config) (k : String) (t0 : ℕ) (guard : Guard)
    → get k guard ≡ none
    → get k (record_failure config t0 k guard).1 ≡ some (entry_of config t0 1 t0)
unfolding record_failure refreshed counted
first-entry config k t0 guard e =
    let live = select (is_live t0) guard in
    let g = get-none t0 k guard e in
    rw (record_failure, g)
      (get-set k _ live ∙ elim (Bool-cases (leb (at_least_one config.login_max_attempts) 1)) [
        | inl y ↦ rw y refl
        | inr m ↦ rw m refl
      ])

run-entry :
    (config : Config) (k : String) (t0 n t : ℕ) (ts : List ℕ) (guard : Guard)
    → n + length ts < 2 ^ 32
    → all (λ u. ltb u (t0 + window)) ts ≡ true
    → get k guard ≡ some (entry_of config t0 n t)
    → get k (misses config k ts guard) ≡ some (entry_of config t0 (n + length ts) (last_of t ts))
unfolding misses
run-entry config k t0 n t [] guard h w e = let z : n + 0 ≡ n = omega arith in rw z e
run-entry config k t0 n t (u ∷ us) guard h w e =
    let next = step-entry config k t0 n t u guard (omega (arith, h)) (ground arith) e in
    let z : n + suc (length us) ≡ suc n + length us = omega arith in
    rw z (
      run-entry config k t0 (suc n) u us (record_failure config u k guard).1 (omega (arith, h))
        (ground arith) next)

check-entry :
    (now : ℕ) (k : String) (a : Attempts) (guard : Guard)
    → get k guard ≡ some a
    → check now k guard ≡ standing now a.locked_until
unfolding check
check-entry now k a guard e = rw (check, e) refl

-- An address with no entry, that then misses at these times, fewer than 2^32 and all within
-- fifteen minutes of the first: a further attempt at any time is refused exactly where the misses
-- are as many as the configured limit, and only until the lockout after the last miss has less
-- than a second left; the refusal tells the minutes that are left.
pub check-misses :
    (config : Config) (k : String) (t0 now : ℕ) (ts : List ℕ) (guard : Guard)
    → get k guard ≡ none
    → all (λ u. ltb u (t0 + window)) ts ≡ true
    → suc (length ts) < 2 ^ 32
    → check now k (misses config k (t0 ∷ ts) guard) ≡ (
        if leb (at_least_one config.login_max_attempts) (suc (length ts))
        then refuse_for
            ((last_of t0 ts + at_least_one config.login_lockout_minutes * minute - now) / second)
        else none)
unfolding misses check
check-misses config k t0 now ts guard e w h =
    let one = first-entry config k t0 guard e in
    let all_of =
      run-entry config k t0 1 t0 ts (record_failure config t0 k guard).1 (omega (arith, h)) w one in
    let z : 1 + length ts ≡ suc (length ts) = omega arith in
    elim (Bool-cases (leb (at_least_one config.login_max_attempts) (suc (length ts)))) [
      | inl y ↦ rw y (check-entry now k _ _ (rw (z, y) at all_of))
      | inr m ↦ rw m (check-entry now k _ _ (rw (z, m) at all_of))
    ]
