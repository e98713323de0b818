-- ===== src/RateLimit/Apart.antt =====
-- What a miss or a success changes for the other addresses.
use Prim.Native.Char.{Char, code}
use Prim.Native.String.{◌++◌}
use Prim.Native.String.append
use hydra_server.Shared.{
  ℕ, String, ◌-◌, ◌≤◌, ◌≡◌, ◌≢◌, refl, ap, ◌∙◌, sym, Bool, false, Option, none, some, [], ◌∷◌,
  arith, count, count-select-le, select, delete, if◌then◌else◌, ◌==◌, str-eq, str-ne, Bool-cases,
  inl, inr,
}
use hydra_server.RateLimit.{
  Attempts, Entry, Guard, Config, get, set, check, record_failure, record_success, counted,
  refreshed, is_live, is_locked, or_default, standing, standing_of, key_of,
}

abbrev pub has_key : String → Entry → Bool
has_key k e = e.key == k

get-set-other :
    (k j : String) (a : Attempts) (guard : Guard)
    → (k == j) ≡ false
    → get j (set k a guard) ≡ get j guard
unfolding get set
get-set-other k j a [] n = rw n refl
get-set-other k j a (e ∷ guard) n =
    ground (arith, str-eq e.key k, str-eq e.key j, str-eq k j, get-set-other k j a guard n)

get-absent : (j : String) (guard : Guard) → count (has_key j) guard ≤ 0 → get j guard ≡ none
unfolding get
get-absent j [] h = refl
get-absent j (e ∷ guard) h = elim (Bool-cases (e.key == j)) [
  | inl y ↦ absurd (omega (arith, rw y at h))
  | inr n ↦ rw n (get-absent j guard (rw n at h))
]

-- A deadline that has passed when the clean-up runs does not refuse later.
dead-none :
    (now later : ℕ) (locked : Option ℕ)
    → now ≤ later
    → is_locked now locked ≡ false
    → standing later locked ≡ none
dead-none now later none h d = refl
dead-none now later (some until) h d = let z : until - later ≡ 0 = ground arith in rw z refl

get-live :
    (now later : ℕ) (j : String) (guard : Guard)
    → now ≤ later
    → count (has_key j) guard ≤ 1
    → standing_of later (get j (select (is_live now) guard)) ≡ standing_of later (get j guard)
unfolding get
get-live now later j [] h u = refl
get-live now later j (e ∷ guard) h u = elim (Bool-cases (e.key == j)) [
  | inl y ↦ elim (Bool-cases (is_live now e)) [
    | inl l ↦ rw (l, get) (rw y refl)
    | inr d ↦
        let none_left : count (has_key j) guard ≤ 0 = omega (arith, rw y at u) in
        let fewer : count (has_key j) (select (is_live now) guard) ≤ 0 =
          omega (arith, none_left, count-select-le (has_key j) (is_live now) guard) in
        rw d (
          rw (y, get)
            (rw (get-absent j (select (is_live now) guard) fewer)
              (sym (dead-none now later e.attempts.locked_until h (ground arith)))))
  ]
  | inr n ↦ elim (Bool-cases (is_live now e)) [
    | inl l ↦ rw (l, get) (rw n (get-live now later j guard h (rw n at u)))
    | inr d ↦ rw (d, get) (rw n (get-live now later j guard h (rw n at u)))
  ]
]

get-deleted :
    (k j : String) (guard : Guard)
    → get j (delete (λ e. e.key == k) guard) ≡ (if k == j then none else get j guard)
unfolding get
get-deleted k j [] = ground arith
get-deleted k j (e ∷ guard) =
    ground (arith, str-eq e.key k, str-eq e.key j, str-eq k j, get-deleted k j guard)

-- A miss under one key changes no other key's standing, then or later, where the map has at most
-- one entry for the other key.
pub record_failure-apart :
    (config : Config) (now later : ℕ) (k j : String) (guard : Guard)
    → k ≢ j
    → now ≤ later
    → count (has_key j) guard ≤ 1
    → check later j (record_failure config now k guard).1 ≡ check later j guard
unfolding record_failure check
record_failure-apart config now later k j guard n h u =
    let live = select (is_live now) guard in
    let a = (counted config now (refreshed now (or_default (get k live)))).0 in
    ap (λ x. standing_of later x) (get-set-other k j a live (str-ne k j n))
    ∙ get-live now later j guard h u

-- A success lets its key in at once and changes no other key's standing.
pub record_success-clears :
    (now : ℕ) (k j : String) (guard : Guard)
    → check now j (record_success k guard) ≡ (if k == j then none else check now j guard)
unfolding record_success check
record_success-clears now k j guard =
    ap (λ x. standing_of now x) (get-deleted k j guard)
    ∙ elim (Bool-cases (k == j)) [ inl y ↦ rw y refl | inr n ↦ rw n refl ]

abbrev first_code : String → ℕ
first_code String.[] = 0
first_code (String.◌∷◌ c s) = code c

first_code-append : (c : Char) (s t : String) → first_code (String.◌∷◌ c s ++ t) ≡ code c
first_code-append c s t = ap first_code (append.cons c s t)

-- The admin form and the portal form never share a key, whatever the addresses.
pub key_of-apart : (ip other : String) → key_of "admin" ip ≢ key_of "portal" other
key_of-apart ip other p =
    let a : first_code (key_of "admin" ip) ≡ 97 = first_code-append "a" "dmin" (":" ++ ip) in
    let b : first_code (key_of "portal" other) ≡ 112 =
      first_code-append "p" "ortal" (":" ++ other) in
    omega (arith, sym a ∙ ap first_code p ∙ b)
