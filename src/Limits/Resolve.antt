-- ===== src/Limits/Resolve.antt =====
-- What the limits in force are, and that saved overrides are read back.
use hydra_server.Shared.{
  ℕ, String, ◌≤◌, ◌≡◌, refl, ap, ◌∙◌, Bool, true, false, Option, none, some, some-injective, List,
  [], ◌∷◌, arith, first, any, update, mem_of_any, first-none_inv, if◌then◌else◌, ltb, ◌==◌, str-eq,
  Bool-cases, Option-cases, inl, inr,
}
use hydra_server.Shared.Int.{ℤ, pos}
use hydra_server.Limits.{
  RuntimeSettings, Overrides, UserRow, from_row, resolve, overrides, for_user, save, is_user,
  u32_max, i64_max, map_option, bytes_of, limit_of, flag_of, flag_column, to_column, unwrap_or,
  written,
}

-- Reading a user's row after an UPDATE of it.
first-update_user :
    (user_id : String) (f : UserRow → UserRow) (users : List UserRow)
    → ((u : UserRow) → is_user user_id (f u) ≡ is_user user_id u)
    → first (is_user user_id) (update (is_user user_id) f users)
      ≡ map_option f (first (is_user user_id) users)
first-update_user user_id f [] h = refl
first-update_user user_id f (u ∷ users) h = ground (arith, h u, first-update_user user_id f users h)

first-other_user :
    (user_id other : String) (f : UserRow → UserRow) (users : List UserRow)
    → (user_id == other) ≡ false
    → ((u : UserRow) → is_user other (f u) ≡ is_user other u)
    → first (is_user other) (update (is_user user_id) f users) ≡ first (is_user other) users
first-other_user user_id other f [] n h = refl
first-other_user user_id other f (u ∷ users) n h = ground (
  arith,
  h u,
  str-eq u.id user_id,
  str-eq u.id other,
  str-eq user_id other,
  first-other_user user_id other f users n h,
)

-- What `set_limits` and the types let through: a `u32` of at least one, and bytes that fit an `i64`.
abbrev pub InRange : Overrides → Type 0
InRange o =
    (unwrap_or o.max_bytes_per_user 0 ≤ i64_max)
    × (1 ≤ unwrap_or o.backups_per_game_limit 1)
    × (unwrap_or o.backups_per_game_limit 1 ≤ u32_max)

-- Each column is read back as it was written, when the value is in its range.
bytes_back :
    (m : Option ℕ) (column : Option ℤ) → to_column m ≡ some column → map_option bytes_of column ≡ m
bytes_back none column e = rw (← some-injective _ _ e) refl
bytes_back (some n) column e = elim (Bool-cases (ltb i64_max n)) [
  | inl k ↦ ground arith
  | inr k ↦ let c : some (pos n) ≡ column = some-injective _ _ (rw k at e) in rw (← c) refl
]

limit_back :
    (l : Option ℕ)
    → 1 ≤ unwrap_or l 1
    → unwrap_or l 1 ≤ u32_max
    → map_option limit_of (map_option pos l) ≡ l
limit_back none h k = refl
limit_back (some n) h k = ground arith

flag_back : (b : Option Bool) → map_option flag_of (map_option flag_column b) ≡ b
flag_back none = refl
flag_back (some true) = refl
flag_back (some false) = refl

row_back :
    (o : Overrides) (column : Option ℤ) (row : UserRow)
    → InRange o
    → to_column o.max_bytes_per_user ≡ some column
    → from_row (written column o row) ≡ o
unfolding from_row
row_back o column row (a, b, c) e =
    rw
      (
        bytes_back o.max_bytes_per_user column e,
        limit_back o.backups_per_game_limit b c,
        flag_back o.auto_delete_saves,
      )
      refl

overrides-written :
    (users : List UserRow) (user_id : String) (o : Overrides) (column : Option ℤ)
    → InRange o
    → to_column o.max_bytes_per_user ≡ some column
    → any (is_user user_id) users ≡ true
    → overrides (update (is_user user_id) (written column o) users) user_id ≡ o
unfolding overrides
overrides-written users user_id o column r e found =
    elim (Option-cases (first (is_user user_id) users)) [
      | inl n ↦
          let (u, m, q) = mem_of_any (is_user user_id) users found in
          cc (first-none_inv (is_user user_id) users n m, q)
      | inr (row, f) ↦
          rw (overrides, first-update_user user_id (written column o) users (λ u. refl), f)
            (row_back o column row r e)
    ]

overrides-other :
    (users : List UserRow) (user_id other : String) (f : UserRow → UserRow)
    → (user_id == other) ≡ false
    → ((u : UserRow) → is_user other (f u) ≡ is_user other u)
    → overrides (update (is_user user_id) f users) other ≡ overrides users other
unfolding overrides
overrides-other users user_id other f n h =
    rw (overrides, first-other_user user_id other f users n h) refl

-- The value of an override where there is one, and otherwise the server's.
abbrev pub saved_or {ℓ} : {A : Type ℓ} → Option A → A → A
saved_or none server = server
saved_or (some saved) server = saved

saved_or-unwrap {ℓ} : {A : Type ℓ} (o : Option A) (d : A) → unwrap_or o d ≡ saved_or o d
saved_or-unwrap none d = refl
saved_or-unwrap (some a) d = refl

resolve-fields :
    (o : Overrides) (settings : RuntimeSettings)
    → resolve o settings ≡ record {
      max_bytes_per_user = saved_or o.max_bytes_per_user settings.max_bytes_per_user;
      backups_per_game_limit = saved_or o.backups_per_game_limit settings.backups_per_game_limit;
      auto_delete_saves = saved_or o.auto_delete_saves settings.auto_delete_saves;
    }
unfolding resolve
resolve-fields o settings =
    rw
      (
        saved_or-unwrap o.max_bytes_per_user settings.max_bytes_per_user,
        saved_or-unwrap o.backups_per_game_limit settings.backups_per_game_limit,
        saved_or-unwrap o.auto_delete_saves settings.auto_delete_saves,
      )
      refl

-- Overrides in the range of their columns that are saved for an account that is there are in force
-- at once: each limit of the account is the saved value where there is one and the server's where
-- there is none, and no other account's limits change.
pub for_user-save :
    (users after : List UserRow) (settings : RuntimeSettings) (user_id other : String)
    (o : Overrides)
    → InRange o
    → save users user_id o ≡ some (after, true)
    → for_user after settings other ≡ (
        if user_id == other
        then record {
          max_bytes_per_user = saved_or o.max_bytes_per_user settings.max_bytes_per_user;
          backups_per_game_limit =
              saved_or o.backups_per_game_limit settings.backups_per_game_limit;
          auto_delete_saves = saved_or o.auto_delete_saves settings.auto_delete_saves;
        }
        else for_user users settings other)
unfolding save for_user
for_user-save users after settings user_id other o r e =
    elim (Option-cases (to_column o.max_bytes_per_user)) [
      | inl n ↦ cc (e, rw (save, n) at e)
      | inr (column, c) ↦
          let answer : some
                (update (is_user user_id) (written column o) users, any (is_user user_id) users)
              ≡ some (after, true) =
            rw (save, c) at e in
          let p = some-injective _ _ answer in
          let t = update (is_user user_id) (written column o) users in
          let a : t ≡ after = ap (λ x. x.0) p in
          let found : any (is_user user_id) users ≡ true = ap (λ x. x.1) p in
          elim (Bool-cases (user_id == other)) [
            | inl k ↦
                let s : user_id ≡ other = ground (arith, str-eq user_id other) in
                rw (← a, k, ← s)
                  (ap (λ x. resolve x settings) (overrides-written users user_id o column r c found)
                    ∙ resolve-fields o settings)
            | inr k ↦
                rw (← a, k)
                  (ap (λ x. resolve x settings)
                    (overrides-other users user_id other (written column o) k (λ u. refl)))
          ]
    ]
