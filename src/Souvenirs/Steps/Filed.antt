-- ===== src/Souvenirs/Steps/Filed.antt =====
-- The table of souvenirs: one row for an id, and one ready souvenir for an achievement of a game.
use hydra_server.Shared.{
  ℕ, String, ◌≤◌, ◌≡◌, refl, sym, ap, ◌∙◌, Bool, true, false, not, some, List, [], ◌∷◌, ◌++◌, Memᴰ,
  Bool-cases, inl, inr, ◌⊎◌, some-injective, any, update, delete, count, arith, ◌==◌, count-append,
  count-select-le, count-update-le, count-zero_of_any, unique_of_count, mem-append_inv,
  mem-delete_inv, mem-update_inv, not_of_any, str-eq, str_refl, any_of_mem, mem_of_any,
}
use hydra_server.Shared.Int.{ℤ}
use hydra_server.Souvenirs.{Souvenir, is_ready, has_id, has_name, clashes, insert_souvenir}
use hydra_server.Souvenirs.Authorize.{uploaded}
use hydra_server.Souvenirs.Manage.{seen_by}
use hydra_server.Souvenirs.Claim.{
  SyncGame, filed, captures, achievement_already_captured, claimed_row,
}

-- Two ready souvenirs of one game that show one achievement have the same id.
abbrev pub IsApart : List Souvenir → Type 0
IsApart rows =
    (r s : Souvenir) (user remote name : String)
    → Memᴰ r rows
    → Memᴰ s rows
    → filed user remote r ≡ true
    → filed user remote s ≡ true
    → has_name r.achievement_names name ≡ true
    → has_name s.achievement_names name ≡ true
    → r.id ≡ s.id

pub record IsFiled (rows : List Souvenir) : Type 0 where
  pub single : (id : String) → count (has_id id) rows ≤ 1
  pub apart : IsApart rows

pub IsFiled-empty : IsFiled []
IsFiled-empty = record {
  single = λ id. omega arith;
  apart = λ r s user remote name m n p q a b. elim m [ ];
}

pub IsFiled-delete :
    (p : Souvenir → Bool) (rows : List Souvenir) → IsFiled rows → IsFiled (delete p rows)
IsFiled-delete p rows f = record {
  single = λ id. omega (arith, count-select-le (has_id id) (λ r. not (p r)) rows, f.single id);
  apart = λ r s user remote name m n a b c d.
      f.apart r s user remote name (mem-delete_inv p rows m).0 (mem-delete_inv p rows n).0 a b c d;
}

-- A row that is not ready shows nothing.
filed-append :
    (row r : Souvenir) (rows : List Souvenir) (user remote : String)
    → is_ready row.status ≡ false
    → Memᴰ r (rows ++ row ∷ [])
    → filed user remote r ≡ true
    → Memᴰ r rows
filed-append row r rows user remote e m a = elim (mem-append_inv rows (row ∷ []) m) [
  | inl k ↦ k
  | inr (Memᴰ.head d) ↦ let no : is_ready r.status ≡ false = rw d e in absurd (ground (arith, no))
  | inr (Memᴰ.tail k) ↦ elim k [ ]
]

clash-id :
    (row : Souvenir) (rows : List Souvenir)
    → any (clashes row) rows ≡ false
    → any (has_id row.id) rows ≡ false
clash-id row [] e = refl
clash-id row (r ∷ rows) e = ground (arith, clash-id row rows)

pub IsFiled-insert :
    (row : Souvenir) (rows later : List Souvenir)
    → is_ready row.status ≡ false
    → insert_souvenir row rows ≡ some later
    → IsFiled rows
    → IsFiled later
unfolding insert_souvenir
IsFiled-insert row rows later e i f = elim (Bool-cases (any (clashes row) rows)) [
  | inl y ↦ absurd (cc (rw y at i))
  | inr n ↦
      let same : rows ++ row ∷ [] ≡ later = some-injective _ _ (rw n at i) in
      rw (← same) (record {
        single = λ id. elim (Bool-cases (row.id == id)) [
          | inl k ↦
              let out : any (has_id id) rows ≡ false =
                rw (← (str-eq row.id id).0 k) (clash-id row rows n) in
              ground (
                arith,
                count-append (has_id id) rows (row ∷ []),
                count-zero_of_any (has_id id) rows out,
              )
          | inr k ↦ ground (arith, count-append (has_id id) rows (row ∷ []), f.single id)
        ];
        apart = λ r s user remote name m l a b c d.
            f.apart r s user remote name (filed-append row r rows user remote e m a)
              (filed-append row s rows user remote e l b) a b c d;
      })
]

-- An UPDATE of columns that neither name the souvenir nor file it.
abbrev IsTame : (Souvenir → Souvenir) → Type 0
IsTame f =
    (r : Souvenir)
    → ((f r).id ≡ r.id)
      × ((user remote : String) → filed user remote (f r) ≡ filed user remote r)
      × ((f r).achievement_names ≡ r.achievement_names)

tame-inv :
    (w : Souvenir → Bool) (f : Souvenir → Souvenir) (r : Souvenir) (rows : List Souvenir)
    → IsTame f
    → Memᴰ r (update w f rows)
    → (b : Souvenir) × Memᴰ b rows
      × (r.id ≡ b.id)
      × ((user remote : String) → filed user remote r ≡ filed user remote b)
      × (r.achievement_names ≡ b.achievement_names)
tame-inv w f r rows t m =
    let (b, k, e) = mem-update_inv w f rows m in
    elim (Bool-cases (w b)) [
      | inl y ↦
          let d : r ≡ f b = rw y at e in
          let (i, g, n) = t b in (b, k, rw d i, (λ user remote. rw d (g user remote)), rw d n)
      | inr n ↦
          let d : r ≡ b = rw n at e in (b, k, rw d refl, (λ user remote. rw d refl), rw d refl)
    ]

single-update :
    (w : Souvenir → Bool) (f : Souvenir → Souvenir) (rows : List Souvenir) (id : String)
    → ((r : Souvenir) → (f r).id ≡ r.id)
    → count (has_id id) rows ≤ 1
    → count (has_id id) (update w f rows) ≤ 1
single-update w f rows id same h = omega (
  arith,
  h,
  count-update-le (has_id id) (has_id id) w f rows
      (λ r m e. elim (Bool-cases (w r)) [ inl y ↦ rw (← same r) (rw y at e) | inr n ↦ rw n at e ]),
)

IsFiled-tame :
    (w : Souvenir → Bool) (f : Souvenir → Souvenir) (rows : List Souvenir)
    → IsTame f
    → IsFiled rows
    → IsFiled (update w f rows)
IsFiled-tame w f rows t h = record {
  single = λ id. single-update w f rows id (λ r. (t r).0) (h.single id);
  apart = λ r s user remote name m l a b c d.
      let (x, k, i, g, n) = tame-inv w f r rows t m in
      let (y, j, o, e, q) = tame-inv w f s rows t l in
      i
      ∙ h.apart x y user remote name k j (sym (g user remote) ∙ a) (sym (e user remote) ∙ b)
          (rw n at c) (rw q at d)
      ∙ sym o;
}

pub IsFiled-uploaded :
    (now written : ℕ) (w : Souvenir → Bool) (rows : List Souvenir)
    → IsFiled rows
    → IsFiled (update w (uploaded now written) rows)
IsFiled-uploaded now written w rows h =
    IsFiled-tame w (uploaded now written) rows (λ r. (refl, (λ user remote. refl), refl)) h

pub IsFiled-seen_by :
    (now : ℕ) (visibility : String) (w : Souvenir → Bool) (rows : List Souvenir)
    → IsFiled rows
    → IsFiled (update w (seen_by now visibility) rows)
IsFiled-seen_by now visibility w rows h =
    IsFiled-tame w (seen_by now visibility) rows (λ r. (refl, (λ user remote. refl), refl)) h

-- The claim of a reservation, past its check of the names.
filed-inv : (user remote : String) (r : Souvenir) → filed user remote r ≡ true → r.user_id ≡ user
filed-inv user remote r e = (str-eq r.user_id user).0 (ground arith)

filed-claimed :
    (now : ℕ) (game : SyncGame) (captured : ℤ) (names : List String) (user remote : String)
    → (r : Souvenir) → filed user remote (claimed_row now game captured names r) ≡ true
    → (r.user_id ≡ user) × (game.remote_id ≡ remote)
filed-claimed now game captured names user remote r e =
    ((str-eq r.user_id user).0 (ground arith), (str-eq game.remote_id remote).0 (ground arith))

not_captured :
    (user remote id name : String) (names : List String) (s : Souvenir) (rows : List Souvenir)
    → achievement_already_captured user remote id names rows ≡ false
    → Memᴰ s rows
    → has_id id s ≡ false
    → filed user remote s ≡ true
    → has_name names name ≡ true
    → has_name s.achievement_names name ≡ false
unfolding achievement_already_captured
not_captured user remote id name names s rows free m apart a own =
    elim (Bool-cases (has_name s.achievement_names name)) [
      | inr n ↦ n
      | inl y ↦
          let (n, k, e) = mem_of_any (λ n. n == name) names own in
          let same : n ≡ name = (str-eq n name).0 e in
          let shown : any (λ n. has_name s.achievement_names n) names ≡ true =
            any_of_mem (λ n. has_name s.achievement_names n) names k (rw same y) in
          let no : captures user remote id names s ≡ false =
            not_of_any (captures user remote id names) rows free m in
          absurd (ground (arith, shown, no))
    ]

claimed-inv :
    (now : ℕ) (game : SyncGame) (captured : ℤ) (names : List String) (id : String)
    → (r : Souvenir) (rows : List Souvenir)
    → Memᴰ r (update (has_id id) (claimed_row now game captured names) rows)
    → (b : Souvenir) × Memᴰ b rows
      × (((has_id id b ≡ true) × (r ≡ claimed_row now game captured names b))
          ⊎ ((has_id id b ≡ false) × (r ≡ b)))
claimed-inv now game captured names id r rows m =
    let (b, k, e) = mem-update_inv (has_id id) (claimed_row now game captured names) rows m in
    elim (Bool-cases (has_id id b)) [
      | inl y ↦ (b, k, inl (y, rw y at e))
      | inr n ↦ (b, k, inr (n, rw n at e))
    ]

-- A claimed souvenir and another do not show one achievement.
claimed-other :
    (now : ℕ) (game : SyncGame) (captured : ℤ) (names : List String)
    (owner user remote name : String)
    → (row b s : Souvenir) (rows : List Souvenir) → IsFiled rows
    → Memᴰ row rows
    → row.user_id ≡ owner
    → achievement_already_captured owner game.remote_id row.id names rows ≡ false
    → Memᴰ b rows
    → has_id row.id b ≡ true
    → Memᴰ s rows
    → has_id row.id s ≡ false
    → filed user remote (claimed_row now game captured names b) ≡ true
    → filed user remote s ≡ true
    → has_name names name ≡ true
    → has_name s.achievement_names name ≡ false
claimed-other now game captured names owner user remote name row b s rows h m o free k y l n p q c =
    let same : b ≡ row =
      unique_of_count (has_id row.id) rows (h.single row.id) k m y (str_refl row.id) in
    let (u, g) = filed-claimed now game captured names user remote b p in
    let v : owner ≡ user = sym o ∙ ap (λ (r : Souvenir). r.user_id) (sym same) ∙ u in
    not_captured user remote row.id name names s rows (rw (v, g) at free) l n q c

pub IsFiled-claimed :
    (now : ℕ) (game : SyncGame) (captured : ℤ) (names : List String) (owner : String)
    → (row : Souvenir) (rows : List Souvenir) → IsFiled rows
    → Memᴰ row rows
    → row.user_id ≡ owner
    → achievement_already_captured owner game.remote_id row.id names rows ≡ false
    → IsFiled (update (has_id row.id) (claimed_row now game captured names) rows)
IsFiled-claimed now game captured names owner row rows h m o free = record {
  single = λ id.
      single-update (has_id row.id) (claimed_row now game captured names) rows id (λ r. refl)
        (h.single id);
  apart = λ r s user remote name k l a b c d.
      let (x, i, e) = claimed-inv now game captured names row.id r rows k in
      let (y, j, f) = claimed-inv now game captured names row.id s rows l in
      elim e [
        | inl (t, p) ↦ elim f [
          | inl (w, q) ↦
              ap (λ (z : Souvenir). z.id) p
              ∙ (str-eq x.id row.id).0 t
              ∙ sym ((str-eq y.id row.id).0 w)
              ∙ sym (ap (λ (z : Souvenir). z.id) q)
          | inr (w, q) ↦ absurd (
              cc (
                claimed-other now game captured names owner user remote name row x y rows h m o free
                    i t j w (rw p at a) (rw q at b) (rw p at c),
                rw q at d,
              ))
        ]
        | inr (t, p) ↦ elim f [
          | inl (w, q) ↦ absurd (
              cc (
                claimed-other now game captured names owner user remote name row y x rows h m o free
                    j w i t (rw q at b) (rw p at a) (rw q at d),
                rw p at c,
              ))
          | inr (w, q) ↦
              ap (λ (z : Souvenir). z.id) p
              ∙ h.apart x y user remote name i j (rw p at a) (rw q at b) (rw p at c) (rw q at d)
              ∙ sym (ap (λ (z : Souvenir). z.id) q)
        ]
      ];
}
