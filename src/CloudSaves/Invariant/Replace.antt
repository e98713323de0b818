-- ===== src/CloudSaves/Invariant/Replace.antt =====
-- Demoting a game's current save and putting another row in its place keep the invariant: the
-- unique index of migrations/0008_cloud_saves.sql never has anything to refuse.
use hydra_server.Shared.{
  ℕ, String, ◌≤◌, ◌≡◌, refl, ◌∙◌, Bool, true, false, ◌&&◌, List, Memᴰ, arith, inl, inr, select,
  delete, update, count, if◌then◌else◌, ◌==◌, str-eq, str_refl, mem-append_left, Bool-cases,
  mem-update_inv, any-update, count-update-le, count-update-add, count-zero, count-none,
  mem-delete_inv, mem-select, any_of_mem,
}
use hydra_server.CloudSaves.State.{
  committed, is_pending, is_kept, Snapshot, FileRow, Store, has_id, of_game, is_current,
}
use hydra_server.CloudSaves.Gc.Keeps.{listed, drop_snapshots-Dropped}
use hydra_server.CloudSaves.Commit.{supersede, older, retire}
use hydra_server.CloudSaves.Invariant.{IsValid, Held, Dropped-IsValid}

abbrev pub with_rows : Store → List Snapshot → Store
with_rows s rows = record s { snapshots = rows }

-- The row that an UPDATE to `committed` writes.
abbrev pub commit_row_at : ℕ → (Snapshot → ℕ) → Snapshot → Snapshot
commit_row_at now version r = record r { status = committed; version = version r; updated_at = now }

-- An UPDATE that demotes rows which are committed.
module _ (w : Snapshot → Bool) (now : ℕ) (s : Store) (v : IsValid s)
    (only : (r : Snapshot) → w r ≡ true → is_pending r.status ≡ false) where
  pub demote-IsValid : IsValid (with_rows s (update w (supersede now) s.snapshots))
  demote-IsValid = record {
    ids = λ id. omega (
      arith,
      v.ids id,
      count-update-le (has_id id) (has_id id) w (supersede now) s.snapshots (λ a m h. ground arith),
    );
    current = λ u sh o. omega (
      arith,
      v.current u sh o,
      count-update-le (is_current u sh o) (is_current u sh o) w (supersede now) s.snapshots
          (λ a m h. ground arith),
    );
    owned = λ f m.
        any-update (has_id f.snapshot_id) w (supersede now) s.snapshots (λ a. refl) ∙ v.owned f m;
    stored = v.stored;
    kept = λ r f mr mf h p.
        let (q, k, e) = mem-update_inv w (supersede now) s.snapshots mr in
        elim (Bool-cases (w q)) [
          | inl y ↦
              let e' : r ≡ supersede now q = rw y at e in
              rw e' (v.kept q f k mf (rw e' at h) (only q y))
          | inr n ↦ let e' : r ≡ q = rw n at e in rw e' (v.kept q f k mf (rw e' at h) (rw e' at p))
        ];
  }

-- The UPDATE that makes one row of the game its current save, where none is left.
module _ (user shop object : String) (w : Snapshot → Bool) (now : ℕ) (version : Snapshot → ℕ)
    (s : Store) (v : IsValid s) (vacant : count (is_current user shop object) s.snapshots ≡ 0)
    (one : count w s.snapshots ≤ 1)
    (game : (r : Snapshot) → Memᴰ r s.snapshots → w r ≡ true → of_game user shop object r ≡ true)
    (held : (r : Snapshot) (f : FileRow)
      → Memᴰ r s.snapshots
      → Memᴰ f s.files
      → w r ≡ true
      → has_id f.snapshot_id r ≡ true
      → Held s r.user_id f) where
  same_game :
      (u sh o : String)
      → ((u == user) && ((sh == shop) && (o == object))) ≡ true
      → count (is_current u sh o) (update w (commit_row_at now version) s.snapshots) ≤ 1
  same_game u sh o h =
      let p : u ≡ user = ground (arith, str-eq u user) in
      let q : sh ≡ shop = ground (arith, str-eq sh shop) in
      let e : o ≡ object = ground (arith, str-eq o object) in
      rw p (
        rw q (
          rw e (
            omega (
              arith,
              vacant,
              one,
              count-update-add (is_current user shop object) w (commit_row_at now version)
                  s.snapshots,
            ))))

  not_other :
      (u sh o : String) (a : Snapshot)
      → Memᴰ a s.snapshots
      → ((u == user) && ((sh == shop) && (o == object))) ≡ false
      → is_current u sh o (if w a then commit_row_at now version a else a) ≡ true
      → is_current u sh o a ≡ true
  not_other u sh o a m h k = ground (
    arith,
    game a m,
    str-eq a.user_id u,
    str-eq a.user_id user,
    str-eq u user,
    str-eq a.shop sh,
    str-eq a.shop shop,
    str-eq sh shop,
    str-eq a.object_id o,
    str-eq a.object_id object,
    str-eq o object,
  )

  current_after :
      (u sh o : String)
      → count (is_current u sh o) (update w (commit_row_at now version) s.snapshots) ≤ 1
  current_after u sh o = elim (Bool-cases ((u == user) && ((sh == shop) && (o == object)))) [
    | inl same ↦ same_game u sh o same
    | inr other ↦ omega (
      arith,
      v.current u sh o,
      count-update-le (is_current u sh o) (is_current u sh o) w (commit_row_at now version)
          s.snapshots (λ a m h. not_other u sh o a m other h),
    )
  ]

  Held-after :
      (r : Snapshot) (f : FileRow)
      → Memᴰ r (update w (commit_row_at now version) s.snapshots)
      → Memᴰ f s.files
      → has_id f.snapshot_id r ≡ true
      → is_pending r.status ≡ false
      → Held s r.user_id f
  Held-after r f mr mf h p =
      let (q, k, e) = mem-update_inv w (commit_row_at now version) s.snapshots mr in
      elim (Bool-cases (w q)) [
        | inl y ↦
            let e' : r ≡ commit_row_at now version q = rw y at e in
            rw e' (held q f k mf y (rw e' at h))
        | inr n ↦ let e' : r ≡ q = rw n at e in rw e' (v.kept q f k mf (rw e' at h) (rw e' at p))
      ]

  pub install-IsValid : IsValid (with_rows s (update w (commit_row_at now version) s.snapshots))
  install-IsValid = record {
    ids = λ id. omega (
      arith,
      v.ids id,
      count-update-le (has_id id) (has_id id) w (commit_row_at now version) s.snapshots
          (λ a m h. ground arith),
    );
    current = current_after;
    owned = λ f m.
        any-update (has_id f.snapshot_id) w (commit_row_at now version) s.snapshots (λ a. refl)
        ∙ v.owned f m;
    stored = v.stored;
    kept = Held-after;
  }

-- After the older saves are retired, the game has no current save, and the invariant holds.
pub retire-IsValid :
    (auto_delete : Bool) (now : ℕ) (user shop object : String) (s : Store)
    → IsValid s
    → IsValid (retire auto_delete now user shop object s)
unfolding retire
retire-IsValid true now user shop object s v =
    Dropped-IsValid (older user shop object s) (drop_snapshots-Dropped _ s) v
retire-IsValid false now user shop object s v =
    demote-IsValid (is_current user shop object) now s v (λ r h. ground arith)

pub retire-vacant :
    (auto_delete : Bool) (now : ℕ) (user shop object : String) (s : Store)
    → count (is_current user shop object) (retire auto_delete now user shop object s).snapshots ≡ 0
unfolding retire
retire-vacant true now user shop object s =
    rw (drop_snapshots-Dropped l s).snapshots
      (count-zero (is_current user shop object) (delete (λ r. listed l r.id) s.snapshots) gone)
  where
    l : List Snapshot
    l = older user shop object s

    gone :
        (a : Snapshot)
        → Memᴰ a (delete (λ r. listed l r.id) s.snapshots)
        → is_current user shop object a ≡ false
    gone a m =
        let (k, q) = mem-delete_inv (λ r. listed l r.id) s.snapshots m in
        elim (Bool-cases (is_current user shop object a)) [
          | inr n ↦ n
          | inl y ↦ absurd (
              cc (
                q,
                any_of_mem (λ r. a.id == r.id) l
                    (mem-append_left (select (is_current user shop object) s.snapshots)
                      (select (is_kept user shop object) s.snapshots)
                      (mem-select (is_current user shop object) s.snapshots k y))
                    (str_refl a.id),
              ))
        ]
retire-vacant false now user shop object s = omega (
  arith,
  count-update-le (is_current user shop object) (λ r. false) (is_current user shop object)
      (supersede now) s.snapshots (λ a m h. ground arith),
  count-none s.snapshots,
)
