-- ===== src/CloudSaves/Restoring.antt =====
-- The run of `restore_snapshot` on a retained version, step by step.
use hydra_server.Shared.{
  ℕ, String, ◌≤◌, ◌<◌, ◌≡◌, refl, true, false, some, List, [], ◌∷◌, Memᴰ, arith, ◌==◌, str_refl,
  select, count, count_mono, count-update-le, count-pos_of_mem, first, nat_eq_iff, inl, inr,
  Bool-cases, mem-update, mem-select, first-some_of_unique, unique_of_count,
}
use hydra_server.ApiError.{ok}
use hydra_server.CloudSaves.State.{is_retained, Snapshot, Store, is_current, of_game, has_id}
use hydra_server.CloudSaves.Commit.{CommitResponse, supersede}
use hydra_server.CloudSaves.Manage.{
  restore_snapshot, restore_checked, restore_tx, restore, next_version, max_version, is_retained_of,
  is_owned,
}
use hydra_server.CloudSaves.Invariant.{IsValid}
use hydra_server.CloudSaves.Invariant.Retained.{demoted, restored}
use hydra_server.CloudSaves.Invariant.Restores.{restore_snapshot-IsValid}

version-le-max : (r : Snapshot) (l : List Snapshot) → Memᴰ r l → r.version ≤ max_version l
unfolding max_version
version-le-max r [] m = elim m [ ]
version-le-max r (q ∷ l) (Memᴰ.head e) = rw e (ground arith)
version-le-max r (q ∷ l) (Memᴰ.tail m) = ground (arith, version-le-max r l m)

-- The new version is past every version of the game.
pub next_version-newest :
    (user shop object : String) (q : Snapshot) (s : Store)
    → Memᴰ q s.snapshots
    → of_game user shop object q ≡ true
    → q.version < next_version user shop object s
unfolding next_version
next_version-newest user shop object q s m h = omega (
  arith,
  version-le-max q (select (of_game user shop object) s.snapshots)
      (mem-select (of_game user shop object) s.snapshots m h),
)

module _ (now : ℕ) (r : Snapshot) (s : Store) (v : IsValid s) (m : Memᴰ r s.snapshots)
    (kept : is_retained r.status ≡ true) where
  unfoldable pub version : ℕ
  version = next_version r.user_id r.shop r.object_id s

  unfoldable pub after : Store
  after = restored now r.user_id r.shop r.object_id r.id s

  found : first (is_owned r.user_id r.id) s.snapshots ≡ some r
  found =
      first-some_of_unique (is_owned r.user_id r.id) s.snapshots
        (omega (
          arith,
          v.ids r.id,
          count_mono (is_owned r.user_id r.id) (has_id r.id) s.snapshots (λ a h. ground arith),
        ))
        m (ground (arith, str_refl r.id, str_refl r.user_id))

  not_current : is_current r.user_id r.shop r.object_id r ≡ false
  not_current = ground arith

  still_there : Memᴰ r (demoted now r.user_id r.shop r.object_id s).snapshots
  still_there =
      rw not_current at
        (mem-update (is_current r.user_id r.shop r.object_id) (supersede now) s.snapshots m)

  one :
      count (is_retained_of r.user_id r.id) (demoted now r.user_id r.shop r.object_id s).snapshots
      ≡ 1
  one = omega (
    arith,
    count-pos_of_mem (is_retained_of r.user_id r.id)
        (demoted now r.user_id r.shop r.object_id s).snapshots still_there
        (ground (arith, str_refl r.id, str_refl r.user_id)),
    v.ids r.id,
    count-update-le (is_retained_of r.user_id r.id) (has_id r.id)
        (is_current r.user_id r.shop r.object_id) (supersede now) s.snapshots
        (λ a k h. ground arith),
  )

  tx : restore_tx now r.user_id r.shop r.object_id r.id s ≡ some (version, after)
  unfolding restore_tx version after
  tx = rw ((nat_eq_iff _ 1).1 one)

  unfoldable pub response : CommitResponse
  response = record {
    snapshot_id = r.id;
    version = version;
    file_count = r.file_count;
    total_size = r.total_size;
    aggregate_hash = r.aggregate_hash;
  }

  pub run-ok : (restore_snapshot now r.user_id r.id s).0 ≡ ok response
  unfolding restore_snapshot response
  run-ok = rw (found, restore_snapshot) (rw kept (rw (tx, restore_checked)))

  pub run-after :
      ((restore_snapshot now r.user_id r.id s).1.snapshots ≡ after.snapshots)
      × ((restore_snapshot now r.user_id r.id s).1.files ≡ s.files)
      × ((restore_snapshot now r.user_id r.id s).1.blobs ≡ s.blobs)
      × ((restore_snapshot now r.user_id r.id s).1.disk ≡ s.disk)
  unfolding restore_snapshot after
  run-after =
      rw (found, restore_snapshot) (rw kept (rw (tx, restore_checked) (refl, refl, refl, refl)))

  restored_row : Memᴰ (restore now version r) (restore_snapshot now r.user_id r.id s).1.snapshots
  unfolding after version
  restored_row =
      let y : is_retained_of r.user_id r.id r ≡ true =
        ground (arith, str_refl r.id, str_refl r.user_id) in
      rw run-after.0 (
        rw y at (mem-update (is_retained_of r.user_id r.id) (restore now version) rows still_there))
    where
      rows : List Snapshot
      rows = (demoted now r.user_id r.shop r.object_id s).snapshots

  pub current-run :
      first
        (is_current r.user_id r.shop r.object_id)
        (restore_snapshot now r.user_id r.id s).1.snapshots
      ≡ some (restore now version r)
  current-run =
      first-some_of_unique (is_current r.user_id r.shop r.object_id)
        (restore_snapshot now r.user_id r.id s).1.snapshots
        ((restore_snapshot-IsValid now r.user_id r.id s v).current r.user_id r.shop r.object_id)
        restored_row (ground (arith, str_refl r.user_id, str_refl r.shop, str_refl r.object_id))

  pub replaced-run :
      (q : Snapshot)
      → Memᴰ q s.snapshots
      → is_current r.user_id r.shop r.object_id q ≡ true
      → Memᴰ (supersede now q) (restore_snapshot now r.user_id r.id s).1.snapshots
  unfolding after
  replaced-run q k h =
      let here =
        rw h at
          (mem-update (is_current r.user_id r.shop r.object_id) (supersede now) s.snapshots k) in
      rw run-after.0 (
        rw other at (
          mem-update (is_retained_of r.user_id r.id)
            (restore now (next_version r.user_id r.shop r.object_id s))
            (demoted now r.user_id r.shop r.object_id s).snapshots here))
    where
      other : is_retained_of r.user_id r.id (supersede now q) ≡ false
      other = elim (Bool-cases (q.id == r.id)) [
        | inr n ↦ rw n
        | inl y ↦
            let e : q ≡ r =
              unique_of_count (has_id r.id) s.snapshots (v.ids r.id) k m y (str_refl r.id) in
            let kept' : is_retained q.status ≡ true = rw e kept in absurd (ground arith)
      ]
