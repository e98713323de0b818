-- ===== src/CloudSaves/Invariant/Restores.antt =====
-- The transaction and the handler of a restore keep the invariant.
use hydra_server.Shared.{
  ℕ, String, ◌≡◌, true, false, some, Memᴰ, arith, inl, inr, first, str-eq, str_refl, Bool-cases,
  Option-cases, first-some_inv, unique_of_count,
}
use hydra_server.CloudSaves.State.{is_retained, Snapshot, FileRow, Store, has_id, of_game}
use hydra_server.CloudSaves.Commit.{retire}
use hydra_server.CloudSaves.Manage.{
  restore_snapshot, restore_checked, restore_tx, next_version, is_retained_of, is_owned,
}
use hydra_server.CloudSaves.Invariant.{IsValid, Held, event-IsValid}
use hydra_server.CloudSaves.Invariant.Commits.{retire-Fewer}
use hydra_server.CloudSaves.Invariant.Retained.{demoted, restore_tx-some}
use hydra_server.CloudSaves.Invariant.Replace.{install-IsValid, retire-IsValid, retire-vacant}

pub restore_tx-IsValid :
    (now : ℕ) (user shop object id : String) (s t : Store) (version : ℕ)
    → restore_tx now user shop object id s ≡ some (version, t)
    → ((q : Snapshot) → Memᴰ q s.snapshots → has_id id q ≡ true → of_game user shop object q ≡ true)
    → IsValid s
    → IsValid t
unfolding retire
restore_tx-IsValid now user shop object id s t version e game v =
    let (p, q, one) = restore_tx-some now user shop object id s t version e in
    rw q (
      install-IsValid user shop object (is_retained_of user id) now
        (λ r. next_version user shop object s) d dv (retire-vacant false now user shop object s)
        (omega (arith, one)) in_game held)
  where
    d : Store
    d = demoted now user shop object s

    dv : IsValid d
    dv = retire-IsValid false now user shop object s v

    in_game :
        (r : Snapshot)
        → Memᴰ r d.snapshots
        → is_retained_of user id r ≡ true
        → of_game user shop object r ≡ true
    in_game r m h =
        let (a, k, x) = (retire-Fewer false now user shop object s).rows r m in
        let i : r.id ≡ id = ground (arith, str-eq r.id id) in
        rw x.1 (rw x.2 (rw x.3 (game a k (ground (arith, str-eq a.id id)))))

    held :
        (r : Snapshot) (f : FileRow)
        → Memᴰ r d.snapshots
        → Memᴰ f d.files
        → is_retained_of user id r ≡ true
        → has_id f.snapshot_id r ≡ true
        → Held d r.user_id f
    held r f mr mf h k = dv.kept r f mr mf k (ground arith)

-- In a valid store one row has the id, so its game is the game of all.
pub same_game :
    (user id : String) (r : Snapshot) (s : Store)
    → IsValid s
    → first (is_owned user id) s.snapshots ≡ some r
    → (q : Snapshot) → Memᴰ q s.snapshots
    → has_id id q ≡ true
    → of_game user r.shop r.object_id q ≡ true
same_game user id r s v e q m h =
    let (k, o) = first-some_inv (is_owned user id) s.snapshots e in
    let p : q ≡ r = unique_of_count (has_id id) s.snapshots (v.ids id) m k h (ground arith) in
    rw p (ground (arith, str_refl r.shop, str_refl r.object_id))

pub restore_snapshot-IsValid :
    (now : ℕ) (user id : String) (s : Store)
    → IsValid s
    → IsValid (restore_snapshot now user id s).1
unfolding restore_snapshot
restore_snapshot-IsValid now user id s v =
    elim (Option-cases (first (is_owned user id) s.snapshots)) [
      | inl e ↦ rw (e, restore_snapshot) v
      | inr (r, e) ↦ elim (Bool-cases (is_retained r.status)) [
        | inr n ↦ rw (e, restore_snapshot) (rw n v)
        | inl y ↦ elim (Option-cases (restore_tx now user r.shop r.object_id id s)) [
          | inl c ↦ rw (e, restore_snapshot) (rw y (rw (c, restore_checked) v))
          | inr ((version, t), c) ↦
              rw (e, restore_snapshot)
                (rw y (
                  rw (c, restore_checked)
                    (event-IsValid _ (
                      restore_tx-IsValid now user r.shop r.object_id id s t version c
                        (same_game user id r s v e) v))))
        ]
      ]
    ]
