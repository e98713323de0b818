-- ===== src/CloudSaves/Invariant/Retained.antt =====
-- The transactions on retained versions keep the invariant from any valid store, whatever ran
-- between them and the row that their handler read; so do the handlers.
use hydra_server.Shared.{
  ℕ, String, ◌≡◌, sym, ap, some, some-injective, arith, inl, inr, delete, update, count, first, any,
  nat_eq, nat_eq_iff, str-eq, Bool-cases, Option-cases, mem-delete_inv, mem-delete, mem_of_any,
  any_of_mem, count-select-le, count-zero_of_any,
}
use hydra_server.CloudSaves.State.{is_retained, Store, has_id, is_current, file_of}
use hydra_server.CloudSaves.Commit.{supersede}
use hydra_server.CloudSaves.Manage.{
  delete_snapshot, delete_checked, delete_tx, restore_tx, next_version, is_retained_of, is_owned,
}
use hydra_server.CloudSaves.Invariant.{IsValid, event-IsValid, collect-IsValid}
use hydra_server.CloudSaves.Invariant.Replace.{with_rows, commit_row_at}

abbrev without_version : String → String → Store → Store
without_version user id s = record s {
  files = delete (file_of id) s.files;
  snapshots = delete (is_retained_of user id) s.snapshots;
}

without_version-IsValid :
    (user id : String) (s : Store) → IsValid s → IsValid (without_version user id s)
without_version-IsValid user id s v = record {
  ids = λ i. omega (arith, v.ids i, count-select-le (has_id i) _ s.snapshots);
  current =
      λ u sh o. omega (arith, v.current u sh o, count-select-le (is_current u sh o) _ s.snapshots);
  owned = λ f m.
      let (mf, q) = mem-delete_inv (file_of id) s.files m in
      let (r, mr, e) = mem_of_any (has_id f.snapshot_id) s.snapshots (v.owned f mf) in
      any_of_mem (has_id f.snapshot_id) (delete (is_retained_of user id) s.snapshots)
        (mem-delete (is_retained_of user id) s.snapshots mr
          (ground (arith, str-eq r.id f.snapshot_id, str-eq r.id id, str-eq f.snapshot_id id)))
        e;
  stored = v.stored;
  kept = λ r f mr mf h p.
      v.kept r f (mem-delete_inv (is_retained_of user id) s.snapshots mr).0
        (mem-delete_inv (file_of id) s.files mf).0 h p;
}

-- A transaction that goes through took out one retained version and its files.
pub delete_tx-some :
    (user id : String) (s t : Store) → delete_tx user id s ≡ some t → t ≡ without_version user id s
unfolding delete_tx
delete_tx-some user id s t e =
    elim (Bool-cases (nat_eq (count (is_retained_of user id) s.snapshots) 1)) [
      | inr n ↦ absurd (ground arith)
      | inl y ↦ elim (Bool-cases (any (is_retained_of user id) s.snapshots)) [
        | inr n ↦ absurd (ground (arith, count-zero_of_any (is_retained_of user id) s.snapshots n))
        | inl a ↦ sym (some-injective _ _ (rw (y, a) at e))
      ]
    ]

pub delete_tx-IsValid :
    (user id : String) (s t : Store) → delete_tx user id s ≡ some t → IsValid s → IsValid t
delete_tx-IsValid user id s t e v =
    rw (delete_tx-some user id s t e) (without_version-IsValid user id s v)

pub delete_snapshot-IsValid :
    (user id : String) (s : Store) → IsValid s → IsValid (delete_snapshot user id s).1
unfolding delete_snapshot
delete_snapshot-IsValid user id s v = elim (Option-cases (first (is_owned user id) s.snapshots)) [
  | inl e ↦ rw (e, delete_snapshot) v
  | inr (r, e) ↦ elim (Bool-cases (is_retained r.status)) [
    | inr n ↦ rw (e, delete_snapshot) (rw n v)
    | inl y ↦ elim (Option-cases (delete_tx user id s)) [
      | inl c ↦ rw (e, delete_snapshot) (rw y (rw (c, delete_checked) v))
      | inr (t, c) ↦
          rw (e, delete_snapshot)
            (rw y (
              rw (c, delete_checked)
                (event-IsValid _ (collect-IsValid user (delete_tx-IsValid user id s t c v)))))
    ]
  ]
]

-- The rows after the current save was demoted.
abbrev pub demoted : ℕ → String → String → String → Store → Store
demoted now user shop object s =
    with_rows s (update (is_current user shop object) (supersede now) s.snapshots)

abbrev pub restored : ℕ → String → String → String → String → Store → Store
restored now user shop object id s =
    let version = next_version user shop object s in
    with_rows s (
      update (is_retained_of user id) (commit_row_at now (λ r. version))
        (demoted now user shop object s).snapshots)

pub restore_tx-some :
    (now : ℕ) (user shop object id : String) (s t : Store) (version : ℕ)
    → restore_tx now user shop object id s ≡ some (version, t)
    → (version ≡ next_version user shop object s)
      × (t ≡ restored now user shop object id s)
      × (count (is_retained_of user id) (demoted now user shop object s).snapshots ≡ 1)
unfolding restore_tx
restore_tx-some now user shop object id s t version e =
    elim (Bool-cases
      (nat_eq (count (is_retained_of user id) (demoted now user shop object s).snapshots) 1)) [
        | inr n ↦ absurd (ground arith)
        | inl y ↦
            let p = some-injective _ _ (rw y at e) in
            (
              sym (ap (λ (q : ℕ × Store). q.0) p),
              sym (ap (λ (q : ℕ × Store). q.1) p),
              (nat_eq_iff _ 1).0 y,
            )
      ]
