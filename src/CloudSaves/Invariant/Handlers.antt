-- ===== src/CloudSaves/Invariant/Handlers.antt =====
-- `prepare_snapshot`, the deletes and the restore keep the invariant. The transactions do so from
-- any valid store, whatever ran between them and the row that the handler read.
use hydra_server.Shared.{
  ℕ, String, ◌+◌, ◌-◌, refl, List, map, inl, inr, select, Bool-cases, Option-cases,
}
use hydra_server.CloudSaves.State.{Snapshot, Store, of_game}
use hydra_server.CloudSaves.Request.{PrepareRequest, request_problem, valid_shop}
use hydra_server.CloudSaves.Gc.{
  drop_snapshots, sweep_stale_pending, is_empty, is_stale, pending_snapshot_ttl,
}
use hydra_server.CloudSaves.Gc.Keeps.{drop_snapshots-Dropped}
use hydra_server.CloudSaves.Prepare.{
  Checksum, prepare_snapshot, prepare_swept, register_snapshot, insert_snapshot, pending_row,
  file_row, answer_files, current_version, is_version, over_quota, incoming_bytes,
}
use hydra_server.CloudSaves.Manage.{delete_snapshots}
use hydra_server.CloudSaves.Invariant.{IsValid, event-IsValid, collect-IsValid, Dropped-IsValid}
use hydra_server.CloudSaves.Invariant.Register.{insert-IsValid}

pub sweep-IsValid :
    (now : ℕ) (user : String) (s : Store) → IsValid s → IsValid (sweep_stale_pending now user s)
unfolding sweep_stale_pending
sweep-IsValid now user s v = elim (Bool-cases (is_empty stale)) [
  | inl e ↦ rw e swept
  | inr e ↦ rw e (collect-IsValid user swept)
]
  where
    stale : List Snapshot
    stale = select (is_stale (now - pending_snapshot_ttl) user) s.snapshots

    swept : IsValid (drop_snapshots stale s)
    swept = Dropped-IsValid stale (drop_snapshots-Dropped stale s) v

register_snapshot-IsValid :
    (checksum : Checksum) (now : ℕ) (id user : String) (r : PrepareRequest) (version : ℕ)
    (s : Store)
    → IsValid s
    → IsValid (register_snapshot checksum now id user r version s).1
unfolding register_snapshot pending_row
register_snapshot-IsValid checksum now id user r version s v =
    elim (Option-cases (insert_snapshot row (map (file_row id) r.files) s)) [
      | inl e ↦ rw (e, register_snapshot) v
      | inr (t, e) ↦ elim (Option-cases (answer_files checksum s now user r.files)) [
        | inl c ↦ rw (e, register_snapshot) (rw c (insert-IsValid row r.files refl e v))
        | inr (l, c) ↦ rw (e, register_snapshot) (rw c (insert-IsValid row r.files refl e v))
      ]
    ]
  where
    row : Snapshot
    row = pending_row now id user r version

pub prepare_snapshot-IsValid :
    (checksum : Checksum) (now : ℕ) (id user : String) (r : PrepareRequest) (s : Store)
    → IsValid s
    → IsValid (prepare_snapshot checksum now id user r s).1
unfolding prepare_snapshot prepare_swept
prepare_snapshot-IsValid checksum now id user r s v = elim (Option-cases (request_problem r)) [
  | inr (m, e) ↦ rw (e, prepare_snapshot) v
  | inl e ↦ rw (e, prepare_snapshot) checked
]
  where
    t : Store
    t = sweep_stale_pending now user s

    tv : IsValid t
    tv = sweep-IsValid now user s v

    version : ℕ
    version = current_version t.snapshots user r.shop r.object_id

    checked : IsValid (prepare_swept checksum now id user r t).1
    checked = elim (Bool-cases (is_version r.base_version version)) [
      | inr e ↦ rw e (event-IsValid _ tv)
      | inl e ↦ elim (Bool-cases (over_quota t user (incoming_bytes t user r))) [
        | inl q ↦ rw e (rw q (event-IsValid _ tv))
        | inr q ↦ rw e (rw q (register_snapshot-IsValid checksum now id user r (version + 1) t tv))
      ]
    ]

pub delete_snapshots-IsValid :
    (user shop object : String) (s : Store)
    → IsValid s
    → IsValid (delete_snapshots user shop object s).1
unfolding delete_snapshots
delete_snapshots-IsValid user shop object s v = elim (Bool-cases (valid_shop shop)) [
  | inr e ↦ rw e v
  | inl e ↦
      let l = select (of_game user shop object) s.snapshots in
      rw e
        (event-IsValid _ (collect-IsValid user (Dropped-IsValid l (drop_snapshots-Dropped l s) v)))
]
