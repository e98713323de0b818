-- ===== src/CloudSaves/Conflict.antt =====
-- When `prepare_snapshot` answers that the save has changed on another device.
use hydra_server.Shared.{
  ℕ, String, ◌≡◌, ◌≢◌, ◌↔◌, refl, ap, sym, ◌∙◌, true, none, map, arith, Bool-cases, Option-cases,
  inl, inr, nat_eq_iff,
}
use hydra_server.Shared.Int.{pos}
use hydra_server.ApiError.{Result, ok, err}
use hydra_server.CloudSaves.State.{Store}
use hydra_server.CloudSaves.Request.{PrepareRequest, request_problem}
use hydra_server.CloudSaves.Gc.{sweep_stale_pending}
use hydra_server.CloudSaves.Prepare.{
  Checksum, PrepareResponse, prepare_snapshot, prepare_swept, register_snapshot, insert_snapshot,
  pending_row, file_row, answer_files, over_quota, incoming_bytes, conflict_error, current_version,
  is_version,
}
use hydra_server.CloudSaves.Prepared.{current_version-sweep, is_version-pos}
use hydra_server.CloudSaves.Invariant.{IsValid}

abbrev status_of : Result PrepareResponse → ℕ
status_of (ok resp) = 200
status_of (err e) = e.status

is_version-of : (n : ℕ) → is_version (pos n) n ≡ true
is_version-of n = ground (arith, nat_eq_iff n n)

module _ (checksum : Checksum) (now : ℕ) (id user : String) (r : PrepareRequest) (s : Store) where
  -- From the INSERT on, no answer is the conflict.
  register-status :
      (version : ℕ) → status_of (register_snapshot checksum now id user r version s).0 ≢ 409
  unfolding register_snapshot
  register-status version h =
      elim (Option-cases
        (insert_snapshot (pending_row now id user r version) (map (file_row id) r.files) s)) [
          | inl n ↦ let q : 500 ≡ 409 = rw (n, register_snapshot) at h in omega (arith, q)
          | inr (t, k) ↦ elim (Option-cases (answer_files checksum s now user r.files)) [
            | inl n ↦
                let q : 400 ≡ 409 = rw n at (rw (k, register_snapshot) at h) in omega (arith, q)
            | inr (l, a) ↦
                let q : 200 ≡ 409 = rw a at (rw (k, register_snapshot) at h) in omega (arith, q)
          ]
        ]

  swept-status :
      is_version r.base_version (current_version s.snapshots user r.shop r.object_id) ≡ true
      → status_of (prepare_swept checksum now id user r s).0 ≢ 409
  unfolding prepare_swept
  swept-status y h = elim (Bool-cases (over_quota s user (incoming_bytes s user r))) [
    | inl q ↦ let p : 413 ≡ 409 = rw q at (rw (y, prepare_swept) at h) in omega (arith, p)
    | inr q ↦ register-status _ (rw q at (rw (y, prepare_swept) at h))
  ]

  swept-conflict :
      ((prepare_swept checksum now id user r s).0 ≡ err conflict_error)
      ↔ (r.base_version ≢ pos (current_version s.snapshots user r.shop r.object_id))
  unfolding prepare_swept
  swept-conflict = (
    λ c b.
        swept-status (rw b (is_version-of (current_version s.snapshots user r.shop r.object_id)))
          (ap status_of c),
    λ b.
        elim (Bool-cases
          (is_version r.base_version (current_version s.snapshots user r.shop r.object_id))) [
            | inl y ↦ absurd (b (is_version-pos r.base_version _ y))
            | inr n ↦ rw (n, prepare_swept) refl
          ],
  )

-- From tables in order, a request that passes the checks of its fields is answered with the conflict
-- exactly where its base version is not the version of the game's current save.
pub prepare_snapshot-conflict :
    (checksum : Checksum) (now : ℕ) (id user : String) (r : PrepareRequest) (s : Store)
    → IsValid s
    → request_problem r ≡ none
    → ((prepare_snapshot checksum now id user r s).0 ≡ err conflict_error)
      ↔ (r.base_version ≢ pos (current_version s.snapshots user r.shop r.object_id))
unfolding prepare_snapshot
prepare_snapshot-conflict checksum now id user r s v n =
    let w = sweep_stale_pending now user s in
    let same = current_version-sweep now user user r.shop r.object_id s v in
    let run : prepare_snapshot checksum now id user r s ≡ prepare_swept checksum now id user r w =
      rw (n, prepare_snapshot) refl in
    let c = swept-conflict checksum now id user r w in
    (
      λ e. rw same at (c.0 (ap (λ (x : Result PrepareResponse × Store). x.0) (sym run) ∙ e)),
      λ b. ap (λ (x : Result PrepareResponse × Store). x.0) run ∙ c.1 (rw (← same) at b),
    )
