-- ===== src/CloudSaves/Prepared.antt =====
-- What `prepare_snapshot` does on its branches.
use hydra_server.Shared.{
  ℕ, String, ◌+◌, ◌-◌, ◌≡◌, ap, sym, ◌∙◌, true, false, some, some-injective, List, [], ◌∷◌, ◌++◌,
  map, Memᴰ, arith, ◌==◌, str-eq, select, delete, first, any, inl, inr, nat_eq_iff, Bool-cases,
  Option-cases, mem-select_inv, mem_of_any, first-delete, unique_of_count,
}
use hydra_server.Shared.Int.{ℤ, pos, negsuc}
use hydra_server.ApiError.{Result, ok, ok-injective}
use hydra_server.CloudSaves.State.{is_pending, Snapshot, Store, is_current, has_id}
use hydra_server.CloudSaves.Request.{FileInput, PrepareRequest}
use hydra_server.CloudSaves.Gc.{
  sweep_stale_pending, drop_snapshots, is_stale, is_empty, pending_snapshot_ttl,
}
use hydra_server.CloudSaves.Gc.Keeps.{listed, drop_snapshots-Dropped, collect-SameRows}
use hydra_server.CloudSaves.Prepare.{
  Checksum, PrepareResponse, prepare_swept, register_snapshot, insert_snapshot, pending_row,
  file_row, answer_files, current_version, is_version, over_quota, incoming_bytes,
}
use hydra_server.CloudSaves.Invariant.{IsValid}

abbrev stale : ℕ → String → Store → List Snapshot
stale now user s = select (is_stale (now - pending_snapshot_ttl) user) s.snapshots

-- The rows that the sweep leaves.
sweep-snapshots :
    (now : ℕ) (user : String) (s : Store)
    → (sweep_stale_pending now user s).snapshots
      ≡ delete (λ r. listed (stale now user s) r.id) s.snapshots
unfolding sweep_stale_pending
sweep-snapshots now user s = elim (Bool-cases (is_empty (stale now user s))) [
  | inl e ↦ rw e (drop_snapshots-Dropped (stale now user s) s).snapshots
  | inr e ↦ rw e (
      (collect-SameRows user (drop_snapshots (stale now user s) s)).snapshots
      ∙ (drop_snapshots-Dropped (stale now user s) s).snapshots)
]

-- The sweep takes no current save, so the version check reads the version that was there.
pub first-sweep :
    (now : ℕ) (user u sh o : String) (s : Store)
    → IsValid s
    → first (is_current u sh o) (sweep_stale_pending now user s).snapshots
      ≡ first (is_current u sh o) s.snapshots
first-sweep now user u sh o s v =
    rw (sweep-snapshots now user s)
      (first-delete (is_current u sh o) (λ r. listed (stale now user s) r.id) s.snapshots kept)
  where
    kept :
        (r : Snapshot)
        → Memᴰ r s.snapshots
        → is_current u sh o r ≡ true
        → listed (stale now user s) r.id ≡ false
    kept r m h = elim (Bool-cases (listed (stale now user s) r.id)) [
      | inr n ↦ n
      | inl y ↦
          let (q, k, e) = mem_of_any (λ (x : Snapshot). r.id == x.id) (stale now user s) y in
          let (mq, p) = mem-select_inv (is_stale (now - pending_snapshot_ttl) user) s.snapshots k in
          let i : q ≡ r =
            unique_of_count (has_id r.id) s.snapshots (v.ids r.id) mq m
              (ground (arith, str-eq r.id q.id, str-eq q.id r.id))
              (ground (arith, str-eq r.id r.id)) in
          let pend : is_pending r.status ≡ true = rw (← i) (ground arith) in absurd (ground arith)
    ]

pub current_version-sweep :
    (now : ℕ) (user u sh o : String) (s : Store)
    → IsValid s
    → current_version (sweep_stale_pending now user s).snapshots u sh o
      ≡ current_version s.snapshots u sh o
unfolding current_version
current_version-sweep now user u sh o s v = rw (first-sweep now user u sh o s v, current_version)

pub is_version-pos : (z : ℤ) (n : ℕ) → is_version z n ≡ true → z ≡ pos n
is_version-pos (pos m) n h = ground (arith, nat_eq_iff m n)
is_version-pos (negsuc m) n h = cc

-- What a store is after the pending row and its manifest went in.
pub record Registered (id : String) (row : Snapshot) (inputs : List FileInput) (s t : Store)
    : Type 0 where
  pub snapshots : t.snapshots ≡ s.snapshots ++ row ∷ []
  pub files : t.files ≡ s.files ++ map (file_row id) inputs
  pub blobs : t.blobs ≡ s.blobs
  pub disk : t.disk ≡ s.disk
  pub fresh : any (has_id row.id) s.snapshots ≡ false

insert_snapshot-some :
    (id : String) (row : Snapshot) (inputs : List FileInput) (s t : Store)
    → insert_snapshot row (map (file_row id) inputs) s ≡ some t
    → Registered id row inputs s t
unfolding insert_snapshot
insert_snapshot-some id row inputs s t e = elim (Bool-cases (any (has_id row.id) s.snapshots)) [
  | inl y ↦ absurd (ground arith)
  | inr n ↦
      let p = some-injective _ _ (rw n at e) in
      record {
        snapshots = sym (ap (λ (x : Store). x.snapshots) p);
        files = sym (ap (λ (x : Store). x.files) p);
        blobs = sym (ap (λ (x : Store). x.blobs) p);
        disk = sym (ap (λ (x : Store). x.disk) p);
        fresh = n;
      }
]

-- The parts of a request that went through, from the store that the sweep left.
pub record Accepted (checksum : Checksum) (now : ℕ) (id user : String) (r : PrepareRequest)
    (s t : Store) (resp : PrepareResponse) : Type 0 where
  pub version : r.base_version ≡ pos (current_version s.snapshots user r.shop r.object_id)
  pub room : over_quota s user (incoming_bytes s user r) ≡ false
  pub rows :
      Registered id
        (pending_row now id user r (current_version s.snapshots user r.shop r.object_id + 1))
        r.files
        s
        t
  pub answer : answer_files checksum s now user r.files ≡ some resp.files
  pub named : resp.pending_snapshot_id ≡ id

register_snapshot-ok :
    (checksum : Checksum) (now : ℕ) (id user : String) (r : PrepareRequest) (version : ℕ)
    (s t : Store) (resp : PrepareResponse)
    → register_snapshot checksum now id user r version s ≡ (ok resp, t)
    → Registered id (pending_row now id user r version) r.files s t
      × (answer_files checksum s now user r.files ≡ some resp.files)
      × (resp.pending_snapshot_id ≡ id)
unfolding register_snapshot
register_snapshot-ok checksum now id user r version s t resp e =
    elim (Option-cases (insert_snapshot row (map (file_row id) r.files) s)) [
      | inl n ↦
          absurd
            (cc (ap (λ (x : Result PrepareResponse × Store). x.0) (rw (n, register_snapshot) at e)))
      | inr (u, y) ↦ elim (Option-cases (answer_files checksum s now user r.files)) [
        | inl n ↦ absurd (
            cc (
              ap (λ (x : Result PrepareResponse × Store). x.0)
                (rw n at (rw (y, register_snapshot) at e))))
        | inr (l, k) ↦
            let p = rw k at (rw (y, register_snapshot) at e) in
            let a = ok-injective (ap (λ (x : Result PrepareResponse × Store). x.0) p) in
            let b = ap (λ (x : Result PrepareResponse × Store). x.1) p in
            (
              insert_snapshot-some id row r.files s t (y ∙ ap (λ (x : Store). some x) b),
              k ∙ ap (λ (x : PrepareResponse). some x.files) a,
              sym (ap (λ (x : PrepareResponse). x.pending_snapshot_id) a),
            )
      ]
    ]
  where
    row : Snapshot
    row = pending_row now id user r version

pub prepare_swept-ok :
    (checksum : Checksum) (now : ℕ) (id user : String) (r : PrepareRequest) (s t : Store)
    (resp : PrepareResponse)
    → prepare_swept checksum now id user r s ≡ (ok resp, t)
    → Accepted checksum now id user r s t resp
unfolding prepare_swept
prepare_swept-ok checksum now id user r s t resp e =
    elim (Bool-cases (is_version r.base_version version)) [
      | inr n ↦ absurd (cc (ap (λ (x : Result PrepareResponse × Store). x.0) (rw n at e)))
      | inl y ↦ elim (Bool-cases (over_quota s user (incoming_bytes s user r))) [
        | inl q ↦
            absurd (cc (ap (λ (x : Result PrepareResponse × Store). x.0) (rw q at (rw y at e))))
        | inr q ↦
            let (rows, answer, named) =
              register_snapshot-ok checksum now id user r (version + 1) s t resp
                (rw q at (rw y at e)) in
            record {
              version = is_version-pos r.base_version version y;
              room = q;
              rows = rows;
              answer = answer;
              named = named;
            }
      ]
    ]
  where
    version : ℕ
    version = current_version s.snapshots user r.shop r.object_id
