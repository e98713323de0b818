-- ===== src/CloudSaves/Races.antt =====
-- Commits that meet: two uploads from one version, and one upload committed twice.
use hydra_server.Shared.{
  ℕ, String, ◌≡◌, ◌≢◌, ◌∙◌, ◌⊎◌, Bool, true, false, none, some, List, Memᴰ, arith, ◌==◌, str-eq,
  str_refl, str-ne, if◌then◌else◌, select, update, first, inl, inr, Bool-cases, Option-cases,
  mem-update, mem-update_inv, mem-select, mem-delete_inv, mem-append_left, any_of_mem,
  first-some_inv, count-pos_of_mem,
}
use hydra_server.ApiError.{ok}
use hydra_server.CloudSaves.State.{
  is_pending, Snapshot, FileRow, Store, is_current, of_game, has_id,
}
use hydra_server.CloudSaves.Gc.Keeps.{listed, drop_snapshots-Dropped}
use hydra_server.CloudSaves.Commit.{
  commit_response, commit_snapshot, commit_tx, retire, older, promote, is_pending_of,
}
use hydra_server.CloudSaves.Invariant.{IsValid, referenced_of}
use hydra_server.CloudSaves.Invariant.Commits.{commit_snapshot-IsValid, retire-Fewer}
use hydra_server.CloudSaves.Invariant.Loop.{BlobsAdded-IsValid}
use hydra_server.CloudSaves.Invariant.Replace.{retire-vacant}
use hydra_server.CloudSaves.Committed.{Arrived, retire-keeps}
use hydra_server.CloudSaves.CommitLaws.{commit_snapshot-ok}
use hydra_server.CloudSaves.Committing

-- Two commits of one pending snapshot may both have read it before either runs its transaction.
-- Where the account lets the server delete older saves, the second transaction then takes the save
-- that the first put in place for an older one, and the game is left with no current save at all.
-- (The tables are in order before the first.)
pub commit_tx-twice :
    (now later : ℕ) (user shop object : String) (r : Snapshot) (s : Store)
    → IsValid s
    → Memᴰ r s.snapshots
    → is_pending r.status ≡ true
    → of_game user shop object r ≡ true
    → first
        (is_current user shop object)
        (commit_tx true later user shop object r.id
          (commit_tx true now user shop object r.id s)).snapshots
      ≡ none
unfolding commit_tx retire
commit_tx-twice now later user shop object r s v m p g =
    elim (Option-cases (first (is_current user shop object) final)) [
      | inl n ↦ n
      | inr (a, y) ↦
          let (k, c) = first-some_inv (is_current user shop object) final y in
          let (b, kb, e) = mem-update_inv (has_id r.id) (promote later) rest.snapshots k in
          absurd (gone b kb (Bool-cases (has_id r.id b)) (rw e at c))
    ]
  where
    once : Store
    once = commit_tx true now user shop object r.id s

    rest : Store
    rest = retire true later user shop object once

    final : List Snapshot
    final = update (has_id r.id) (promote later) rest.snapshots

    promoted : Memᴰ (promote now r) once.snapshots
    promoted = rw (str_refl r.id) at (
        mem-update (has_id r.id) (promote now) (retire true now user shop object s).snapshots
          (retire-keeps true now user shop object r s v m p))

    old : listed (older user shop object once) r.id ≡ true
    old =
        any_of_mem (λ (q : Snapshot). r.id == q.id) (older user shop object once)
          (mem-append_left (select (is_current user shop object) once.snapshots) _
            (mem-select (is_current user shop object) once.snapshots promoted (ground arith)))
          (str_refl r.id)

    gone :
        (b : Snapshot)
        → Memᴰ b rest.snapshots
        → (has_id r.id b ≡ true) ⊎ (has_id r.id b ≡ false)
        → is_current user shop object (if has_id r.id b then promote later b else b) ≡ true
        → ⊥
    gone b k (inl h) c =
        let d = drop_snapshots-Dropped (older user shop object once) once in
        let (x, q) =
          mem-delete_inv (λ (z : Snapshot). listed (older user shop object once) z.id)
            once.snapshots (rw d.snapshots at k) in
        let i : b.id ≡ r.id = (str-eq b.id r.id).0 h in cc (old, rw i at q)
    gone b k (inr n) c = omega (
      arith,
      count-pos_of_mem (is_current user shop object) rest.snapshots k (rw n at c),
      retire-vacant true later user shop object once,
    )

-- The store after one of two pending snapshots was committed.
module _ (now : ℕ) (r q : Snapshot) (s : Store) (v : IsValid s) (m : Memᴰ r s.snapshots)
    (p : is_pending r.status ≡ true) (arrived : Arrived s r.user_id r.id) (k : Memᴰ q s.snapshots)
    (pq : is_pending q.status ≡ true) (apart : q.id ≢ r.id) where
  abbrev registered : Store
  registered = Committing.registered now r s v m p arrived

  abbrev auto_delete : Bool
  auto_delete = Committing.auto_delete now r s v m p arrived

  abbrev retired : Store
  retired = retire auto_delete now r.user_id r.shop r.object_id registered

  abbrev first_done : Store
  first_done = (commit_snapshot now r.user_id r.id s).1

  in_tx : Memᴰ q (Committing.committed_store now r s v m p arrived).snapshots
  unfolding commit_tx Committing.committed_store
  in_tx =
      let a = Committing.added now r s v m p arrived in
      let here =
        retire-keeps auto_delete now r.user_id r.shop r.object_id q registered
          (BlobsAdded-IsValid a v) (rw a.snapshots k) pq in
      rw (str-ne q.id r.id apart) at (mem-update (has_id r.id) (promote now) retired.snapshots here)

  still_pending : Memᴰ q first_done.snapshots
  unfolding Committing.committed_store
  still_pending = rw (Committing.run-snapshots now r s v m p arrived) in_tx

  same_files :
      (f : FileRow)
      → Memᴰ f (Committing.committed_store now r s v m p arrived).files
      → Memᴰ f s.files
  unfolding commit_tx Committing.committed_store
  same_files f n =
      let a = Committing.added now r s v m p arrived in
      rw a.files at
        ((retire-Fewer auto_delete now r.user_id r.shop r.object_id registered).files f n)

  still-Arrived : Arrived s q.user_id q.id → Arrived first_done q.user_id q.id
  still-Arrived all f n o =
      let n' = rw (Committing.run-files now r s v m p arrived) at n in
      Committing.run-disk now r s v m p arrived q.user_id f.hash (
        referenced_of q f (Committing.committed_store now r s v m p arrived) in_tx n'
          (ground (arith, str-eq f.snapshot_id q.id, str-eq q.id f.snapshot_id)))
      ∙ all f (same_files f n') o

-- Two pending snapshots that carry the same version, all of whose files have arrived, can both be
-- committed, each in one undisturbed request: the version is checked by `prepare_snapshot` alone.
-- The second is then the current save of its game, which may be the game of the first, under the
-- same version number. (The tables are in order before the first.)
pub commit_snapshot-overwrites :
    (now later : ℕ) (r q : Snapshot) (s : Store)
    → IsValid s
    → Memᴰ r s.snapshots
    → Memᴰ q s.snapshots
    → is_pending r.status ≡ true
    → is_pending q.status ≡ true
    → q.id ≢ r.id
    → q.version ≡ r.version
    → Arrived s r.user_id r.id
    → Arrived s q.user_id q.id
    → let t = (commit_snapshot now r.user_id r.id s).1 in
      ((commit_snapshot now r.user_id r.id s).0 ≡ ok (commit_response r))
      × ((commit_snapshot later q.user_id q.id t).0 ≡ ok (commit_response q))
      × (first
            (is_current q.user_id q.shop q.object_id)
            (commit_snapshot later q.user_id q.id t).1.snapshots
          ≡ some (promote later q))
      × ((promote later q).version ≡ (promote now r).version)
commit_snapshot-overwrites now later r q s v m k p pq apart same arrived all =
    let one =
      commit_snapshot-ok now r.user_id r.id r s r.user_id r.shop r.object_id v m (pending_of r p)
        arrived in
    let two =
      commit_snapshot-ok later q.user_id q.id q (commit_snapshot now r.user_id r.id s).1 q.user_id
        q.shop q.object_id (commit_snapshot-IsValid now r.user_id r.id s v)
        (still_pending now r q s v m p arrived k pq apart) (pending_of q pq)
        (still-Arrived now r q s v m p arrived k pq apart all) in
    (one.0, two.0, two.1 ∙ rw (str_refl q.user_id, str_refl q.shop, str_refl q.object_id), same)
  where
    pending_of : (x : Snapshot) → is_pending x.status ≡ true → is_pending_of x.user_id x.id x ≡ true
    pending_of x h = rw (str_refl x.id) (rw (str_refl x.user_id) h)
