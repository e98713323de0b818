-- ===== src/CloudSaves/Invariant/Commits.antt =====
-- The transaction of `commit_snapshot` and the handler keep the invariant.
use hydra_server.Shared.{
  ℕ, String, ◌≡◌, refl, ap, ◌⊎◌, Bool, true, false, none, some, List, [], ◌∷◌, Memᴰ, arith, inl,
  inr, select, first, any, nat_eq_iff, str-eq, str_refl, Bool-cases, Option-cases, mem-update_inv,
  mem-delete_inv, mem-select, mem_of_any, first-some_inv, unique_of_count,
}
use hydra_server.Limits.{for_user}
use hydra_server.CloudSaves.State.{Snapshot, FileRow, Store, has_id, of_game, is_current, file_of}
use hydra_server.ApiError.{ApiError}
use hydra_server.CloudSaves.Gc.Keeps.{drop_snapshots-Dropped}
use hydra_server.CloudSaves.Commit.{
  supersede, older, retire, commit_tx, commit_row, commit_found, commit_snapshot, register_blobs,
  distinct, same_content, is_pending_of,
}
use hydra_server.CloudSaves.Invariant.{IsValid, Held, event-IsValid, collect-IsValid}
use hydra_server.CloudSaves.Invariant.Loop.{BlobsAdded-IsValid, register-BlobsAdded, register-Held}
use hydra_server.CloudSaves.Invariant.Replace.{install-IsValid, retire-IsValid, retire-vacant}

-- The row is the same save, whatever its status.
abbrev pub SameSave : Snapshot → Snapshot → Type 0
SameSave q p =
    (q.id ≡ p.id) × (q.user_id ≡ p.user_id) × (q.shop ≡ p.shop) × (q.object_id ≡ p.object_id)

-- Retiring brings in no row, no file, and touches no blob.
pub record Fewer (s t : Store) : Type 0 where
  pub rows :
      (q : Snapshot) → Memᴰ q t.snapshots → (p : Snapshot) × Memᴰ p s.snapshots × SameSave q p
  pub files : (f : FileRow) → Memᴰ f t.files → Memᴰ f s.files
  pub blobs : t.blobs ≡ s.blobs
  pub disk : t.disk ≡ s.disk

pub retire-Fewer :
    (auto_delete : Bool) (now : ℕ) (user shop object : String) (s : Store)
    → Fewer s (retire auto_delete now user shop object s)
unfolding retire
retire-Fewer true now user shop object s =
    let d = drop_snapshots-Dropped (older user shop object s) s in
    record {
      rows = λ q m.
          (q, (mem-delete_inv _ s.snapshots (rw d.snapshots at m)).0, (refl, refl, refl, refl));
      files = λ f m. (mem-delete_inv _ s.files (rw d.files at m)).0;
      blobs = d.blobs;
      disk = d.disk;
    }
retire-Fewer false now user shop object s = record {
  rows = λ q m.
      let (p, k, e) = mem-update_inv (is_current user shop object) (supersede now) s.snapshots m in
      (p, k, ground arith);
  files = λ f m. m;
  blobs = refl;
  disk = refl;
}

pub commit_tx-IsValid :
    (auto_delete : Bool) (now : ℕ) (user shop object id : String) (s : Store)
    → IsValid s
    → ((q : Snapshot) → Memᴰ q s.snapshots → has_id id q ≡ true → of_game user shop object q ≡ true)
    → ((f : FileRow) → Memᴰ f s.files → file_of id f ≡ true → Held s user f)
    → IsValid (commit_tx auto_delete now user shop object id s)
unfolding commit_tx
commit_tx-IsValid auto_delete now user shop object id s v game held =
    install-IsValid user shop object (has_id id) now (λ r. r.version) t
      (retire-IsValid auto_delete now user shop object s v)
      (retire-vacant auto_delete now user shop object s)
      ((retire-IsValid auto_delete now user shop object s v).ids id) in_game still_held
  where
    t : Store
    t = retire auto_delete now user shop object s

    fewer : Fewer s t
    fewer = retire-Fewer auto_delete now user shop object s

    in_game :
        (r : Snapshot) → Memᴰ r t.snapshots → has_id id r ≡ true → of_game user shop object r ≡ true
    in_game r m h =
        let (p, k, e) = fewer.rows r m in rw e.1 (rw e.2 (rw e.3 (game p k (rw e.0 at h))))

    still_held :
        (r : Snapshot) (f : FileRow)
        → Memᴰ r t.snapshots
        → Memᴰ f t.files
        → has_id id r ≡ true
        → has_id f.snapshot_id r ≡ true
        → Held t r.user_id f
    still_held r f mr mf h k =
        let u : r.user_id ≡ user = ground (arith, in_game r mr, str-eq r.user_id user) in
        let i : f.snapshot_id ≡ id = ground (arith, str-eq r.id f.snapshot_id, str-eq r.id id) in
        let (d, b) = held f (fewer.files f mf) (rw i (str_refl id)) in
        rw u (rw fewer.disk d, rw fewer.blobs b)

-- Every file is among the distinct contents, by hash and size.
pub mem-distinct :
    (f : FileRow) (l : List FileRow)
    → Memᴰ f l
    → (g : FileRow) × Memᴰ g (distinct l) × (f.hash ≡ g.hash) × (f.size ≡ g.size)
unfolding distinct
mem-distinct f [] m = elim m [ ]
mem-distinct f (x ∷ l) (Memᴰ.head e) = elim (Bool-cases (any (same_content x) (distinct l))) [
  | inl old ↦
      let (g, k, h) = mem_of_any (same_content x) (distinct l) old in
      (
        g,
        rw old k,
        rw e (ground (arith, str-eq x.hash g.hash)),
        rw e (ground (arith, nat_eq_iff x.size g.size)),
      )
  | inr new ↦
      (x, rw new (Memᴰ.head refl), ap (λ (q : FileRow). q.hash) e, ap (λ (q : FileRow). q.size) e)
]
mem-distinct f (x ∷ l) (Memᴰ.tail m) =
    let (g, k, p, q) = mem-distinct f l m in
    elim (Bool-cases (any (same_content x) (distinct l))) [
      | inl old ↦ (g, rw old k, p, q)
      | inr new ↦ (g, rw new (Memᴰ.tail k), p, q)
    ]

pub commit_row-IsValid :
    (now : ℕ) (user : String) (r : Snapshot) (s : Store)
    → IsValid s
    → Memᴰ r s.snapshots
    → r.user_id ≡ user
    → ((f : FileRow) → Memᴰ f s.files → file_of r.id f ≡ true → Held s user f)
    → IsValid (commit_row now user r s)
unfolding commit_row
commit_row-IsValid now user r s v m u held = event-IsValid _ (
    collect-IsValid user (
      commit_tx-IsValid (for_user s.users s.settings user).auto_delete_saves now user r.shop
        r.object_id r.id s v in_game held))
  where
    in_game :
        (q : Snapshot)
        → Memᴰ q s.snapshots
        → has_id r.id q ≡ true
        → of_game user r.shop r.object_id q ≡ true
    in_game q k h =
        let e : q ≡ r =
          unique_of_count (has_id r.id) s.snapshots (v.ids r.id) k m h (str_refl r.id) in
        rw e (rw u (ground (arith, str_refl user, str_refl r.shop, str_refl r.object_id)))

pub commit_snapshot-IsValid :
    (now : ℕ) (user id : String) (s : Store) → IsValid s → IsValid (commit_snapshot now user id s).1
unfolding commit_snapshot
commit_snapshot-IsValid now user id s v =
    elim (Option-cases (first (is_pending_of user id) s.snapshots)) [
      | inl e ↦ rw (e, commit_snapshot) v
      | inr (r, e) ↦
          rw (e, commit_snapshot) (found r e (Option-cases (register_blobs now user l s).0))
    ]
  where
    l : List FileRow
    l = distinct (select (file_of id) s.files)

    all_held :
        (f : FileRow)
        → Memᴰ f s.files
        → file_of id f ≡ true
        → (register_blobs now user l s).0 ≡ none
        → Held (register_blobs now user l s).1 user f
    all_held f m o c =
        let (g, k, p, q) =
          mem-distinct f (select (file_of id) s.files) (mem-select (file_of id) s.files m o) in
        rw p (rw q (register-Held now user l s g c k))

    found :
        (r : Snapshot)
        → first (is_pending_of user id) s.snapshots ≡ some r
        → ((register_blobs now user l s).0 ≡ none)
          ⊎ ((x : ApiError) × ((register_blobs now user l s).0 ≡ some x))
        → IsValid (commit_found now user r (register_blobs now user l s)).1
    found r e (inr (x, c)) =
        rw (c, commit_found) (BlobsAdded-IsValid (register-BlobsAdded now user l s) v)
    found r e (inl c) =
        let a = register-BlobsAdded now user l s in
        let (m, h) = first-some_inv (is_pending_of user id) s.snapshots e in
        let i : r.id ≡ id = ground (arith, str-eq r.id id) in
        rw (c, commit_found)
          (commit_row-IsValid now user r (register_blobs now user l s).1 (BlobsAdded-IsValid a v)
            (rw a.snapshots m) (ground (arith, str-eq r.user_id user))
            (λ f k o. all_held f (rw a.files at k) (rw i at o) c))
