-- ===== src/CloudSaves/Committed.antt =====
-- What the transaction of `commit_snapshot` does to the current saves.
use hydra_server.Shared.{
  ℕ, String, ◌≤◌, ◌≡◌, refl, ◌∙◌, ◌⊎◌, Bool, true, false, none, some, List, [], ◌∷◌, Memᴰ, arith,
  ◌==◌, str-eq, str_refl, if◌then◌else◌, ◌&&◌, ◌||◌, select, update, count, first, any, nat_eq_iff,
  inl, inr, Bool-cases, mem_of_any, mem-delete, mem-update, mem-append_inv, mem-select_inv,
  first-delete, first-update, first-some_of_unique, unique_of_count,
}
use hydra_server.Storage.{cloud_save_blob_key}
use hydra_server.CloudSaves.State.{
  is_pending, Snapshot, FileRow, Store, is_current, is_kept, has_id, file_of,
}
use hydra_server.CloudSaves.Gc.Keeps.{listed, drop_snapshots-Dropped}
use hydra_server.CloudSaves.Commit.{
  commit_tx, register_blobs, distinct, same_content, retire, older, promote, supersede,
}
use hydra_server.CloudSaves.Invariant.{IsValid}

-- The bytes of every file of the snapshot are on disk, whole.
abbrev pub Arrived : Store → String → String → Type 0
Arrived s user id =
    (f : FileRow)
    → Memᴰ f s.files
    → file_of id f ≡ true
    → s.disk (cloud_save_blob_key user f.hash) ≡ some f.size

pub mem-distinct_inv : (f : FileRow) (l : List FileRow) → Memᴰ f (distinct l) → Memᴰ f l
unfolding distinct
mem-distinct_inv f [] m = m
mem-distinct_inv f (x ∷ l) m = elim (Bool-cases (any (same_content x) (distinct l))) [
  | inl old ↦ Memᴰ.tail (mem-distinct_inv f l (rw old at m))
  | inr new ↦ from_head (mem-distinct_inv f l) (rw new at m)
]
  where
    from_head : (Memᴰ f (distinct l) → Memᴰ f l) → Memᴰ f (x ∷ distinct l) → Memᴰ f (x ∷ l)
    from_head rest (Memᴰ.head e) = Memᴰ.head e
    from_head rest (Memᴰ.tail k) = Memᴰ.tail (rest k)

pub register-none :
    (now : ℕ) (user : String) (l : List FileRow) (s : Store)
    → ((f : FileRow) → Memᴰ f l → s.disk (cloud_save_blob_key user f.hash) ≡ some f.size)
    → (register_blobs now user l s).0 ≡ none
unfolding register_blobs
register-none now user [] s h = refl
register-none now user (f ∷ l) s h =
    rw (h f (Memᴰ.head refl), register_blobs)
      (rw ((nat_eq_iff f.size f.size).1 refl)
        (register-none now user l _ (λ g m. h g (Memᴰ.tail m))))

-- A row of a listed id is itself current or kept, since ids are unique.
listed-older :
    (user shop object : String) (r : Snapshot) (s : Store)
    → IsValid s
    → Memᴰ r s.snapshots
    → listed (older user shop object s) r.id ≡ true
    → (is_current user shop object r || is_kept user shop object r) ≡ true
listed-older user shop object r s v m h =
    let (q, k, e) = mem_of_any (λ (x : Snapshot). r.id == x.id) (older user shop object s) h in
    same q e (mem-append_inv (select (is_current user shop object) s.snapshots) _ k)
  where
    one : (q : Snapshot) → (r.id == q.id) ≡ true → Memᴰ q s.snapshots → q ≡ r
    one q e k =
        unique_of_count (has_id r.id) s.snapshots (v.ids r.id) k m
          (ground (arith, str-eq r.id q.id, str-eq q.id r.id)) (str_refl r.id)

    same :
        (q : Snapshot)
        → (r.id == q.id) ≡ true
        → Memᴰ q (select (is_current user shop object) s.snapshots)
          ⊎ Memᴰ q (select (is_kept user shop object) s.snapshots)
        → (is_current user shop object r || is_kept user shop object r) ≡ true
    same q e (inl k) =
        let (mq, c) = mem-select_inv (is_current user shop object) s.snapshots k in
        let i : q ≡ r = one q e mq in
        let c' : is_current user shop object r ≡ true = rw (← i) c in rw c'
    same q e (inr k) =
        let (mq, c) = mem-select_inv (is_kept user shop object) s.snapshots k in
        let i : q ≡ r = one q e mq in
        let c' : is_kept user shop object r ≡ true = rw (← i) c in ground arith

-- The pending row is not among the older saves that are retired.
pub retire-keeps :
    (auto_delete : Bool) (now : ℕ) (user shop object : String) (r : Snapshot) (s : Store)
    → IsValid s
    → Memᴰ r s.snapshots
    → is_pending r.status ≡ true
    → Memᴰ r (retire auto_delete now user shop object s).snapshots
unfolding retire
retire-keeps true now user shop object r s v m p =
    rw (drop_snapshots-Dropped (older user shop object s) s).snapshots (
      mem-delete (λ q. listed (older user shop object s) q.id) s.snapshots m
        (elim (Bool-cases (listed (older user shop object s) r.id)) [
          | inr n ↦ n
          | inl y ↦ absurd (ground (arith, listed-older user shop object r s v m y))
        ]))
retire-keeps false now user shop object r s v m p =
    let n : is_current user shop object r ≡ false = ground arith in
    rw n at (mem-update (is_current user shop object) (supersede now) s.snapshots m)

-- Another game's current save is the same row after the older saves are retired.
retire-others :
    (auto_delete : Bool) (now : ℕ) (user shop object u sh o : String) (s : Store)
    → IsValid s
    → ((u == user) && ((sh == shop) && (o == object))) ≡ false
    → first (is_current u sh o) (retire auto_delete now user shop object s).snapshots
      ≡ first (is_current u sh o) s.snapshots
unfolding retire
retire-others true now user shop object u sh o s v h =
    rw (drop_snapshots-Dropped (older user shop object s) s).snapshots (
      first-delete (is_current u sh o) (λ q. listed (older user shop object s) q.id) s.snapshots
        (λ a m k. elim (Bool-cases (listed (older user shop object s) a.id)) [
          | inr n ↦ n
          | inl y ↦ absurd (
              ground (
                arith,
                listed-older user shop object a s v m y,
                str-eq a.user_id u,
                str-eq a.user_id user,
                str-eq u user,
                str-eq a.shop sh,
                str-eq a.shop shop,
                str-eq sh shop,
                str-eq a.object_id o,
                str-eq a.object_id object,
                str-eq o object,
              ))
        ]))
retire-others false now user shop object u sh o s v h =
    first-update (is_current u sh o) (is_current user shop object) (supersede now) s.snapshots
      (λ a m k. (
        ground (
          arith,
          str-eq a.user_id u,
          str-eq a.user_id user,
          str-eq u user,
          str-eq a.shop sh,
          str-eq a.shop shop,
          str-eq sh shop,
          str-eq a.object_id o,
          str-eq a.object_id object,
          str-eq o object,
        ),
        ground arith,
      ))

-- The current saves after the transaction: the promoted row in its game, and the old one elsewhere.
pub first-commit_tx :
    (auto_delete : Bool) (now : ℕ) (r : Snapshot) (u sh o : String) (s : Store)
    → IsValid s
    → Memᴰ r s.snapshots
    → is_pending r.status ≡ true
    → count
        (is_current u sh o)
        (commit_tx auto_delete now r.user_id r.shop r.object_id r.id s).snapshots
      ≤ 1
    → count (has_id r.id) (retire auto_delete now r.user_id r.shop r.object_id s).snapshots ≤ 1
    → first
        (is_current u sh o)
        (commit_tx auto_delete now r.user_id r.shop r.object_id r.id s).snapshots
      ≡ (if (u == r.user_id) && ((sh == r.shop) && (o == r.object_id))
          then some (promote now r)
          else first (is_current u sh o) s.snapshots)
unfolding commit_tx
first-commit_tx auto_delete now r u sh o s v m p one ids =
    elim (Bool-cases ((u == r.user_id) && ((sh == r.shop) && (o == r.object_id)))) [
      | inl y ↦ rw y (
          first-some_of_unique (is_current u sh o) (update (has_id r.id) (promote now) t.snapshots)
            one (rw (str_refl r.id) at (mem-update (has_id r.id) (promote now) t.snapshots there))
            (ground (
              arith,
              str-eq u r.user_id,
              str-eq r.user_id u,
              str-eq sh r.shop,
              str-eq r.shop sh,
              str-eq o r.object_id,
              str-eq r.object_id o,
            )))
      | inr n ↦ rw n (
          first-update (is_current u sh o) (has_id r.id) (promote now) t.snapshots (touched n)
          ∙ retire-others auto_delete now r.user_id r.shop r.object_id u sh o s v n)
    ]
  where
    t : Store
    t = retire auto_delete now r.user_id r.shop r.object_id s

    there : Memᴰ r t.snapshots
    there = retire-keeps auto_delete now r.user_id r.shop r.object_id r s v m p

    touched :
        ((u == r.user_id) && ((sh == r.shop) && (o == r.object_id))) ≡ false
        → (a : Snapshot) → Memᴰ a t.snapshots
        → has_id r.id a ≡ true
        → (is_current u sh o a ≡ false) × (is_current u sh o (promote now a) ≡ false)
    touched n a k h =
        let e : a ≡ r = unique_of_count (has_id r.id) t.snapshots ids k there h (str_refl r.id) in
        rw e (
          ground arith,
          ground (
            arith,
            str-eq u r.user_id,
            str-eq r.user_id u,
            str-eq sh r.shop,
            str-eq r.shop sh,
            str-eq o r.object_id,
            str-eq r.object_id o,
          ),
        )
