-- ===== src/CloudSaves/GcLaws.antt =====
-- What the collector frees: what nothing names, and nothing else.
use hydra_server.Shared.{
  String, ◌≡◌, refl, sym, ◌∙◌, true, false, ◌&&◌, List, [], ◌∷◌, Memᴰ, arith, ◌==◌, str-eq,
  str_refl, select, any, inl, inr, Bool-cases, mem_of_any, any_of_mem, mem-select, mem-delete_inv,
}
use hydra_server.CloudSaves.State.{BlobRow, Store, is_blob}
use hydra_server.CloudSaves.Gc.{
  is_referenced, is_orphan, free_blobs, collect_orphan_blobs, is_empty,
}
use hydra_server.CloudSaves.Gc.Keeps.{collect-blob}

-- A row that is left after the loop was there before, and its hash was not freed.
free_blobs-left :
    (user : String) (l : List BlobRow) (s : Store) (b : BlobRow)
    → Memᴰ b (free_blobs user l s).blobs
    → Memᴰ b s.blobs × (any (λ o. (b.user_id == user) && (b.hash == o.hash)) l ≡ false)
unfolding free_blobs
free_blobs-left user [] s b m = (m, refl)
free_blobs-left user (o ∷ l) s b m =
    let (k, h) = free_blobs-left user l _ b m in
    let (n, q) = mem-delete_inv (is_blob user o.hash) s.blobs k in (n, rw q h)

collect-left :
    (user : String) (s : Store) (b : BlobRow)
    → Memᴰ b (collect_orphan_blobs user s).blobs
    → Memᴰ b s.blobs
      × (any (λ o. (b.user_id == user) && (b.hash == o.hash)) (select (is_orphan s user) s.blobs)
          ≡ false)
unfolding collect_orphan_blobs
collect-left user s b m = elim (Bool-cases (is_empty (select (is_orphan s user) s.blobs))) [
  | inl e ↦ free_blobs-left user (select (is_orphan s user) s.blobs) s b (rw e at m)
  | inr e ↦ free_blobs-left user (select (is_orphan s user) s.blobs) s b (rw e at m)
]

-- After a collection an account has a row for a hash exactly where it had one and a manifest of one
-- of its snapshots names the hash.
pub collect_orphan_blobs_exact :
    (user hash : String) (s : Store)
    → any (is_blob user hash) (collect_orphan_blobs user s).blobs
      ≡ (any (is_blob user hash) s.blobs && is_referenced s.snapshots s.files user hash)
collect_orphan_blobs_exact user hash s =
    elim (Bool-cases (any (is_blob user hash) (collect_orphan_blobs user s).blobs)) [
      | inl y ↦
          let (b, m, h) = mem_of_any (is_blob user hash) (collect_orphan_blobs user s).blobs y in
          let (k, q) = collect-left user s b m in
          y ∙ sym (rw (any_of_mem (is_blob user hash) s.blobs k h) (named b k h q))
      | inr n ↦ n ∙ sym (unnamed n)
    ]
  where
    named :
        (b : BlobRow)
        → Memᴰ b s.blobs
        → is_blob user hash b ≡ true
        → any (λ o. (b.user_id == user) && (b.hash == o.hash)) (select (is_orphan s user) s.blobs)
          ≡ false
        → is_referenced s.snapshots s.files user hash ≡ true
    named b k h q = elim (Bool-cases (is_referenced s.snapshots s.files user hash)) [
      | inl y ↦ y
      | inr n ↦
          let i : b.user_id ≡ user = ground (arith, str-eq b.user_id user) in
          let j : b.hash ≡ hash = ground (arith, str-eq b.hash hash) in
          let o : is_orphan s user b ≡ true = rw i (rw j (rw n (rw (str_refl user)))) in
          absurd (
            cc (
              q,
              any_of_mem (λ (x : BlobRow). (b.user_id == user) && (b.hash == x.hash))
                  (select (is_orphan s user) s.blobs) (mem-select (is_orphan s user) s.blobs k o)
                  (ground (arith, str_refl b.hash)),
            ))
    ]

    unnamed :
        any (is_blob user hash) (collect_orphan_blobs user s).blobs ≡ false
        → (any (is_blob user hash) s.blobs && is_referenced s.snapshots s.files user hash) ≡ false
    unnamed n = elim (Bool-cases (is_referenced s.snapshots s.files user hash)) [
      | inl y ↦ ground (arith, collect-blob user user hash s y)
      | inr e ↦ ground arith
    ]
