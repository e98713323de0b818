-- ===== src/Storage/Landed.antt =====
-- What an upload can leave under its key.
use hydra_server.Shared.{
  ℕ, String, ◌+◌, ◌≤◌, ◌≡◌, refl, sym, ap, ◌∙◌, true, false, not, ◌&&◌, ◌||◌, inl, inr, Option,
  none, some, some-injective, List, [], ◌∷◌, ◌++◌, length, length-append, ltb, ltb→lt, nat_eq,
  nat_eq_iff, ◌⊎◌, ◌<◌, arith, Bool-cases, Option-cases,
}
use mathlib.Core.List.{append_assoc, append-nil}
use hydra_server.Storage.Uploads.{QuotaGate}
use hydra_server.Storage.Links.{Claims, size_limit}
use hydra_server.Storage.Body.{
  Bytes, Digests, Reading, Chunk, bytes, broken, Files, UploadQuery, Range, range_of, over,
  is_piece, too_large, is_bound, ask_gate, Streamed, refused, ended, stream, is_complete,
  matches_hash, Ending, failed, waiting, finished, settle, opened, receive, upload_range, upload,
}

-- What holds of the stored file after a request: it is the one from before, or a whole one within the
-- limit of the link, with the digest that the link asks for.
pub Landed : Digests → Claims → Files → Ending × Files → Type 0
Landed d claims before (failed e, after) = after.stored ≡ before.stored
Landed d claims before (waiting, after) = after.stored ≡ before.stored
Landed d claims before (finished n, after) =
    (b : Bytes) × (after.stored ≡ some b)
    × (length b ≡ n)
    × (n ≤ size_limit claims.max)
    × (matches_hash d claims.sha256 b ≡ true)

-- What the loop is at its end, from what it was at a round.
abbrev IsFed : ℕ → Bytes → Streamed → Type 0
IsFed limit prefix (refused e p) = Unit
IsFed limit prefix (ended w p s) = (length p ≡ w) × (w ≤ limit) × (p ≡ prefix ++ s)

stream-IsFed :
    (limit : ℕ) (total : Option ℕ) (gate : Option QuotaGate) (chunks : List Chunk) (written : ℕ)
    → (prefix partial seen : Bytes) → length partial ≡ written
    → written ≤ limit
    → partial ≡ prefix ++ seen
    → IsFed limit prefix (stream limit total gate chunks written partial seen)
unfolding stream
stream-IsFed limit total gate [] written prefix partial seen e l p = (e, l, p)
stream-IsFed limit total gate (broken ∷ chunks) written prefix partial seen e l p = tt
stream-IsFed limit total gate (bytes b r ∷ chunks) written prefix partial seen e l p =
    elim (Bool-cases (ltb limit (written + length b) || over total (written + length b))) [
      | inl y ↦ rw (stream, y) tt
      | inr n ↦
          let fits : written + length b ≤ limit = ground arith in
          let long : length (partial ++ b) ≡ written + length b =
            omega (arith, length-append partial b, e) in
          let joined : partial ++ b ≡ prefix ++ (seen ++ b) =
            ap (λ (x : Bytes). x ++ b) p ∙ append_assoc prefix seen b in
          elim (Option-cases (ask_gate gate r (written + length b)).0) [
            | inr (error, q) ↦ rw (stream, n, q) tt
            | inl q ↦
                rw (stream, n, q)
                  (stream-IsFed limit total (ask_gate gate r (written + length b)).1 chunks
                    (written + length b) prefix (partial ++ b) (seen ++ b) long fits joined)
          ]
    ]

settle-Landed :
    (d : Digests) (claims : Claims) (total : Option ℕ) (prefix : Bytes) (o : Streamed)
    (files before : Files)
    → files.stored ≡ before.stored
    → IsFed (size_limit claims.max) prefix o
    → (is_bound claims.sha256 ≡ true → prefix ≡ [])
    → Landed d claims before (settle d claims total o files)
unfolding settle Landed
settle-Landed d claims total prefix (refused e p) files before s h k = s
settle-Landed d claims total prefix (ended w p seen) files before s (n, l, j) k =
    elim (Bool-cases (is_complete total w)) [
      | inr c ↦ rw (settle, c, Landed) s
      | inl c ↦ elim (Bool-cases (matches_hash d claims.sha256 seen)) [
        | inr m ↦ rw (settle, c, m, Landed) s
        | inl m ↦
            let same : matches_hash d claims.sha256 p ≡ true = digest claims.sha256 k m in
            rw (settle, c, m, Landed) (p, refl, n, l, same)
      ]
    ]
  where
    digest :
        (sha : Option String)
        → (is_bound sha ≡ true → prefix ≡ [])
        → matches_hash d sha seen ≡ true
        → matches_hash d sha p ≡ true
    digest none k m = refl
    digest (some h) k m =
        let whole : p ≡ seen = j ∙ ap (λ (x : Bytes). x ++ seen) (k refl) in
        ap (matches_hash d (some h)) whole ∙ m

opened-inv :
    (offset : ℕ) (partial : Option Bytes) (p : Bytes)
    → opened offset partial ≡ some p
    → length p ≡ offset
unfolding opened
opened-inv offset none p e = elim (Bool-cases (nat_eq offset 0)) [
  | inl y ↦
      let same : [] ≡ p = some-injective _ _ (rw (opened, y) at e) in
      rw (← same) (ground (arith, nat_eq_iff offset 0))
  | inr n ↦ absurd (cc (rw (opened, n) at e))
]
opened-inv offset (some q) p e = elim (Bool-cases (nat_eq offset 0)) [
  | inl y ↦
      let same : [] ≡ p = some-injective _ _ (rw (opened, y) at e) in
      rw (← same) (ground (arith, nat_eq_iff offset 0))
  | inr n ↦ elim (Bool-cases (nat_eq (length q) offset)) [
    | inl k ↦
        let same : q ≡ p = some-injective _ _ (rw (opened, n, k) at e) in
        rw (← same) ((nat_eq_iff (length q) offset).0 k)
    | inr k ↦ absurd (cc (rw (opened, n, k) at e))
  ]
]

length-zero : (p : Bytes) → length p ≡ 0 → p ≡ []
length-zero [] e = refl
length-zero (x ∷ p) e = absurd (omega (arith, e))

receive-Landed :
    (d : Digests) (claims : Claims) (gate : Option QuotaGate) (offset : ℕ) (total : Option ℕ)
    → (body : List Chunk) (files : Files) → offset ≤ size_limit claims.max
    → (is_bound claims.sha256 ≡ true → offset ≡ 0)
    → Landed d claims files (receive d claims gate offset total body files)
unfolding receive Landed
receive-Landed d claims gate offset total body files l k =
    elim (Option-cases (opened offset files.partial)) [
      | inl n ↦ rw (receive, n, Landed) refl
      | inr (p, e) ↦
          let long : length p ≡ offset = opened-inv offset files.partial p e in
          rw (receive, e)
            (settle-Landed d claims total p
              (stream (size_limit claims.max) total gate body offset p [])
              (record files { partial = some p }) files refl
              (stream-IsFed (size_limit claims.max) total gate body offset p p [] long l
                (sym (append-nil p)))
              (λ b. length-zero p (long ∙ k b)))
    ]

range_of-inv :
    (q : UploadQuery) (offset : ℕ) (total : Option ℕ)
    → range_of q ≡ some (offset, total)
    → ((total ≡ none) × (offset ≡ 0)) ⊎ ((t : ℕ) × (total ≡ some t) × (offset < t))
unfolding range_of
range_of-inv q offset total e = elim (Option-cases q.offset) [
  | inl o ↦ elim (Option-cases q.total) [
    | inl t ↦
        let same : Path (Option Range) (some (0, none)) (some (offset, total)) =
          rw (range_of, o, t) at e in
        let pair : Path Range (0, none) (offset, total) = some-injective _ _ same in
        inl (sym (ap (λ x. x.1) pair), sym (ap (λ x. x.0) pair))
    | inr (u, t) ↦ absurd (cc (rw (range_of, o, t) at e))
  ]
  | inr (n, o) ↦ elim (Option-cases q.total) [
    | inl t ↦ absurd (cc (rw (range_of, o, t) at e))
    | inr (u, t) ↦ elim (Bool-cases (ltb n u)) [
      | inr k ↦ absurd (cc (rw (range_of, o, t, k) at e))
      | inl k ↦
          let same : Path (Option Range) (some (n, some u)) (some (offset, total)) =
            rw (range_of, o, t, k) at e in
          let pair : Path Range (n, some u) (offset, total) = some-injective _ _ same in
          let begin : n ≡ offset = ap (λ x. x.0) pair in
          inr (u, sym (ap (λ x. x.1) pair), rw (← begin) (ltb→lt n u k))
    ]
  ]
]

offset-le :
    (offset limit : ℕ) (total : Option ℕ)
    → ((total ≡ none) × (offset ≡ 0)) ⊎ ((t : ℕ) × (total ≡ some t) × (offset < t))
    → too_large total limit ≡ false
    → offset ≤ limit
offset-le offset limit total (inl (n, z)) o = omega (arith, z)
offset-le offset limit total (inr (t, e, l)) o =
    let within : ltb limit t ≡ false = rw e at o in ground (arith, l, within)

-- Whatever is sent to a link, with or without a quota and in whatever chunks: a request that ends other
-- than with a complete object leaves the stored file of the key as it was; and a complete object is stored with
-- as many bytes as were counted, no more than the limit of the link, and, where the link names a
-- digest, with that digest.
pub upload-Landed :
    (d : Digests) (claims : Claims) (gate : Option QuotaGate) (r : Reading) (query : UploadQuery)
    → (body : List Chunk) (files : Files)
    → Landed d claims files (upload d claims gate r query body files)
unfolding upload upload_range Landed
upload-Landed d claims gate r query body files = elim (Option-cases (range_of query)) [
  | inl n ↦ rw (upload, n, Landed) refl
  | inr ((offset, total), e) ↦
      elim (Bool-cases (is_bound claims.sha256 && (not (nat_eq offset 0) || is_piece total))) [
        | inl y ↦ rw (upload, e, upload_range, y, Landed) refl
        | inr n ↦ elim (Bool-cases (too_large total (size_limit claims.max))) [
          | inl y ↦ rw (upload, e, upload_range, n, y, Landed) refl
          | inr o ↦ elim (Option-cases (ask_gate gate r offset).0) [
            | inr (error, q) ↦ rw (upload, e, upload_range, n, o, q, Landed) refl
            | inl q ↦
                rw (upload, e, upload_range, n, o, q)
                  (receive-Landed d claims (ask_gate gate r offset).1 offset total body files
                    (offset-le offset (size_limit claims.max) total
                      (range_of-inv query offset total e) o)
                    (λ b. (nat_eq_iff offset 0).0 (ground (arith, n, b))))
          ]
        ]
      ]
]
