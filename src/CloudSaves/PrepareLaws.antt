-- ===== src/CloudSaves/PrepareLaws.antt =====
-- `prepare_snapshot`: what it answers and what it writes.
use hydra_server.Shared.{
  ℕ, String, ◌+◌, ◌/◌, ◌≡◌, refl, ap, sym, subst, ◌∙◌, ◌⊎◌, true, false, none, some, some-injective,
  List, [], ◌∷◌, ◌++◌, map, Memᴰ, arith, str-eq, str_refl, select, first, any, inl, inr, Bool-cases,
  Option-cases, first-append, select-append, select-nil, select_self, mem-map_inv, mem-append_right,
  mem_of_any, any_of_mem, ◌==◌,
}
use hydra_server.Shared.Int.{pos, pos_part}
use hydra_server.ApiError.{Result, ok}
use hydra_server.Storage.{sign_blob_upload_url, nanos_per_second}
use hydra_server.CloudSaves.State.{FileRow, BlobRow, Store, is_current, is_blob, has_id, file_of}
use hydra_server.CloudSaves.Request.{FileInput, PrepareRequest, request_problem}
use hydra_server.CloudSaves.Gc.{sweep_stale_pending}
use hydra_server.CloudSaves.Prepare.{
  Checksum, PrepareResponse, PreparedFile, skip, upload, prepare_snapshot, pending_row, file_row,
  answer_file, answer_files, current_version, is_stored,
}
use hydra_server.CloudSaves.Prepared.{
  Accepted, prepare_swept-ok, first-sweep, current_version-sweep,
}
use hydra_server.CloudSaves.Invariant.{IsValid}
use hydra_server.CloudSaves.Invariant.Handlers.{sweep-IsValid}

pub prepare_snapshot-swept :
    (checksum : Checksum) (now : ℕ) (id user : String) (r : PrepareRequest) (s t : Store)
    (resp : PrepareResponse)
    → prepare_snapshot checksum now id user r s ≡ (ok resp, t)
    → (request_problem r ≡ none)
      × Accepted checksum now id user r (sweep_stale_pending now user s) t resp
unfolding prepare_snapshot
prepare_snapshot-swept checksum now id user r s t resp e = elim (Option-cases (request_problem r)) [
  | inr (m, y) ↦
      absurd (cc (ap (λ (x : Result PrepareResponse × Store). x.0) (rw (y, prepare_snapshot) at e)))
  | inl n ↦ (
    n,
    prepare_swept-ok checksum now id user r (sweep_stale_pending now user s) t resp
        (rw (n, prepare_snapshot) at e),
  )
]

-- Where `prepare_snapshot` succeeds from tables in order, the request started from the version in
-- use; the current save of every game is what it was; and the new id has a pending snapshot one
-- version on, whose manifest is the files of the request and no other.
pub prepare_snapshot-ok :
    (checksum : Checksum) (now : ℕ) (id user : String) (r : PrepareRequest) (s t : Store)
    (resp : PrepareResponse)
    → IsValid s
    → prepare_snapshot checksum now id user r s ≡ (ok resp, t)
    → let version = current_version s.snapshots user r.shop r.object_id in
      (r.base_version ≡ pos version)
      × ((u sh o : String)
          → first (is_current u sh o) t.snapshots ≡ first (is_current u sh o) s.snapshots)
      × Memᴰ (pending_row now id user r (version + 1)) t.snapshots
      × (select (file_of id) t.files ≡ map (file_row id) r.files)
unfolding pending_row file_row
prepare_snapshot-ok checksum now id user r s t resp v e =
    let (n, a) = prepare_snapshot-swept checksum now id user r s t resp e in
    let same = current_version-sweep now user user r.shop r.object_id s v in
    (
      rw same at a.version,
      λ u sh o. rw a.rows.snapshots (
          first-append (is_current u sh o) w.snapshots _ (ground arith)
          ∙ first-sweep now user u sh o s v),
      rw a.rows.snapshots (rw same (mem-append_right w.snapshots _ (Memᴰ.head refl))),
      rw a.rows.files
          (select-append (file_of id) w.files (map (file_row id) r.files) ∙ own a.rows.fresh),
    )
  where
    w : Store
    w = sweep_stale_pending now user s

    mine : (f : FileRow) → Memᴰ f (map (file_row id) r.files) → file_of id f ≡ true
    mine f m =
        let (i, k, p) = mem-map_inv (file_row id) r.files m in
        rw (ap (λ (x : FileRow). x.snapshot_id) p) (str_refl id)

    not_mine :
        any (has_id id) w.snapshots ≡ false → (f : FileRow) → Memᴰ f w.files → file_of id f ≡ false
    not_mine fresh f m = elim (Bool-cases (file_of id f)) [
      | inr n ↦ n
      | inl y ↦
          let i : f.snapshot_id ≡ id = (str-eq f.snapshot_id id).0 y in
          absurd (cc (fresh, rw i at ((sweep-IsValid now user s v).owned f m)))
    ]

    own :
        any (has_id id) w.snapshots ≡ false
        → select (file_of id) w.files ++ select (file_of id) (map (file_row id) r.files)
          ≡ map (file_row id) r.files
    own fresh =
        rw (select-nil (file_of id) w.files (not_mine fresh))
          (select_self (file_of id) (map (file_row id) r.files) mine)

-- A blob of the account is registered, and its file is on disk.
abbrev pub IsThere : Store → String → String → Type 0
IsThere s user hash =
    ((b : BlobRow) × Memᴰ b s.blobs × (b.user_id ≡ user) × (b.hash ≡ hash))
    × ((n : ℕ) × (s.disk (record { user_id = user; hash = hash }) ≡ some n))

-- The answer that one file of a request gets: a skip exactly where its bytes are stored, and
-- otherwise a link that is bound to its owner, its hash and its size, and lasts an hour.
abbrev pub Answers : Checksum → Store → ℕ → String → FileInput → PreparedFile → Type 0
Answers checksum s now user f a =
    (IsThere s user f.hash × (a ≡ skip f.variant_id f.raw_path f.relative_path))
    ⊎ ((¬ IsThere s user f.hash)
        × ((digest : String) × (checksum f.hash ≡ some digest)
            × (a
                ≡ upload f.variant_id f.raw_path f.relative_path
                    (record {
                      op = "put";
                      key = record { user_id = user; hash = f.hash };
                      max = pos_part f.size_bytes;
                      exp = now / nanos_per_second + 3600;
                      sha256 = some f.hash;
                    })
                    (pos_part f.size_bytes) digest)))

is_stored-IsThere :
    (s : Store) (user hash : String) → is_stored s user hash ≡ true → IsThere s user hash
unfolding is_stored
is_stored-IsThere s user hash h =
    let (b, m, e) = mem_of_any (is_blob user hash) s.blobs (ground arith) in
    let u : (b.user_id == user) ≡ true = ground arith in
    let k : (b.hash == hash) ≡ true = ground arith in
    elim (Option-cases (s.disk (record { user_id = user; hash = hash }))) [
      | inl n ↦ absurd (ground arith)
      | inr there ↦ ((b, m, (str-eq b.user_id user).0 u, (str-eq b.hash hash).0 k), there)
    ]

IsThere-is_stored :
    (s : Store) (user hash : String) → IsThere s user hash → is_stored s user hash ≡ true
unfolding is_stored
IsThere-is_stored s user hash ((b, m, u, k), (n, d)) =
    let row : any (is_blob user hash) s.blobs ≡ true =
      any_of_mem (is_blob user hash) s.blobs m
        (ground (arith, (str-eq b.user_id user).1 u, (str-eq b.hash hash).1 k)) in
    rw (row, d) refl

answer_file-Answers :
    (checksum : Checksum) (s : Store) (now : ℕ) (user : String) (f : FileInput) (a : PreparedFile)
    → answer_file checksum s now user f ≡ some a
    → Answers checksum s now user f a
unfolding answer_file sign_blob_upload_url
answer_file-Answers checksum s now user f a e = elim (Bool-cases (is_stored s user f.hash)) [
  | inl y ↦ inl (is_stored-IsThere s user f.hash y, sym (some-injective _ _ (rw y at e)))
  | inr n ↦ elim (Option-cases (checksum f.hash)) [
    | inl c ↦ absurd (cc (rw c at (rw n at e)))
    | inr (d, c) ↦ inr (missing n, (d, c, sym (some-injective _ _ (rw c at (rw n at e)))))
  ]
]
  where
    missing : is_stored s user f.hash ≡ false → ¬ IsThere s user f.hash
    missing n t = cc (n, IsThere-is_stored s user f.hash t)

-- One answer for each file, in the order of the request.
pub data AnswersAll (checksum : Checksum) (s : Store) (now : ℕ) (user : String)
    : List FileInput → List PreparedFile → Type 0 where
  done : AnswersAll checksum s now user [] []
  step :
      {f : FileInput} {a : PreparedFile} {fs : List FileInput} {as_ : List PreparedFile}
      → Answers checksum s now user f a
      → AnswersAll checksum s now user fs as_
      → AnswersAll checksum s now user (f ∷ fs) (a ∷ as_)

answer_files-AnswersAll :
    (checksum : Checksum) (s : Store) (now : ℕ) (user : String) (fs : List FileInput)
    (as_ : List PreparedFile)
    → answer_files checksum s now user fs ≡ some as_
    → AnswersAll checksum s now user fs as_
unfolding answer_files
answer_files-AnswersAll checksum s now user [] as_ e =
    subst (AnswersAll checksum s now user []) (some-injective _ _ e) done
answer_files-AnswersAll checksum s now user (f ∷ fs) as_ e =
    elim (Option-cases (answer_file checksum s now user f)) [
      | inl n ↦ absurd (cc (rw (n, answer_files) at e))
      | inr (a, y) ↦ elim (Option-cases (answer_files checksum s now user fs)) [
        | inl n ↦ absurd (cc (rw n at (rw (y, answer_files) at e)))
        | inr (l, k) ↦
            subst (AnswersAll checksum s now user (f ∷ fs))
              (some-injective _ _ (rw k at (rw (y, answer_files) at e)))
              (step (answer_file-Answers checksum s now user f a y)
                (answer_files-AnswersAll checksum s now user fs l k))
      ]
    ]

-- Where `prepare_snapshot` succeeds it answers every file in order: with a skip exactly where the
-- account's blob of that hash is registered and on disk, once stale uploads are swept, and otherwise
-- with a link that lets exactly this hash be put, within an hour, under the account's key and with the
-- declared size as its limit.
pub prepare_snapshot-answers :
    (checksum : Checksum) (now : ℕ) (id user : String) (r : PrepareRequest) (s t : Store)
    (resp : PrepareResponse)
    → prepare_snapshot checksum now id user r s ≡ (ok resp, t)
    → AnswersAll checksum (sweep_stale_pending now user s) now user r.files resp.files
prepare_snapshot-answers checksum now id user r s t resp e =
    answer_files-AnswersAll checksum (sweep_stale_pending now user s) now user r.files resp.files
      (prepare_snapshot-swept checksum now id user r s t resp e).1.answer
