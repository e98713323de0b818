-- ===== src/Storage/Body.antt =====
-- storage.rs: `upload`, the body of a PUT to a signed link, at the two files of its key: the partial one
-- and the stored one. `Sha256` is a parameter: the digest of all the bytes it was fed, as text in hex.
use hydra_server.Shared.{
  ℕ, String, ◌+◌, Bool, true, false, not, ◌&&◌, ◌||◌, Option, none, some, List, [], ◌∷◌, ◌++◌,
  length, if◌then◌else◌, ltb, leb, nat_eq,
}
use hydra_server.Shared.Int.{ℤ}
use hydra_server.ApiError.{ApiError, Result, ok, err, new, bad_request}
use hydra_server.Storage.Uploads.{QuotaGate, InFlightUploads, check_chunk}
use hydra_server.Storage.Links.{Claims, size_limit}

abbrev pub Bytes : Type 0
Bytes = List ℕ

abbrev pub Hash : Type 0
Hash = Bytes → String

-- `eq_ignore_ascii_case` is a parameter with it.
pub record Digests : Type 0 where
  pub sha256 : Hash
  pub same_hex : String → String → Bool

-- What the quota gate reads when it is asked: the account's stored bytes, and the uploads in flight.
pub record Reading : Type 0 where
  pub used : ℤ
  pub uploads : InFlightUploads

-- What the body brings next: bytes, or the end of the connection.
pub data Chunk : Type 0 where
  bytes : Bytes → Reading → Chunk
  broken : Chunk

-- The files of one key.
pub record Files : Type 0 where
  pub partial : Option Bytes
  pub stored : Option Bytes

pub record UploadQuery : Type 0 where
  pub offset : Option ℕ
  pub total : Option ℕ

-- A range that is allowed: where the body begins, and the size of the whole if the body is a piece.
abbrev pub Range : Type 0
Range = ℕ × Option ℕ

unfoldable pub range_of : UploadQuery → Option Range
range_of q = elim q.offset [
  | none ↦ elim q.total [ none ↦ some (0, none) | some t ↦ none ]
  | some o ↦ elim q.total [ none ↦ none | some t ↦ if ltb o t then some (o, some t) else none ]
]

-- `total.is_some_and(|total| total > limit)`
abbrev pub too_large : Option ℕ → ℕ → Bool
too_large none limit = false
too_large (some t) limit = ltb limit t

-- `total.is_some_and(|total| written > total)`
abbrev pub over : Option ℕ → ℕ → Bool
over none written = false
over (some t) written = ltb t written

abbrev pub is_piece : Option ℕ → Bool
is_piece none = false
is_piece (some t) = true

abbrev pub is_bound : Option String → Bool
is_bound none = false
is_bound (some h) = true

abbrev pub exceeds_declared : ApiError
exceeds_declared = new 413 "upload exceeds declared size"

-- `gate.check`: the refusal, if there is one, and the gate after it.
unfoldable pub ask_gate : Option QuotaGate → Reading → ℕ → Option ApiError × Option QuotaGate
unfolding check_chunk
ask_gate none r written = (none, none)
ask_gate (some gate) r written =
    let answer = check_chunk gate r.used written r.uploads in (answer.0, some answer.1)

-- How the loop over the body ended: refused, with the partial file it leaves, or at the body's end.
pub data Streamed : Type 0 where
  refused : ApiError → (partial : Option Bytes) → Streamed
  ended : (written : ℕ) → (partial : Bytes) → (seen : Bytes) → Streamed

-- The loop: `partial` is what the partial file holds, whose length is `written`, and `seen` is what the
-- digest was fed.
unfoldable pub stream : ℕ → Option ℕ → Option QuotaGate → List Chunk → ℕ → Bytes → Bytes → Streamed
unfolding ask_gate
stream limit total gate [] written partial seen = ended written partial seen
stream limit total gate (broken ∷ chunks) written partial seen =
    refused (bad_request "upload interrupted") (some partial)
stream limit total gate (bytes b r ∷ chunks) written partial seen =
    let later = written + length b in
    let asked = ask_gate gate r later in
    let rest = stream limit total asked.1 chunks later (partial ++ b) (seen ++ b) in
    if ltb limit later || over total later
    then refused exceeds_declared none
    else elim asked.0 [ some error ↦ refused error none | none ↦ rest ]

-- `written >= total` for a piece
abbrev pub is_complete : Option ℕ → ℕ → Bool
is_complete none written = true
is_complete (some t) written = leb t written

abbrev pub matches_hash : Digests → Option String → Bytes → Bool
matches_hash d none seen = true
matches_hash d (some expected) seen = d.same_hex (d.sha256 seen) expected

abbrev pub hash_mismatch : ApiError
hash_mismatch = bad_request "uploaded bytes do not match the declared SHA-256"

-- How the request ended: refused, with a piece that leaves the object waiting for more, or with the
-- whole object stored. The client is told by `reply`, which is the same for the last two.
pub data Ending : Type 0 where
  failed : ApiError → Ending
  waiting : Ending
  finished : (written : ℕ) → Ending

-- `StatusCode::OK`
abbrev pub status_ok : ℕ
status_ok = 200

-- What `upload` returns.
unfoldable pub reply : Ending → Result ℕ
reply (failed error) = err error
reply waiting = ok status_ok
reply (finished written) = ok status_ok

-- The end of the request, after the loop.
unfoldable pub settle : Digests → Claims → Option ℕ → Streamed → Files → Ending × Files
settle d claims total (refused error partial) files =
    (failed error, record files { partial = partial })
settle d claims total (ended written partial seen) files =
    if not (is_complete total written)
    then (waiting, record files { partial = some partial })
    else if not (matches_hash d claims.sha256 seen)
    then (failed hash_mismatch, record files { partial = none })
    else (finished written, record { partial = none; stored = some partial })

-- The file that a body at this offset is written to, if it can be: a new one, or what is there.
unfoldable pub opened : ℕ → Option Bytes → Option Bytes
opened offset partial =
    if nat_eq offset 0
    then some []
    else elim partial [ none ↦ none | some p ↦ if nat_eq (length p) offset then some p else none ]

abbrev pub out_of_order : ApiError
out_of_order = new 409 "chunk out of order — restart the upload from the beginning"

-- `upload` once the gate has let the offset pass.
unfoldable pub receive :
    Digests → Claims → Option QuotaGate → ℕ → Option ℕ → List Chunk → Files → Ending × Files
unfolding stream settle opened size_limit
receive d claims gate offset total body files = elim (opened offset files.partial) [
  | none ↦ (failed out_of_order, files)
  | some partial ↦
      settle d claims total (stream (size_limit claims.max) total gate body offset partial [])
        (record files { partial = some partial })
]

-- `upload` for an allowed range; `gate` is what `QuotaGate::open` answered.
unfoldable pub upload_range :
    Digests
    → Claims
    → Option QuotaGate
    → Reading
    → ℕ
    → Option ℕ
    → List Chunk
    → Files
    → Ending × Files
unfolding receive
upload_range d claims gate r offset total body files =
    let asked = ask_gate gate r offset in
    if is_bound claims.sha256 && (not (nat_eq offset 0) || is_piece total)
    then (
      failed (bad_request "chunked upload is not supported for content-addressed objects"),
      files,
    )
    else if too_large total (size_limit claims.max)
    then (failed exceeds_declared, files)
    else elim asked.0 [
      | some error ↦ (failed error, record files { partial = none })
      | none ↦ receive d claims asked.1 offset total body files
    ]

unfoldable pub upload :
    Digests
    → Claims
    → Option QuotaGate
    → Reading
    → UploadQuery
    → List Chunk
    → Files
    → Ending × Files
unfolding upload_range range_of
upload d claims gate r query body files = elim (range_of query) [
  | none ↦ (failed (bad_request "invalid chunk range"), files)
  | some (offset, total) ↦ upload_range d claims gate r offset total body files
]
