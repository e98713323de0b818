-- ===== src/Storage/Pieces.antt =====
-- An upload in pieces, as the launcher sends it past proxies that cap the size of a body.
use hydra_server.Shared.{
  ℕ, ◌+◌, ◌≤◌, ◌≡◌, refl, sym, ap, ◌∙◌, true, false, Option, none, some, List, [], ◌∷◌, ◌++◌,
  length, length-append, if◌then◌else◌, ltb, leb, nat_eq, nat_eq_iff, arith, Bool-cases, inl, inr,
  lt→ltb, le→leb,
}
use mathlib.Core.List.{append_assoc, append-nil}
use hydra_server.Storage.Links.{Claims, size_limit}
use hydra_server.Storage.Body.{
  Bytes, Digests, Reading, Chunk, bytes, Files, UploadQuery, range_of, over, too_large, ask_gate,
  stream, ended, is_complete, settle, opened, receive, upload_range, upload, is_bound, matches_hash,
}

abbrev pub concat : List Bytes → Bytes
concat [] = []
concat (b ∷ pieces) = b ++ concat pieces

-- The chunks in which a body arrives, where no quota is read.
abbrev pub body : Reading → List Bytes → List Chunk
body r [] = []
body r (b ∷ chunks) = bytes b r ∷ body r chunks

-- A piece is the list of the chunks that it arrives in; these are the bytes of several.
abbrev pub joined : List (List Bytes) → Bytes
joined [] = []
joined (piece ∷ pieces) = concat piece ++ joined pieces

-- No piece is empty.
abbrev pub AreFull : List (List Bytes) → Type 0
AreFull [] = Unit
AreFull (piece ∷ pieces) = (1 ≤ length (concat piece)) × AreFull pieces

abbrev pub at_offset : ℕ → ℕ → UploadQuery
at_offset offset total = record { offset = some offset; total = some total }

abbrev pub whole : UploadQuery
whole = record { offset = none; total = none }

-- The pieces in their order, each at the offset where the last one ended and in chunks of its own,
-- where no quota is set.
unfoldable pub send_pieces : Digests → Claims → Reading → ℕ → ℕ → List (List Bytes) → Files → Files
unfolding upload
send_pieces d claims r total offset [] files = files
send_pieces d claims r total offset (piece ∷ pieces) files =
    send_pieces d claims r total (offset + length (concat piece)) pieces
      (upload d claims none r (at_offset offset total) (body r piece) files).1

over-le :
    (total : Option ℕ) (written later : ℕ)
    → written ≤ later
    → over total later ≡ false
    → over total written ≡ false
over-le none written later l o = refl
over-le (some t) written later l o = ground (arith, l, o)

module _ (d : Digests) (claims : Claims) (r : Reading) where
  stream-body :
      (total : Option ℕ) (offset : ℕ) (p seen : Bytes) (piece : List Bytes)
      → offset + length (concat piece) ≤ size_limit claims.max
      → over total (offset + length (concat piece)) ≡ false
      → stream (size_limit claims.max) total none (body r piece) offset p seen
        ≡ ended (offset + length (concat piece)) (p ++ concat piece) (seen ++ concat piece)
  unfolding stream ask_gate
  stream-body total offset p seen [] l o =
      let n : offset ≡ offset + 0 = omega arith in
      ap (λ k. ended k p seen) n
      ∙ ap (λ (x : Bytes). ended (offset + 0) x seen) (sym (append-nil p))
      ∙ ap (λ (x : Bytes). ended (offset + 0) (p ++ []) x) (sym (append-nil seen))
  stream-body total offset p seen (b ∷ piece) l o =
      let long : length (b ++ concat piece) ≡ length b + length (concat piece) =
        length-append b (concat piece) in
      let sum : (offset + length b) + length (concat piece) ≡ offset + length (b ++ concat piece) =
        omega (arith, long) in
      let fits : ltb (size_limit claims.max) (offset + length b) ≡ false =
        ground (arith, l, long) in
      let inside : over total (offset + length b) ≡ false =
        over-le total (offset + length b) (offset + length (b ++ concat piece))
          (omega (arith, long)) o in
      rw (stream, fits, inside)
        (stream-body total (offset + length b) (p ++ b) (seen ++ b) piece (omega (arith, sum, l))
            (ap (over total) sum ∙ o)
          ∙ ap (λ k. ended k ((p ++ b) ++ concat piece) ((seen ++ b) ++ concat piece)) sum
          ∙ ap
              (λ (x : Bytes).
                ended (offset + length (b ++ concat piece)) x ((seen ++ b) ++ concat piece))
              (append_assoc p b (concat piece))
          ∙ ap
              (λ (x : Bytes).
                ended (offset + length (b ++ concat piece)) (p ++ (b ++ concat piece)) x)
              (append_assoc seen b (concat piece)))

  receive-body :
      (total : Option ℕ) (offset : ℕ) (p : Bytes) (piece : List Bytes) (files : Files)
      → claims.sha256 ≡ none
      → opened offset files.partial ≡ some p
      → offset + length (concat piece) ≤ size_limit claims.max
      → over total (offset + length (concat piece)) ≡ false
      → (receive d claims none offset total (body r piece) files).1 ≡ (
          if is_complete total (offset + length (concat piece))
          then record { partial = none; stored = some (p ++ concat piece) }
          else record { partial = some (p ++ concat piece); stored = files.stored })
  unfolding receive settle
  receive-body total offset p piece files s e l o =
      let right : matches_hash d claims.sha256 (concat piece) ≡ true =
        ap (λ h. matches_hash d h (concat piece)) s in
      rw (receive, e, stream-body total offset p [] piece l o, settle)
        (elim (Bool-cases (is_complete total (offset + length (concat piece)))) [
          | inl y ↦ rw (y, right) refl
          | inr n ↦ rw n refl
        ])

  upload-piece :
      (total offset : ℕ) (p : Bytes) (piece : List Bytes) (files : Files)
      → claims.sha256 ≡ none
      → opened offset files.partial ≡ some p
      → total ≤ size_limit claims.max
      → offset + length (concat piece) ≤ total
      → 1 ≤ length (concat piece)
      → (upload d claims none r (at_offset offset total) (body r piece) files).1 ≡ (
          if leb total (offset + length (concat piece))
          then record { partial = none; stored = some (p ++ concat piece) }
          else record { partial = some (p ++ concat piece); stored = files.stored })
  unfolding upload upload_range range_of ask_gate
  upload-piece total offset p piece files s e l w n =
      let inside : ltb offset total ≡ true = lt→ltb offset total (omega (arith, w, n)) in
      let allowed : too_large (some total) (size_limit claims.max) ≡ false = ground (arith, l) in
      let unbound : is_bound claims.sha256 ≡ false = ap is_bound s in
      let within : over (some total) (offset + length (concat piece)) ≡ false = ground (arith, w) in
      rw (upload, range_of, inside, upload_range, unbound, allowed)
        (receive-body (some total) offset p piece files s e (omega (arith, l, w)) within)

  upload-whole :
      (piece : List Bytes) (files : Files)
      → claims.sha256 ≡ none
      → length (concat piece) ≤ size_limit claims.max
      → (upload d claims none r whole (body r piece) files).1
        ≡ record { partial = none; stored = some (concat piece) }
  unfolding upload upload_range range_of ask_gate opened
  upload-whole piece files s l =
      let unbound : is_bound claims.sha256 ≡ false = ap is_bound s in
      rw (upload, range_of, upload_range, unbound)
        (receive-body none 0 [] piece files s refl (omega (arith, l)) refl)

  reopened :
      (offset : ℕ) (p : Bytes) → length p ≡ offset → 1 ≤ offset → opened offset (some p) ≡ some p
  unfolding opened
  reopened offset p e l =
      let later : nat_eq offset 0 ≡ false = ground (arith, nat_eq_iff offset 0, l) in
      let there : nat_eq (length p) offset ≡ true = (nat_eq_iff (length p) offset).1 e in
      rw (opened, later, there) refl

  send_pieces-stored :
      (total offset : ℕ) (p : Bytes) (piece : List Bytes) (pieces : List (List Bytes))
      (files : Files)
      → claims.sha256 ≡ none
      → opened offset files.partial ≡ some p
      → length p ≡ offset
      → total ≤ size_limit claims.max
      → offset + length (joined (piece ∷ pieces)) ≡ total
      → AreFull (piece ∷ pieces)
      → send_pieces d claims r total offset (piece ∷ pieces) files
        ≡ record { partial = none; stored = some (p ++ joined (piece ∷ pieces)) }
  unfolding send_pieces
  send_pieces-stored total offset p piece [] files s e h l t (n, full) =
      let b = concat piece in
      let long : length (b ++ []) ≡ length b = ap length (append-nil b) in
      let last : leb total (offset + length b) ≡ true =
        le→leb total (offset + length b) (omega (arith, t, long)) in
      upload-piece total offset p piece files s e l (omega (arith, t, long)) n
      ∙ rw last (
          ap (λ (x : Bytes). record { partial = none; stored = some (p ++ x) })
            (sym (append-nil b)))
  send_pieces-stored total offset p piece (next ∷ pieces) files s e h l t (n, (m, full)) =
      let b = concat piece in
      let long : length (joined (piece ∷ next ∷ pieces))
          ≡ length b + (length (concat next) + length (joined pieces)) =
        length-append b (joined (next ∷ pieces))
        ∙ ap (λ (k : ℕ). length b + k) (length-append (concat next) (joined pieces)) in
      let more : leb total (offset + length b) ≡ false = ground (arith, t, long, m) in
      let later : Files = record { partial = some (p ++ b); stored = files.stored } in
      let sent : (upload d claims none r (at_offset offset total) (body r piece) files).1 ≡ later =
        upload-piece total offset p piece files s e l (omega (arith, t, long)) n ∙ rw more refl in
      let size : length (p ++ b) ≡ offset + length b = omega (arith, length-append p b, h) in
      ap (send_pieces d claims r total (offset + length b) (next ∷ pieces)) sent
      ∙ send_pieces-stored total (offset + length b) (p ++ b) next pieces later s
          (reopened (offset + length b) (p ++ b) size (omega (arith, n))) size l
          (omega (arith, t, long, length-append (concat next) (joined pieces))) (m, full)
      ∙ ap (λ (x : Bytes). record { partial = none; stored = some x })
          (append_assoc p b (joined (next ∷ pieces)))

  -- An upload in pieces stores what one upload of the whole does, whatever chunks each body arrives in:
  -- where no quota is set and the link asks for no digest, the pieces, none of them empty and together
  -- within the limit of the link, leave under the key the bytes that they make up, and no partial file,
  -- whatever was there before.
  pub send_pieces-whole :
      (piece : List Bytes) (pieces : List (List Bytes)) (at_once : List Bytes) (files : Files)
      → claims.sha256 ≡ none
      → length (joined (piece ∷ pieces)) ≤ size_limit claims.max
      → AreFull (piece ∷ pieces)
      → concat at_once ≡ joined (piece ∷ pieces)
      → (send_pieces d claims r (length (joined (piece ∷ pieces))) 0 (piece ∷ pieces) files
          ≡ (upload d claims none r whole (body r at_once) files).1)
        × (send_pieces d claims r (length (joined (piece ∷ pieces))) 0 (piece ∷ pieces) files
            ≡ record { partial = none; stored = some (joined (piece ∷ pieces)) })
  unfolding opened
  send_pieces-whole piece pieces at_once files s l full same =
      let sent =
        send_pieces-stored (length (joined (piece ∷ pieces))) 0 [] piece pieces files s refl refl l
          (omega arith) full in
      let fits : length (concat at_once) ≤ size_limit claims.max = rw same l in
      let stored =
        upload-whole at_once files s fits
        ∙ ap (λ (x : Bytes). record { partial = none; stored = some x }) same in
      (sent ∙ sym stored, sent)
