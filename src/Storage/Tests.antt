-- ===== src/Storage/Tests.antt =====
-- Two uploads of one account, with a quota that both just fit.
use hydra_server.Shared.{
  List, Option, some, length, nat_eq, ◌==◌, if◌then◌else◌, String, ◌+◌, ◌≤◌, ◌≡◌, refl, none, [],
  ◌∷◌, arith,
}
use hydra_server.Shared.Int.{pos}
use hydra_server.Storage.Uploads.{remaining_quota, refresh, InFlight, QuotaGate, check_chunk}
use hydra_server.Storage.Together.{check_chunk-together}
use hydra_server.Storage.Links.{Claims, size_limit}
use hydra_server.Storage.Body.{
  Bytes, Digests, Reading, bytes, Files, upload, finished, failed, hash_mismatch, out_of_order,
}
use hydra_server.Storage.Landed.{Landed, upload-Landed}
use hydra_server.Storage.Pieces.{body, whole, at_offset, send_pieces, send_pieces-whole}

abbrev gate_of : String → QuotaGate
gate_of key = record {
  quota = 10;
  key = key;
  target = record { user_id = "ada"; counted_bytes = 0 };
  budget = 8;
  read_at = 0;
  declared = 4;
}

abbrev flight_of : String → InFlight
flight_of key = record { key = key; user_id = "ada"; extra_bytes = 4 }

first_run : check_chunk (gate_of "a") (pos 2) 1 [] ≡ (none, gate_of "a", flight_of "a" ∷ [])
unfolding check_chunk
first_run = refl

second_run :
    check_chunk (gate_of "b") (pos 2) 1 (flight_of "a" ∷ [])
    ≡ (none, gate_of "b", flight_of "a" ∷ flight_of "b" ∷ [])
unfolding check_chunk
second_run = refl

check_chunk-together_example : 2 + 4 + 4 ≤ 10 + 0 + 0 + 0
unfolding remaining_quota refresh
check_chunk-together_example =
    check_chunk-together (gate_of "a") (gate_of "b") (gate_of "a") (gate_of "b") (pos 2) 1 1 []
      (flight_of "a" ∷ []) (flight_of "a" ∷ flight_of "b" ∷ []) refl refl refl refl (omega arith)
      (omega arith) first_run second_run

abbrev digests : Digests
digests = record {
  sha256 = λ b. if nat_eq (length b) 3 then "aa" else "bb";
  same_hex = λ a b. a == b;
}

abbrev link : Option String → Claims
link sha256 = record { op = "put"; key = "artifacts/a.tar"; max = 3; exp = 0; sha256 = sha256 }

abbrev reading : Reading
reading = record { used = pos 0; uploads = [] }

abbrev nothing : Files
nothing = record { partial = none; stored = none }

abbrev older_file : Files
older_file = record { partial = some (9 ∷ []); stored = some (8 ∷ []) }

bound_run :
    upload digests
      (link (some "aa"))
      none
      reading
      whole
      (bytes (1 ∷ 2 ∷ []) reading ∷ bytes (3 ∷ []) reading ∷ [])
      older_file
    ≡ (finished 3, record { partial = none; stored = some (1 ∷ 2 ∷ 3 ∷ []) })
unfolding upload
bound_run = refl

mismatch_run :
    upload digests
      (link (some "aa"))
      none
      reading
      whole
      (bytes (1 ∷ 2 ∷ []) reading ∷ [])
      older_file
    ≡ (failed hash_mismatch, record { partial = none; stored = some (8 ∷ []) })
unfolding upload
mismatch_run = refl

out_of_order_run :
    upload digests (link none) none reading (at_offset 2 3) (bytes (3 ∷ []) reading ∷ []) older_file
    ≡ (failed out_of_order, older_file)
unfolding upload
out_of_order_run = refl

upload-Landed_example : Landed digests (link (some "aa")) older_file (
    upload digests
      (link (some "aa"))
      (some (gate_of "a"))
      reading
      whole
      (bytes (1 ∷ 2 ∷ 3 ∷ []) reading ∷ [])
      older_file)
upload-Landed_example =
    upload-Landed digests (link (some "aa")) (some (gate_of "a")) reading whole
      (bytes (1 ∷ 2 ∷ 3 ∷ []) reading ∷ []) older_file

within_link : 3 ≤ size_limit 3
unfolding size_limit
within_link = omega arith

-- The first piece arrives in two chunks.
abbrev two_pieces : List (List Bytes)
two_pieces = ((1 ∷ []) ∷ (2 ∷ []) ∷ []) ∷ ((3 ∷ []) ∷ []) ∷ []

send_pieces-whole_example :
    (send_pieces digests (link none) reading 3 0 two_pieces older_file
      ≡ (upload digests
          (link none)
          none
          reading
          whole
          (body reading ((1 ∷ []) ∷ (2 ∷ 3 ∷ []) ∷ []))
          older_file).1)
    × (send_pieces digests (link none) reading 3 0 two_pieces older_file
        ≡ record { partial = none; stored = some (1 ∷ 2 ∷ 3 ∷ []) })
send_pieces-whole_example =
    send_pieces-whole digests (link none) reading ((1 ∷ []) ∷ (2 ∷ []) ∷ []) (((3 ∷ []) ∷ []) ∷ [])
      ((1 ∷ []) ∷ (2 ∷ 3 ∷ []) ∷ []) older_file refl within_link (omega arith, (omega arith, tt))
      refl
