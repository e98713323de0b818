-- ===== src/CloudSaves/Request.antt =====
-- The requests of cloud_saves.rs and the checks that `prepare_snapshot` makes before it reads a
-- table.
use Prim.Native.Char.{code}
use hydra_server.Shared.{
  ℕ, String, ◌+◌, Bool, true, false, not, ◌&&◌, ◌||◌, Option, none, some, List, [], ◌∷◌, length,
  all, any, if◌then◌else◌, ltb, leb, nat_eq, ◌==◌,
}
use hydra_server.Shared.Int.{ℤ, pos, ltb_ℤ}
use hydra_server.Json.{Json}
use hydra_server.CloudSaves.State.{StateMetadata}

-- The code points of a text.
abbrev pub codes : String → List ℕ
codes String.[] = []
codes (String.◌∷◌ c s) = code c ∷ codes s

abbrev is_hex_digit : ℕ → Bool
is_hex_digit c =
    (leb b'0' c && leb c b'9') || ((leb b'a' c && leb c b'f') || (leb b'A' c && leb c b'F'))

-- 64 bytes, each an ASCII hex digit. (Where every character is one, bytes and characters agree.)
unfoldable pub is_sha256 : String → Bool
is_sha256 value = nat_eq (length (codes value)) 64 && all is_hex_digit (codes value)

unfoldable pub valid_shop : String → Bool
valid_shop shop = (shop == "steam") || ((shop == "epic") || (shop == "launchbox"))

-- `encode_utf16().count()`: two units for a character past the basic plane.
abbrev utf16_count : List ℕ → ℕ
utf16_count [] = 0
utf16_count (c ∷ cs) = (if ltb 0xFFFF c then 2 else 1) + utf16_count cs

abbrev within : String → Bool
within value = leb 1 (utf16_count (codes value)) && leb (utf16_count (codes value)) 255

abbrev within_if_some : Option String → Bool
within_if_some none = true
within_if_some (some value) = within value

unfoldable pub valid_state_metadata : StateMetadata → Bool
valid_state_metadata m =
    within m.emulator_id
    && (within_if_some m.core_id && (within_if_some m.version && within_if_some m.host_platform))

pub record FileInput : Type 0 where
  pub variant_id : String
  pub raw_path : String
  pub relative_path : String
  pub hash : String
  pub size_bytes : ℤ
  pub last_modified_at : String
  pub state_metadata : Option StateMetadata

pub record PrepareRequest : Type 0 where
  pub shop : String
  pub object_id : String
  pub platform : Option String
  pub hostname : Option String
  pub snapshot_hash : String
  pub base_version : ℤ
  pub custom_path_raw_paths : List String
  pub variants : List Json
  pub files : List FileInput

abbrev pub is_negative : ℤ → Bool
is_negative z = ltb_ℤ z (pos 0)

abbrev invalid_metadata : Option StateMetadata → Bool
invalid_metadata none = false
invalid_metadata (some m) = not (valid_state_metadata m)

-- `(variant_id, raw_path, relative_path)` of both files is the same.
abbrev pub same_identity : FileInput → FileInput → Bool
same_identity f g =
    (f.variant_id == g.variant_id)
    && ((f.raw_path == g.raw_path) && (f.relative_path == g.relative_path))

-- The refusal of one file, given those before it.
unfoldable pub file_problem : List FileInput → FileInput → Option String
file_problem seen f =
    if not (is_sha256 f.hash) || not (is_sha256 f.variant_id)
    then some "invalid file hash"
    else if is_negative f.size_bytes
    then some "invalid file size"
    else if (f.raw_path == "") || (f.relative_path == "")
    then some "invalid file path"
    else if invalid_metadata f.state_metadata
    then some "invalid state metadata"
    else if any (same_identity f) seen
    then some "duplicate file identity"
    else none

unfoldable pub files_problem : List FileInput → List FileInput → Option String
unfolding file_problem
files_problem seen [] = none
files_problem seen (f ∷ rest) =
    let later = files_problem (f ∷ seen) rest in
    elim (file_problem seen f) [ some message ↦ some message | none ↦ later ]

unfoldable pub request_problem : PrepareRequest → Option String
unfolding files_problem
request_problem r =
    if not (valid_shop r.shop)
    then some "unsupported shop"
    else if r.object_id == ""
    then some "missing objectId"
    else if not (is_sha256 r.snapshot_hash)
    then some "invalid snapshotHash"
    else if is_negative r.base_version
    then some "invalid baseVersion"
    else files_problem [] r.files
