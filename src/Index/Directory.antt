-- ===== src/Index/Directory.antt =====
-- `write_outdir` and `check_dir` over a directory of files. The directory is a list of names with
-- their bytes; writing a name again replaces its bytes.
pub mod Writes
mod Examples
pub mod Generated
use gitz.Common.{
  ℕ, zero, suc, ◌+◌, ◌-◌, ◌==◌, ◌≡◌, Bool, true, false, List, [], ◌∷◌, ◌++◌, Bytes, Text, codes,
  same, all, ltb, Option, none, some, if◌then◌else◌, length, take, drop, Result, ok, err, ◌>>=◌,
  ◌>>◌, require,
}
use gitz.Common.Str.{strip}
use gitz.Index.Hex.{hex, fromhex}
use gitz.Index.Image.{v2_simple, v3_intent, v4_prefix}
use gitz.Index.Reader.{Read, read_hashed_uint32}

-- The `SystemExit`s and exceptions of the generator, with what their messages name.
pub data Exit : Type 0 where
  bad_signature bad_version bad_trailer unknown_name : Text → Exit
  unpack_error : Text → Exit
  missing_dir : Exit
  missing_binary : Text → Exit
  fixture_mismatch : Text → ℕ → ℕ → Exit
  not_ascii bad_hex hex_mismatch : Text → Exit
  missing_zig zig_not_found : Exit
  const_not_found rewrite_failed bad_bytes : Text → Exit
  embed_mismatch : Text → ℕ → ℕ → Exit

abbrev pub Dir : Type 0
Dir = List (Text × Bytes)

-- `path.is_file()` and `path.read_bytes()`
unfoldable pub read_file : Text → Dir → Option Bytes
read_file k [] = none
read_file k ((j, v) ∷ d) = if same j k then some v else read_file k d

-- `path.write_bytes(data)`, `path.write_text(...)`
unfoldable pub write_file : Text → Bytes → Dir → Dir
write_file k v [] = (k, v) ∷ []
write_file k v ((j, w) ∷ d) = if same j k then (k, v) ∷ d else (j, w) ∷ write_file k v d

abbrev pub hex_name : Text → Text
hex_name name = name ++ codes ".hex"

-- `EXPECTED_VERSIONS[name]`
unfoldable pub expected_version : Text → Option ℕ
expected_version name =
    if same name v2_simple
    then some 2
    else if same name v3_intent
    then some 3
    else if same name v4_prefix
    then some 4
    else none

-- `data.hex() + "\n"`
abbrev pub hex_text : Bytes → Text
hex_text bs = hex bs ++ (b'\n' ∷ [])

unfoldable pub require_some {ℓ} : {A : Type ℓ} → Option A → Exit → Result Exit A
require_some none e = err e
require_some (some a) e = ok a

-- `data[:-20]` and `data[-20:]`
abbrev pub front20 : Bytes → Bytes
front20 bs = take (length bs - 20) bs

abbrev pub back20 : Bytes → Bytes
back20 bs = drop (length bs - 20) bs

-- `struct.unpack(">I", data[4:8])[0]`
unfoldable pub unpack_version : Bytes → Option ℕ
unfolding read_hashed_uint32
unpack_version bs = elim (read_hashed_uint32 (take 4 (drop 4 bs))) [
  | ok p ↦ some p.0
  | err e ↦ none
]

module _ (sha1 : Bytes → Bytes) where
  -- The checks of `write_outdir` on one image that it has written.
  unfoldable pub check_image : Text → ℕ → Bytes → Result Exit (Unit {0})
  unfolding require_some unpack_version
  check_image name version bs = do
    require (same (take 4 bs) (codes "DIRC")) (bad_signature name)
    got ← require_some (unpack_version bs) (unpack_error name)
    require (got == version) (bad_version name)
    require (same (sha1 (front20 bs)) (back20 bs)) (bad_trailer name)

  unfoldable pub write_outdir : List (Text × Bytes) → Dir → Result Exit Dir
  write_outdir [] d = ok d
  write_outdir ((name, bs) ∷ images) d = do
    version ← require_some (expected_version name) (unknown_name name)
    let d' = write_file (hex_name name) (hex_text bs) (write_file name bs d)
    check_image name version bs
    write_outdir images d'

-- `bytes.fromhex(hx) != want`, on the stripped text of a `.hex` file.
unfoldable pub compare_hex : Text → Bytes → Option Bytes → Result Exit (Unit {0})
compare_hex name want none = err (bad_hex name)
compare_hex name want (some got) = require (same got want) (hex_mismatch name)

-- The `.hex` twin is looked at only if it is there; it is read in ASCII.
unfoldable pub check_hex : Text → Bytes → Option Text → Result Exit (Unit {0})
unfolding compare_hex
check_hex name want none = ok tt
check_hex name want (some text) =
    if all (λ c. ltb c 128) text
    then compare_hex name want (fromhex (strip text))
    else err (not_ascii name)

unfoldable pub check_binary : Text → Bytes → Option Bytes → Result Exit (Unit {0})
check_binary name want none = err (missing_binary name)
check_binary name want (some got) =
    require (same got want) (fixture_mismatch name (length got) (length want))

unfoldable pub check_files : List (Text × Bytes) → Dir → Result Exit (Unit {0})
check_files [] d = ok tt
check_files ((name, want) ∷ images) d = do
  check_binary name want (read_file name d)
  check_hex name want (read_file (hex_name name) d)
  check_files images d

-- `none` is a directory that is not there.
unfoldable pub check_dir : Option Dir → List (Text × Bytes) → Result Exit (Unit {0})
unfolding check_files
check_dir none images = err missing_dir
check_dir (some d) images = check_files images d
