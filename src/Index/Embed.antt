-- ===== src/Index/Embed.antt =====
-- The fixture arrays in a Zig file: `zig_byte_array`, `extract_zig_raw`, `embed_fixtures_zig` and
-- `check_embed` of tools/gen_index_fixtures.py, with their regular expressions as matchers.
pub mod Numbers
pub mod Printed
pub mod Rewrite
pub mod Layout
mod Examples
use gitz.Common.{
  ℕ, zero, suc, ◌+◌, ◌*◌, ◌/◌, ◌%◌, ◌≡◌, ◌==◌, ltb, Bool, true, false, not, ◌&&◌, ◌||◌, List, [],
  ◌∷◌, ◌++◌, map, Bytes, Text, codes, same, Option, none, some, if◌then◌else◌, length, take, drop,
  all, Result, ok, err, ◌>>=◌, ◌>>◌, require,
}
use gitz.Common.Str.{is_empty, join, literal, run_of}
use gitz.Index.Directory.{
  Exit, missing_zig, zig_not_found, const_not_found, rewrite_failed, bad_bytes, embed_mismatch,
}
use gitz.Index.Hex.{hex_digit, hex_value}

-- `f"0x{b:02x}"`
unfoldable pub hex_byte : ℕ → Text
unfolding hex_digit
hex_byte b = b'0' ∷ b'x' ∷ hex_digit (b / 16) ∷ hex_digit (b % 16) ∷ []

-- The slices of sixteen bytes; every slice takes a byte, so that the length is enough fuel.
unfoldable pub chunks : ℕ → Bytes → List Bytes
chunks zero bs = []
chunks (suc fuel) [] = []
chunks (suc fuel) (b ∷ bs) = take 16 (b ∷ bs) ∷ chunks fuel (drop 16 (b ∷ bs))

unfoldable pub hex_bytes : Bytes → List Text
unfolding hex_byte
hex_bytes [] = []
hex_bytes (b ∷ bs) = hex_byte b ∷ hex_bytes bs

unfoldable pub byte_line : Bytes → Text
unfolding hex_bytes join
byte_line chunk = codes "    " ++ (join (codes ", ") (hex_bytes chunk) ++ codes ",")

unfoldable pub byte_lines : List Bytes → List Text
unfolding byte_line
byte_lines [] = []
byte_lines (c ∷ cs) = byte_line c ∷ byte_lines cs

unfoldable pub zig_byte_array : Bytes → Text
unfolding chunks byte_lines join
zig_byte_array bs = join (codes "\n") (byte_lines (chunks (length bs) bs))

-- The opening of the array, `const {name}_raw = [_]u8{`.
abbrev pub opening : Text → Text
opening name = codes "const " ++ (name ++ codes "_raw = [_]u8{")

-- Where the scan for `0x([0-9a-fA-F]+)` stands: nowhere, behind a zero, behind `0x`, or in the digits
-- of a number.
pub data Scan : Type 0 where
  outside : Scan
  zero_seen : Scan
  prefix_seen : Scan
  inside : ℕ → Scan

abbrev pub restart : ℕ → Scan
restart c = if c == b'0' then zero_seen else outside

-- `[int(x, 16) for x in re.findall(...)]`
unfoldable pub numbers : Scan → Text → List ℕ
unfolding hex_value
numbers (inside n) [] = n ∷ []
numbers outside [] = []
numbers zero_seen [] = []
numbers prefix_seen [] = []
numbers outside (c ∷ s) = numbers (restart c) s
numbers zero_seen (c ∷ s) = numbers (if c == b'x' then prefix_seen else restart c) s
numbers prefix_seen (c ∷ s) =
    numbers (elim (hex_value c) [ some d ↦ inside d | none ↦ restart c ]) s
numbers (inside n) (c ∷ s) =
    let more = λ (d : ℕ). numbers (inside (n * 16 + d)) s in
    let done = n ∷ numbers (restart c) s in elim (hex_value c) [ some d ↦ more d | none ↦ done ]

-- A character of `[^}]`.
abbrev pub is_body : ℕ → Bool
is_body c = not (c == b'}')

-- The group of the expression at the beginning of the text.
unfoldable pub raw_at : Text → Text → Option Text
unfolding literal run_of
raw_at start s = elim (literal start s) [
  | none ↦ none
  | some inner ↦
      (let (body, after) = run_of is_body inner in
        if is_empty body || is_empty after then none else some body)
]

unfoldable pub find_raw : Text → Text → Option Text
unfolding raw_at
find_raw start [] = raw_at start []
find_raw start (c ∷ s) =
    let later = find_raw start s in
    elim (raw_at start (c ∷ s)) [ some body ↦ some body | none ↦ later ]

-- `bytes(nums)`
unfoldable pub to_bytes : Text → List ℕ → Result Exit Bytes
to_bytes name ns = if all (λ n. ltb n 256) ns then ok ns else err (bad_bytes name)

unfoldable pub extract_zig_raw : Text → Text → Result Exit Bytes
unfolding find_raw numbers to_bytes
extract_zig_raw text name = elim (find_raw (opening name) text) [
  | none ↦ err (const_not_found name)
  | some body ↦ to_bytes name (numbers outside body)
]

-- `.*?\n};`: what follows the first end of an array.
unfoldable pub after_end : Text → Option Text
unfolding literal
after_end [] = none
after_end (c ∷ s) =
    let later = after_end s in
    elim (literal (codes "\n};") (c ∷ s)) [ some rest ↦ some rest | none ↦ later ]

-- The replacement at the beginning of the text.
unfoldable pub rewrite_at : Text → Text → Text → Option Text
unfolding literal after_end
rewrite_at start body s = elim (literal (start ++ codes "\n") s) [
  | none ↦ none
  | some inner ↦ elim (after_end inner) [
    | none ↦ none
    | some rest ↦ some (start ++ (codes "\n" ++ (body ++ (codes "\n" ++ (codes "};" ++ rest)))))
  ]
]

-- `pattern.subn(replacement, text, count=1)`; `none` is no replacement.
unfoldable pub rewrite_first : Text → Text → Text → Option Text
unfolding rewrite_at
rewrite_first start body [] = rewrite_at start body []
rewrite_first start body (c ∷ s) =
    let later = rewrite_first start body s in
    elim (rewrite_at start body (c ∷ s)) [
      | some t ↦ some t
      | none ↦ elim later [ none ↦ none | some t ↦ some (c ∷ t) ]
    ]

unfoldable pub embed_one : Text → Bytes → Text → Result Exit Text
unfolding rewrite_first zig_byte_array
embed_one name bs text = elim (rewrite_first (opening name) (zig_byte_array bs) text) [
  | none ↦ err (rewrite_failed name)
  | some t ↦ ok t
]

-- The loop over the images.
unfoldable pub embed_all : List (Text × Bytes) → Text → Result Exit Text
unfolding embed_one
embed_all [] text = ok text
embed_all ((name, bs) ∷ images) text = do t ← embed_one name bs text; embed_all images t

-- The text that is written back. `none` is a file that is not there.
unfoldable pub embed_fixtures_zig : Option Text → List (Text × Bytes) → Result Exit Text
unfolding embed_all
embed_fixtures_zig none images = err missing_zig
embed_fixtures_zig (some text) images = embed_all images text

unfoldable pub check_arrays : Text → List (Text × Bytes) → Result Exit (Unit {0})
unfolding extract_zig_raw
check_arrays text [] = ok tt
check_arrays text ((name, want) ∷ images) = do
  got ← extract_zig_raw text name
  require (same got want) (embed_mismatch name (length got) (length want))
  check_arrays text images

unfoldable pub check_embed : Option Text → List (Text × Bytes) → Result Exit (Unit {0})
unfolding check_arrays
check_embed none images = err zig_not_found
check_embed (some text) images = check_arrays text images
