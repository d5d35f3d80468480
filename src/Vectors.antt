-- ===== src/Vectors.antt =====
-- tools/golden/gen_vectors.py: the Zig source that holds the expected payloads.
pub mod Literal
mod Examples
use gitz.Common.{
  ℕ, ◌+◌, ◌/◌, ◌%◌, ◌==◌, ltb, ◌||◌, List, [], ◌∷◌, ◌++◌, Text, codes, if◌then◌else◌, Option, none,
  some, Result, ok, err, ◌>>=◌,
}
use gitz.Common.Str.{join, partition, has_char}
use gitz.Index.Hex.{hex}

-- What the loop of `zig_string` appends for one character.
escape : ℕ → Text
escape ch =
    if ch == b'\\'
    then codes "\\\\"
    else if ch == b'"'
    then codes "\\\""
    else if ch == b'\n'
    then codes "\\n"
    else if ch == b'\r'
    then codes "\\r"
    else if ch == b'\t'
    then codes "\\t"
    else if ltb ch 32 || ch == 127
    then codes "\\x" ++ hex (ch ∷ [])
    else ch ∷ []

escape_all : Text → Text
unfolding escape
escape_all [] = []
escape_all (ch ∷ s) = escape ch ++ escape_all s

pub zig_string : Text → Text
unfolding escape_all
zig_string s = b'"' ∷ (escape_all s ++ (b'"' ∷ []))

-- What stops `main`: a pair with no `=`, or a file that cannot be read.
pub data Stop : Type 0 where
  no_suite : Text → Stop
  unreadable : Text → Stop

abbrev header : List Text
header =
    codes "//! Auto-generated expected golden payloads for recompute_test."
    ∷ codes "//! Do not edit by hand — produced by gen_vectors.py from data/goldens."
    ∷ []
    ∷ []

-- `path.read_text(encoding="utf-8")` over the files that can be read.
module _ (read_text : Text → Option Text) where
  text_of : Text → Result Stop Text
  text_of path = elim (read_text path) [ none ↦ err (unreadable path) | some text ↦ ok text ]

  -- The two lines of one pair, `suite, path = pair.split("=", 1)`.
  pair_lines : Text → Result Stop (List Text)
  unfolding text_of has_char partition zig_string
  pair_lines pair =
      if has_char b'=' pair
      then (let (suite, path) = partition b'=' pair in
          do
            text ← text_of path
            ok (
                (codes "pub const " ++ (suite ++ (codes " = " ++ (zig_string text ++ codes ";"))))
                ∷ []
                ∷ []))
      else err (no_suite pair)

  all_lines : List Text → Result Stop (List Text)
  unfolding pair_lines
  all_lines [] = ok []
  all_lines (pair ∷ pairs) = do a ← pair_lines pair; b ← all_lines pairs; ok (a ++ b)

  -- The text that `main` writes to `--out`.
  pub vectors : List Text → Result Stop Text
  unfolding all_lines join
  vectors pairs = do body ← all_lines pairs; ok (join (codes "\n") (header ++ body))
