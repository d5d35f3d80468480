-- ===== src/Vectors/Literal.antt =====
-- A Zig string literal means the text that it was made from.
use gitz.Common.{
  ℕ, ◌+◌, ◌*◌, ◌≡◌, ◌==◌, refl, ltb, ◌||◌, arith, [], ◌∷◌, ◌++◌, append_assoc, Text, if◌then◌else◌,
  Option, none, some,
}
use gitz.Index.Hex.{hex, hex_digit, hex_value}
use gitz.Vectors.{zig_string, escape, escape_all}

-- The reading of a Zig double-quoted literal, behind its opening quote: the text, and what stands
-- behind the closing quote. `none` is a text that is no literal: Zig takes no raw control character,
-- and of the escapes those are read that stand for one ASCII character, `\n`, `\r`, `\t`, `\\`, `\"`
-- and `\x` with two digits.
abbrev cons : ℕ → Option (Text × Text) → Option (Text × Text)
cons c none = none
cons c (some (s, r)) = some (c ∷ s, r)

data Mode : Type 0 where
  plain escaped hex_first : Mode
  hex_second : ℕ → Mode

read_from : Mode → Text → Option (Text × Text)
unfolding hex_value
read_from m [] = none
read_from plain (c ∷ s) =
    let more = cons c (read_from plain s) in
    let escape_ = read_from escaped s in
    if c == b'"'
    then some ([], s)
    else if c == b'\\'
    then escape_
    else if ltb c 32 || c == 127
    then none
    else more
read_from escaped (c ∷ s) =
    let next = read_from plain s in
    let digits = read_from hex_first s in
    if c == b'n'
    then cons 10 next
    else if c == b'r'
    then cons 13 next
    else if c == b't'
    then cons 9 next
    else if c == b'\\'
    then cons 92 next
    else if c == b'"'
    then cons 34 next
    else if c == b'x'
    then digits
    else none
read_from hex_first (c ∷ s) = elim (hex_value c) [
  | none ↦ none
  | some v ↦ read_from (hex_second v) s
]
read_from (hex_second v) (c ∷ s) = elim (hex_value c) [
  | none ↦ none
  | some w ↦ if ltb (v * 16 + w) 128 then cons (v * 16 + w) (read_from plain s) else none
]

pub read_literal : Text → Option (Text × Text)
unfolding read_from
read_literal [] = none
read_literal (c ∷ s) = if c == b'"' then read_from plain s else none

-- One character of the literal is read back as itself.
read_from-escape :
    (ch : ℕ) (s : Text) → read_from plain (escape ch ++ s) ≡ cons ch (read_from plain s)
unfolding read_from escape hex hex_digit
read_from-escape ch s = ground arith

read_from-escape_all :
    (s rest : Text) → read_from plain (escape_all s ++ (b'"' ∷ rest)) ≡ some (s, rest)
unfolding escape_all
read_from-escape_all [] rest = unfold read_from in refl
read_from-escape_all (ch ∷ s) rest =
    rw (append_assoc, read_from-escape ch, read_from-escape_all s rest)

-- Read as a Zig string literal, the text that `zig_string` writes ends where it should and means
-- the text that it was made from, whatever follows it.
pub read_literal-zig_string : (s rest : Text) → read_literal (zig_string s ++ rest) ≡ some (s, rest)
unfolding zig_string read_literal
read_literal-zig_string s rest = rw append_assoc (read_from-escape_all s rest)
