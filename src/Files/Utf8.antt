-- ===== src/Files/Utf8.antt =====
-- `bytes.decode("utf-8", errors="replace")`: each longest prefix of a character that does not go
-- on becomes one U+FFFD.
use gitz.Common.{
  ℕ, ◌+◌, ◌-◌, ◌*◌, ◌%◌, ◌==◌, leb, ◌&&◌, List, [], ◌∷◌, ◌++◌, ◌≡◌, refl, Text, Bytes,
  if◌then◌else◌,
}

-- How many bytes of a character are still to come, the bounds of the next one, and the bits read so far.
record Pending : Type 0 where
  need : ℕ
  low : ℕ
  high : ℕ
  bits : ℕ

abbrev idle : Pending
idle = record { need = 0; low = 0x80; high = 0xbf; bits = 0 }

-- What a first byte emits and what it waits for.
abbrev start : ℕ → List ℕ × Pending
start b =
    if leb b 0x7f
    then (b ∷ [], idle)
    else if leb 0xc2 b && leb b 0xdf
    then ([], record { need = 1; low = 0x80; high = 0xbf; bits = b % 32 })
    else if leb 0xe0 b && leb b 0xef
    then (
      [],
      record {
        need = 2;
        low = if b == 0xe0 then 0xa0 else 0x80;
        high = if b == 0xed then 0x9f else 0xbf;
        bits = b % 16;
      },
    )
    else if leb 0xf0 b && leb b 0xf4
    then (
      [],
      record {
        need = 3;
        low = if b == 0xf0 then 0x90 else 0x80;
        high = if b == 0xf4 then 0x8f else 0xbf;
        bits = b % 8;
      },
    )
    else (0xfffd ∷ [], idle)

-- What one byte emits, and the state behind it.
abbrev feed : Pending → ℕ → List ℕ × Pending
feed p b =
    let (out, next) = start b in
    let bits = p.bits * 64 + b % 64 in
    if p.need == 0
    then (out, next)
    else if leb p.low b && leb b p.high
    then (if p.need == 1
        then (bits ∷ [], idle)
        else ([], record { need = p.need - 1; low = 0x80; high = 0xbf; bits = bits }))
    else (0xfffd ∷ out, next)

decode_from : Pending → Bytes → Text
decode_from p [] = if p.need == 0 then [] else 0xfffd ∷ []
decode_from p (b ∷ bs) = let (out, next) = feed p b in out ++ decode_from next bs

unfoldable pub decode_replace : Bytes → Text
unfolding decode_from
decode_replace bs = decode_from idle bs

test_replace :
    decode_replace (0x41 ∷ 0xe2 ∷ 0x82 ∷ 0xac ∷ 0xe2 ∷ 0x82 ∷ 0x42 ∷ 0xff ∷ 0xc3 ∷ [])
    ≡ 0x41 ∷ 0x20ac ∷ 0xfffd ∷ 0x42 ∷ 0xfffd ∷ 0xfffd ∷ []
unfolding decode_replace
test_replace = refl
