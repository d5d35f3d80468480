-- ===== src/Yaml/Number.antt =====
-- Python's `int` and `float` of a text. A digit is any decimal digit of Unicode, and `int`
-- takes at most as many of them as CPython does by default.
pub mod Printed
use gitz.Common.{
  ℕ, ◌+◌, ◌-◌, ◌*◌, ◌==◌, leb, ltb, ◌&&◌, ◌||◌, Bool, true, false, List, [], ◌∷◌, Text,
  if◌then◌else◌, Option, none, some,
}
use gitz.Common.Int.{ℤ, pos, signed}
use gitz.Common.Str.{strip, is_empty}
use gitz.Yaml.{Decimal}

-- The zero of each run of ten decimal digits.
abbrev digit_zeros : List ℕ
digit_zeros =
    0x30 ∷ 0x660 ∷ 0x6f0 ∷ 0x7c0 ∷ 0x966 ∷ 0x9e6 ∷ 0xa66 ∷ 0xae6 ∷ 0xb66 ∷ 0xbe6 ∷ 0xc66 ∷ 0xce6
    ∷ 0xd66 ∷ 0xde6 ∷ 0xe50 ∷ 0xed0 ∷ 0xf20 ∷ 0x1040 ∷ 0x1090 ∷ 0x17e0 ∷ 0x1810 ∷ 0x1946 ∷ 0x19d0
    ∷ 0x1a80 ∷ 0x1a90 ∷ 0x1b50 ∷ 0x1bb0 ∷ 0x1c40 ∷ 0x1c50 ∷ 0xa620 ∷ 0xa8d0 ∷ 0xa900 ∷ 0xa9d0
    ∷ 0xa9f0 ∷ 0xaa50 ∷ 0xabf0 ∷ 0xff10 ∷ 0x104a0 ∷ 0x10d30 ∷ 0x11066 ∷ 0x110f0 ∷ 0x11136 ∷ 0x111d0
    ∷ 0x112f0 ∷ 0x11450 ∷ 0x114d0 ∷ 0x11650 ∷ 0x116c0 ∷ 0x11730 ∷ 0x118e0 ∷ 0x11950 ∷ 0x11c50
    ∷ 0x11d50 ∷ 0x11da0 ∷ 0x16a60 ∷ 0x16ac0 ∷ 0x16b50 ∷ 0x1d7ce ∷ 0x1d7d8 ∷ 0x1d7e2 ∷ 0x1d7ec
    ∷ 0x1d7f6 ∷ 0x1e140 ∷ 0x1e2f0 ∷ 0x1e950 ∷ 0x1fbf0 ∷ []

digit_in : List ℕ → ℕ → Option ℕ
digit_in [] c = none
digit_in (z ∷ zs) c = if leb z c && ltb c (z + 10) then some (c - z) else digit_in zs c

unfoldable pub digit : ℕ → Option ℕ
unfolding digit_in
digit c = digit_in digit_zeros c

-- Digits with single underscores between them, from a digit on: the number so far, how many digits
-- it has, and what follows.
unfoldable pub digits_from : ℕ → ℕ → Text → ℕ × ℕ × Text
digits_from n k [] = (n, k, [])
digits_from n k (c ∷ []) = elim (digit c) [
  | none ↦ (n, k, c ∷ [])
  | some d ↦ (n * 10 + d, k + 1, [])
]
digits_from n k (c ∷ e ∷ s) =
    let next = λ (d : ℕ). digits_from (n * 10 + d) (k + 1) (e ∷ s) in
    let skip = λ (d : ℕ). digits_from (n * 10 + d) (k + 1) s in
    elim (digit c) [
      | some d ↦ next d
      | none ↦
          if c == b'_' && ltb 0 k
          then elim (digit e) [ none ↦ (n, k, c ∷ e ∷ s) | some d ↦ skip d ]
          else (n, k, c ∷ e ∷ s)
    ]

unfoldable pub digits : Text → ℕ × ℕ × Text
unfolding digits_from
digits s = digits_from 0 0 s

-- An optional sign: whether it is a minus, and the rest.
unfoldable pub sign : Text → Bool × Text
sign [] = (false, [])
sign (c ∷ s) = if c == b'-' then (true, s) else if c == b'+' then (false, s) else (false, c ∷ s)

-- `sys.int_info.default_max_str_digits`: `int` raises `ValueError` on more digits.
abbrev pub max_str_digits : ℕ
max_str_digits = 4300

-- `int(s)`; `none` is the `ValueError`.
unfoldable pub parse_int : Text → Option ℤ
parse_int s =
    let (minus, body) = sign (strip s) in
    let (n, k, rest) = digits body in
    if ltb 0 k && is_empty rest && leb k max_str_digits then some (signed minus n) else none

-- An optional exponent, up to the end of the text.
exponent_of : Text → Option ℤ
exponent_of [] = some (pos 0)
exponent_of (c ∷ s) =
    if c == b'e' || c == b'E'
    then (let (minus, body) = sign s in
        let (n, k, rest) = digits body in
        if ltb 0 k && is_empty rest then some (signed minus n) else none)
    else none

decimal : Bool → ℕ → ℕ → Option ℤ → Option Decimal
decimal minus n k none = none
decimal minus n k (some e) =
    some (record { negative = minus; mantissa = n; scale = k; exponent = e })

-- The point, the digits behind it and the exponent; `n` and `k` are the digits before it.
fraction_of : Bool → ℕ → ℕ → Text → Option Decimal
unfolding exponent_of decimal
fraction_of minus n k [] = none
fraction_of minus n k (c ∷ s) =
    if c == b'.'
    then (let (m, j, rest) = digits_from n 0 s in
        if ltb 0 (k + j) then decimal minus m j (exponent_of rest) else none)
    else none

-- `float(s)` of a text with a point in it; `none` is the `ValueError`.
unfoldable pub parse_float : Text → Option Decimal
unfolding fraction_of
parse_float s =
    let (minus, body) = sign (strip s) in
    let (n, k, rest) = digits body in fraction_of minus n k rest
