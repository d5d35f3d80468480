-- ===== src/Index/Embed/Printed.antt =====
-- The characters of an array that `zig_byte_array` has printed.
use gitz.Common.{
  ℕ, ◌/◌, ◌%◌, ◌<◌, ◌≡◌, ◌==◌, not, ◌&&◌, Bool, refl, true, List, [], ◌∷◌, ◌++◌, Bytes, Text, codes,
  All, length, arith,
}
use gitz.Common.Str.{join}
use gitz.Index.Hex.{hex_digit}
use gitz.Index.Embed.{hex_byte, hex_bytes, byte_line, byte_lines, chunks, zig_byte_array, is_body}
use gitz.Index.Embed.Numbers.{chunks-All}

-- A character that neither ends an array nor goes on with `co`.
abbrev pub is_plain : ℕ → Bool
is_plain c = not (c == b'}') && not (c == b'o')

abbrev pub IsPlain : Text → Type 0
IsPlain s = All (λ c. is_plain c ≡ true) s

pub is_body-IsPlain : (s : Text) → IsPlain s → All (λ c. is_body c ≡ true) s
is_body-IsPlain [] h = tt
is_body-IsPlain (c ∷ s) h = (ground (arith, h.0), is_body-IsPlain s h.1)

pub append-IsPlain : (s t : Text) → IsPlain s → IsPlain t → IsPlain (s ++ t)
append-IsPlain [] t h k = k
append-IsPlain (c ∷ s) t h k = (h.0, append-IsPlain s t h.1 k)

join-IsPlain :
    (sep : Text) (parts : List Text) → IsPlain sep → All IsPlain parts → IsPlain (join sep parts)
unfolding join
join-IsPlain sep [] h k = tt
join-IsPlain sep (p ∷ []) h k = k.0
join-IsPlain sep (p ∷ q ∷ parts) h k =
    append-IsPlain p (sep ++ join sep (q ∷ parts)) k.0
      (append-IsPlain sep (join sep (q ∷ parts)) h (join-IsPlain sep (q ∷ parts) h k.1))

hex_digit-IsPlain : (d : ℕ) → d < 16 → is_plain (hex_digit d) ≡ true
unfolding hex_digit
hex_digit-IsPlain d h = ground arith

hex_bytes-IsPlain : (bs : Bytes) → All (λ b. b < 256) bs → All IsPlain (hex_bytes bs)
unfolding hex_bytes hex_byte
hex_bytes-IsPlain [] h = tt
hex_bytes-IsPlain (b ∷ bs) h = (
  (
    refl,
    (
      refl,
      (hex_digit-IsPlain (b / 16) (omega arith), (hex_digit-IsPlain (b % 16) (omega arith), tt)),
    ),
  ),
  hex_bytes-IsPlain bs h.1,
)

byte_lines-IsPlain :
    (cs : List Bytes) → All (λ c. All (λ b. b < 256) c) cs → All IsPlain (byte_lines cs)
unfolding byte_lines byte_line
byte_lines-IsPlain [] h = tt
byte_lines-IsPlain (c ∷ cs) h =
    let sep : IsPlain (codes ", ") = (refl, (refl, tt)) in
    let parts = join-IsPlain (codes ", ") (hex_bytes c) sep (hex_bytes-IsPlain c h.0) in
    let blank : IsPlain (codes "    ") = (refl, (refl, (refl, (refl, tt)))) in
    let comma : IsPlain (codes ",") = (refl, tt) in
    (
      append-IsPlain (codes "    ") (join (codes ", ") (hex_bytes c) ++ codes ",") blank
          (append-IsPlain (join (codes ", ") (hex_bytes c)) (codes ",") parts comma),
      byte_lines-IsPlain cs h.1,
    )

pub zig_byte_array-IsPlain : (bs : Bytes) → All (λ b. b < 256) bs → IsPlain (zig_byte_array bs)
unfolding zig_byte_array
zig_byte_array-IsPlain bs h =
    let sep : IsPlain (codes "\n") = (refl, tt) in
    join-IsPlain (codes "\n") (byte_lines (chunks (length bs) bs)) sep
      (byte_lines-IsPlain (chunks (length bs) bs) (chunks-All (length bs) bs h))
