-- ===== src/Index/Embed/Numbers.antt =====
-- The numbers that `extract_zig_raw` finds in an array that `zig_byte_array` has printed.
use gitz.Common.{
  ℕ, zero, suc, ◌+◌, ◌*◌, ◌/◌, ◌%◌, ◌<◌, ◌≤◌, ◌≡◌, refl, List, [], ◌∷◌, ◌++◌, Bytes, Text, codes,
  All, length, take, drop, take-append-drop, append-nil, append_assoc, sym, arith,
}
use gitz.Common.Str.{join}
use gitz.Index.Hex.{digit_value}
use gitz.Index.Embed.{
  outside, numbers, hex_byte, hex_bytes, byte_line, byte_lines, chunks, zig_byte_array,
}

numbers-hex_byte :
    (b : ℕ) (s : Text)
    → b < 256
    → numbers outside (hex_byte b ++ (b',' ∷ s)) ≡ b ∷ numbers outside s
unfolding numbers hex_byte
numbers-hex_byte b s h =
    let whole : b / 16 * 16 + b % 16 ≡ b = omega arith in
    rw
      (
        (digit_value (b / 16) (omega arith)).0,
        numbers,
        (digit_value (b % 16) (omega arith)).0,
        numbers,
        whole,
      )
      refl

numbers-parts :
    (bs : Bytes) (s : Text)
    → All (λ b. b < 256) bs
    → numbers outside (join (codes ", ") (hex_bytes bs) ++ (b',' ∷ s)) ≡ bs ++ numbers outside s
unfolding hex_bytes join numbers
numbers-parts [] s h = refl
numbers-parts (b ∷ []) s h = numbers-hex_byte b s h.0
numbers-parts (b ∷ c ∷ bs) s h =
    let more = join (codes ", ") (hex_bytes (c ∷ bs)) in
    rw
      (
        append_assoc (hex_byte b) (codes ", " ++ more) (b',' ∷ s),
        numbers-hex_byte b (b' ' ∷ (more ++ (b',' ∷ s))) h.0,
        numbers-parts (c ∷ bs) s h.1,
      )
      refl

numbers-byte_line :
    (bs : Bytes) (s : Text)
    → All (λ b. b < 256) bs
    → numbers outside (byte_line bs ++ s) ≡ bs ++ numbers outside s
unfolding byte_line numbers
numbers-byte_line bs s h =
    rw (append_assoc (join (codes ", ") (hex_bytes bs)) (codes ",") s) (numbers-parts bs s h)

-- The bytes of the chunks, one after the other.
joined : List Bytes → Bytes
joined [] = []
joined (c ∷ cs) = c ++ joined cs

numbers-byte_lines :
    (cs : List Bytes) (s : Text)
    → All (λ c. All (λ b. b < 256) c) cs
    → numbers outside (join (codes "\n") (byte_lines cs) ++ s) ≡ joined cs ++ numbers outside s
unfolding byte_lines join numbers joined
numbers-byte_lines [] s h = refl
numbers-byte_lines (c ∷ []) s h = rw (append-nil c) (numbers-byte_line c s h.0)
numbers-byte_lines (c ∷ d ∷ cs) s h =
    let more = join (codes "\n") (byte_lines (d ∷ cs)) in
    rw
      (
        append_assoc (byte_line c) (codes "\n" ++ more) s,
        numbers-byte_line c (codes "\n" ++ (more ++ s)) h.0,
        numbers-byte_lines (d ∷ cs) s h.1,
      )
      (sym (append_assoc c (joined (d ∷ cs)) (numbers outside s)))

drop-All : (n : ℕ) (bs : Bytes) → All (λ b. b < 256) bs → All (λ b. b < 256) (drop n bs)
drop-All zero bs h = h
drop-All (suc n) [] h = h
drop-All (suc n) (b ∷ bs) h = drop-All n bs h.1

take-All : (n : ℕ) (bs : Bytes) → All (λ b. b < 256) bs → All (λ b. b < 256) (take n bs)
take-All zero bs h = tt
take-All (suc n) [] h = h
take-All (suc n) (b ∷ bs) h = (h.0, take-All n bs h.1)

length-drop : (n : ℕ) (bs : Bytes) → length (drop n bs) ≤ length bs
length-drop zero bs = omega arith
length-drop (suc n) [] = omega arith
length-drop (suc n) (b ∷ bs) = omega (arith, length-drop n bs)

pub chunks-All :
    (fuel : ℕ) (bs : Bytes)
    → All (λ b. b < 256) bs
    → All (λ c. All (λ b. b < 256) c) (chunks fuel bs)
unfolding chunks
chunks-All zero bs h = tt
chunks-All (suc fuel) [] h = tt
chunks-All (suc fuel) (b ∷ bs) h =
    (take-All 16 (b ∷ bs) h, chunks-All fuel (drop 15 bs) (drop-All 15 bs h.1))

joined-chunks : (fuel : ℕ) (bs : Bytes) → length bs ≤ fuel → joined (chunks fuel bs) ≡ bs
unfolding chunks joined
joined-chunks zero [] e = refl
joined-chunks zero (b ∷ bs) e = absurd (omega arith)
joined-chunks (suc fuel) [] e = refl
joined-chunks (suc fuel) (b ∷ bs) e =
    rw (joined-chunks fuel (drop 15 bs) (omega (arith, length-drop 15 bs)), take-append-drop 15 bs)
      refl

-- The numbers that are found in a text that begins with the array of a byte string are the bytes,
-- and behind them the numbers of what follows.
pub numbers-zig_byte_array :
    (bs : Bytes) (s : Text)
    → All (λ b. b < 256) bs
    → numbers outside (zig_byte_array bs ++ s) ≡ bs ++ numbers outside s
unfolding zig_byte_array
numbers-zig_byte_array bs s h =
    rw
      (
        numbers-byte_lines (chunks (length bs) bs) s (chunks-All (length bs) bs h),
        joined-chunks (length bs) bs (omega arith),
      )
      refl
