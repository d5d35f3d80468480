-- ===== src/Index/Vlq.antt =====
-- `vlq` and the decoder's reader of variable-width integers.
use gitz.Common.{
  ℕ, zero, suc, ◌+◌, ◌-◌, ◌*◌, ◌/◌, ◌%◌, ◌^◌, ◌<◌, ◌≤◌, ◌≡◌, refl, ◌∙◌, ltb, bit_or, [], ◌∷◌, ◌++◌,
  Bytes, if◌then◌else◌, ok, err, reverse, reverse-append, Acc, dec_lt, dif_pos, arith,
}
use gitz.Common.Bits.{continue_bit, top_bit}
use gitz.Index.{vlq, vlq_shrinks, vlq_loop}
use native.Mathlib.Bridge.{le_prop}
use gitz.Index.Reader.{Read, integer_overflow, read_varint, read_varint_loop, too_wide}

-- What the reader makes of `s` after the groups of `v`, the first of them highest.
abbrev after : ℕ → Bytes → Read ℕ
after zero s = read_varint s
after (suc v) s = read_varint_loop 0x80 v s

-- The loop looks at the top bit of its byte alone.
read_varint_loop-high :
    (g v : ℕ) (s : Bytes) → g < 128 → read_varint_loop (g + 128) v s ≡ read_varint_loop 0x80 v s
unfolding read_varint_loop
read_varint_loop-high g v [] h = ground (arith, top_bit (g + 128))
read_varint_loop-high g v (b ∷ s) h = ground (arith, top_bit (g + 128))

read_varint_loop-low : (g v : ℕ) (s : Bytes) → g < 128 → read_varint_loop g v s ≡ ok (v, s)
unfolding read_varint_loop
read_varint_loop-low g v [] h = ground (arith, top_bit g)
read_varint_loop-low g v (b ∷ s) h = ground (arith, top_bit g)

read_varint_loop-next :
    (v b : ℕ) (s : Bytes)
    → read_varint_loop 0x80 v (b ∷ s) ≡ (
        if too_wide v then err integer_overflow else read_varint_loop b ((v + 1) * 128 + b % 128) s)
unfolding read_varint_loop
read_varint_loop-next v b s = refl

after-wide : (v : ℕ) (s : Bytes) → 2 ^ 56 ≤ v → after v s ≡ err integer_overflow
unfolding read_varint_loop
after-wide zero s h = absurd (omega arith)
after-wide (suc v) [] h = ground arith
after-wide (suc v) (b ∷ s) h = ground arith

after-group : (k v : ℕ) (s : Bytes) → v / 128 ≡ k → after k ((v % 128 + 128) ∷ s) ≡ after (suc v) s
unfolding read_varint read_varint_loop
after-group zero v s h =
    let low : v % 128 + 128 ≡ v + 128 = omega arith in
    let same : (v + 128) % 2 ^ 7 ≡ v = omega arith in
    rw (low, same) (read_varint_loop-high v v s (omega arith))
after-group (suc k) v s h =
    let whole : (k + 1) * 128 + (v % 128 + 128) % 128 ≡ v = omega arith in
    ground (arith, whole, read_varint_loop-high (v % 128) v s (omega arith), after-wide (suc v) s)

vlq_loop_step :
    (v : ℕ) (stack s : Bytes)
    → after ((suc v - 1) / 2 ^ 7) (reverse (stack ++ (bit_or 0x80 ((suc v - 1) % 2 ^ 7) ∷ [])) ++ s)
      ≡ after (suc v) (reverse stack ++ s)
vlq_loop_step v stack s =
    let pred : suc v - 1 ≡ v = omega arith in
    rw (pred, continue_bit (v % 128) (omega arith), reverse-append stack)
      (after-group (v / 128) v (reverse stack ++ s) refl)

-- The bytes that the loop pushes read, highest first, as the value that it was given.
read_varint-vlq_loop :
    (v : ℕ) (w : Acc ◌<◌ v) (stack s : Bytes)
    → read_varint (reverse (vlq_loop v w stack) ++ s) ≡ after v (reverse stack ++ s)
unfolding vlq_loop
read_varint-vlq_loop zero (Acc.intro _ smaller) stack s = ground arith
read_varint-vlq_loop (suc v) (Acc.intro _ smaller) stack s = elim (dec_lt 0 (suc v)) [
  | yes more ↦
      rw (dif_pos (dec_lt 0 (suc v)) le_prop more) (
        read_varint-vlq_loop _ (smaller _ (vlq_shrinks (suc v) more)) _ s ∙ vlq_loop_step v stack s)
  | no none ↦ absurd (omega arith)
]

after-last :
    (k n : ℕ) (s : Bytes)
    → n / 128 ≡ k
    → after k ((n % 128) ∷ s) ≡ (if ltb n (2 ^ 63) then ok (n, s) else err integer_overflow)
unfolding read_varint
after-last zero n s h = ground (arith, read_varint_loop-low n n s (omega arith))
after-last (suc k) n s h =
    let whole : (k + 1) * 128 + n % 128 % 128 ≡ n = omega arith in
    ground (
      arith,
      whole,
      read_varint_loop-next k (n % 128) s,
      read_varint_loop-low (n % 128) n s (omega arith),
    )

-- The reader gets back every number below 2 ^ 63 that `vlq` wrote and leaves what follows it, and
-- on any larger number it answers with the overflow error.
pub read_varint-vlq :
    (n : ℕ) (s : Bytes)
    → read_varint (vlq n ++ s) ≡ (if ltb n (2 ^ 63) then ok (n, s) else err integer_overflow)
unfolding vlq
read_varint-vlq n s = rw (read_varint-vlq_loop _ _ _ s) (after-last (n / 128) n s refl)
