-- ===== src/Index.antt =====
-- tools/gen_index_fixtures.py: the byte images of index files. A Python `int` is a natural number.
pub mod Reader
mod Examples
pub mod Vlq
pub mod Fields
pub mod RoundTrip
pub mod Prefix
pub mod Hex
pub mod Image
pub mod Images
pub mod Alignment
pub mod Directory
pub mod Embed
pub mod Main
use gitz.Common.{
  ℕ, zero, suc, ◌+◌, ◌-◌, ◌*◌, ◌/◌, ◌%◌, ◌^◌, ◌<◌, min, bit_or, arith, dite, dec_lt, lt_wf, Bool,
  true, false, List, [], ◌∷◌, ◌++◌, Bytes, codes, ltb, ◌==◌, if◌then◌else◌, length, drop, replicate,
  reverse, Acc, Result, ok, err, ◌>>=◌,
}

-- `struct.error`: the number does not fit the field.
pub data StructError : Type 0 where
  out_of_range : StructError

abbrev pub Packed : Type 0
Packed = Result StructError Bytes

abbrev pub entry_header : ℕ
entry_header = 62

abbrev pub entry_extended : ℕ
entry_extended = 0x4000

abbrev pub name_mask : ℕ
name_mask = 0xfff

abbrev pub intent : ℕ
intent = 2 ^ 13

abbrev pub skip : ℕ
skip = 2 ^ 14

abbrev pub mode : ℕ
mode = 0o100644

-- `struct.pack(">I", v)`
pub be32 : ℕ → Packed
be32 v =
    if ltb v (2 ^ 32)
    then ok (v / 2 ^ 24 ∷ (v / 2 ^ 16 % 256) ∷ (v / 2 ^ 8 % 256) ∷ (v % 256) ∷ [])
    else err out_of_range

-- `struct.pack(">H", v)`
pub be16 : ℕ → Packed
be16 v = if ltb v (2 ^ 16) then ok (v / 2 ^ 8 ∷ (v % 256) ∷ []) else err out_of_range

pub pad : ℕ → Bytes
pad wrote = replicate (8 - wrote % 8) 0

vlq_shrinks : (v : ℕ) → 0 < v → (v - 1) / 2 ^ 7 < v
vlq_shrinks v h = omega arith

-- The `while` of `vlq`: `val & 0x7F` is the remainder by 2 ^ 7, and `val >>= 7` the quotient.
pub vlq_loop : (v : ℕ) → Acc ◌<◌ v → Bytes → Bytes
vlq_loop v (Acc.intro _ smaller) stack =
    dite (dec_lt 0 v)
      (λ more.
        vlq_loop ((v - 1) / 2 ^ 7) (smaller _ (vlq_shrinks v more))
          (stack ++ (bit_or 0x80 ((v - 1) % 2 ^ 7) ∷ [])))
      (λ _. stack)

pub vlq : ℕ → Bytes
unfolding vlq_loop lt_wf dec_lt
vlq n = reverse (vlq_loop (n / 2 ^ 7) (lt_wf.apply (n / 2 ^ 7)) ((n % 2 ^ 7) ∷ []))

-- The ten words, the object id and the flags, which the three layouts share.
pub fixed_header : ℕ → ℕ → ℕ → ℕ → ℕ → Bytes → ℕ → Packed
fixed_header cs cn ms mn size h flags = do
  b0 ← be32 cs
  b1 ← be32 cn
  b2 ← be32 ms
  b3 ← be32 mn
  b4 ← be32 0
  b5 ← be32 0
  b6 ← be32 mode
  b7 ← be32 0
  b8 ← be32 0
  b9 ← be32 size
  b10 ← be16 flags
  ok (b0 ++ b1 ++ b2 ++ b3 ++ b4 ++ b5 ++ b6 ++ b7 ++ b8 ++ b9 ++ h ++ b10)

pub v2_entry : Bytes → Bytes → ℕ → ℕ → ℕ → ℕ → ℕ → Packed
v2_entry name h size cs cn ms mn = do
  o ← fixed_header cs cn ms mn size h (min (length name) name_mask)
  ok (o ++ name ++ pad (entry_header + length name))

-- `ext` after its two conditional `|=`.
pub extended_flags : Bool → Bool → ℕ
extended_flags ita sw =
    let ext : ℕ = 0 in
    let ext1 = if ita then bit_or ext intent else ext in if sw then bit_or ext1 skip else ext1

pub v3_ext : Bytes → Bytes → ℕ → Bool → Bool → Packed
v3_ext name h size ita sw = do
  o ← fixed_header 1 0 1 0 size h (bit_or entry_extended (min (length name) name_mask))
  ext ← be16 (extended_flags ita sw)
  ok (o ++ ext ++ name ++ pad (entry_header + 2 + length name))

-- The `while prefix < n and prev[prefix] == name[prefix]` of `v4_entry`.
pub common_prefix : Bytes → Bytes → ℕ
common_prefix [] name = 0
common_prefix (p ∷ prev) [] = 0
common_prefix (p ∷ prev) (c ∷ name) = if p == c then suc (common_prefix prev name) else 0

-- An empty `prev` has no common prefix, so that both branches of `if not prev` are this one.
pub v4_entry : Bytes → Bytes → Bytes → ℕ → Packed
v4_entry name prev h size = do
  o ← fixed_header 1 0 1 0 size h (min (length name) name_mask)
  let prefix = common_prefix prev name
  ok (o ++ vlq (length prev - prefix) ++ drop prefix name ++ (0 ∷ []))
