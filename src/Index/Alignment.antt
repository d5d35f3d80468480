-- ===== src/Index/Alignment.antt =====
-- The layout of version 2 and 3 entries: whole groups of eight bytes, ended by NUL bytes.
use gitz.Common.{
  ℕ, ◌+◌, ◌/◌, ◌%◌, ◌^◌, [], ◌∷◌, ◌≡◌, ◌≤◌, Bool, Bytes, ok, length, length-append, arith, min,
  >>=-eq-ok, ok-injective, bit_or,
}
use gitz.Index.{
  v2_entry, v3_ext, fixed_header, be32, be16, name_mask, extended_flags, entry_extended,
}
use gitz.Index.Fields.{pad-length}

length-fixed_header :
    (cs cn ms mn size flags : ℕ) (h o : Bytes)
    → fixed_header cs cn ms mn size h flags ≡ ok o
    → length o ≡ 42 + length h
unfolding fixed_header be32 be16
length-fixed_header cs cn ms mn size flags h o e =
    ground (arith, length-append h (flags / 2 ^ 8 ∷ (flags % 256) ∷ []))

length-be16 : (v : ℕ) (o : Bytes) → be16 v ≡ ok o → length o ≡ 2
unfolding be16
length-be16 v o e = ground arith

-- An entry of `wrote` bytes before its padding: a multiple of eight in all, with 1 to 8 bytes added.
abbrev pub IsPadded : ℕ → Bytes → Type 0
IsPadded wrote o = (length o % 8 ≡ 0) × (wrote + 1 ≤ length o) × (length o ≤ wrote + 8)

-- An entry that `v2_entry` packs with an object id of 20 bytes is a multiple of eight bytes
-- long, with at least one byte and at most eight behind the name.
pub v2_entry-IsPadded :
    (name h : Bytes) (size cs cn ms mn : ℕ) {o : Bytes}
    → length h ≡ 20
    → v2_entry name h size cs cn ms mn ≡ ok o
    → IsPadded (62 + length name) o
unfolding v2_entry
v2_entry-IsPadded name h size cs cn ms mn len e =
    let (o1, front, whole) =
      >>=-eq-ok (fixed_header cs cn ms mn size h (min (length name) name_mask)) _ e in
    let (lo, hi, even) = pad-length (62 + length name) in
    rw
      (
        ← ok-injective whole,
        length-append,
        length-append,
        length-fixed_header _ _ _ _ _ _ h o1 front,
        len,
      )
      (even, omega arith, omega arith)

-- An entry that `v3_ext` packs with an object id of 20 bytes is a multiple of eight bytes long,
-- with at least one byte and at most eight behind the name.
pub v3_ext-IsPadded :
    (name h : Bytes) (size : ℕ) (ita sw : Bool) {o : Bytes}
    → length h ≡ 20
    → v3_ext name h size ita sw ≡ ok o
    → IsPadded (64 + length name) o
unfolding v3_ext
v3_ext-IsPadded name h size ita sw len e =
    let (o1, front, e1) =
      >>=-eq-ok (fixed_header 1 0 1 0 size h (bit_or entry_extended (min (length name) name_mask)))
        _ e in
    let (ext, bits, whole) = >>=-eq-ok (be16 (extended_flags ita sw)) _ e1 in
    let (lo, hi, even) = pad-length (64 + length name) in
    rw
      (
        ← ok-injective whole,
        length-append,
        length-append,
        length-append,
        length-fixed_header _ _ _ _ _ _ h o1 front,
        len,
        length-be16 _ ext bits,
      )
      (even, omega arith, omega arith)
