-- ===== src/Index/Examples.antt =====
-- Index entries and images: the generator's output, read by the decoder.
use gitz.Common.{
  inl, inr, ◌≡◌, ◌≢◌, refl, ltb, ◌^◌, ◌++◌, true, false, List, [], ◌∷◌, Bytes, codes, All, all, not,
  ◌==◌, ok, err, arith, if◌then◌else◌, some,
}
use gitz.Index.{
  Packed, vlq, v2_entry, v3_ext, v4_entry, common_prefix, fixed_header, be32, be16, extended_flags,
}
use gitz.Index.Reader.{decode, read_entry, read_varint, integer_overflow}
use gitz.Index.Vlq.{read_varint-vlq}
use gitz.Index.RoundTrip.{IsPath, entry_of, read_entry-v2_entry, read_entry-v3_ext}
use gitz.Index.Prefix.{read_entry-v4_entry}
use gitz.Index.Image.{sample, zero_id, v4_body}
use gitz.Index.Images.{v4_entries, decode-v4_body}
use gitz.Index.Alignment.{IsPadded, v2_entry-IsPadded, v3_ext-IsPadded}
use gitz.Index.Hex.{hex, fromhex, fromhex-hex}

abbrev packed : Packed → Bytes
packed (ok bs) = bs
packed (err e) = []

abbrev file_name : Bytes
file_name = codes "src/a"

abbrev next_name : Bytes
next_name = codes "src/bc"

free_of_nul : (name : Bytes) → all (λ c. not (c == 0)) name ≡ true → All (λ c. c ≢ 0) name
free_of_nul [] h = tt
free_of_nul (c ∷ name) h = (ground arith, free_of_nul name (ground arith))

file_name-IsPath : IsPath file_name
file_name-IsPath = record { free = free_of_nul file_name refl; fits = omega arith }

next_name-IsPath : IsPath next_name
next_name-IsPath = record { free = free_of_nul next_name refl; fits = omega arith }

test_prefix : common_prefix file_name next_name ≡ 4
unfolding common_prefix
test_prefix = refl

test_vlq : vlq 300 ≡ 129 ∷ 44 ∷ []
unfolding vlq
test_vlq = refl

read_varint-vlq_example :
    read_varint (vlq 300 ++ (7 ∷ []))
    ≡ (if ltb 300 (2 ^ 63) then ok (300, 7 ∷ []) else err integer_overflow)
read_varint-vlq_example = read_varint-vlq 300 (7 ∷ [])

abbrev v2_bytes : Bytes
v2_bytes = packed (v2_entry file_name sample 189 5 6 7 8)

v2_bytes-ok : v2_entry file_name sample 189 5 6 7 8 ≡ ok v2_bytes
unfolding v2_entry fixed_header be32 be16
v2_bytes-ok = refl

read_entry-v2_entry_example :
    read_entry 2 [] (v2_bytes ++ (1 ∷ []))
    ≡ ok (entry_of 5 6 7 8 189 sample false false file_name, 1 ∷ [])
read_entry-v2_entry_example =
    read_entry-v2_entry 2 [] file_name sample (1 ∷ []) 189 5 6 7 8 (inl refl) file_name-IsPath refl
      (ground arith) (ground arith) v2_bytes-ok

v2_entry-IsPadded_example : IsPadded 67 v2_bytes
v2_entry-IsPadded_example = v2_entry-IsPadded file_name sample 189 5 6 7 8 refl v2_bytes-ok

abbrev v3_bytes : Bytes
v3_bytes = packed (v3_ext file_name zero_id 0 true false)

v3_bytes-ok : v3_ext file_name zero_id 0 true false ≡ ok v3_bytes
unfolding v3_ext fixed_header be32 be16 extended_flags
v3_bytes-ok = refl

read_entry-v3_ext_example :
    read_entry 3 [] (v3_bytes ++ (1 ∷ []))
    ≡ ok (entry_of 1 0 1 0 0 zero_id true false file_name, 1 ∷ [])
read_entry-v3_ext_example =
    read_entry-v3_ext 3 [] file_name zero_id (1 ∷ []) 0 true false (inr refl) file_name-IsPath refl
      v3_bytes-ok

v3_ext-IsPadded_example : IsPadded 69 v3_bytes
v3_ext-IsPadded_example = v3_ext-IsPadded file_name zero_id 0 true false refl v3_bytes-ok

abbrev v4_bytes : Bytes
v4_bytes = packed (v4_entry next_name file_name sample 2)

v4_bytes-ok : v4_entry next_name file_name sample 2 ≡ ok v4_bytes
unfolding v4_entry fixed_header be32 be16 common_prefix vlq
v4_bytes-ok = refl

read_entry-v4_entry_example :
    read_entry 4 file_name (v4_bytes ++ (1 ∷ []))
    ≡ ok (entry_of 1 0 1 0 2 sample false false next_name, 1 ∷ [])
read_entry-v4_entry_example =
    read_entry-v4_entry next_name file_name sample (1 ∷ []) 2 (omega arith) next_name-IsPath refl
      v4_bytes-ok

abbrev two_names : List Bytes
two_names = file_name ∷ next_name ∷ []

abbrev body_bytes : Bytes
body_bytes = packed (v4_body two_names)

body_bytes-ok : v4_body two_names ≡ ok body_bytes
unfolding v4_body v4_entry fixed_header be32 be16 common_prefix vlq
body_bytes-ok = refl

decode-v4_body_example : decode (body_bytes ++ (9 ∷ [])) ≡ ok ((4, v4_entries two_names 0), 9 ∷ [])
decode-v4_body_example =
    decode-v4_body two_names (9 ∷ []) (file_name-IsPath, (next_name-IsPath, tt)) body_bytes-ok

fromhex-hex_example : fromhex (hex (10 ∷ 255 ∷ [])) ≡ some (10 ∷ 255 ∷ [])
fromhex-hex_example = fromhex-hex (10 ∷ 255 ∷ []) (omega arith, (omega arith, tt))
