-- ===== src/Index/Fields.antt =====
-- What the packed fields of an entry read as: words, object ids, flags, names and padding.
use gitz.Common.{
  ℕ, zero, suc, ◌+◌, ◌-◌, ◌/◌, ◌%◌, ◌^◌, ◌≤◌, ◌≡◌, refl, [], ◌∷◌, ◌++◌, append_assoc, Bytes, All,
  ok, length, length-replicate, arith, ◌≢◌,
}
use gitz.Index.{be32, be16, fixed_header, mode, pad}
use gitz.Index.Reader.{
  read_hashed, read_hashed_uint32, read_hashed_uint16, read_stat, read_until_loop, max_path_bytes,
}

abbrev word : ℕ → Bytes → Bytes
word v s = v / 2 ^ 24 ∷ (v / 2 ^ 16 % 256) ∷ (v / 2 ^ 8 % 256) ∷ (v % 256) ∷ s

read_word : (v : ℕ) (s : Bytes) → read_hashed_uint32 (word v s) ≡ ok (v, s)
unfolding read_hashed_uint32
read_word v s = ground arith

-- A field that `struct.pack` wrote is read back.
pub read_hashed_uint32-be32 :
    (v : ℕ) (bs s : Bytes) → be32 v ≡ ok bs → read_hashed_uint32 (bs ++ s) ≡ ok (v, s)
unfolding be32 read_hashed_uint32
read_hashed_uint32-be32 v bs s h = ground arith

pub read_hashed_uint16-be16 :
    (v : ℕ) (bs s : Bytes) → be16 v ≡ ok bs → read_hashed_uint16 (bs ++ s) ≡ ok (v, s)
unfolding be16 read_hashed_uint16
read_hashed_uint16-be16 v bs s h = ground arith

pub read_hashed-append :
    (n : ℕ) (bs s : Bytes) → length bs ≡ n → read_hashed n (bs ++ s) ≡ ok (bs, s)
unfolding read_hashed
read_hashed-append zero [] s h = refl
read_hashed-append zero (b ∷ bs) s h = absurd (omega arith)
read_hashed-append (suc n) [] s h = absurd (omega arith)
read_hashed-append (suc n) (b ∷ bs) s h = rw (read_hashed-append n bs s (omega arith))

abbrev half : ℕ → Bytes → Bytes
half v s = v / 2 ^ 8 ∷ (v % 256) ∷ s

header_bytes : ℕ → ℕ → ℕ → ℕ → ℕ → Bytes → ℕ → Bytes → Bytes
header_bytes cs cn ms mn size h flags s = word cs (
    word cn (
      word ms
        (word mn (word 0 (word 0 (word mode (word 0 (word 0 (word size (h ++ half flags s))))))))))

fixed_header_bytes :
    (cs cn ms mn size flags : ℕ) (h o s : Bytes)
    → fixed_header cs cn ms mn size h flags ≡ ok o
    → o ++ s ≡ header_bytes cs cn ms mn size h flags s
unfolding fixed_header be32 be16 header_bytes
fixed_header_bytes cs cn ms mn size flags h o s e = ground (arith, append_assoc h (half flags []) s)

-- The front of an entry, as the decoder reads it.
pub read_stat-fixed_header :
    (cs cn ms mn size flags : ℕ) (h o s : Bytes)
    → length h ≡ 20
    → fixed_header cs cn ms mn size h flags ≡ ok o
    → read_stat (o ++ s)
      ≡ ok (
        record {
          sec = cs;
          nsec = cn;
          msec = ms;
          mnsec = mn;
          dev = 0;
          inode = 0;
          mode = mode;
          uid = 0;
          gid = 0;
          size = size;
          hash = h;
          flags = flags;
        },
        s,
      )
unfolding read_stat header_bytes
read_stat-fixed_header cs cn ms mn size flags h o s len e =
    rw
      (
        fixed_header_bytes cs cn ms mn size flags h o s e,
        read_hashed-append 20 h (half flags s) len,
      )
      (ground arith)

-- A name without NUL, ended by one, is read up to it.
pub read_until_loop-append :
    (name s : Bytes) (n : ℕ)
    → All (λ c. c ≢ 0) name
    → n + length name ≤ max_path_bytes
    → read_until_loop 0 n (name ++ (0 ∷ s)) ≡ ok (name, s)
unfolding read_until_loop
read_until_loop-append [] s n free fits = refl
read_until_loop-append (c ∷ name) s n free fits =
    ground (arith, read_until_loop-append name s (n + 1) free.1 (omega arith))

pub pad-length :
    (wrote : ℕ)
    → (1 ≤ length (pad wrote)) × (length (pad wrote) ≤ 8) × ((wrote + length (pad wrote)) % 8 ≡ 0)
unfolding pad
pad-length wrote = ground (arith, length-replicate {A = ℕ} (8 - wrote % 8) 0)
