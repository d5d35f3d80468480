-- ===== src/Index/RoundTrip.antt =====
-- The decoder reads back the entries that the generator writes.
use gitz.Common.{
  ℕ, suc, ◌+◌, ◌-◌, ◌/◌, ◌%◌, ◌^◌, ◌<◌, ◌≤◌, ◌≡◌, refl, ◌==◌, not, ltb, min, Bool, true, false,
  ◌++◌, append_assoc, Bytes, All, ok, length, replicate, arith, ◌≢◌, Bool-cases, inl, inr, ◌⊎◌,
  ◌||◌, bit_and, length-replicate, >>=-eq-ok, ok-injective, ◌∙◌,
}
use gitz.Common.Bits.{
  name_bits, no_extended_bit, set_extended_bit, extended_bit, extended_name_bits,
}
use gitz.Index.{v2_entry, v3_ext, fixed_header, pad, mode, name_mask, extended_flags, be16}
use gitz.Index.Reader.{
  Entry, Stat, to_entry, read_entry, read_extended, read_stat, read_entry_name, do_read_entry_name,
  pad_entry, max_path_bytes, read_hashed, unix,
}
use gitz.Index.Fields.{
  read_stat-fixed_header, read_hashed_uint16-be16, read_hashed-append, read_until_loop-append,
}

-- The entry that the fixtures mean by these values.
abbrev pub entry_of : ℕ → ℕ → ℕ → ℕ → ℕ → Bytes → Bool → Bool → Bytes → Entry
entry_of cs cn ms mn size h ita sw name = record {
  created_at = (cs, cn);
  modified_at = (ms, mn);
  dev = 0;
  inode = 0;
  mode = mode;
  uid = 0;
  gid = 0;
  size = size;
  hash = h;
  stage = 0;
  intent_to_add = ita;
  skip_worktree = sw;
  name = name;
}

-- A version without compressed names.
abbrev pub IsPlain : ℕ → Type 0
IsPlain version = (version ≡ 2) ⊎ (version ≡ 3)

-- A path that the decoder takes: no NUL in it, and no longer than its limit.
pub record IsPath (name : Bytes) : Type 0 where
  pub free : All (λ c. c ≢ 0) name
  pub fits : length name ≤ max_path_bytes

read_hashed-zeros :
    (n m : ℕ) (s : Bytes) → m ≡ n → read_hashed n (replicate m 0 ++ s) ≡ ok (replicate m 0, s)
read_hashed-zeros n m s e = read_hashed-append n _ s (length-replicate m 0 ∙ e)

-- A name and its padding are read together, whether the length stands in the flags or the name is
-- read up to the first NUL of the padding.
module _ (version wrote : ℕ) (name s : Bytes) (v : IsPlain version) (p : IsPath name) where
  abbrev padded : Bytes
  padded = name ++ (pad (wrote + length name) ++ s)

  abbrev ReadsName : ℕ → Type 0
  ReadsName flags =
      (c : ℕ) × (s1 : Bytes) × (do_read_entry_name flags padded ≡ ok ((name, c), s1))
      × (pad_entry version wrote name c s1 ≡ ok (tt, s))

  read_short : length name < 0xfff → ReadsName (length name)
  unfolding do_read_entry_name pad_entry pad
  read_short short = (
    length name,
    pad (wrote + length name) ++ s,
    ground (arith, read_hashed-append (length name) name (pad (wrote + length name) ++ s) refl),
    ground (
      arith,
      read_hashed-zeros (8 - (wrote + length name) % 8 + length name - length name)
          (8 - (wrote + length name) % 8) s (omega arith),
    ),
  )

  read_long : (k : ℕ) → 8 - (wrote + length name) % 8 ≡ suc k → ReadsName 0xfff
  unfolding do_read_entry_name pad_entry pad
  read_long k e = (
    length name + 1,
    replicate k 0 ++ s,
    rw e (rw (read_until_loop-append name (replicate k 0 ++ s) 0 p.free (omega arith)) refl),
    ground (
      arith,
      read_hashed-zeros (8 - (wrote + length name) % 8 + length name - (length name + 1)) k s
          (omega arith),
    ),
  )

  read_name_pad : ReadsName (min (length name) 0xfff)
  read_name_pad = elim (Bool-cases (ltb (length name) 0xfff)) [
    | inl short ↦
        rw (let e : min (length name) 0xfff ≡ length name = ground arith in e)
          (read_short (ground arith))
    | inr long ↦
        rw (let e : min (length name) 0xfff ≡ 0xfff = ground arith in e)
          (read_long (7 - (wrote + length name) % 8) (omega arith))
  ]

-- `read_entry` from its four steps.
pub read_entry_steps :
    (version : ℕ) (last s : Bytes) {w : Stat} {s1 s2 s3 s4 : Bytes} {ita sw : Bool} {n c : ℕ}
    {name : Bytes}
    → read_stat s ≡ ok (w, s1)
    → ltb w.nsec (2 ^ 31) ≡ true
    → ltb w.mnsec (2 ^ 31) ≡ true
    → read_extended w.flags s1 ≡ ok ((ita, sw, n), s2)
    → read_entry_name version last w.flags s2 ≡ ok ((name, c), s3)
    → pad_entry version n name c s3 ≡ ok (tt, s4)
    → read_entry version last s ≡ ok (to_entry w (w.sec, w.nsec) (w.msec, w.mnsec) ita sw name, s4)
unfolding read_entry unix
read_entry_steps version last s h1 t1 t2 h2 h3 h4 = rw (h1, t1, t2, h2, h3, h4) refl

pub name_flags : (name : Bytes) → min (length name) name_mask < 4096
name_flags name = omega arith

plain_tests :
    (version : ℕ)
    → IsPlain version
    → ((version == 4) ≡ false) × ((version == 2 || version == 3) ≡ true)
plain_tests version (inl v) = rw v (refl, refl)
plain_tests version (inr v) = rw v (refl, refl)

-- A number of nanoseconds that fits.
fits : (n : ℕ) → n < 2 ^ 31 → ltb n (2 ^ 31) ≡ true
fits n h = ground arith

pub plain_flags :
    (name s : Bytes) → read_extended (min (length name) name_mask) s ≡ ok ((false, false, 62), s)
unfolding read_extended
plain_flags name s = rw (no_extended_bit _ (name_flags name))

-- The name field is read by the length in the flags word in versions 2 and 3.
read_entry_name-plain :
    (version flags : ℕ) (last s : Bytes)
    → IsPlain version
    → read_entry_name version last flags s ≡ do_read_entry_name (bit_and flags 0xfff) s
unfolding read_entry_name
read_entry_name-plain version flags last s v =
    let (four, plain) = plain_tests version v in rw (four, plain) refl

module _ (version : ℕ) (last name h s : Bytes) (v : IsPlain version) (p : IsPath name)
    (len : length h ≡ 20) where
  read_v2 :
      (size cs cn ms mn : ℕ) (o : Bytes)
      → cn < 2 ^ 31
      → mn < 2 ^ 31
      → fixed_header cs cn ms mn size h (min (length name) name_mask) ≡ ok o
      → read_entry version last (o ++ (name ++ (pad (62 + length name) ++ s)))
        ≡ ok (entry_of cs cn ms mn size h false false name, s)
  read_v2 size cs cn ms mn o c_fits m_fits front =
      let flags : ℕ = min (length name) name_mask in
      let (c, s1, named, rest) = read_name_pad version 62 name s v p in
      let stage : flags / 2 ^ 12 % 4 ≡ 0 = omega arith in
      read_entry_steps version last _
        (read_stat-fixed_header cs cn ms mn size flags h o _ len front) (fits cn c_fits)
        (fits mn m_fits) (plain_flags name _)
        (read_entry_name-plain version flags last _ v
          ∙ rw (name_bits flags (name_flags name)) named)
        rest
      ∙ rw stage

-- A fixture entry of `v2_entry` with an object id of 20 bytes and nanoseconds below 2 ^ 31 is read
-- back by the decoder at versions 2 and 3, whatever follows it: all its values, with both extended
-- bits clear. The name is free of NUL and no longer than the decoder allows.
pub read_entry-v2_entry :
    (version : ℕ) (last name h s : Bytes) (size cs cn ms mn : ℕ) {o : Bytes}
    → IsPlain version
    → IsPath name
    → length h ≡ 20
    → cn < 2 ^ 31
    → mn < 2 ^ 31
    → v2_entry name h size cs cn ms mn ≡ ok o
    → read_entry version last (o ++ s) ≡ ok (entry_of cs cn ms mn size h false false name, s)
unfolding v2_entry
read_entry-v2_entry version last name h s size cs cn ms mn v p len c_fits m_fits e =
    let (o1, front, whole) =
      >>=-eq-ok (fixed_header cs cn ms mn size h (min (length name) name_mask)) _ e in
    rw (← ok-injective whole) (
      simp append_assoc
        (read_v2 version last name h s v p len size cs cn ms mn o1 c_fits m_fits front))

-- The bits of a version 3 entry come back from its extended word.
extended_flags-bits :
    (ita sw : Bool)
    → (not (bit_and (extended_flags ita sw) (2 ^ 13) == 0) ≡ ita)
      × (not (bit_and (extended_flags ita sw) (2 ^ 14) == 0) ≡ sw)
unfolding extended_flags
extended_flags-bits false false = (refl, refl)
extended_flags-bits false true = (refl, refl)
extended_flags-bits true false = (refl, refl)
extended_flags-bits true true = (refl, refl)

read_extended-extended_flags :
    (name s o : Bytes) (ita sw : Bool)
    → be16 (extended_flags ita sw) ≡ ok o
    → read_extended (min (length name) name_mask + 0x4000) (o ++ s) ≡ ok ((ita, sw, 64), s)
unfolding read_extended
read_extended-extended_flags name s o ita sw e =
    let (i, k) = extended_flags-bits ita sw in
    rw (
      extended_bit (min (length name) name_mask) (name_flags name),
      read_hashed_uint16-be16 _ o s e,
      i,
      k,
    )

module _ (version : ℕ) (last name h s : Bytes) (v : IsPlain version) (p : IsPath name)
    (len : length h ≡ 20) where
  read_v3 :
      (size : ℕ) (ita sw : Bool) (o ext : Bytes)
      → fixed_header 1 0 1 0 size h (min (length name) name_mask + 0x4000) ≡ ok o
      → be16 (extended_flags ita sw) ≡ ok ext
      → read_entry version last (o ++ (ext ++ (name ++ (pad (64 + length name) ++ s))))
        ≡ ok (entry_of 1 0 1 0 size h ita sw name, s)
  read_v3 size ita sw o ext front bits =
      let flags : ℕ = min (length name) name_mask in
      let (c, s1, named, rest) = read_name_pad version 64 name s v p in
      let stage : (flags + 0x4000) / 2 ^ 12 % 4 ≡ 0 = omega arith in
      read_entry_steps version last _
        (read_stat-fixed_header 1 0 1 0 size (flags + 0x4000) h o _ len front) refl refl
        (read_extended-extended_flags name _ ext ita sw bits)
        (read_entry_name-plain version (flags + 0x4000) last _ v
          ∙ rw (extended_name_bits flags (name_flags name)) named)
        rest
      ∙ rw stage

-- A fixture entry of `v3_ext` with an object id of 20 bytes is read back by the decoder at
-- versions 2 and 3, whatever follows it: all its values and its two extended bits. The name is free
-- of NUL and no longer than the decoder allows.
pub read_entry-v3_ext :
    (version : ℕ) (last name h s : Bytes) (size : ℕ) (ita sw : Bool) {o : Bytes}
    → IsPlain version
    → IsPath name
    → length h ≡ 20
    → v3_ext name h size ita sw ≡ ok o
    → read_entry version last (o ++ s) ≡ ok (entry_of 1 0 1 0 size h ita sw name, s)
unfolding v3_ext
read_entry-v3_ext version last name h s size ita sw v p len e =
    let (o1, front, e1) = >>=-eq-ok (fixed_header 1 0 1 0 size h _) _ e in
    let (ext, bits, whole) = >>=-eq-ok (be16 (extended_flags ita sw)) _ e1 in
    rw (← ok-injective whole) (
      simp append_assoc (
        read_v3 version last name h s v p len size ita sw o1 ext
          (rw (set_extended_bit (min (length name) name_mask) (name_flags name)) at front) bits))
