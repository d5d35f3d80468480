-- ===== src/Index/Reader.antt =====
-- src/plumbing/format/index/decoder.zig: the reader of entries that the fixtures are made for.
-- A reader takes the bytes that are left. The running hash is the hash of what was taken, and is
-- not carried. Object ids are the 20 bytes of SHA-1; an allocation does not fail.
use gitz.Common.{
  ℕ, zero, suc, ◌+◌, ◌-◌, ◌*◌, ◌/◌, ◌%◌, ◌^◌, ◌==◌, bit_and, Bool, false, not, ◌||◌, List, [], ◌∷◌,
  ◌++◌, Bytes, codes, same, ltb, leb, if◌then◌else◌, length, take, Result, ok, err, ◌>>=◌, require,
  ◌>>◌,
}

-- The members of `DecodeError` that these functions return, and the panic of an `@intCast`, which
-- ends the program where the build checks it.
pub data DecodeError : Type 0 where
  end_of_stream malformed_signature unsupported_version : DecodeError
  malformed_index_file integer_overflow invalid_checksum : DecodeError
  cast_panic : DecodeError

abbrev pub Read : Type 0 → Type 0
Read A = Result DecodeError (A × Bytes)

abbrev pub digest_size : ℕ
digest_size = 20

-- 10 words, the object id, and the flags.
abbrev pub entry_header_length : ℕ
entry_header_length = 40 + digest_size + 2

abbrev pub max_path_bytes : ℕ
max_path_bytes = 1024 * 1024

pub record Entry : Type 0 where
  pub created_at : ℕ × ℕ
  pub modified_at : ℕ × ℕ
  pub dev : ℕ
  pub inode : ℕ
  pub mode : ℕ
  pub uid : ℕ
  pub gid : ℕ
  pub size : ℕ
  pub hash : Bytes
  pub stage : ℕ
  pub intent_to_add : Bool
  pub skip_worktree : Bool
  pub name : Bytes

unfoldable pub read_hashed : ℕ → Bytes → Read Bytes
read_hashed zero s = ok ([], s)
read_hashed (suc n) [] = err end_of_stream
read_hashed (suc n) (b ∷ s) = do (bs, s') ← read_hashed n s; ok (b ∷ bs, s')

unfoldable pub read_hashed_byte : Bytes → Read ℕ
read_hashed_byte [] = err end_of_stream
read_hashed_byte (b ∷ s) = ok (b, s)

unfoldable pub read_hashed_uint32 : Bytes → Read ℕ
read_hashed_uint32 (a ∷ b ∷ c ∷ d ∷ s) = ok (a * 2 ^ 24 + b * 2 ^ 16 + c * 2 ^ 8 + d, s)
read_hashed_uint32 _ = err end_of_stream

unfoldable pub read_hashed_uint16 : Bytes → Read ℕ
read_hashed_uint16 (a ∷ b ∷ s) = ok (a * 2 ^ 8 + b, s)
read_hashed_uint16 _ = err end_of_stream

-- The loop of `readUntilHashed`; `n` is `list.items.len`.
unfoldable pub read_until_loop : ℕ → ℕ → Bytes → Read Bytes
read_until_loop delim n [] = err end_of_stream
read_until_loop delim n (b ∷ s) =
    let more = read_until_loop delim (n + 1) s in
    if b == delim
    then ok ([], s)
    else if leb max_path_bytes n
    then err malformed_index_file
    else do (bs, s') ← more; ok (b ∷ bs, s')

unfoldable pub read_until_hashed : ℕ → Bytes → Read Bytes
unfolding read_until_loop
read_until_hashed delim s = read_until_loop delim 0 s

-- `v >= (maxInt(i64) - 127) >> 7`
abbrev pub too_wide : ℕ → Bool
too_wide v = leb ((2 ^ 63 - 1 - 127) / 2 ^ 7) v

-- The loop of `readVariableWidthIntHashed`, at the byte `c` and the value `v` so far.
unfoldable pub read_varint_loop : ℕ → ℕ → Bytes → Read ℕ
read_varint_loop c v [] =
    if bit_and c 128 == 0
    then ok (v, [])
    else if too_wide v
    then err integer_overflow
    else err end_of_stream
read_varint_loop c v (b ∷ s) =
    let more = read_varint_loop b ((v + 1) * 2 ^ 7 + b % 2 ^ 7) s in
    if bit_and c 128 == 0 then ok (v, b ∷ s) else if too_wide v then err integer_overflow else more

unfoldable pub read_varint : Bytes → Read ℕ
unfolding read_varint_loop
read_varint [] = err end_of_stream
read_varint (c ∷ s) = read_varint_loop c (c % 2 ^ 7) s

-- `doReadEntryName`: the name, and how many bytes it took.
unfoldable pub do_read_entry_name : ℕ → Bytes → Read (Bytes × ℕ)
unfolding read_until_hashed read_hashed
do_read_entry_name name_len s =
    if name_len == 0xfff
    then (do (name, s') ← read_until_hashed 0 s; ok ((name, length name + 1), s'))
    else do (name, s') ← read_hashed name_len s; ok ((name, name_len), s')

-- What the entry before lends to the name of a version 4 entry.
unfoldable pub name_base : Bytes → ℕ → Result DecodeError Bytes
name_base [] strip = if ltb 0 strip then err malformed_index_file else ok []
name_base (c ∷ last) strip =
    if ltb (length (c ∷ last)) strip
    then err malformed_index_file
    else ok (take (length (c ∷ last) - strip) (c ∷ last))

unfoldable pub do_read_entry_name_v4 : Bytes → Bytes → Read Bytes
unfolding read_varint name_base read_until_hashed
do_read_entry_name_v4 last s = do
  (strip, s1) ← read_varint s
  base ← name_base last strip
  (suffix, s2) ← read_until_hashed 0 s1
  ok (base ++ suffix, s2)

-- `readEntryName`; a version 4 entry reports no bytes taken.
unfoldable pub read_entry_name : ℕ → Bytes → ℕ → Bytes → Read (Bytes × ℕ)
read_entry_name version last flags s =
    if version == 4
    then (do (name, s') ← do_read_entry_name_v4 last s; ok ((name, 0), s'))
    else if version == 2 || version == 3
    then do_read_entry_name (bit_and flags 0xfff) s
    else err unsupported_version

-- `padEntry`: `pad_len` is signed, and nothing is read unless it is positive.
unfoldable pub pad_entry : ℕ → ℕ → Bytes → ℕ → Bytes → Read (Unit {0})
unfolding read_hashed
pad_entry version read name consumed s = if version == 4 then ok (tt, s) else do
  (_, s') ← read_hashed (8 - (read + length name) % 8 + length name - consumed) s
  ok (tt, s')

-- The flags word and, behind it, the extended one: the two bits and the bytes read so far.
unfoldable pub read_extended : ℕ → Bytes → Read (Bool × Bool × ℕ)
unfolding read_hashed_uint16
read_extended flags s =
    if bit_and flags 0x4000 == 0 then ok ((false, false, entry_header_length), s) else do
      (extended, s') ← read_hashed_uint16 s
      ok (
        (
          not (bit_and extended (2 ^ 13) == 0),
          not (bit_and extended (2 ^ 14) == 0),
          entry_header_length + 2,
        ),
        s',
      )

-- The ten words, the object id and the flags at the front of `readEntry`.
pub record Stat : Type 0 where
  pub sec : ℕ
  pub nsec : ℕ
  pub msec : ℕ
  pub mnsec : ℕ
  pub dev : ℕ
  pub inode : ℕ
  pub mode : ℕ
  pub uid : ℕ
  pub gid : ℕ
  pub size : ℕ
  pub hash : Bytes
  pub flags : ℕ

unfoldable pub read_stat : Bytes → Read Stat
unfolding read_hashed_uint32 read_hashed_uint16 read_hashed
read_stat s0 = do
  (sec, s1) ← read_hashed_uint32 s0
  (nsec, s2) ← read_hashed_uint32 s1
  (msec, s3) ← read_hashed_uint32 s2
  (mnsec, s4) ← read_hashed_uint32 s3
  (dev, s5) ← read_hashed_uint32 s4
  (inode, s6) ← read_hashed_uint32 s5
  (mode, s7) ← read_hashed_uint32 s6
  (uid, s8) ← read_hashed_uint32 s7
  (gid, s9) ← read_hashed_uint32 s8
  (size, s10) ← read_hashed_uint32 s9
  (hash, s11) ← read_hashed digest_size s10
  (flags, s12) ← read_hashed_uint16 s11
  ok (
    record {
      sec = sec;
      nsec = nsec;
      msec = msec;
      mnsec = mnsec;
      dev = dev;
      inode = inode;
      mode = mode;
      uid = uid;
      gid = gid;
      size = size;
      hash = hash;
      flags = flags;
    },
    s12,
  )

-- `Time.unix` of index.zig: the nanoseconds are cast to an `i32`. A zero time, for which it is not
-- called, is the default time.
unfoldable pub unix : ℕ → ℕ → Result DecodeError (ℕ × ℕ)
unix sec nsec = if ltb nsec (2 ^ 31) then ok (sec, nsec) else err cast_panic

-- The entry of `readEntry`, with its two times.
abbrev pub to_entry : Stat → ℕ × ℕ → ℕ × ℕ → Bool → Bool → Bytes → Entry
to_entry w created modified ita sw name = record {
  created_at = created;
  modified_at = modified;
  dev = w.dev;
  inode = w.inode;
  mode = w.mode;
  uid = w.uid;
  gid = w.gid;
  size = w.size;
  hash = w.hash;
  stage = w.flags / 2 ^ 12 % 4;
  intent_to_add = ita;
  skip_worktree = sw;
  name = name;
}

unfoldable pub read_entry : ℕ → Bytes → Bytes → Read Entry
read_entry version last s = do
  (w, s1) ← read_stat s
  created ← unix w.sec w.nsec
  modified ← unix w.msec w.mnsec
  (bits, s2) ← read_extended w.flags s1
  (named, s3) ← read_entry_name version last w.flags s2
  (_, s4) ← pad_entry version bits.2 named.0 named.1 s3
  ok (to_entry w created modified bits.0 bits.1 named.0, s4)

-- `readEntries`: every entry lends its name to the next.
unfoldable pub read_entries : ℕ → ℕ → Bytes → Bytes → Read (List Entry)
read_entries version zero last s = ok ([], s)
read_entries version (suc count) last s = do
  (e, s1) ← read_entry version last s
  (es, s2) ← read_entries version count e.name s1
  ok (e ∷ es, s2)

unfoldable pub validate_header : Bytes → Read ℕ
unfolding read_hashed read_hashed_uint32
validate_header s = do
  (sig, s1) ← read_hashed 4 s
  require (same sig (codes "DIRC")) malformed_signature
  (version, s2) ← read_hashed_uint32 s1
  require (leb 2 version) unsupported_version
  require (leb version 4) unsupported_version
  ok (version, s2)

-- `decode` up to the extensions: the version, the entries, and what follows them.
unfoldable pub decode : Bytes → Read (ℕ × List Entry)
decode s = do
  (version, s1) ← validate_header s
  (count, s2) ← read_hashed_uint32 s1
  (es, s3) ← read_entries version count [] s2
  ok ((version, es), s3)
