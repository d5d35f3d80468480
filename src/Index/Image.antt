-- ===== src/Index/Image.antt =====
-- Whole index images: `finish`, `build_v2`, `build_v3`, `build_v4` and `build_all`, over the
-- digest `hashlib.sha1`.
use gitz.Common.{
  ℕ, ◌+◌, ◌%◌, ◌==◌, true, false, List, [], ◌∷◌, ◌++◌, Bytes, Text, codes, if◌then◌else◌, length,
  replicate, ok, ◌>>=◌, Result,
}
use gitz.Common.Sort.{sorted}
use gitz.Index.{Packed, StructError, be32, v2_entry, v3_ext, v4_entry}

-- `SAMPLE`
abbrev pub sample : Bytes
sample =
    0x32 ∷ 0x85 ∷ 0x8a ∷ 0xad ∷ 0x3c ∷ 0x38 ∷ 0x3e ∷ 0xd1 ∷ 0xff ∷ 0x0a ∷ 0x0f ∷ 0x9b ∷ 0xdf ∷ 0x23
    ∷ 0x1d ∷ 0x54 ∷ 0xa0 ∷ 0x0c ∷ 0x9e ∷ 0x88 ∷ []

-- `ZERO`
abbrev pub zero_id : Bytes
zero_id = replicate 20 0

-- The `for` of `build_v4`, at entry `i` behind the name `prev`.
unfoldable pub v4_loop : List Bytes → ℕ → Bytes → Bytes → Packed
v4_loop [] i prev body = ok body
v4_loop (name ∷ names) i prev body = do
  e ← v4_entry name prev (if i % 2 == 0 then sample else zero_id) (i + 1)
  v4_loop names (i + 1) name (body ++ e)

-- `SYNTHETIC_NAMES`
abbrev pub v2_simple : Text
v2_simple = codes "v2_simple"

abbrev pub v3_intent : Text
v3_intent = codes "v3_intent"

abbrev pub v4_prefix : Text
v4_prefix = codes "v4_prefix"

unfoldable pub v2_body : Packed
v2_body = do
  v ← be32 2
  n ← be32 3
  a ← v2_entry (codes ".gitignore") sample 189 1480626693 498593596 1480626693 498593596
  b ← v2_entry (codes "CHANGELOG") zero_id 42 1480626693 498593596 1480626693 498593596
  c ← v2_entry (codes "README.md") sample 1024 1480626693 498593596 1480626693 498593596
  ok (codes "DIRC" ++ v ++ n ++ a ++ b ++ c)

unfoldable pub v3_body : Packed
v3_body = do
  v ← be32 3
  n ← be32 4
  a ← v2_entry (codes "a.txt") sample 10 1 0 1 0
  b ← v3_ext (codes "intent-to-add") zero_id 0 true false
  c ← v3_ext (codes "skip-me") zero_id 0 false true
  d ← v3_ext (codes "z-both") sample 7 true true
  ok (codes "DIRC" ++ v ++ n ++ a ++ b ++ c ++ d)

-- `build_v4` over any list of names, before `finish`.
unfoldable pub v4_body : List Bytes → Packed
unfolding v4_loop
v4_body names = do
  v ← be32 4
  n ← be32 (length names)
  v4_loop names 0 [] (codes "DIRC" ++ (v ++ n))

abbrev pub v4_names : List Bytes
v4_names =
    codes ".gitignore"
    ∷ codes "src/foo.go"
    ∷ codes "src/foo_test.go"
    ∷ codes "src/bar.go"
    ∷ codes "src/bar/baz.go"
    ∷ codes "vendor/foo.go"
    ∷ codes "vendor/foo/bar.go"
    ∷ []

module _ (sha1 : Bytes → Bytes) where
  unfoldable pub finish : Bytes → Bytes
  finish body = body ++ sha1 body

  unfoldable pub build_v2 : Packed
  unfolding v2_body finish
  build_v2 = do body ← v2_body; ok (finish body)

  unfoldable pub build_v3 : Packed
  unfolding v3_body finish
  build_v3 = do body ← v3_body; ok (finish body)

  unfoldable pub build_v4 : Packed
  unfolding v4_body finish sorted
  build_v4 = do body ← v4_body (sorted v4_names); ok (finish body)

  -- The images under their names, in the order of the dictionary.
  unfoldable pub build_all : Result StructError (List (Text × Bytes))
  unfolding build_v2 build_v3 build_v4
  build_all = do
    a ← build_v2
    b ← build_v3
    c ← build_v4
    ok ((v2_simple, a) ∷ (v3_intent, b) ∷ (v4_prefix, c) ∷ [])
