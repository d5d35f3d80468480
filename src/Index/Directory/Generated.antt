-- ===== src/Index/Directory/Generated.antt =====
-- The generator's own images pass the checks of `write_outdir` and, afterwards, of `check_dir`.
use gitz.Common.{
  All-append, ℕ, ◌-◌, ◌≡◌, ◌<◌, refl, true, List, [], ◌∷◌, ◌++◌, Bytes, Text, codes, same,
  same_refl, some, length, length-append, take, take-length_append, drop-length_append, All, all,
  ltb, Result, ok, err, arith, ==_refl,
}
use gitz.Common.Sort.{sorted}
use gitz.Index.{
  v2_entry, v3_ext, v4_entry, StructError, fixed_header, be32, be16, pad, extended_flags,
  common_prefix, vlq,
}
use gitz.Index.Image.{
  v2_body, v3_body, v4_body, v4_names, finish, build_all, v2_simple, v3_intent, v4_prefix,
}
use gitz.Index.Directory.{
  Dir, write_file, hex_name, hex_text, check_image, write_outdir, check_dir, expected_version,
  unpack_version, require_some,
}
use gitz.Index.Directory.Writes.{check_dir-write_outdir}

-- The bytes of a packed body; a body that could not be packed has none.
abbrev bytes_of : Result StructError Bytes → Bytes
bytes_of (ok b) = b
bytes_of (err e) = []

-- A body with a header: the signature and a version word.
record IsBody (version : ℕ) (body : Bytes) : Type 0 where
  signature : same (take 4 body) (codes "DIRC") ≡ true
  word : (s : Bytes) → take 4 (body ++ s) ≡ take 4 body
  version_word : (s : Bytes) → unpack_version (body ++ s) ≡ some version
  is_bytes : all (λ b. ltb b 256) body ≡ true

All-all : (bs : Bytes) → all (λ b. ltb b 256) bs ≡ true → All (λ b. b < 256) bs
All-all [] h = tt
All-all (b ∷ bs) h = (ground arith, All-all bs (ground arith))

module _ (sha1 : Bytes → Bytes) (len : (b : Bytes) → length (sha1 b) ≡ 20)
    (digest : (b : Bytes) → All (λ c. c < 256) (sha1 b)) where
  body_length : (body : Bytes) → length (body ++ sha1 body) - 20 ≡ length body
  body_length body = omega (arith, length-append body (sha1 body), len body)

  -- An image that `finish` made of a body passes the three checks.
  check_image-finish :
      (name : Text) (version : ℕ) (body : Bytes)
      → IsBody version body
      → check_image sha1 name version (finish sha1 body) ≡ ok tt
  unfolding check_image finish require_some
  check_image-finish name version body b = rw (
    b.word (sha1 body),
    b.signature,
    b.version_word (sha1 body),
    ==_refl version,
    body_length body,
    take-length_append body (sha1 body),
    drop-length_append body (sha1 body),
    same_refl (sha1 body),
  )

  finish-AreBytes :
      (version : ℕ) (body : Bytes) → IsBody version body → All (λ b. b < 256) (finish sha1 body)
  unfolding finish
  finish-AreBytes version body b =
      All-append (λ b. b < 256) body (sha1 body) (All-all body b.is_bytes) (digest body)

-- The three bodies, as `build_all` computes them.
pub v2 : Bytes
unfolding v2_body v2_entry fixed_header be32 be16 pad
v2 = bytes_of v2_body

pub v3 : Bytes
unfolding v3_body v2_entry v3_ext extended_flags fixed_header be32 be16 pad
v3 = bytes_of v3_body

pub v4 : Bytes
unfolding v4_body v4_entry common_prefix vlq fixed_header be32 be16 sorted
v4 = bytes_of (v4_body (sorted v4_names))

v2_body-ok : v2_body ≡ ok v2
unfolding v2
v2_body-ok = refl

v3_body-ok : v3_body ≡ ok v3
unfolding v3
v3_body-ok = refl

v4_body-ok : v4_body (sorted v4_names) ≡ ok v4
unfolding v4
v4_body-ok = refl

v2-IsBody : IsBody 2 v2
unfolding v2 unpack_version
v2-IsBody = record { signature = refl; word = λ s. refl; version_word = λ s. refl; is_bytes = refl }

v3-IsBody : IsBody 3 v3
unfolding v3 unpack_version
v3-IsBody = record { signature = refl; word = λ s. refl; version_word = λ s. refl; is_bytes = refl }

v4-IsBody : IsBody 4 v4
unfolding v4 unpack_version
v4-IsBody = record { signature = refl; word = λ s. refl; version_word = λ s. refl; is_bytes = refl }

-- A directory with one image more, and its twin.
abbrev written : Text → Bytes → Dir → Dir
written name bs d = write_file (hex_name name) (hex_text bs) (write_file name bs d)

unfoldable pub images : (Bytes → Bytes) → List (Text × Bytes)
images sha1 =
    (v2_simple, finish sha1 v2) ∷ (v3_intent, finish sha1 v3) ∷ (v4_prefix, finish sha1 v4) ∷ []

pub build_all-images : (sha1 : Bytes → Bytes) → build_all sha1 ≡ ok (images sha1)
unfolding build_all images
build_all-images sha1 = rw (v2_body-ok, v3_body-ok, v4_body-ok)

module _ (sha1 : Bytes → Bytes) (len : (b : Bytes) → length (sha1 b) ≡ 20)
    (digest : (b : Bytes) → All (λ c. c < 256) (sha1 b)) where
  write_outdir-images : (d : Dir) → (d' : Dir) × (write_outdir sha1 (images sha1) d ≡ ok d')
  unfolding write_outdir images expected_version require_some
  write_outdir-images d = (
    written v4_prefix (finish sha1 v4)
        (written v3_intent (finish sha1 v3) (written v2_simple (finish sha1 v2) d)),
    rw (
      check_image-finish sha1 len digest v2_simple 2 v2 v2-IsBody,
      check_image-finish sha1 len digest v3_intent 3 v3 v3-IsBody,
      check_image-finish sha1 len digest v4_prefix 4 v4 v4-IsBody,
    ),
  )

  pub images-AreBytes :
      All (λ b. b < 256) (finish sha1 v2)
      × All (λ b. b < 256) (finish sha1 v3)
      × All (λ b. b < 256) (finish sha1 v4)
      × Unit {0}
  images-AreBytes = (
    finish-AreBytes sha1 len digest 2 v2 v2-IsBody,
    finish-AreBytes sha1 len digest 3 v3 v3-IsBody,
    finish-AreBytes sha1 len digest 4 v4 v4-IsBody,
    tt,
  )

  -- With any digest of 20 bytes the generator packs its three images, writes them into any
  -- directory without raising, and a `--check` of that directory then passes.
  pub build-write-check :
      (d : Dir)
      → (made : List (Text × Bytes)) × (d' : Dir) × (build_all sha1 ≡ ok made)
        × (write_outdir sha1 made d ≡ ok d')
        × (check_dir (some d') made ≡ ok tt)
  unfolding images
  build-write-check d =
      let (d', done) = write_outdir-images d in
      (
        images sha1,
        d',
        build_all-images sha1,
        done,
        check_dir-write_outdir sha1 (images sha1) d d' refl
            (let (a, b, c, d) = images-AreBytes in (a, (b, (c, d)))) done,
      )
