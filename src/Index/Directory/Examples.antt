-- ===== src/Index/Directory/Examples.antt =====
-- Fixture directories, written and checked.
use gitz.Common.{
  ◌≡◌, refl, ◌++◌, ◌<◌, true, List, [], ◌∷◌, Bytes, Text, codes, All, all, ltb, replicate, ok, some,
  arith, none, same, false, one_of, if◌then◌else◌,
}
use gitz.Index.Image.{build_all, v2_simple}
use gitz.Index.Main.{World, done, main, made_dir}
use gitz.Index.Main.Rerun.{write_and_check, only_check, main-write_and_check}
use gitz.Index.Directory.{
  Dir, hex_text, write_outdir, check_dir, expected_version, require_some, check_image, write_file,
}
use gitz.Index.Directory.Writes.{check_dir-write_outdir}
use gitz.Index.Directory.Generated.{build-write-check}

-- A digest of 20 bytes.
abbrev constant_digest : Bytes → Bytes
constant_digest b = replicate 20 7

are_bytes : (bs : Bytes) → all (λ b. ltb b 256) bs ≡ true → All (λ b. b < 256) bs
are_bytes [] h = tt
are_bytes (b ∷ bs) h = (ground arith, are_bytes bs (ground arith))

constant_digest-bytes : (b : Bytes) → All (λ c. c < 256) (constant_digest b)
constant_digest-bytes b = are_bytes (constant_digest b) refl

build-write-check_example :
    (made : List (Text × Bytes)) × (d' : Dir) × (build_all constant_digest ≡ ok made)
    × (write_outdir constant_digest made [] ≡ ok d')
    × (check_dir (some d') made ≡ ok tt)
build-write-check_example = build-write-check constant_digest (λ b. refl) constant_digest-bytes []

abbrev small_image : Bytes
small_image = codes "DIRC" ++ (0 ∷ 0 ∷ 0 ∷ 2 ∷ replicate 20 7)

abbrev small_images : List (Text × Bytes)
small_images = (v2_simple, small_image) ∷ []

abbrev small_dir : Dir
small_dir = (v2_simple, small_image) ∷ (codes "v2_simple.hex", hex_text small_image) ∷ []

small_dir-ok : write_outdir constant_digest small_images [] ≡ ok small_dir
unfolding write_outdir expected_version require_some check_image write_file
small_dir-ok = refl

check_dir-write_outdir_example : check_dir (some small_dir) small_images ≡ ok tt
check_dir-write_outdir_example =
    check_dir-write_outdir constant_digest small_images [] small_dir refl
      (are_bytes small_image refl, tt) small_dir-ok

abbrev empty_world : World
empty_world = record { parents = λ p. codes "c" ∷ []; dirs = λ p. none; texts = λ p. none }

main-write_and_check_example :
    (w' : World) × (main constant_digest (write_and_check (codes "d")) empty_world ≡ ok (done w'))
    × (main constant_digest (only_check (codes "d")) w' ≡ ok (done w'))
    × ((p : Text)
        → same (codes "d") p ≡ false
        → w'.dirs p ≡ (
            if one_of p (codes "c" ∷ codes "d" ∷ [])
            then some (made_dir (empty_world.dirs p))
            else empty_world.dirs p))
    × (w'.texts ≡ empty_world.texts)
main-write_and_check_example =
    main-write_and_check constant_digest (λ b. refl) constant_digest-bytes empty_world (codes "d")
      (refl, (refl, tt))
