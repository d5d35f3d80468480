-- ===== src/Index/Directory/Writes.antt =====
-- What `check_dir` finds after `write_outdir`.
use gitz.Common.{
  ℕ, ◌/◌, ◌%◌, ◌≡◌, ◌<◌, refl, not, ◌&&◌, Bool, true, false, List, [], ◌∷◌, Bytes, Text, same,
  same_iff, same_refl, all, ltb, some, if◌then◌else◌, All, ok, arith, >>=-eq-ok,
}
use gitz.Common.Str.{strip, lstrip, rstrip, is_space}
use gitz.Index.Hex.{hex, fromhex-hex, hex_digit}
use gitz.Index.Directory.{
  Dir, read_file, write_file, hex_name, hex_text, write_outdir, check_image, check_files, check_hex,
  check_binary, compare_hex, expected_version, check_dir, require_some, unknown_name,
}

read_file-write_file :
    (k j : Text) (v : Bytes) (d : Dir)
    → read_file j (write_file k v d) ≡ (if same k j then some v else read_file j d)
unfolding read_file write_file
read_file-write_file k j v [] = refl
read_file-write_file k j v ((i, w) ∷ d) =
    ground (arith, same_iff i k, same_iff i j, same_iff k j, read_file-write_file k j v d)

-- The hexadecimal text of a byte string has no white space, so that only its line end is stripped.
digit_not_space : (d : ℕ) → d < 16 → is_space (hex_digit d) ≡ false
unfolding hex_digit is_space
digit_not_space d h = ground arith

rstrip-hex_text : (bs : Bytes) → All (λ b. b < 256) bs → rstrip (hex_text bs) ≡ hex bs
unfolding rstrip hex is_space
rstrip-hex_text [] h = refl
rstrip-hex_text (b ∷ bs) h = ground (
  arith,
  digit_not_space (b / 16) (omega arith),
  digit_not_space (b % 16) (omega arith),
  rstrip-hex_text bs h.1,
)

lstrip-hex_text : (b : ℕ) (bs : Bytes) → b < 256 → lstrip (hex_text (b ∷ bs)) ≡ hex_text (b ∷ bs)
unfolding lstrip hex
lstrip-hex_text b bs h = rw (digit_not_space (b / 16) (omega arith))

strip-hex_text : (bs : Bytes) → All (λ b. b < 256) bs → strip (hex_text bs) ≡ hex bs
unfolding strip is_space
strip-hex_text [] h = unfold hex in refl
strip-hex_text (b ∷ bs) h = rw (lstrip-hex_text b bs h.0) (rstrip-hex_text (b ∷ bs) h)

digit_is_ascii : (d : ℕ) → d < 16 → ltb (hex_digit d) 128 ≡ true
unfolding hex_digit
digit_is_ascii d h = ground arith

all-hex_text : (bs : Bytes) → All (λ b. b < 256) bs → all (λ c. ltb c 128) (hex_text bs) ≡ true
unfolding hex
all-hex_text [] h = refl
all-hex_text (b ∷ bs) h = ground (
  arith,
  digit_is_ascii (b / 16) (omega arith),
  digit_is_ascii (b % 16) (omega arith),
  all-hex_text bs h.1,
)

-- No image of the list, and no `.hex` twin of one, has the file name `k`.
abbrev pub untouched : Text → List (Text × Bytes) → Bool
untouched k [] = true
untouched k ((name, bs) ∷ images) =
    not (same name k) && not (same (hex_name name) k) && untouched k images

-- The file names of the images and of their twins are all different.
abbrev pub distinct : List (Text × Bytes) → Bool
distinct [] = true
distinct ((name, bs) ∷ images) =
    not (same (hex_name name) name)
    && untouched name images
    && untouched (hex_name name) images
    && distinct images

abbrev pub AreBytes : List (Text × Bytes) → Type 0
AreBytes [] = Unit
AreBytes ((name, bs) ∷ images) = All (λ b. b < 256) bs × AreBytes images

module _ (sha1 : Bytes → Bytes) where
  -- One round of `write_outdir` that did not raise.
  write_outdir-cons :
      (name bs : Text) (images : List (Text × Bytes)) (d d' : Dir)
      → write_outdir sha1 ((name, bs) ∷ images) d ≡ ok d'
      → write_outdir sha1 images (write_file (hex_name name) (hex_text bs) (write_file name bs d))
        ≡ ok d'
  unfolding write_outdir
  write_outdir-cons name bs images d d' h =
      let (version, _, h1) =
        >>=-eq-ok (require_some (expected_version name) (unknown_name name)) _ h in
      (>>=-eq-ok (check_image sha1 name version bs) _ h1).2

  read_file-write_outdir :
      (k : Text) (images : List (Text × Bytes)) (d d' : Dir)
      → untouched k images ≡ true
      → write_outdir sha1 images d ≡ ok d'
      → read_file k d' ≡ read_file k d
  read_file-write_outdir k [] d d' u h = unfold write_outdir in cc
  read_file-write_outdir k ((name, bs) ∷ images) d d' u h = ground (
    arith,
    read_file-write_outdir k images
        (write_file (hex_name name) (hex_text bs) (write_file name bs d)) d' (ground arith)
        (write_outdir-cons name bs images d d' h),
    read_file-write_file (hex_name name) k (hex_text bs) (write_file name bs d),
    read_file-write_file name k bs d,
  )

  -- The two files of the first image are as they were written.
  first_files :
      (name bs : Text) (images : List (Text × Bytes)) (d d' : Dir)
      → distinct ((name, bs) ∷ images) ≡ true
      → write_outdir sha1 ((name, bs) ∷ images) d ≡ ok d'
      → (read_file name d' ≡ some bs) × (read_file (hex_name name) d' ≡ some (hex_text bs))
  first_files name bs images d d' u h =
      let d1 : Dir = write_file name bs d in
      let d2 : Dir = write_file (hex_name name) (hex_text bs) d1 in
      let tail = write_outdir-cons name bs images d d' h in
      (
        ground (
          arith,
          read_file-write_outdir name images d2 d' (ground arith) tail,
          read_file-write_file (hex_name name) name (hex_text bs) d1,
          read_file-write_file name name bs d,
          same_refl name,
        ),
        ground (
          arith,
          read_file-write_outdir (hex_name name) images d2 d' (ground arith) tail,
          read_file-write_file (hex_name name) (hex_name name) (hex_text bs) d1,
          same_refl (hex_name name),
        ),
      )

  check_files-write_outdir :
      (images : List (Text × Bytes)) (d d' : Dir)
      → distinct images ≡ true
      → AreBytes images
      → write_outdir sha1 images d ≡ ok d'
      → check_files images d' ≡ ok tt
  unfolding check_files check_binary check_hex compare_hex
  check_files-write_outdir [] d d' u b h = refl
  check_files-write_outdir ((name, bs) ∷ images) d d' u b h =
      let (binary, twin) = first_files name bs images d d' u h in
      rw
        (
          binary,
          same_refl bs,
          twin,
          all-hex_text bs b.0,
          strip-hex_text bs b.0,
          fromhex-hex bs b.0,
          same_refl bs,
        )
        (check_files-write_outdir images _ d' (ground arith) b.1
          (write_outdir-cons name bs images d d' h))

  -- After a `write_outdir` that did not raise, `check_dir` finds every binary and every `.hex` twin
  -- as it should be, whatever else the directory holds. The images are byte strings, and their file
  -- names and those of the twins are all different.
  pub check_dir-write_outdir :
      (images : List (Text × Bytes)) (d d' : Dir)
      → distinct images ≡ true
      → AreBytes images
      → write_outdir sha1 images d ≡ ok d'
      → check_dir (some d') images ≡ ok tt
  unfolding check_dir
  check_dir-write_outdir images d d' u b h = check_files-write_outdir images d d' u b h
