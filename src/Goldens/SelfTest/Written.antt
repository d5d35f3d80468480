-- ===== src/Goldens/SelfTest/Written.antt =====
-- The cases that `_write_case` writes, as the runner reads them.
use gitz.Common.{
  ◌≡◌, refl, ◌∙◌, true, false, Bool, ◌∷◌, ◌++◌, append_assoc, Text, Bytes, codes, same, some, ok,
}
use gitz.Common.Str.{has_char, is_empty}
use gitz.Files.{Files, load_path}
use gitz.Files.Disk.{Disk, IsDisk}
use gitz.Files.Paths.{IsDirectory, join_path-IsName, dirname-join, join-IsDirectory}
use gitz.Yaml.{str}
use gitz.Yaml.Truth.{or_value}
use gitz.Goldens.{
  run_case, run_loaded, run_meta, compare_paths, compare_files, path_of, open_or_crash,
}
use gitz.Goldens.SelfTest.{meta_text, write_case}
use gitz.Goldens.SelfTest.Words.{IsWord, IsWord-IsText, IsWord-IsName}
use gitz.Goldens.SelfTest.Meta.{load-meta_text, meta_text-ascii, meta_text-no_return}

abbrev meta_name : Text
meta_name = codes "meta.yaml"

full : (w : Text) → IsWord w → is_empty w ≡ false
full w h = (IsWord-IsText w h).full

module _ {S : Type 0} (d : Disk S) {accepts : Text → Bool} {IsPlain : Text → S → Type 0}
    (h : IsDisk d accepts IsPlain) where
  -- The runner on a file system with the three files.
  run_case-files :
      (fs : Files) (case_ n t a e : Text) {actual expected : Bytes}
      → IsDirectory case_
      → IsWord n
      → IsWord t
      → IsWord a
      → IsWord e
      → fs.open_text (case_ ++ codes "/meta.yaml") ≡ some (meta_text n t a e)
      → fs.is_file (case_ ++ (b'/' ∷ a)) ≡ true
      → fs.is_file (case_ ++ (b'/' ∷ e)) ≡ true
      → fs.open_binary (case_ ++ (b'/' ∷ a)) ≡ some actual
      → fs.open_binary (case_ ++ (b'/' ∷ e)) ≡ some expected
      → run_case fs (case_ ++ codes "/meta.yaml")
        ≡ ok (compare_files (str n) (str t) actual expected)
  unfolding run_case run_loaded load_path run_meta path_of compare_paths open_or_crash or_value
      gitz.Yaml.Truth.truthy has_char
  run_case-files fs case_ n t a e dir hn ht ha he meta fa fe ba be =
      rw
        (
          meta,
          load-meta_text n t a e hn ht ha he,
          dirname-join case_ (codes "meta.yaml") dir refl,
          full n hn,
          full t ht,
          full a ha,
          full e he,
          join_path-IsName case_ a dir (IsWord-IsName a ha),
          join_path-IsName case_ e dir (IsWord-IsName e he),
          fa,
          fe,
          ba,
          be,
        )
        refl

  -- The states that `_write_case` passes through, in the case's directory.
  with_meta : Text → Text → Text → Text → Text → S → S
  with_meta case_ n t a e s = d.write_text (case_ ++ (b'/' ∷ meta_name)) (meta_text n t a e) s

  with_actual : Text → Text → Text → Text → Text → Text → S → S
  with_actual case_ n t actual a e s =
      d.write_text (case_ ++ (b'/' ∷ a)) actual (with_meta case_ n t a e s)

  written : Text → Text → Text → Text → Text → Text → Text → S → S
  written case_ n t actual expected a e s =
      d.write_text (case_ ++ (b'/' ∷ e)) expected (with_actual case_ n t actual a e s)

  write_case-written :
      (root n t actual expected a e : Text) (s : S)
      → IsDirectory root
      → IsWord n
      → IsWord a
      → IsWord e
      → write_case d root n t actual expected a e s
        ≡ written (root ++ (b'/' ∷ n)) n t actual expected a e (d.make_dirs (root ++ (b'/' ∷ n)) s)
  unfolding write_case written with_actual with_meta has_char
  write_case-written root n t actual expected a e s dir hn ha he =
      let case_ = root ++ (b'/' ∷ n) in
      let case_dir = join-IsDirectory root n (full n hn) (IsWord-IsName n hn) in
      rw
        (
          join_path-IsName root n dir (IsWord-IsName n hn),
          join_path-IsName case_ meta_name case_dir refl,
          join_path-IsName case_ a case_dir (IsWord-IsName a ha),
          join_path-IsName case_ e case_dir (IsWord-IsName e he),
          write_case,
        )
        refl

  run_case-written :
      (case_ n t actual expected a e : Text) (s : S) {actual_bytes expected_bytes : Bytes}
      → IsDirectory case_
      → IsPlain case_ s
      → IsWord n
      → IsWord t
      → IsWord a
      → IsWord e
      → accepts meta_name ≡ true
      → accepts a ≡ true
      → accepts e ≡ true
      → same meta_name a ≡ false
      → same meta_name e ≡ false
      → same a e ≡ false
      → d.encode actual ≡ some actual_bytes
      → d.encode expected ≡ some expected_bytes
      → run_case (d.view (written case_ n t actual expected a e s)) (case_ ++ codes "/meta.yaml")
        ≡ ok (compare_files (str n) (str t) actual_bytes expected_bytes)
  unfolding written with_actual with_meta
  run_case-written case_ n t actual expected a e s dir p hn ht ha he am aa ae ma me ne ba be =
      let mb = h.encode_ascii (meta_text n t a e) (meta_text-ascii n t a e hn ht ha he) in
      let s1 = with_meta case_ n t a e s in
      let s2 = with_actual case_ n t actual a e s in
      let p1 = h.write_text-IsPlain case_ meta_name (meta_text n t a e) s p am mb in
      let p2 = h.write_text-IsPlain case_ a actual s1 p1 aa ba in
      run_case-files (d.view (written case_ n t actual expected a e s)) case_ n t a e dir hn ht ha
        he
        (h.open_text_other case_ e meta_name expected s2 p2 ae am be me
          ∙ h.open_text_other case_ a meta_name actual s1 p1 aa am ba ma
          ∙ h.open_text_written case_ meta_name (meta_text n t a e) s p am mb
              (meta_text-no_return n t a e hn ht ha he))
        (h.is_file_other case_ e a expected s2 p2 ae aa be ne
          ∙ h.is_file_written case_ a actual s1 p1 aa ba)
        (h.is_file_written case_ e expected s2 p2 ae be)
        (h.open_binary_other case_ e a expected s2 p2 ae aa be ne
          ∙ h.open_binary_written case_ a actual s1 p1 aa ba)
        (h.open_binary_written case_ e expected s2 p2 ae be)

  -- A case that `_write_case` writes is judged by its comparison: on a disk with the laws of
  -- `IsDisk`, where `os.makedirs` leaves a plain directory at the path of the case, the root is not
  -- empty and has no slash at its end, the name, the type and the names of the two files are plain
  -- words (lower-case letters, digits, `_`, `.` and `-`, a letter first, and none of the words that
  -- the loader reads as null or a Boolean), the three file names are accepted and differ from each
  -- other, and the two texts can be encoded, the runner loads the meta file that was written, finds
  -- both files, and compares what the two texts are encoded to under the name and the type given.
  pub run_case-write_case :
      (root n t actual expected a e : Text) (s : S) {actual_bytes expected_bytes : Bytes}
      → IsDirectory root
      → IsPlain (root ++ (b'/' ∷ n)) (d.make_dirs (root ++ (b'/' ∷ n)) s)
      → IsWord n
      → IsWord t
      → IsWord a
      → IsWord e
      → accepts meta_name ≡ true
      → accepts a ≡ true
      → accepts e ≡ true
      → same meta_name a ≡ false
      → same meta_name e ≡ false
      → same a e ≡ false
      → d.encode actual ≡ some actual_bytes
      → d.encode expected ≡ some expected_bytes
      → run_case
          (d.view (write_case d root n t actual expected a e s))
          (root ++ (b'/' ∷ (n ++ codes "/meta.yaml")))
        ≡ ok (compare_files (str n) (str t) actual_bytes expected_bytes)
  run_case-write_case root n t actual expected a e s dir p hn ht ha he am aa ae ma me ne ba be =
      let case_ = root ++ (b'/' ∷ n) in
      let case_dir = join-IsDirectory root n (full n hn) (IsWord-IsName n hn) in
      let read =
        run_case-written case_ n t actual expected a e (d.make_dirs case_ s) case_dir p hn ht ha he
          am aa ae ma me ne ba be in
      rw
        (
          write_case-written root n t actual expected a e s dir hn ha he,
          ← append_assoc root (b'/' ∷ n) (codes "/meta.yaml"),
        )
        read
