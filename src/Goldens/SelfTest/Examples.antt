-- ===== src/Goldens/SelfTest/Examples.antt =====
-- The self test of the golden runner, and one case that it writes, on a disk in memory.
use gitz.Common.{
  ◌≡◌, refl, Bool, true, false, not, [], ◌∷◌, ◌++◌, ℕ, List, Text, codes, All, all, ok, arith,
}
use gitz.Common.Str.{is_line_end, is_space, lstrip, rstrip, has_char}
use gitz.Files.Disk.Memory.{Memory, memory, memory-IsDisk}
use gitz.Yaml.{str}
use gitz.Yaml.Clean.{before_comment}
use gitz.Goldens.{run_case, compare_files}
use gitz.Goldens.SelfTest.{self_test, write_case}
use gitz.Goldens.SelfTest.Words.{IsWord, is_word_char}
use gitz.Goldens.SelfTest.Written.{run_case-write_case}

abbrev temp_dir : Memory
temp_dir = record { dirs = codes "t" ∷ []; files = [] }

-- The self test ends without a failed assertion.
self_test-temp_dir : self_test memory (codes "t") temp_dir ≡ ok true
unfolding self_test gitz.Yaml.Block.load gitz.Yaml.Clean.clean_lines gitz.Common.Str.splitlines
    gitz.Yaml.Clean.clean_line gitz.Common.Str.strip is_space gitz.Yaml.Clean.strip_comment
    gitz.Yaml.Clean.cons_line gitz.Yaml.Block.parse_block gitz.Yaml.Clean.indent_of
    gitz.Yaml.Block.rest_of gitz.Yaml.Block.key_of gitz.Yaml.Block.scalar_then
    gitz.Yaml.Scalar.parse_scalar gitz.Yaml.Scalar.scalar gitz.Yaml.Scalar.plain
    gitz.Yaml.Number.digits gitz.Yaml.Number.sign gitz.Yaml.Number.digit gitz.Yaml.Scalar.is_flow
    gitz.Yaml.Block.finish gitz.Yaml.put gitz.Common.Str.partition has_char rstrip lstrip
    before_comment gitz.Yaml.Block.load_lines gitz.Yaml.Truth.or_value gitz.Goldens.compare_paths
    gitz.Goldens.compare_files gitz.Goldens.file_equals gitz.Goldens.text_equals
    gitz.Goldens.static_contains gitz.Goldens.run_cases gitz.Goldens.run_meta
    gitz.Goldens.find_meta_files gitz.Goldens.metas_under gitz.Goldens.metas_in gitz.Files.join_path
    gitz.Files.dirname gitz.Files.basename gitz.Files.Utf8.decode_replace gitz.Files.rstrip_char
    gitz.Files.load_path gitz.Common.Sort.sorted gitz.Goldens.SelfTest.write_case
    gitz.Goldens.SelfTest.expect
self_test-temp_dir = refl

letters_only : (t : Text) → all is_word_char t ≡ true → All (λ c. is_word_char c ≡ true) t
letters_only [] h = tt
letters_only (c ∷ t) h = (ground arith, letters_only t (ground arith))

words :
    IsWord (codes "fe")
    × IsWord (codes "text_equals")
    × IsWord (codes "input.txt")
    × IsWord (codes "expected.txt")
words = (
  (omega arith, omega arith, letters_only (codes "e") refl, refl, refl, refl),
  (omega arith, omega arith, letters_only (codes "ext_equals") refl, refl, refl, refl),
  (omega arith, omega arith, letters_only (codes "nput.txt") refl, refl, refl, refl),
  (omega arith, omega arith, letters_only (codes "xpected.txt") refl, refl, refl, refl),
)

run_case-write_case_example :
    run_case
      (memory.view (
        write_case memory
          (codes "t")
          (codes "fe")
          (codes "text_equals")
          (codes "hello\n\n")
          (codes "hello")
          (codes "input.txt")
          (codes "expected.txt")
          temp_dir))
      (codes "t/fe/meta.yaml")
    ≡ ok (
        compare_files
          (str (codes "fe"))
          (str (codes "text_equals"))
          (codes "hello\n\n")
          (codes "hello"))
run_case-write_case_example =
    let (name, gtype, input, expected) = words in
    run_case-write_case memory memory-IsDisk (codes "t") (codes "fe") (codes "text_equals")
      (codes "hello\n\n") (codes "hello") (codes "input.txt") (codes "expected.txt") temp_dir
      (record { full = refl; bare = refl }) tt name gtype input expected refl refl refl refl refl
      refl refl refl
