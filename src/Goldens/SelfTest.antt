-- ===== src/Goldens/SelfTest.antt =====
-- `_write_case` and `_self_test` of tools/golden/run_goldens.py, on a disk. A part of the self test
-- takes the state of the disk and returns the one it leaves.
pub mod Words
pub mod Meta
pub mod Written
mod Examples
use gitz.Common.{
  ℕ, ◌==◌, Bool, true, false, not, ◌&&◌, ◌||◌, List, [], ◌∷◌, ◌++◌, Text, codes, same, any,
  if◌then◌else◌, Result, ok, err, ◌>>=◌, ◌>>◌, require,
}
use gitz.Cli.{Failure, asserted}
use gitz.Files.{join_path}
use gitz.Files.Disk.{Disk}
use gitz.Goldens.{
  Crash, Message, Report, cannot_load, no_mapping, missing_actual, missing_expected, passed,
  differs, text_mismatch, not_found, unknown_type, none_found, no_goldens, all_passed, run_all,
}

-- The content of a case's `meta.yaml`.
abbrev pub meta_text : Text → Text → Text → Text → Text
meta_text name gtype actual_name expected_name =
    codes "name: "
    ++ (name
        ++ (codes "\ntype: "
            ++ (gtype
                ++ (codes "\nactual: "
                    ++ (actual_name ++ (codes "\nexpected: " ++ (expected_name ++ codes "\n")))))))

-- The three files of a case, in the order in which they are written.
unfoldable pub write_case :
    {S : Type 0} → Disk S → Text → Text → Text → Text → Text → Text → Text → S → S
unfolding join_path
write_case d root name gtype actual expected actual_name expected_name s =
    let case_ = join_path root name in
    let s1 = d.make_dirs case_ s in
    let s2 =
      d.write_text (join_path case_ (codes "meta.yaml"))
        (meta_text name gtype actual_name expected_name) s1 in
    let s3 = d.write_text (join_path case_ actual_name) actual s2 in
    d.write_text (join_path case_ expected_name) expected s3

-- The names of the two files, unless others are given.
abbrev pub write_default : {S : Type 0} → Disk S → Text → Text → Text → Text → Text → S → S
write_default d root name gtype actual expected s =
    write_case d root name gtype actual expected (codes "input.txt") (codes "expected.txt") s

abbrev pub Tested : Type 0 → Type 0
Tested A = Result (Failure Crash Report) A

-- `run_all` and the assertions on what it returns.
unfoldable pub expect : {S : Type 0} → Disk S → Text → Bool → (Report → Bool) → S → Tested S
unfolding run_all
expect d root allow_empty test s = do r ← asserted test (run_all (d.view s) root allow_empty); ok s

-- `m.startswith("FAIL")`
abbrev pub is_fail : Message → Bool
is_fail (differs n a e) = true
is_fail (text_mismatch n) = true
is_fail (not_found n) = true
is_fail (no_goldens r) = true
is_fail m = false

-- The messages that hold a golden type or one of the runner's phrases, beside the names, which the
-- self test chooses without them.
abbrev pub is_text_equals_failure : Message → Bool
is_text_equals_failure (text_mismatch n) = true
is_text_equals_failure m = false

abbrev pub names_static_contains : Message → Bool
names_static_contains (not_found n) = true
names_static_contains (passed n kind) = same kind (codes "static_contains")
names_static_contains m = false

abbrev pub is_unknown_type : Message → Bool
is_unknown_type (unknown_type n t) = true
is_unknown_type m = false

abbrev pub is_missing_actual : Message → Bool
is_missing_actual (missing_actual n a) = true
is_missing_actual m = false

abbrev pub is_none_found : Message → Bool
is_none_found none_found = false
is_none_found (no_goldens r) = true
is_none_found m = false

abbrev pub is_no_mapping : Message → Bool
is_no_mapping (no_mapping p) = true
is_no_mapping m = false

abbrev pub fails_with : (Message → Bool) → Report → Bool
fails_with test r = not r.good && any test r.messages

-- `shutil.rmtree(os.path.join(td, name))` for all names of the directory.
abbrev pub remove_all : {S : Type 0} → Disk S → Text → List Text → S → S
remove_all d td [] s = s
remove_all d td (name ∷ names) s = remove_all d td names (d.remove_tree (join_path td name) s)

-- The parts of the self test.
unfoldable pub test_file_equals : {S : Type 0} → Disk S → Text → S → Tested S
unfolding write_case expect
test_file_equals d td s = do
  let case_ = join_path td (codes "fe")
  s1 ←
      expect d td false (λ r. r.good && r.metrics.passes == 1 && r.metrics.failures == 0)
        (write_default d td (codes "fe") (codes "file_equals") (codes "hello\n") (codes "hello\n")
          s)
  s2 ←
      expect d td false (λ r. fails_with is_fail r && r.metrics.failures == 1)
        (d.write_text (join_path case_ (codes "expected.txt")) (codes "nope\n") s1)
  ok (remove_all d td ((d.view s2).list_dir td) s2)

unfoldable pub test_text_equals : {S : Type 0} → Disk S → Text → S → Tested S
unfolding write_case expect
test_text_equals d td s = do
  let case_ = join_path td (codes "te")
  s1 ←
      expect d td false (λ r. r.good && r.metrics.passes == 1)
        (write_default d td (codes "te") (codes "text_equals") (codes "hello\n\n") (codes "hello")
          s)
  s2 ←
      expect d td false (λ r. fails_with is_text_equals_failure r)
        (d.write_text (join_path case_ (codes "expected.txt")) (codes "other") s1)
  ok (d.remove_tree case_ s2)

unfoldable pub test_static_contains : {S : Type 0} → Disk S → Text → S → Tested S
unfolding write_case expect
test_static_contains d td s = do
  let case_ = join_path td (codes "sc")
  s1 ←
      expect d td false (λ r. r.good)
        (write_default d td (codes "sc") (codes "static_contains") (codes "abcXYZ123") (codes "XYZ")
          s)
  s2 ←
      expect d td false (λ r. fails_with names_static_contains r)
        (d.write_text (join_path case_ (codes "expected.txt")) (codes "NOPE") s1)
  ok (d.remove_tree case_ s2)

unfoldable pub test_unknown_type : {S : Type 0} → Disk S → Text → S → Tested S
unfolding write_case expect
test_unknown_type d td s = do
  s1 ←
      expect d td false (λ r. fails_with is_unknown_type r)
        (write_default d td (codes "unk") (codes "not_a_type") (codes "a") (codes "a") s)
  ok (d.remove_tree (join_path td (codes "unk")) s1)

unfoldable pub test_missing_actual : {S : Type 0} → Disk S → Text → S → Tested S
unfolding write_case expect
test_missing_actual d td s =
    let written =
      write_default d td (codes "miss") (codes "file_equals") (codes "a") (codes "a") s in
    expect d td false (λ r. fails_with is_missing_actual r)
      (d.remove (join_path (join_path td (codes "miss")) (codes "input.txt")) written)

unfoldable pub test_empty_root : {S : Type 0} → Disk S → Text → S → Tested S
unfolding expect
test_empty_root d td s = do
  let empty = join_path td (codes "empty_root")
  s1 ←
      expect d empty false (λ r. fails_with is_none_found r && r.metrics.count == 0)
        (d.make_dirs empty s)
  expect d empty true (λ r. r.good && r.metrics.count == 0) s1

unfoldable pub test_bad_meta : {S : Type 0} → Disk S → Text → S → Tested S
unfolding expect
test_bad_meta d td s =
    let bad = join_path td (codes "badmeta") in
    expect d bad false (λ r. fails_with is_no_mapping r)
      (d.write_text (join_path bad (codes "meta.yaml")) (codes "just-a-string\n")
        (d.make_dirs bad s))

unfoldable pub self_test : {S : Type 0} → Disk S → Text → S → Tested Bool
unfolding test_file_equals test_text_equals test_static_contains test_unknown_type
    test_missing_actual test_empty_root test_bad_meta
self_test d td s = do
  s1 ← test_file_equals d td s
  s2 ← test_text_equals d td s1
  s3 ← test_static_contains d td s2
  s4 ← test_unknown_type d td s3
  s5 ← test_missing_actual d td s4
  s6 ← test_empty_root d td s5
  s7 ← test_bad_meta d td s6
  ok true
