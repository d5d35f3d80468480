-- ===== src/Inventory/SelfTest.antt =====
-- `_self_test` of tools/inventory/check_file_inventory.py, on a disk.
use gitz.Common.{
  ℕ, ◌==◌, Bool, true, false, not, ◌&&◌, Text, codes, any, some, none, Result, ok, ◌>>=◌,
}
use gitz.Cli.{Failure, asserted, loaded}
use gitz.Files.{join_path}
use gitz.Files.Disk.{Disk}
use gitz.Yaml.{Fields}
use gitz.Yaml.Block.{load}
use gitz.Inventory.{
  Crash, Message, Metrics, Report, unexpected_package, invalid_status, invalid_zig_path, check,
}

abbrev pub Tested : Type 0 → Type 0
Tested A = Result (Failure Crash Report) A

-- `check` and the assertions on what it returns.
unfoldable pub expect : {S : Type 0} → Disk S → Fields → Text → (Report → Bool) → S → Tested S
unfolding check
expect d doc src_root test s = do r ← asserted test (check (d.view s) doc src_root); ok s

-- `metrics[key] == n`; a missing key counts as a failed assertion.
abbrev pub has_metric : (Metrics → ℕ) → ℕ → Report → Bool
has_metric key n r = elim r.metrics [ some m ↦ key m == n | none ↦ false ]

abbrev pub is_unexpected : Message → Bool
is_unexpected (unexpected_package name) = true
is_unexpected m = false

abbrev pub is_invalid_status : Message → Bool
is_invalid_status (invalid_status v pkg) = true
is_invalid_status m = false

abbrev pub is_invalid_zig_path : Message → Bool
is_invalid_zig_path (invalid_zig_path pkg e) = true
is_invalid_zig_path m = false

abbrev pub fails_with : (Message → Bool) → Report → Bool
fails_with test r = not r.good && any test r.messages

-- The part that builds a source tree in the temporary directory.
unfoldable pub test_tree : {S : Type 0} → Disk S → Text → Fields → S → Tested S
unfolding expect join_path
test_tree d temp_dir doc s = do
  let package_dir = join_path (join_path temp_dir (codes "plumbing")) (codes "hash")
  let nested = join_path package_dir (codes "nested")
  s1 ← expect d doc temp_dir (λ r. not r.good && has_metric (λ m. m.absent) 1 r) s
  s2 ←
      expect d doc temp_dir (λ r. not r.good)
        (d.write_text (join_path nested (codes "child.zig")) (codes "pub fn child() void {}\n")
          (d.make_dirs nested s1))
  s3 ←
      expect d doc temp_dir (λ r. r.good && has_metric (λ m. m.present) 1 r)
        (d.write_text (join_path package_dir (codes "root.zig")) (codes "pub fn new() void {}\n")
          s2)
  expect d doc temp_dir (fails_with is_unexpected)
      (d.make_dirs (join_path temp_dir (codes "unexpected")) s3)

unfoldable pub self_test : {S : Type 0} → Disk S → Text → S → Tested Bool
unfolding test_tree expect load
self_test d temp_dir s = do
  doc ← loaded (
      load (
        codes
          "\npin: v5.19.2\npackages:\n  - go: plumbing/hash\n    zig: src/plumbing/hash\n    status: required\n  - go: ignored/test\n    status: test_only\n"))
  s1 ← test_tree d temp_dir doc s
  invalid ← loaded (load (codes "packages:\n  - go: broken\n    status: unknown\n"))
  s2 ← expect d invalid (codes "/nonexistent") (fails_with is_invalid_status) s1
  unsafe ←
      loaded (load (codes "packages:\n  - go: broken\n    zig: ../outside\n    status: required\n"))
  s3 ← expect d unsafe (codes "/tmp/src") (fails_with is_invalid_zig_path) s2
  ok true
