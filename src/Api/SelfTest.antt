-- ===== src/Api/SelfTest.antt =====
-- `_self_test` of tools/inventory/check_api_inventory.py, on a disk.
use gitz.Common.{◌==◌, Bool, true, not, ◌&&◌, Text, codes, Result, ok, ◌>>=◌}
use gitz.Cli.{Failure, asserted, loaded}
use gitz.Files.{join_path}
use gitz.Files.Disk.{Disk}
use gitz.Yaml.{Fields}
use gitz.Yaml.Block.{load}
use gitz.Api.{Report, check}
use gitz.Api.Packages.{Crash}

abbrev pub Tested : Type 0 → Type 0
Tested A = Result (Failure Crash Report) A

-- `check` on the two directories of the self test, and the assertions on what it returns.
unfoldable pub expect : {S : Type 0} → Disk S → Text → Fields → (Report → Bool) → S → Tested S
unfolding check join_path
expect d temp_dir packages test s = do
  r ← asserted test (
      check (d.view s) packages (join_path temp_dir (codes "api"))
        (join_path temp_dir (codes "src")))
  ok s

unfoldable pub self_test : {S : Type 0} → Disk S → Text → S → Tested Bool
unfolding expect load
self_test d temp_dir s = do
  packages ← loaded (
      load (
        codes
          "\npackages:\n  - go: plumbing/hash\n    zig: src/plumbing/hash\n    status: required\n"))
  let api_dir = join_path temp_dir (codes "api")
  let src_dir = join_path temp_dir (codes "src")
  let package_dir = join_path (join_path src_dir (codes "plumbing")) (codes "hash")
  let api_path = join_path api_dir (codes "hash.yaml")
  s1 ←
      expect d temp_dir packages (λ r. not r.good && r.tally.mapped_fail == 1)
        (d.write_text api_path
          (codes
            "package: plumbing/hash\nrequire:\n  functions: [New]\n  semantic: [hash.new]\nzig_map:\n  New: hash.new\n")
          (d.make_dirs package_dir (d.make_dirs api_dir s)))
  s2 ←
      expect d temp_dir packages (λ r. r.good && r.tally.mapped_ok == 1)
        (d.write_text (join_path package_dir (codes "root.zig")) (codes "pub fn new() void {}\n")
          s1)
  s3 ←
      expect d temp_dir packages (λ r. not r.good && r.tally.schema_errors == 1)
        (d.write_text api_path (codes "package: plumbing/hash\nrequire:\n  functions: bad\n") s2)
  s4 ←
      expect d temp_dir packages (λ r. not r.good && r.missing_for_required == 1)
        (d.remove api_path s3)
  ok true
