-- ===== src/MetricsGate/SelfTest.antt =====
-- `_self_test` of tools/inventory/check_metrics.py, on a disk.
use gitz.Common.{
  ℕ, ◌==◌, Bool, true, false, not, ◌&&◌, Text, codes, any, some, none, Result, ok, ◌>>=◌,
}
use gitz.Cli.{Failure, asserted}
use gitz.Files.{join_path, dirname}
use gitz.Files.Disk.{Disk}
use gitz.MetricsGate.{Message, fail, Paths, Report, check}
use gitz.MetricsGate.Limits.{many_active}
use gitz.MetricsGate.Numbers.{Floats}
use gitz.MetricsGate.Raised.{Crash}

-- `write` of the self test.
unfoldable pub write : {S : Type 0} → Disk S → Text → Text → S → S
unfolding dirname
write d path text s = d.write_text path text (d.make_dirs (dirname path) s)

-- `"allowlist.active" in message`
abbrev pub is_active_limit : Message → Bool
is_active_limit (fail (many_active m n)) = true
is_active_limit m = false

module _ (fl : Floats) (is_alnum : ℕ → Bool) where
  abbrev pub Tested : Type 0 → Type 0
  Tested A = Result (Failure Crash (Report fl is_alnum)) A

  -- The seven paths in the temporary directory.
  unfoldable pub paths_in : Text → Paths fl is_alnum
  unfolding join_path
  paths_in temp_dir = record {
    packages_path = join_path temp_dir (codes "packages.yaml");
    metrics_path = join_path temp_dir (codes "metrics.yaml");
    api_dir = join_path temp_dir (codes "api");
    allowlists_dir = join_path temp_dir (codes "allowlists");
    goldens_dir = join_path temp_dir (codes "goldens");
    pin_md_path = join_path temp_dir (codes "PIN.md");
    src_root = join_path temp_dir (codes "src");
  }

  -- `check` and the assertions on what it returns.
  unfoldable pub expect :
      {S : Type 0} → Disk S → Paths fl is_alnum → (Report fl is_alnum → Bool) → S → Tested S
  unfolding check
  expect d p test s = do r ← asserted test (check fl is_alnum (d.view s) p); ok s

  -- The files that the self test begins with.
  unfoldable pub write_inputs : {S : Type 0} → Disk S → Paths fl is_alnum → S → S
  unfolding write join_path
  write_inputs d p s =
      let s1 =
        write d p.packages_path
          (codes "pin: v5.19.2\npackages:\n  - go: demo\n    zig: src/demo\n    status: required\n")
          s in
      let s2 =
        write d p.metrics_path
          (codes
            "pin:\n  expected: v5.19.2\npackages:\n  min_total: 1\n  min_required: 1\n  max_missing: 0\napi:\n  min_files: 1\n  min_mapped_ratio: 1.0\ngoldens:\n  min_count: 1\nallowlists:\n  max_active: 0\n")
          s1 in
      let s3 =
        write d (join_path p.api_dir (codes "demo.yaml"))
          (codes "package: demo\nrequire:\n  functions:\n    - New\nzig_map:\n  New: demo.new\n")
          s2 in
      let s4 =
        write d (join_path p.allowlists_dir (codes "seed.yaml")) (codes "entries: []\n") s3 in
      let s5 =
        write d (join_path (join_path p.goldens_dir (codes "smoke")) (codes "meta.yaml"))
          (codes "name: smoke\n") s4 in
      write d p.pin_md_path (codes "| Pin | `v5.19.2` |\n") s5

  -- `metrics["packages.missing"] == n`; without metrics the assertion counts as failed.
  abbrev pub has_missing : ℕ → Report fl is_alnum → Bool
  has_missing n r = elim r.metrics [ some m ↦ m.missing == n | none ↦ false ]

  -- `metrics["api.mapped_ratio"] == 1.0`
  abbrev pub has_full_ratio : Report fl is_alnum → Bool
  has_full_ratio r = elim r.rounded_ratio [ some x ↦ fl.equal x fl.one | none ↦ false ]

  unfoldable pub self_test : {S : Type 0} → Disk S → Text → S → Tested Bool
  unfolding expect write write_inputs paths_in
  self_test d temp_dir s = do
    let p = paths_in temp_dir
    s1 ← expect d p (λ r. not r.good && has_missing 1 r) (write_inputs d p s)
    s2 ←
        expect d p (λ r. r.good && has_full_ratio r)
          (write d (join_path (join_path p.src_root (codes "demo")) (codes "root.zig"))
            (codes "pub fn new() void {}\n") s1)
    s3 ←
        expect d p (λ r. not r.good && any is_active_limit r.messages)
          (write d (join_path p.allowlists_dir (codes "seed.yaml"))
            (codes "entries:\n  - id: gap\n    reason: temporary\n") s2)
    ok true
