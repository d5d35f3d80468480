-- ===== src/Allowlists/SelfTest.antt =====
-- `_self_test` of tools/inventory/check_allowlists.py, on a disk.
use gitz.Common.{
  ◌==◌, Bool, true, false, not, ◌&&◌, Text, codes, same, any, if◌then◌else◌, Result, ok, err, ◌>>=◌,
}
use gitz.Files.{join_path}
use gitz.Files.Disk.{Disk}
use gitz.Allowlists.{Message, Report, missing, check}

-- `check` and the assertions on what it returns, which the failure holds.
unfoldable pub expect : {S : Type 0} → Disk S → Text → (Report → Bool) → S → Result Report S
unfolding check
expect d temp_dir test s = let r = check (d.view s) temp_dir in if test r then ok s else err r

-- `"missing reason" in message`
abbrev pub is_missing_reason : Message → Bool
is_missing_reason (missing key entry) = same key (codes "reason")
is_missing_reason m = false

unfoldable pub self_test : {S : Type 0} → Disk S → Text → S → Result Report Bool
unfolding expect join_path
self_test d temp_dir s = do
  let seed = join_path temp_dir (codes "seed.yaml")
  s1 ←
      expect d temp_dir (λ r. r.good && r.active == 0) (d.write_text seed (codes "entries: []\n") s)
  s2 ←
      expect d temp_dir (λ r. r.good && r.active == 1)
        (d.write_text seed (codes "entries:\n  - id: gap\n    reason: temporary\n") s1)
  s3 ←
      expect d temp_dir (λ r. not r.good && any is_missing_reason r.messages)
        (d.write_text seed (codes "entries:\n  - id: gap\n") s2)
  ok true
