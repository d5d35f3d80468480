-- ===== src/Allowlists/Main.antt =====
-- `main` of tools/inventory/check_allowlists.py behind its argument parser, without `--self-test`.
use gitz.Common.{Text, Option, none, some}
use gitz.Cli.{Output, usage, finished, given}
use gitz.Files.{Files}
use gitz.Allowlists.{Report, check}

unfoldable pub main : Files → Option Text → Output Report
unfolding check
main fs allowlists_dir = elim (given allowlists_dir) [
  | none ↦ usage
  | some dir ↦ finished (check fs dir)
]
