-- ===== src/Inventory/Main.antt =====
-- `main` of tools/inventory/check_file_inventory.py behind its argument parser, without `--self-test`.
use gitz.Common.{Text, Option, none, some, Result, ok}
use gitz.Cli.{Output, usage, given, with_value}
use gitz.Files.{Files, load_path}
use gitz.Inventory.{Crash, Report, check}

unfoldable pub main : Files → Option Text → Option Text → Result Crash (Output Report)
unfolding load_path check
main fs packages src_root = elim (given packages) [
  | none ↦ ok usage
  | some path ↦ elim (given src_root) [
    | none ↦ ok usage
    | some root ↦ with_value (λ doc. check fs doc root) (load_path fs path)
  ]
]
