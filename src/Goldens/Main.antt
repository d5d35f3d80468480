-- ===== src/Goldens/Main.antt =====
-- `main` of tools/golden/run_goldens.py behind its argument parser, without `--self-test`.
use gitz.Common.{Bool, Text, Option, none, some, Result, ok, ◌>>=◌}
use gitz.Cli.{Output, usage, finished, given}
use gitz.Files.{Files}
use gitz.Goldens.{Crash, Report, run_all}

unfoldable pub main : Files → Option Text → Bool → Result Crash (Output Report)
unfolding run_all
main fs goldens_dir allow_empty = elim (given goldens_dir) [
  | none ↦ ok usage
  | some dir ↦ (do r ← run_all fs dir allow_empty; ok (finished r))
]
