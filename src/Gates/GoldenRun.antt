-- ===== src/Gates/GoldenRun.antt =====
-- The golden runner and the metrics on a tree with one golden case.
use gitz.Common.{length, ◌≤◌, ◌≡◌, refl, false, [], codes, some, none, All, ok}
use gitz.Cli.{finished}
use gitz.Gates.Cases.{main-measure}
use gitz.Goldens.{find_meta_files}
use gitz.Goldens.Examples as GoldensExamples
use gitz.Goldens.Main as GoldensMain
use gitz.Goldens.Verdict.{Passes}
use gitz.MetricsGate.{Paths, measure}
use gitz.MetricsGate.Examples.{whole, is_lower}
use gitz.MetricsGate.Limits.{Measured}
use gitz.Yaml.{end}

abbrev golden_paths : Paths whole is_lower
golden_paths = record {
  packages_path = codes "p";
  metrics_path = codes "m";
  api_dir = codes "i";
  allowlists_dir = codes "l";
  goldens_dir = codes "g";
  pin_md_path = codes "d";
  src_root = codes "s";
}

abbrev golden_counts : Measured
golden_counts = record {
  pin = none;
  pin_md = none;
  total = 0;
  required = 0;
  missing = 0;
  api_files = 0;
  required_names = 0;
  mapped_names = 0;
  goldens = 1;
  active = 0;
}

golden_measure :
    measure whole is_lower GoldensExamples.tree golden_paths end ≡ ok (golden_counts, [])
unfolding measure
golden_measure = refl

golden_run :
    GoldensMain.main GoldensExamples.tree (some (codes "g")) false
    ≡ ok (finished GoldensExamples.one_report)
unfolding GoldensMain.main
golden_run = rw (GoldensExamples.one_run, GoldensMain.main) refl

main-measure_example :
    All (Passes GoldensExamples.tree) (find_meta_files GoldensExamples.tree (codes "g"))
    × (length (find_meta_files GoldensExamples.tree (codes "g")) ≤ golden_counts.goldens)
    × (1 ≤ golden_counts.goldens)
main-measure_example =
    main-measure whole is_lower GoldensExamples.tree golden_paths end (some (codes "g")) refl
      golden_run refl golden_measure
