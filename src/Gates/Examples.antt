-- ===== src/Gates/Examples.antt =====
-- A packages document with one package, its API document, and a tree with its source.
use gitz.Common.{
  length, ◌≤◌, ℕ, ◌≡◌, refl, ◌||◌, Bool, true, false, [], ◌∷◌, List, Text, Bytes, codes, same,
  Option, some, none, All, Result, ok, err, if◌then◌else◌,
}
use gitz.Api
use gitz.Api.Main as ApiMain
use gitz.Api.Counters.{Tally}
use gitz.Api.{list_api_files}
use gitz.Api.Packages.{load_packages_index}
use gitz.Api.Mapped.{IsMapped}
use gitz.Api.Verdict.{Covers, check-IsMapped}
use gitz.Common.Sort.{sorted}
use gitz.Cli.{finished, given, status}
use gitz.Files.{Files, load_path}
use gitz.Gates.Covered.{main-Covers, Held}
use gitz.Gates.Missing.{measure-check}
use gitz.MetricsGate.{Paths, measure}
use gitz.MetricsGate.Examples.{whole, is_lower}
use gitz.MetricsGate.Limits.{Measured}
use gitz.Inventory
use gitz.Inventory.Main as InventoryMain
use gitz.Yaml.{Fields, dict, end}
use gitz.Yaml.Block.Documents.{
  packages_text, load-packages_text, one_package, packages_fields, api_text, load-api_text,
  api_fields,
}

abbrev texts : Text → Option Text
texts p =
    if same p (codes "/p.yaml")
    then some packages_text
    else if same p (codes "/i/a.yaml")
    then some api_text
    else none

abbrev tree : Files
tree = record {
  is_dir = λ p. same p (codes "/s") || (same p (codes "/s/a") || same p (codes "/i"));
  is_file = λ p. same p (codes "/s/a/x.zig");
  exists = λ p. true;
  realpath = λ p. p;
  list_dir = λ p.
      if same p (codes "/s")
      then codes "a" ∷ []
      else if same p (codes "/s/a")
      then codes "x.zig" ∷ []
      else codes "a.yaml" ∷ [];
  walk = λ p. [];
  open_text = texts;
  open_binary = λ p. some (codes "fn b");
}

packages_loaded : load_path tree (codes "/p.yaml") ≡ ok (dict packages_fields)
unfolding load_path
packages_loaded = rw load-packages_text refl

api_loaded : load_path tree (codes "/i/a.yaml") ≡ ok (dict api_fields)
unfolding load_path
api_loaded = rw load-api_text refl

abbrev packages_arg : Option Text
packages_arg = some (codes "/p.yaml")

abbrev inventory_report : Inventory.Report
inventory_report = record {
  good = true;
  messages = Inventory.inventory_ok 1 ∷ [];
  metrics = some (record {
    total = 1;
    required_ = 1;
    present = 1;
    absent = 0;
    unexpected_top = 0;
    status_errors = 0;
  });
}

inventory_run :
    InventoryMain.main tree packages_arg (some (codes "/s")) ≡ ok (finished inventory_report)
unfolding InventoryMain.main Inventory.check sorted
inventory_run = rw (packages_loaded, InventoryMain.main) refl

abbrev api_tally : Tally
api_tally = record {
  messages = [];
  api_packages = codes "a" ∷ [];
  schema_errors = 0;
  mapped_ok = 1;
  mapped_fail = 0;
  required_ids = 1;
  mapped_ids = 0;
}

abbrev one_index : List (Text × Fields)
one_index = (codes "a", one_package) ∷ []

index_loaded : load_packages_index packages_fields ≡ ok one_index
unfolding load_packages_index gitz.Yaml.Truth.or_value gitz.Yaml.Truth.truthy
    gitz.Yaml.Shape.iterate gitz.Api.Packages.index_from gitz.Yaml.Shape.as_dict
    gitz.Yaml.Shape.as_str gitz.Api.Packages.set_item
index_loaded = refl

document_checked :
    Api.check_loaded tree (codes "/s") one_index (codes "/i/a.yaml") (ok (dict api_fields))
    ≡ ok api_tally
unfolding Api.check_loaded gitz.Api.Packages.as_mapping gitz.Common.Str.is_space
document_checked = refl

files_checked : Api.check_paths tree (codes "/s") one_index (codes "/i/a.yaml" ∷ []) ≡ ok api_tally
unfolding Api.check_paths
files_checked = rw (api_loaded, Api.check_paths, document_checked) refl

files_listed : list_api_files tree (codes "/i") ≡ codes "/i/a.yaml" ∷ []
unfolding list_api_files sorted
files_listed = refl

-- The steps of the check, one after the other.
check_steps :
    (doc : Fields) (dir root : Text) {index : List (Text × Fields)} {t : Tally}
    {missing : List Text}
    → load_packages_index doc ≡ ok index
    → Api.check_paths tree root index (list_api_files tree dir) ≡ ok t
    → Api.without_api index t.api_packages ≡ ok missing
    → Api.check tree doc dir root ≡ ok (Api.report (list_api_files tree dir) t missing)
unfolding Api.check
check_steps doc dir root i p m = rw (i, p, m) refl

none_missing : Api.without_api one_index (codes "a" ∷ []) ≡ ok []
unfolding Api.without_api
none_missing = refl

api_checked :
    Api.check tree packages_fields (codes "/i") (codes "/s")
    ≡ ok (Api.report (list_api_files tree (codes "/i")) api_tally [])
api_checked =
    check_steps packages_fields (codes "/i") (codes "/s") index_loaded
      (rw files_listed files_checked) none_missing

api_run :
    ApiMain.main tree packages_arg (some (codes "/i")) (some (codes "/s"))
    ≡ ok (finished (Api.report (list_api_files tree (codes "/i")) api_tally []))
unfolding ApiMain.main
api_run = rw (packages_loaded, ApiMain.main, api_checked) refl

api_good :
    status (λ r. r.good) (finished (Api.report (list_api_files tree (codes "/i")) api_tally [])) ≡ 0
unfolding Api.report
api_good = refl

main-Covers_example :
    (path : Text) × (dir : Text) × (root : Text) × (doc : Fields) × (index : List (Text × Fields))
    × (given packages_arg ≡ some path)
    × (given (some (codes "/i")) ≡ some dir)
    × (given (some (codes "/s")) ≡ some root)
    × (load_path tree path ≡ ok (dict doc))
    × (load_packages_index doc ≡ ok index)
    × All (Held tree root) index
    × All (Covers tree (list_api_files tree dir)) index
main-Covers_example =
    main-Covers tree packages_arg (some (codes "/i")) (some (codes "/s")) inventory_run refl api_run
      api_good

abbrev paths : Paths whole is_lower
paths = record {
  packages_path = codes "/p.yaml";
  metrics_path = codes "/m.yaml";
  api_dir = codes "/i";
  allowlists_dir = codes "/l";
  goldens_dir = codes "/g";
  pin_md_path = codes "/d.md";
  src_root = codes "/s";
}

abbrev measured : Measured
measured = record {
  pin = none;
  pin_md = none;
  total = 1;
  required = 1;
  missing = 0;
  api_files = 1;
  required_names = 0;
  mapped_names = 0;
  goldens = 0;
  active = 0;
}

inventory_checked : Inventory.check tree packages_fields (codes "/s") ≡ ok inventory_report
unfolding Inventory.check sorted
inventory_checked = refl

measure_run : measure whole is_lower tree paths packages_fields ≡ ok (measured, [])
unfolding measure
measure_run = rw load-api_text refl

measure-check_example : measured.missing ≡ 0
measure-check_example =
    measure-check whole is_lower tree paths packages_fields inventory_checked refl measure_run

accepted : (Api.report (list_api_files tree (codes "/i")) api_tally []).good ≡ true
unfolding Api.report
accepted = refl

check-IsMapped_example :
    (index : List (Text × Fields)) × (load_packages_index packages_fields ≡ ok index)
    × All
        (λ path. IsMapped tree (codes "/s") index (load_path tree path))
        (list_api_files tree (codes "/i"))
    × All (Covers tree (list_api_files tree (codes "/i"))) index
check-IsMapped_example =
    check-IsMapped tree packages_fields (codes "/i") (codes "/s") api_checked accepted
