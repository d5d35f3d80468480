-- ===== src/Inventory/Examples.antt =====
-- A source tree with one package.
use gitz.Common.{
  ◌≡◌, refl, ◌||◌, if◌then◌else◌, true, [], ◌∷◌, List, codes, same, All, some, none, ok, err,
}
use gitz.Common.Sort.{sorted}
use gitz.Files.{Files}
use gitz.Yaml.{Value, Fields, str, dict, field, end}
use gitz.Inventory.{check_packages, Report, inventory_ok, attribute_error}
use gitz.Inventory.Verdict.{check_packages-dicts}

abbrev tree : Files
tree = record {
  is_dir = λ p. same p (codes "/s") || same p (codes "/s/a");
  is_file = λ p. same p (codes "/s/a/x.zig");
  exists = λ p. true;
  realpath = λ p. p;
  list_dir = λ p. if same p (codes "/s") then codes "a" ∷ [] else codes "x.zig" ∷ [];
  walk = λ p. [];
  open_text = λ p. none;
  open_binary = λ p. none;
}

abbrev packages : List Value
packages = dict (field (codes "zig") (str (codes "src/a")) end) ∷ []

abbrev one_report : Report
one_report = record {
  good = true;
  messages = inventory_ok 1 ∷ [];
  metrics = some (record {
    total = 1;
    required_ = 1;
    present = 1;
    absent = 0;
    unexpected_top = 0;
    status_errors = 0;
  });
}

one_run : check_packages tree packages (codes "/s") ≡ ok one_report
unfolding check_packages sorted
one_run = refl

-- A package that is no mapping ends the run.
test_stray : check_packages tree (str (codes "a") ∷ []) (codes "/s") ≡ err attribute_error
unfolding check_packages sorted
test_stray = refl

check_packages-dicts_example : All (λ v. (pkg : Fields) × (v ≡ dict pkg)) packages
check_packages-dicts_example = check_packages-dicts tree packages (codes "/s") one_run
