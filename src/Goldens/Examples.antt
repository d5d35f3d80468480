-- ===== src/Goldens/Examples.antt =====
-- A directory with one golden case.
use gitz.Common.{
  ◌⊎◌, ◌≡◌, ◌≢◌, ◌↔◌, ◌+◌, refl, Bool, true, false, [], ◌∷◌, Text, codes, same, ◌||◌, ok, length,
  All, Option, some, none, if◌then◌else◌,
}
use gitz.Files.{Files, load_path}
use gitz.Common.Sort.{sorted}
use gitz.Yaml.{Fields, dict, str}
use gitz.Yaml.Block.Examples.{meta_text, load-meta_text}
use gitz.Goldens.{
  run_case, run_cases, run_all, run_metas, find_meta_files, Report, Message, passed, all_passed,
}
use gitz.Goldens.Verdict.{run_cases-Counts, run_all-good, Counts, Passes}
use gitz.Goldens.Passing.{run_case-Agreed, Agreed}

abbrev pub one_file : Text → Option Text
one_file p =
    if same p (codes "g/meta.yaml")
    then some meta_text
    else if same p (codes "g/actual.txt") || same p (codes "g/expected.txt")
    then some (codes "text\n")
    else none

abbrev pub is_some : Option Text → Bool
is_some none = false
is_some (some t) = true

abbrev pub tree : Files
tree = record {
  is_dir = λ p. same p (codes "g");
  is_file = λ p. is_some (one_file p);
  exists = λ p. true;
  realpath = λ p. p;
  list_dir = λ p. [];
  walk = λ p. (codes "g", codes "meta.yaml" ∷ codes "actual.txt" ∷ []) ∷ [];
  open_text = one_file;
  open_binary = one_file;
}

abbrev pub one_pass : Message
one_pass = passed (str (codes "g")) (codes "file_equals")

one_case : run_case tree (codes "g/meta.yaml") ≡ ok (true, one_pass)
unfolding run_case load_path gitz.Yaml.Truth.or_value gitz.Goldens.compare_paths
    gitz.Goldens.file_equals
one_case = rw load-meta_text refl

cases_run : run_cases tree (codes "g/meta.yaml" ∷ []) ≡ ok (one_pass ∷ [], 1, 0)
unfolding run_cases
cases_run = rw one_case refl

abbrev pub one_report : Report
one_report = record {
  good = true;
  messages = one_pass ∷ all_passed 1 ∷ [];
  metrics = record { count = 1; passes = 1; failures = 0 };
}

pub one_run : run_all tree (codes "g") false ≡ ok one_report
unfolding run_all find_meta_files sorted run_metas
one_run = rw cases_run refl

run_case-Agreed_example :
    (doc : Fields) × (load_path tree (codes "g/meta.yaml") ≡ ok (dict doc))
    × Agreed tree (codes "g/meta.yaml") doc
run_case-Agreed_example = run_case-Agreed tree (codes "g/meta.yaml") one_case

run_cases-Counts_example : Counts tree (codes "g/meta.yaml" ∷ []) (one_pass ∷ [], 1, 0)
run_cases-Counts_example = run_cases-Counts tree (codes "g/meta.yaml" ∷ []) cases_run

run_all-good_example :
    (1 + 0 ≡ length (find_meta_files tree (codes "g")))
    × ((true ≡ true) ↔ (
        ((find_meta_files tree (codes "g") ≢ []) ⊎ (false ≡ true))
        × All (Passes tree) (find_meta_files tree (codes "g"))))
run_all-good_example = run_all-good tree (codes "g") false one_run
