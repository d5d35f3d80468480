-- ===== src/MetricsGate/Examples.antt =====
-- A tree without API files, and floats that are whole numbers.
use gitz.Common.{
  ℕ, ◌≡◌, ◌↔◌, ◌≤◌, ◌/◌, ◌==◌, ltb, leb, ◌&&◌, refl, Bool, true, false, [], ◌∷◌, ◌++◌, codes, same,
  length, some, none, All, ok,
}
use gitz.Common.Int.{pos, negsuc}
use gitz.Files.{Files, load_path}
use gitz.Goldens.{find_meta_files}
use gitz.Yaml.{Fields, str, seq, dict, nil, cons, end, field}
use gitz.Yaml.Block.Examples.{meta_text, load-meta_text}
use gitz.MetricsGate.{check, measure, Paths, Report, report}
use gitz.MetricsGate.Limits.{Measured, Thresholds, failures}
use gitz.MetricsGate.Limits.Within.{failures-nil, IsWithin}
use gitz.MetricsGate.Measures.{count_goldens}
use gitz.MetricsGate.Measures.Bounds.{find_meta_files-le}
use gitz.MetricsGate.Numbers.{Floats}
use gitz.MetricsGate.Pin.{pin_of}
use gitz.MetricsGate.Pin.Row.{pin_of-pin_row, pin_row}
use gitz.MetricsGate.Verdict.{check-Accepted, Accepted}

-- The floats of this example are the natural numbers.
abbrev pub whole : Floats
whole = record {
  F = ℕ;
  of_decimal = λ x. x.mantissa;
  of_int = λ z. elim z [ pos n ↦ some n | negsuc n ↦ some 0 ];
  of_text = λ t. none;
  truncate = λ n. some (pos n);
  divide = λ m n. m / n;
  one = 1;
  plus_epsilon = λ n. n;
  less = ltb;
  round4 = λ n. n;
  equal = λ m n. m == n;
  equal_int = λ z n. elim z [ pos m ↦ m == n | negsuc m ↦ false ];
}

abbrev pub is_lower : ℕ → Bool
is_lower c = leb 97 c && leb c 122

abbrev tree : Files
tree = record {
  is_dir = λ p. same p (codes "g");
  is_file = λ p. false;
  exists = λ p. true;
  realpath = λ p. p;
  list_dir = λ p. codes "a.yaml" ∷ [];
  walk = λ p. (codes "g", codes "meta.yaml" ∷ codes "a.expected" ∷ []) ∷ [];
  open_text = λ p. some meta_text;
  open_binary = λ p. none;
}

abbrev paths : Paths whole is_lower
paths = record {
  packages_path = codes "p";
  metrics_path = codes "m";
  api_dir = codes "g";
  allowlists_dir = codes "l";
  goldens_dir = codes "g";
  pin_md_path = codes "d";
  src_root = codes "s";
}

find_meta_files-le_example :
    length (find_meta_files tree (codes "g")) ≤ count_goldens tree (codes "g")
find_meta_files-le_example = find_meta_files-le tree (codes "g")

v_cells : All (λ c. gitz.MetricsGate.Pin.is_cell c ≡ true) (codes "v1")
unfolding gitz.MetricsGate.Pin.is_cell
v_cells = (refl, (refl, tt))

pin_of-pin_row_example :
    pin_of is_lower (codes "# \n" ++ pin_row (codes "v1") (codes "\n")) ≡ some (codes "v1")
pin_of-pin_row_example =
    pin_of-pin_row is_lower (codes "# \n") (codes "v1") (codes "\n")
      ((λ e. cc), ((λ e. cc), ((λ e. cc), tt))) (λ e. cc) v_cells

abbrev counts : Measured
counts = record {
  pin = some (str (codes "v1"));
  pin_md = some (codes "v1");
  total = 2;
  required = 1;
  missing = 0;
  api_files = 1;
  required_names = 4;
  mapped_names = 3;
  goldens = 5;
  active = 0;
}

abbrev thresholds : Thresholds whole
thresholds = record {
  expected = some (str (codes "v1"));
  min_total = pos 2;
  min_required = pos 1;
  max_missing = pos 0;
  min_files = negsuc 0;
  min_ratio = 0;
  min_goldens = pos 3;
  max_active = pos 0;
}

failures-nil_example : (failures whole counts thresholds ≡ []) ↔ IsWithin whole counts thresholds
failures-nil_example = failures-nil whole counts thresholds

abbrev packages_doc : Fields
packages_doc =
    field (codes "packages")
      (seq (cons (dict (field (codes "status") (str (codes "excluded")) end)) (cons (str []) nil)))
      end

abbrev measured : Measured
measured = record {
  pin = none;
  pin_md = none;
  total = 2;
  required = 0;
  missing = 0;
  api_files = 1;
  required_names = 0;
  mapped_names = 0;
  goldens = 2;
  active = 0;
}

measure_run : measure whole is_lower tree paths packages_doc ≡ ok (measured, [])
unfolding measure
measure_run = rw load-meta_text refl

abbrev no_thresholds : Thresholds whole
no_thresholds = record {
  expected = none;
  min_total = pos 0;
  min_required = pos 0;
  max_missing = pos 0;
  min_files = pos 0;
  min_ratio = 0;
  min_goldens = pos 0;
  max_active = pos 0;
}

abbrev no_packages : Measured
no_packages = record measured { total = 0 }

check_run :
    check whole is_lower tree paths ≡ ok (report whole is_lower no_packages [] no_thresholds)
unfolding check measure load_path
check_run = rw load-meta_text (rw load-meta_text refl)

check-Accepted_example :
    ((report whole is_lower no_packages [] no_thresholds).good ≡ true)
    ↔ Accepted whole is_lower tree paths (load_path tree (codes "p")) (load_path tree (codes "m"))
check-Accepted_example = check-Accepted whole is_lower tree paths check_run
