-- ===== src/MetricsGate/Measures.antt =====
-- What tools/inventory/check_metrics.py counts: goldens, API names and packages.
pub mod Bounds
use gitz.Common.{
  ◌≡◌, ◌==◌, ◌+◌, ◌-◌, ℕ, zero, suc, Bool, true, false, not, ◌&&◌, ◌||◌, List, [], ◌∷◌, ◌++◌, Text,
  codes, one_of, Option, none, some, if◌then◌else◌, Result, ok, err, ◌>>=◌, length,
}
use gitz.Common.Sort.{sorted}
use gitz.Common.Str.{ends_with}
use gitz.Files.{Files, LoadError, load_path, join_path}
use gitz.Inventory.{status_of, enforced_statuses}
use gitz.Inventory.Tree.{package_has_zig}
use gitz.MetricsGate.Raised.{Crash, type_error, attribute_error}
use gitz.Yaml.{
  Value, Values, Fields, null, bool, int, float, str, seq, dict, nil, cons, end, get, to_list,
}
use gitz.Yaml.Shape.{as_dict, as_str, has_key, iterate}
use gitz.Yaml.Truth.{or_value}

abbrev pub is_golden : Text → Bool
is_golden name =
    one_of name (codes "meta.yaml" ∷ codes "meta.yml" ∷ []) || ends_with name (codes ".expected")

unfoldable pub goldens_in : List Text → ℕ
goldens_in [] = 0
goldens_in (name ∷ names) = (if is_golden name then 1 else 0) + goldens_in names

unfoldable pub goldens_under : List (Text × List Text) → ℕ
unfolding goldens_in
goldens_under [] = 0
goldens_under ((root, files) ∷ dirs) = goldens_in files + goldens_under dirs

unfoldable pub count_goldens : Files → Text → ℕ
unfolding goldens_under
count_goldens fs goldens_dir =
    if fs.is_dir goldens_dir then goldens_under (fs.walk goldens_dir) else 0

-- `api.files`, `api.required_names` and `api.mapped_names`.
pub record ApiCount : Type 0 where
  pub files : ℕ
  pub required_names : ℕ
  pub mapped_names : ℕ

abbrev pub no_api : ApiCount
no_api = record { files = 0; required_names = 0; mapped_names = 0 }

abbrev pub plus : ApiCount → ApiCount → ApiCount
plus a b = record {
  files = a.files + b.files;
  required_names = a.required_names + b.required_names;
  mapped_names = a.mapped_names + b.mapped_names;
}

-- The texts among the values.
unfoldable pub texts_of : List Value → List Text
unfolding as_str
texts_of [] = []
texts_of (v ∷ vs) = elim (as_str v) [ none ↦ texts_of vs | some s ↦ s ∷ texts_of vs ]

-- `values`, if it is a list.
unfoldable pub list_of : Value → List Value
list_of (seq vs) = to_list vs
list_of null = []
list_of (bool b) = []
list_of (int n) = []
list_of (float x) = []
list_of (str s) = []
list_of (dict fs) = []

-- The loop over the three keys.
unfoldable pub names_of : List Text → Fields → List Text
unfolding texts_of list_of or_value
names_of [] required = []
names_of (key ∷ keys) required =
    texts_of (list_of (or_value (get key required) (seq nil))) ++ names_of keys required

abbrev pub name_keys : List Text
name_keys = codes "types" ∷ codes "functions" ∷ codes "constants" ∷ []

-- `sum(item in zig_map for item in names)`
unfoldable pub count_in : Fields → List Text → ℕ
unfolding has_key
count_in zig_map [] = 0
count_in zig_map (name ∷ names) = (if has_key name zig_map then 1 else 0) + count_in zig_map names

abbrev pub counted : Option Fields → Option Fields → ApiCount
counted none zig_map = record { files = 1; required_names = 0; mapped_names = 0 }
counted (some required) none = record { files = 1; required_names = 0; mapped_names = 0 }
counted (some required) (some zig_map) = record {
  files = 1;
  required_names = length (names_of name_keys required);
  mapped_names = count_in zig_map (names_of name_keys required);
}

-- What one file adds: nothing if it does not load as a mapping.
unfoldable pub count_loaded : Result LoadError Value → ApiCount
unfolding names_of count_in as_dict or_value
count_loaded (err e) = no_api
count_loaded (ok v) = elim (as_dict v) [
  | none ↦ no_api
  | some doc ↦
      counted (as_dict (or_value (get (codes "require") doc) (dict end)))
        (as_dict (or_value (get (codes "zig_map") doc) (dict end)))
]

unfoldable pub count_names : Files → Text → List Text → ApiCount
unfolding count_loaded load_path join_path
count_names fs api_dir [] = no_api
count_names fs api_dir (name ∷ names) =
    let later = count_names fs api_dir names in
    if ends_with name (codes ".yaml") || ends_with name (codes ".yml")
    then plus (count_loaded (load_path fs (join_path api_dir name))) later
    else later

-- `compute_api_mapped_ratio` without its ratio.
unfoldable pub count_api : Files → Text → ApiCount
unfolding count_names sorted
count_api fs api_dir =
    if fs.is_dir api_dir then count_names fs api_dir (sorted (fs.list_dir api_dir)) else no_api

-- `status in ENFORCED_STATUSES`: a list or a mapping has no hash.
unfoldable pub enforced : Value → Result Crash Bool
enforced (str s) = ok (one_of s enforced_statuses)
enforced null = ok false
enforced (bool b) = ok false
enforced (int n) = ok false
enforced (float x) = ok false
enforced (seq vs) = err type_error
enforced (dict fs) = err type_error

-- The mappings with an enforced status.
unfoldable pub required_of : List Value → Result Crash (List Fields)
unfolding enforced as_dict
required_of [] = ok []
required_of (v ∷ vs) =
    let later = required_of vs in
    elim (as_dict v) [
      | none ↦ later
      | some pkg ↦ (do
        test ← enforced (status_of pkg)
        more ← later
        ok (if test then pkg ∷ more else more))
    ]

-- `zig_rel_to_full` calls a method of texts on the path.
unfoldable pub zig_text : Value → Result Crash Text
unfolding as_str
zig_text v = elim (as_str v) [ none ↦ err attribute_error | some s ↦ ok s ]

-- The required packages without a Zig file.
unfoldable pub missing_of : Files → Text → List Fields → Result Crash (List Fields)
unfolding zig_text or_value package_has_zig
missing_of fs src_root [] = ok []
missing_of fs src_root (pkg ∷ pkgs) = do
  zig ← zig_text (or_value (get (codes "zig") pkg) (str []))
  more ← missing_of fs src_root pkgs
  ok (if package_has_zig fs src_root zig then more else pkg ∷ more)
