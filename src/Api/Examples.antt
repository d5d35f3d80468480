-- ===== src/Api/Examples.antt =====
-- A packages document, an API document and a tree with one Zig file.
use gitz.Common.{◌≡◌, ◌↔◌, refl, false, [], ◌∷◌, List, Text, codes, same, some, none, ok, err}
use gitz.Files.{Files, load_path}
use gitz.Yaml.{Value, Fields, str, seq, dict, nil, cons, end, field, get}
use gitz.Yaml.Shape.{iterate}
use gitz.Yaml.Truth.{or_value}
use gitz.Api.{check, check_package, list_api_files, Report, report}
use gitz.Api.Counters.{nothing}
use gitz.Api.Packages.{Crash, os_error, lookup, load_packages_index}
use gitz.Api.Packages.Lookup.{lookup-load_packages_index, last_named}
use gitz.Api.Raises.{check_package-err}
use gitz.Api.Schema.{validate_schema}
use gitz.Api.Schema.Valid.{validate_schema-nil, IsSchema, AllStr}
use gitz.Api.Symbols.{semantic_ids}
use gitz.Api.Symbols.Found.{semantic_ids-IsSchema}

abbrev one_package : Fields
one_package = field (codes "go") (str (codes "p")) (
    field (codes "zig") (str (codes "src/p.zig"))
      (field (codes "status") (str (codes "excluded")) end))

abbrev packages_doc : Fields
packages_doc = field (codes "packages") (seq (cons (dict one_package) nil)) end

abbrev one_index : List (Text × Fields)
one_index = (codes "p", one_package) ∷ []

index_loaded : load_packages_index packages_doc ≡ ok one_index
unfolding load_packages_index or_value gitz.Yaml.Truth.truthy iterate gitz.Api.Packages.index_from
    gitz.Yaml.Shape.as_dict gitz.Yaml.Shape.as_str gitz.Api.Packages.set_item
index_loaded = refl

lookup-load_packages_index_example :
    (vs : List Value) × (iterate (or_value (get (codes "packages") packages_doc) (seq nil))
      ≡ some vs)
    × (lookup (codes "p") one_index ≡ last_named (codes "p") vs)
lookup-load_packages_index_example =
    lookup-load_packages_index packages_doc (codes "p") index_loaded

-- A tree whose Zig file cannot be read.
abbrev tree : Files
tree = record {
  is_dir = λ p. false;
  is_file = λ p. same p (codes "/s/p.zig");
  exists = λ p. same p (codes "/s/p.zig");
  realpath = λ p. p;
  list_dir = λ p. [];
  walk = λ p. [];
  open_text = λ p. none;
  open_binary = λ p. none;
}

abbrev required : Fields
required = field (codes "semantic") (seq (cons (str (codes "p.open")) nil)) end

abbrev document : Fields
document = field (codes "package") (str (codes "p")) (
    field (codes "require") (dict required)
      (field (codes "zig_map") (dict (field (codes "Open") (str (codes "p.Open")) end)) end))

document-IsSchema : IsSchema document
unfolding gitz.Yaml.Shape.values_of
document-IsSchema = record {
  named = refl;
  requires = (tt, (tt, (tt, (((codes "p.open", refl), tt), tt))));
  maps = ((codes "p.Open", refl), tt);
}

validate_schema-nil_example : (validate_schema document ≡ []) ↔ IsSchema document
validate_schema-nil_example = validate_schema-nil document

semantic_ids-IsSchema_example : (ids : List Value) × (semantic_ids document ≡ ok ids) × AllStr ids
semantic_ids-IsSchema_example = semantic_ids-IsSchema document document-IsSchema

unreadable : check_package tree (codes "/s") one_index (codes "p") document ≡ err os_error
unfolding check_package gitz.Api.Symbols.semantic_ids or_value gitz.Yaml.Truth.truthy iterate
    gitz.Yaml.Shape.as_dict gitz.Yaml.Shape.as_str gitz.Api.Packages.as_mapping
    gitz.Yaml.Shape.values_of gitz.Api.Symbols.add_values gitz.Api.Symbols.has_text
    gitz.Api.Counters.count_mapped gitz.Api.Counters.sum_mapped lookup gitz.Api.zig_path
    gitz.Inventory.zig_of gitz.Api.check_symbols gitz.Api.Symbols.read_zig_blob
    gitz.Api.Symbols.read_full gitz.Files.read_replace
unreadable = refl

check_package-err_example : os_error ≡ os_error
check_package-err_example =
    check_package-err tree (codes "/s") one_index (codes "p") document document-IsSchema unreadable
