-- ===== src/Api.antt =====
-- tools/inventory/check_api_inventory.py: the API inventories and their mapped Zig symbols.
pub mod Schema
pub mod Packages
pub mod Counters
pub mod Symbols
pub mod Mapped
pub mod Named
pub mod Verdict
pub mod Raises
pub mod Main
pub mod SelfTest
mod Examples
use gitz.Common.{
  ℕ, zero, suc, ◌+◌, ◌==◌, Bool, true, false, not, ◌&&◌, ◌||◌, List, [], ◌∷◌, ◌++◌, map, Text,
  codes, one_of, Option, none, some, length, if◌then◌else◌, Result, ok, err, ◌>>=◌,
}
use gitz.Common.Sort.{sorted}
use gitz.Common.Str.{strip, is_empty, ends_with}
use gitz.Files.{Files, LoadError, load_path, join_path}
use gitz.Inventory.{zig_of, status_of, enforced_statuses}
use gitz.Yaml.{Value, Fields, null, bool, int, float, str, seq, dict, end, nil, get}
use gitz.Yaml.Shape.{as_dict, as_str, has_key, iterate}
use gitz.Yaml.Truth.{or_value}
use gitz.Api.Schema.{SchemaError, validate_schema}
use gitz.Api.Packages.{
  Crash, type_error, attribute_error, or_type_error, as_mapping, lookup, load_packages_index,
}
use gitz.Api.Counters.{
  Message, cannot_load, no_mapping, schema_error, no_zig_mapping, hollow_package, no_inventory,
  api_ok, Tally, nothing, union, add, rejected, failed, count_mapped, name_keys, presence,
}
use gitz.Api.Symbols.{read_zig_blob, semantic_ids, check_mapped_presence}

unfoldable pub yaml_names : List Text → List Text
yaml_names [] = []
yaml_names (name ∷ names) =
    if ends_with name (codes ".yaml") || ends_with name (codes ".yml")
    then name ∷ yaml_names names
    else yaml_names names

unfoldable pub join_all : Text → List Text → List Text
unfolding join_path
join_all api_dir [] = []
join_all api_dir (name ∷ names) = join_path api_dir name ∷ join_all api_dir names

unfoldable pub list_api_files : Files → Text → List Text
unfolding yaml_names join_all sorted
list_api_files fs api_dir =
    if fs.is_dir api_dir then join_all api_dir (yaml_names (sorted (fs.list_dir api_dir))) else []

-- The mapped path of the package in the index.
unfoldable pub zig_path : Option Fields → Option Text
unfolding zig_of
zig_path none = none
zig_path (some pkg) = zig_of pkg

unfoldable pub check_symbols : Files → Text → Text → Fields → Option Text → Result Crash Tally
unfolding read_zig_blob check_mapped_presence strip
check_symbols fs src_root name doc none = ok (failed (no_zig_mapping name ∷ []))
check_symbols fs src_root name doc (some zig) = do
  zig_text ← read_zig_blob fs src_root zig
  let missing = check_mapped_presence doc zig_text
  if is_empty (strip zig_text)
      then ok (failed (hollow_package name zig ∷ []))
      else missing >>= λ ids. ok (presence name ids)

-- A document of a package without schema errors.
unfoldable pub check_package :
    Files → Text → List (Text × Fields) → Text → Fields → Result Crash Tally
unfolding semantic_ids or_value count_mapped lookup zig_path check_symbols
check_package fs src_root index name doc = do
  ids ← semantic_ids doc
  required ← as_mapping (or_value (get (codes "require") doc) (dict end))
  zig_map ← as_mapping (or_value (get (codes "zig_map") doc) (dict end))
  mapped ← count_mapped name_keys required zig_map
  verdict ← check_symbols fs src_root name doc (zig_path (lookup name index))
  ok (
      add
        (record nothing {
          api_packages = name ∷ [];
          required_ids = length ids;
          mapped_ids = mapped;
        })
        verdict)

abbrev pub schema_messages : Text → List SchemaError → List Message
schema_messages path [] = []
schema_messages path (e ∷ es) = schema_error path e ∷ schema_messages path es

abbrev pub with_schema_errors : Text → List SchemaError → Option Text → Tally
with_schema_errors path errors name = record nothing {
  messages = schema_messages path errors;
  api_packages = elim name [ none ↦ [] | some s ↦ s ∷ [] ];
  schema_errors = length errors;
}

-- The part of the loop behind `validate_schema`.
unfoldable pub check_valid :
    Files
    → Text
    → List (Text × Fields)
    → Text
    → Fields
    → List SchemaError
    → Option Text
    → Result Crash Tally
unfolding check_package
check_valid fs src_root index path doc errors none = ok (with_schema_errors path errors none)
check_valid fs src_root index path doc [] (some name) = check_package fs src_root index name doc
check_valid fs src_root index path doc (e ∷ es) (some name) =
    ok (with_schema_errors path (e ∷ es) (some name))

abbrev pub name_of : Fields → Option Text
name_of doc = elim (get (codes "package") doc) [ none ↦ none | some v ↦ as_str v ]

-- The body of the loop over the files.
unfoldable pub check_loaded :
    Files → Text → List (Text × Fields) → Text → Result LoadError Value → Result Crash Tally
unfolding validate_schema as_str as_dict check_valid
check_loaded fs src_root index path (err e) = ok (rejected (cannot_load path e))
check_loaded fs src_root index path (ok v) = elim (as_dict v) [
  | none ↦ ok (rejected (no_mapping path))
  | some doc ↦ check_valid fs src_root index path doc (validate_schema doc) (name_of doc)
]

unfoldable pub check_paths : Files → Text → List (Text × Fields) → List Text → Result Crash Tally
unfolding check_loaded load_path
check_paths fs src_root index [] = ok nothing
check_paths fs src_root index (path ∷ paths) = do
  here ← check_loaded fs src_root index path (load_path fs path)
  more ← check_paths fs src_root index paths
  ok (add here more)

-- `status in ENFORCED_STATUSES`: a list or a mapping has no hash.
unfoldable pub is_enforced : Value → Result Crash Bool
is_enforced (str s) = ok (one_of s enforced_statuses)
is_enforced null = ok false
is_enforced (bool b) = ok false
is_enforced (int n) = ok false
is_enforced (float x) = ok false
is_enforced (seq vs) = err type_error
is_enforced (dict fs) = err type_error

-- The enforced packages of the index that have no inventory.
unfoldable pub without_api : List (Text × Fields) → List Text → Result Crash (List Text)
unfolding is_enforced
without_api [] api_packages = ok []
without_api ((name, pkg) ∷ index) api_packages = do
  enforced ← is_enforced (status_of pkg)
  more ← without_api index api_packages
  ok (if enforced && not (one_of name api_packages) then name ∷ more else more)

abbrev pub missing_messages : List Text → List Message
missing_messages [] = []
missing_messages (name ∷ names) = no_inventory name ∷ missing_messages names

pub record Report : Type 0 where
  pub good : Bool
  pub messages : List Message
  pub files : ℕ
  pub packages : ℕ
  pub tally : Tally
  pub missing_for_required : ℕ

unfoldable pub report : List Text → Tally → List Text → Report
report paths t missing =
    let messages = t.messages ++ missing_messages missing in
    let good = t.schema_errors == 0 && t.mapped_fail == 0 && length missing == 0 in
    record {
      good = good;
      messages = if good then messages ++ (api_ok (length paths) t.mapped_ok ∷ []) else messages;
      files = length paths;
      packages = length t.api_packages;
      tally = t;
      missing_for_required = length missing;
    }

unfoldable pub check : Files → Fields → Text → Text → Result Crash Report
unfolding load_packages_index list_api_files check_paths without_api report
check fs packages_doc api_dir src_root = do
  index ← load_packages_index packages_doc
  t ← check_paths fs src_root index (list_api_files fs api_dir)
  missing ← without_api index t.api_packages
  ok (report (list_api_files fs api_dir) t missing)
