-- ===== src/Api/Counters.antt =====
-- The messages and counters of `check` of tools/inventory/check_api_inventory.py.
use gitz.Common.{
  ℕ, ◌+◌, List, [], ◌∷◌, ◌++◌, Text, codes, one_of, if◌then◌else◌, Result, ok, err, ◌>>=◌,
}
use gitz.Files.{LoadError}
use gitz.Yaml.{Value, Fields, null, bool, int, float, str, seq, dict, nil, get}
use gitz.Yaml.Shape.{has_key, iterate}
use gitz.Yaml.Truth.{or_value}
use gitz.Api.Schema.{SchemaError}
use gitz.Api.Packages.{Crash, type_error, or_type_error}

-- The messages, with what they name.
pub data Message : Type 0 where
  cannot_load : Text → LoadError → Message
  no_mapping : Text → Message
  schema_error : Text → SchemaError → Message
  no_zig_mapping : Text → Message
  hollow_package : Text → Text → Message
  symbol_not_found : Text → Value → Message
  no_inventory : Text → Message
  api_ok : ℕ → ℕ → Message

-- The counters of `check` with its messages, and the names of the packages that have an inventory.
pub record Tally : Type 0 where
  pub messages : List Message
  pub api_packages : List Text
  pub schema_errors : ℕ
  pub mapped_ok : ℕ
  pub mapped_fail : ℕ
  pub required_ids : ℕ
  pub mapped_ids : ℕ

abbrev pub nothing : Tally
nothing = record {
  messages = [];
  api_packages = [];
  schema_errors = 0;
  mapped_ok = 0;
  mapped_fail = 0;
  required_ids = 0;
  mapped_ids = 0;
}

-- The union of two sets of names.
abbrev pub union : List Text → List Text → List Text
union [] bs = bs
union (a ∷ as_) bs = let rest = union as_ bs in if one_of a rest then rest else a ∷ rest

abbrev pub add : Tally → Tally → Tally
add s t = record {
  messages = s.messages ++ t.messages;
  api_packages = union s.api_packages t.api_packages;
  schema_errors = s.schema_errors + t.schema_errors;
  mapped_ok = s.mapped_ok + t.mapped_ok;
  mapped_fail = s.mapped_fail + t.mapped_fail;
  required_ids = s.required_ids + t.required_ids;
  mapped_ids = s.mapped_ids + t.mapped_ids;
}

abbrev pub rejected : Message → Tally
rejected m = record nothing { messages = m ∷ []; schema_errors = 1 }

abbrev pub failed : List Message → Tally
failed ms = record nothing { messages = ms; mapped_fail = 1 }

-- `name in zig_map`: a list or a mapping has no hash.
unfoldable pub in_map : Value → Fields → Result Crash ℕ
unfolding has_key
in_map (str s) zig_map = ok (if has_key s zig_map then 1 else 0)
in_map null zig_map = ok 0
in_map (bool b) zig_map = ok 0
in_map (int n) zig_map = ok 0
in_map (float x) zig_map = ok 0
in_map (seq vs) zig_map = err type_error
in_map (dict fs) zig_map = err type_error

unfoldable pub sum_mapped : List Value → Fields → Result Crash ℕ
unfolding in_map
sum_mapped [] zig_map = ok 0
sum_mapped (v ∷ vs) zig_map = do
  one ← in_map v zig_map
  more ← sum_mapped vs zig_map
  ok (one + more)

-- The loop over `("types", "functions", "constants")`.
unfoldable pub count_mapped : List Text → Fields → Fields → Result Crash ℕ
unfolding sum_mapped or_value iterate
count_mapped [] required zig_map = ok 0
count_mapped (key ∷ keys) required zig_map = do
  names ← or_type_error (iterate (or_value (get key required) (seq nil)))
  here ← sum_mapped names zig_map
  more ← count_mapped keys required zig_map
  ok (here + more)

abbrev pub name_keys : List Text
name_keys = codes "types" ∷ codes "functions" ∷ codes "constants" ∷ []

abbrev pub not_found : Text → List Value → List Message
not_found name [] = []
not_found name (v ∷ vs) = symbol_not_found name v ∷ not_found name vs

-- The identifiers that were not found, of a package with a Zig text.
abbrev pub presence : Text → List Value → Tally
presence name [] = record nothing { mapped_ok = 1 }
presence name (v ∷ vs) = failed (not_found name (v ∷ vs))
