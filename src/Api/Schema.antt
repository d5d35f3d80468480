-- ===== src/Api/Schema.antt =====
-- `validate_schema` of tools/inventory/check_api_inventory.py.
pub mod Valid
use gitz.Common.{
  ◌≡◌, Bool, true, false, List, [], ◌∷◌, ◌++◌, Text, codes, Option, none, some, if◌then◌else◌,
}
use gitz.Common.Str.{is_empty}
use gitz.Yaml.{Value, Fields, null, bool, int, float, str, seq, dict, get, to_list}
use gitz.Yaml.Shape.{all_str, values_of}

-- The errors, without the path that the messages name.
pub data SchemaError : Type 0 where
  missing_package : SchemaError
  require_no_mapping : SchemaError
  no_list : Text → SchemaError
  entries_no_strings : Text → SchemaError
  zig_map_no_mapping : SchemaError
  zig_map_no_strings : SchemaError

unfoldable pub package_errors : Option Value → List SchemaError
package_errors (some (str s)) = if is_empty s then missing_package ∷ [] else []
package_errors (some null) = missing_package ∷ []
package_errors (some (bool b)) = missing_package ∷ []
package_errors (some (int n)) = missing_package ∷ []
package_errors (some (float x)) = missing_package ∷ []
package_errors (some (seq vs)) = missing_package ∷ []
package_errors (some (dict fs)) = missing_package ∷ []
package_errors none = missing_package ∷ []

-- One key of `require`: a list of texts, or null.
unfoldable pub key_errors : Text → Option Value → List SchemaError
unfolding all_str
key_errors key none = []
key_errors key (some null) = []
key_errors key (some (seq vs)) = if all_str (to_list vs) then [] else entries_no_strings key ∷ []
key_errors key (some (bool b)) = no_list key ∷ []
key_errors key (some (int n)) = no_list key ∷ []
key_errors key (some (float x)) = no_list key ∷ []
key_errors key (some (str s)) = no_list key ∷ []
key_errors key (some (dict fs)) = no_list key ∷ []

abbrev pub require_keys : List Text
require_keys = codes "types" ∷ codes "functions" ∷ codes "constants" ∷ codes "semantic" ∷ []

unfoldable pub keys_errors : List Text → Fields → List SchemaError
unfolding key_errors
keys_errors [] required = []
keys_errors (key ∷ keys) required = key_errors key (get key required) ++ keys_errors keys required

unfoldable pub require_errors : Option Value → List SchemaError
unfolding keys_errors
require_errors (some (dict fs)) = keys_errors require_keys fs
require_errors (some null) = require_no_mapping ∷ []
require_errors (some (bool b)) = require_no_mapping ∷ []
require_errors (some (int n)) = require_no_mapping ∷ []
require_errors (some (float x)) = require_no_mapping ∷ []
require_errors (some (str s)) = require_no_mapping ∷ []
require_errors (some (seq vs)) = require_no_mapping ∷ []
require_errors none = require_no_mapping ∷ []

-- The keys of a loaded mapping are texts.
unfoldable pub zig_map_errors : Option Value → List SchemaError
unfolding all_str values_of
zig_map_errors none = []
zig_map_errors (some null) = []
zig_map_errors (some (dict fs)) = if all_str (values_of fs) then [] else zig_map_no_strings ∷ []
zig_map_errors (some (bool b)) = zig_map_no_mapping ∷ []
zig_map_errors (some (int n)) = zig_map_no_mapping ∷ []
zig_map_errors (some (float x)) = zig_map_no_mapping ∷ []
zig_map_errors (some (str s)) = zig_map_no_mapping ∷ []
zig_map_errors (some (seq vs)) = zig_map_no_mapping ∷ []

unfoldable pub validate_schema : Fields → List SchemaError
unfolding package_errors require_errors zig_map_errors
validate_schema doc =
    package_errors (get (codes "package") doc)
    ++ (require_errors (get (codes "require") doc) ++ zig_map_errors (get (codes "zig_map") doc))
