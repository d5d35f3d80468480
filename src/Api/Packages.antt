-- ===== src/Api/Packages.antt =====
-- `load_packages_index` of tools/inventory/check_api_inventory.py, with the exceptions of its file.
pub mod Lookup
use gitz.Common.{
  ◌≡◌, refl, Bool, true, false, List, [], ◌∷◌, Text, codes, same, Option, none, some, if◌then◌else◌,
  Result, ok, err, ◌>>=◌,
}
use gitz.Yaml.{Value, Fields, get, seq, nil}
use gitz.Yaml.Shape.{as_dict, as_str, iterate}
use gitz.Yaml.Truth.{or_value}

-- The exceptions that no handler catches.
pub data Crash : Type 0 where
  attribute_error type_error os_error : Crash

abbrev pub or_type_error {ℓ} : {A : Type ℓ} → Option A → Result Crash A
or_type_error none = err type_error
or_type_error (some a) = ok a

-- `v.get`, `v.values`: a mapping has them.
unfoldable pub as_mapping : Value → Result Crash Fields
unfolding as_dict
as_mapping v = elim (as_dict v) [ none ↦ err attribute_error | some fs ↦ ok fs ]

-- A dict from names to packages: an old name keeps its place.
unfoldable pub set_item : Text → Fields → List (Text × Fields) → List (Text × Fields)
set_item k v [] = (k, v) ∷ []
set_item k v ((j, w) ∷ d) = if same j k then (j, v) ∷ d else (j, w) ∷ set_item k v d

unfoldable pub lookup : Text → List (Text × Fields) → Option Fields
lookup k [] = none
lookup k ((j, v) ∷ d) = if same j k then some v else lookup k d

-- `package["go"]` of a mapping that has a text there.
abbrev pub go_of : Value → Option (Text × Fields)
go_of v = elim (as_dict v) [
  | none ↦ none
  | some pkg ↦ elim (get (codes "go") pkg) [
    | none ↦ none
    | some go ↦ elim (as_str go) [ none ↦ none | some name ↦ some (name, pkg) ]
  ]
]

-- The comprehension, over the dict so far.
unfoldable pub index_from : List (Text × Fields) → List Value → List (Text × Fields)
unfolding set_item as_dict as_str
index_from d [] = d
index_from d (v ∷ vs) = elim (go_of v) [
  | none ↦ index_from d vs
  | some item ↦ index_from (set_item item.0 item.1 d) vs
]

unfoldable pub load_packages_index : Fields → Result Crash (List (Text × Fields))
unfolding or_value iterate index_from
load_packages_index packages_doc = do
  packages ← or_type_error (iterate (or_value (get (codes "packages") packages_doc) (seq nil)))
  ok (index_from [] packages)
