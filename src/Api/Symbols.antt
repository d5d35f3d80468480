-- ===== src/Api/Symbols.antt =====
-- The Zig text of a package and the symbols that an inventory maps into it.
pub mod Found
use gitz.Common.{
  ◌≡◌, Bool, true, false, not, ◌&&◌, ◌||◌, List, [], ◌∷◌, ◌++◌, Text, codes, same, Option, none,
  some, if◌then◌else◌, Result, ok, err, ◌>>=◌,
}
use gitz.Common.Sort.{sorted}
use gitz.Common.Str.{contains, ends_with, join}
use gitz.Files.{Files, join_path, read_replace, split_char}
use gitz.Inventory.Tree.{zig_rel_to_full}
use gitz.Yaml.{Value, Fields, get, seq, nil, dict, end, null, bool, int, float, str}
use gitz.Yaml.Shape.{as_str, iterate, values_of}
use gitz.Yaml.Truth.{or_value}
use gitz.Api.Packages.{Crash, attribute_error, type_error, os_error, or_type_error, as_mapping}

abbrev pub or_os_error : Option Text → Result Crash Text
or_os_error none = err os_error
or_os_error (some text) = ok text

-- The chunks of the Zig files among the names.
unfoldable pub read_chunks : Files → Text → List Text → Result Crash (List Text)
unfolding join_path read_replace
read_chunks fs full [] = ok []
read_chunks fs full (name ∷ names) =
    let path = join_path full name in
    let later = read_chunks fs full names in
    let chunk = do text ← or_os_error (read_replace fs path); more ← later; ok (text ∷ more)
    in if ends_with name (codes ".zig") && fs.is_file path then chunk else later

unfoldable pub read_full : Files → Text → Result Crash Text
unfolding read_chunks sorted join
read_full fs full =
    let chunks = read_chunks fs full (sorted (fs.list_dir full)) in
    if fs.is_file full && ends_with full (codes ".zig")
    then or_os_error (read_replace fs full)
    else if not (fs.is_dir full)
    then ok []
    else (chunks >>= λ texts. ok (join (codes "\n") texts))

unfoldable pub read_zig_blob : Files → Text → Text → Result Crash Text
unfolding zig_rel_to_full read_full
read_zig_blob fs src_root zig_rel = elim (zig_rel_to_full fs src_root zig_rel) [
  | err e ↦ ok []
  | ok full ↦ read_full fs full
]

-- `value in identifiers`, of a text.
unfoldable pub has_text : Text → List Value → Bool
unfolding as_str
has_text s [] = false
has_text s (v ∷ vs) = elim (as_str v) [ none ↦ has_text s vs | some t ↦ same t s || has_text s vs ]

-- The loop over `zig_map.values()`.
unfoldable pub add_values : List Value → List Value → List Value
unfolding has_text as_str
add_values identifiers [] = identifiers
add_values identifiers (v ∷ vs) = elim (as_str v) [
  | none ↦ add_values identifiers vs
  | some s ↦
      add_values (if has_text s identifiers then identifiers else identifiers ++ (str s ∷ [])) vs
]

unfoldable pub semantic_ids : Fields → Result Crash (List Value)
unfolding or_value iterate values_of add_values
semantic_ids doc = do
  required ← as_mapping (or_value (get (codes "require") doc) (dict end))
  identifiers ← or_type_error (iterate (or_value (get (codes "semantic") required) (seq nil)))
  zig_map ← as_mapping (or_value (get (codes "zig_map") doc) (dict end))
  ok (add_values identifiers (values_of zig_map))

abbrev pub last_of : Text → List Text → Text
last_of part [] = part
last_of part (p ∷ ps) = last_of p ps

-- `identifier.split(".")[-1]`
unfoldable pub last_part : Text → Text
unfolding split_char
last_part s = let (part, parts) = split_char b'.' s in last_of part parts

unfoldable pub absent_ids : List Value → Text → Result Crash (List Value)
unfolding as_str last_part
absent_ids [] zig_text = ok []
absent_ids (v ∷ vs) zig_text =
    let later = absent_ids vs zig_text in
    elim (as_str v) [
      | none ↦ err attribute_error
      | some s ↦
          if contains zig_text (last_part s) then later else (later >>= λ more. ok (v ∷ more))
    ]

unfoldable pub check_mapped_presence : Fields → Text → Result Crash (List Value)
unfolding semantic_ids absent_ids
check_mapped_presence doc zig_text = do ids ← semantic_ids doc; absent_ids ids zig_text
