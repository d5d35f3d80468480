-- ===== src/Api/Schema/Valid.antt =====
-- The documents that `validate_schema` has no error for, described without it.
use gitz.Common.{
  ◌≡◌, ◌↔◌, inl, inr, refl, true, false, List, [], ◌∷◌, ◌++◌, Text, codes, Option, none, some, All,
  append-nil_parts, Bool-cases, if◌then◌else◌,
}
use gitz.Common.Str.{is_empty}
use gitz.Yaml.{Value, Fields, null, bool, int, float, str, seq, dict, get, to_list}
use gitz.Yaml.Shape.{all_str, as_str, values_of}
use gitz.Api.Schema.{
  validate_schema, package_errors, key_errors, keys_errors, require_errors, zig_map_errors,
  require_keys, SchemaError, zig_map_no_strings, entries_no_strings,
}

abbrev pub AllStr : List Value → Type 0
AllStr vs = All (λ v. (s : Text) × (v ≡ str s)) vs

-- A text that is not empty.
abbrev pub IsNamed : Option Value → Type 0
IsNamed none = ⊥
IsNamed (some null) = ⊥
IsNamed (some (bool b)) = ⊥
IsNamed (some (int n)) = ⊥
IsNamed (some (float x)) = ⊥
IsNamed (some (str s)) = is_empty s ≡ false
IsNamed (some (seq vs)) = ⊥
IsNamed (some (dict fs)) = ⊥

-- A list of texts, or nothing.
abbrev pub IsNames : Option Value → Type 0
IsNames none = Unit
IsNames (some null) = Unit
IsNames (some (bool b)) = ⊥
IsNames (some (int n)) = ⊥
IsNames (some (float x)) = ⊥
IsNames (some (str s)) = ⊥
IsNames (some (seq vs)) = AllStr (to_list vs)
IsNames (some (dict fs)) = ⊥

-- A mapping to texts, or nothing.
abbrev pub IsTexts : Option Value → Type 0
IsTexts none = Unit
IsTexts (some null) = Unit
IsTexts (some (bool b)) = ⊥
IsTexts (some (int n)) = ⊥
IsTexts (some (float x)) = ⊥
IsTexts (some (str s)) = ⊥
IsTexts (some (seq vs)) = ⊥
IsTexts (some (dict fs)) = AllStr (values_of fs)

-- A mapping whose four keys hold lists of texts, or nothing.
abbrev pub IsRequire : Option Value → Type 0
IsRequire none = ⊥
IsRequire (some null) = ⊥
IsRequire (some (bool b)) = ⊥
IsRequire (some (int n)) = ⊥
IsRequire (some (float x)) = ⊥
IsRequire (some (str s)) = ⊥
IsRequire (some (seq vs)) = ⊥
IsRequire (some (dict fs)) = All (λ key. IsNames (get key fs)) require_keys

pub record IsSchema (doc : Fields) : Type 0 where
  pub named : IsNamed (get (codes "package") doc)
  pub requires : IsRequire (get (codes "require") doc)
  pub maps : IsTexts (get (codes "zig_map") doc)

pub all_str-AllStr : (vs : List Value) → (all_str vs ≡ true) ↔ AllStr vs
unfolding all_str as_str
all_str-AllStr [] = (λ _. tt, λ _. refl)
all_str-AllStr (str s ∷ vs) = let (f, g) = all_str-AllStr vs in (λ h. ((s, refl), f h), λ h. g h.1)
all_str-AllStr (null ∷ vs) = (λ h. cc, λ h. let e = h.0.1 in cc)
all_str-AllStr (bool b ∷ vs) = (λ h. cc, λ h. let e = h.0.1 in cc)
all_str-AllStr (int n ∷ vs) = (λ h. cc, λ h. let e = h.0.1 in cc)
all_str-AllStr (float x ∷ vs) = (λ h. cc, λ h. let e = h.0.1 in cc)
all_str-AllStr (seq ws ∷ vs) = (λ h. cc, λ h. let e = h.0.1 in cc)
all_str-AllStr (dict fs ∷ vs) = (λ h. cc, λ h. let e = h.0.1 in cc)

-- An error if a list is not made of texts.
unless_str :
    (vs : List Value) (e : SchemaError) → ((if all_str vs then [] else e ∷ []) ≡ []) ↔ AllStr vs
unless_str vs e =
    let (f, g) = all_str-AllStr vs in
    elim (Bool-cases (all_str vs)) [
      | inl t ↦ rw t (λ _. f t, λ _. refl)
      | inr t ↦ rw t (λ h. cc, λ h. let u = g h in cc)
    ]

package_errors-nil : (o : Option Value) → (package_errors o ≡ []) ↔ IsNamed o
unfolding package_errors
package_errors-nil none = (λ h. cc, λ h. absurd h)
package_errors-nil (some null) = (λ h. cc, λ h. absurd h)
package_errors-nil (some (bool b)) = (λ h. cc, λ h. absurd h)
package_errors-nil (some (int n)) = (λ h. cc, λ h. absurd h)
package_errors-nil (some (float x)) = (λ h. cc, λ h. absurd h)
package_errors-nil (some (str s)) = elim (Bool-cases (is_empty s)) [
  | inl t ↦ rw t (λ h. cc, λ h. cc)
  | inr t ↦ rw t (λ _. refl, λ _. refl)
]
package_errors-nil (some (seq vs)) = (λ h. cc, λ h. absurd h)
package_errors-nil (some (dict fs)) = (λ h. cc, λ h. absurd h)

key_errors-nil : (key : Text) (o : Option Value) → (key_errors key o ≡ []) ↔ IsNames o
unfolding key_errors
key_errors-nil key none = (λ _. tt, λ _. refl)
key_errors-nil key (some null) = (λ _. tt, λ _. refl)
key_errors-nil key (some (bool b)) = (λ h. cc, λ h. absurd h)
key_errors-nil key (some (int n)) = (λ h. cc, λ h. absurd h)
key_errors-nil key (some (float x)) = (λ h. cc, λ h. absurd h)
key_errors-nil key (some (str s)) = (λ h. cc, λ h. absurd h)
key_errors-nil key (some (seq vs)) = unless_str (to_list vs) (entries_no_strings key)
key_errors-nil key (some (dict fs)) = (λ h. cc, λ h. absurd h)

keys_errors-nil :
    (keys : List Text) (fs : Fields)
    → (keys_errors keys fs ≡ []) ↔ All (λ key. IsNames (get key fs)) keys
unfolding keys_errors
keys_errors-nil [] fs = (λ _. tt, λ _. refl)
keys_errors-nil (key ∷ keys) fs =
    let (p, p') = append-nil_parts (key_errors key (get key fs)) (keys_errors keys fs) in
    let (f, f') = key_errors-nil key (get key fs) in
    let (g, g') = keys_errors-nil keys fs in
    (λ h. let (a, b) = p h in (f a, g b), λ h. p' (f' h.0, g' h.1))

require_errors-nil : (o : Option Value) → (require_errors o ≡ []) ↔ IsRequire o
unfolding require_errors
require_errors-nil none = (λ h. cc, λ h. absurd h)
require_errors-nil (some null) = (λ h. cc, λ h. absurd h)
require_errors-nil (some (bool b)) = (λ h. cc, λ h. absurd h)
require_errors-nil (some (int n)) = (λ h. cc, λ h. absurd h)
require_errors-nil (some (float x)) = (λ h. cc, λ h. absurd h)
require_errors-nil (some (str s)) = (λ h. cc, λ h. absurd h)
require_errors-nil (some (seq vs)) = (λ h. cc, λ h. absurd h)
require_errors-nil (some (dict fs)) = keys_errors-nil require_keys fs

zig_map_errors-nil : (o : Option Value) → (zig_map_errors o ≡ []) ↔ IsTexts o
unfolding zig_map_errors
zig_map_errors-nil none = (λ _. tt, λ _. refl)
zig_map_errors-nil (some null) = (λ _. tt, λ _. refl)
zig_map_errors-nil (some (bool b)) = (λ h. cc, λ h. absurd h)
zig_map_errors-nil (some (int n)) = (λ h. cc, λ h. absurd h)
zig_map_errors-nil (some (float x)) = (λ h. cc, λ h. absurd h)
zig_map_errors-nil (some (str s)) = (λ h. cc, λ h. absurd h)
zig_map_errors-nil (some (seq vs)) = (λ h. cc, λ h. absurd h)
zig_map_errors-nil (some (dict fs)) = unless_str (values_of fs) zig_map_no_strings

-- `validate_schema` has no error for a document if and only if its package is a text that is not
-- empty, its `require` is a mapping whose four keys hold lists of texts or nothing, and its `zig_map` is
-- a mapping to texts or nothing.
pub validate_schema-nil : (doc : Fields) → (validate_schema doc ≡ []) ↔ IsSchema doc
unfolding validate_schema
validate_schema-nil doc =
    let required = require_errors (get (codes "require") doc) in
    let mapped = zig_map_errors (get (codes "zig_map") doc) in
    let (p, p') =
      append-nil_parts (package_errors (get (codes "package") doc)) (required ++ mapped) in
    let (q, q') = append-nil_parts required mapped in
    let (a, a') = package_errors-nil (get (codes "package") doc) in
    let (b, b') = require_errors-nil (get (codes "require") doc) in
    let (c, c') = zig_map_errors-nil (get (codes "zig_map") doc) in
    (
      λ h.
          let (x, yz) = p h in
          let (y, z) = q yz in record { named = a x; requires = b y; maps = c z },
      λ h. p' (a' h.named, q' (b' h.requires, c' h.maps)),
    )
