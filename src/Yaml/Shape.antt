-- ===== src/Yaml/Shape.antt =====
-- What a loaded value is: the tests by `isinstance`, iteration, and what the values of one kind hold.
use gitz.Common.{◌≡◌, Bool, true, false, List, [], ◌∷◌, Text, same, Option, none, some, ◌||◌}
use gitz.Yaml.{Value, Fields, null, bool, int, float, str, seq, dict, end, field, to_list}

-- The value that is a mapping.
unfoldable pub as_dict : Value → Option Fields
as_dict (dict fs) = some fs
as_dict null = none
as_dict (bool b) = none
as_dict (int n) = none
as_dict (float x) = none
as_dict (str s) = none
as_dict (seq vs) = none

-- The value that is a text.
unfoldable pub as_str : Value → Option Text
as_str (str s) = some s
as_str null = none
as_str (bool b) = none
as_str (int n) = none
as_str (float x) = none
as_str (seq vs) = none
as_str (dict fs) = none

-- `all(isinstance(item, str) for item in value)`
unfoldable pub all_str : List Value → Bool
unfolding as_str
all_str [] = true
all_str (v ∷ vs) = elim (as_str v) [ some s ↦ all_str vs | none ↦ false ]

-- `list(d)` and `list(d.values())`
unfoldable pub keys_of : Fields → List Value
keys_of end = []
keys_of (field k v fs) = str k ∷ keys_of fs

unfoldable pub values_of : Fields → List Value
values_of end = []
values_of (field k v fs) = v ∷ values_of fs

-- `list(s)`: its characters.
unfoldable pub characters : Text → List Value
characters [] = []
characters (c ∷ s) = str (c ∷ []) ∷ characters s

-- `list(v)`; `none` is the `TypeError`.
unfoldable pub iterate : Value → Option (List Value)
unfolding keys_of characters
iterate (seq vs) = some (to_list vs)
iterate (dict fs) = some (keys_of fs)
iterate (str s) = some (characters s)
iterate null = none
iterate (bool b) = none
iterate (int n) = none
iterate (float x) = none

-- `key in d`
unfoldable pub has_key : Text → Fields → Bool
has_key k end = false
has_key k (field j v fs) = same j k || has_key k fs

pub as_dict-some : (v : Value) {fs : Fields} → as_dict v ≡ some fs → v ≡ dict fs
unfolding as_dict
as_dict-some (dict fs) h = cc
as_dict-some null h = cc
as_dict-some (bool b) h = cc
as_dict-some (int n) h = cc
as_dict-some (float x) h = cc
as_dict-some (str s) h = cc
as_dict-some (seq vs) h = cc

pub as_str-some : (v : Value) {s : Text} → as_str v ≡ some s → v ≡ str s
unfolding as_str
as_str-some (str s) h = cc
as_str-some null h = cc
as_str-some (bool b) h = cc
as_str-some (int n) h = cc
as_str-some (float x) h = cc
as_str-some (seq vs) h = cc
as_str-some (dict fs) h = cc
