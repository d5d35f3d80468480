-- ===== src/Yaml.antt =====
-- tools/inventory/simple_yaml.py: the values that the loader returns, and its errors.
pub mod Number
pub mod Scalar
pub mod Clean
pub mod Block
pub mod Truth
pub mod Shape
pub mod SelfTest
use gitz.Common.{ℕ, Bool, Text, List, [], ◌∷◌, Option, none, some, same, if◌then◌else◌}
use gitz.Common.Int.{ℤ}

-- A Python `float` as the decimal that its literal means, (-1)^negative * mantissa * 10^(exponent -
-- scale). The rounding to binary is not modelled.
pub record Decimal : Type 0 where
  pub negative : Bool
  pub mantissa : ℕ
  pub scale : ℕ
  pub exponent : ℤ

mutual
  pub data Value : Type 0 where
    null : Value
    bool : Bool → Value
    int : ℤ → Value
    float : Decimal → Value
    str : Text → Value
    seq : Values → Value
    dict : Fields → Value

  pub data Values : Type 0 where
    nil : Values
    cons : Value → Values → Values

  -- The items of a dict in their order of insertion.
  pub data Fields : Type 0 where
    end : Fields
    field : Text → Value → Fields → Fields

-- `YamlError`, with what its message names. `out_of_fuel` is no Python value.
pub data YamlError : Type 0 where
  tabs_not_allowed : ℕ → YamlError
  trailing_content : ℕ → YamlError
  unexpected_indent : Text → YamlError
  expected_key_value : Text → YamlError
  unexpected_indent_in_list : Text → YamlError
  out_of_fuel : YamlError

-- `d.get(k)`
abbrev pub get : Text → Fields → Option Value
get k end = none
get k (field j v fs) = if same j k then some v else get k fs

-- `d[k] = v`: an old key keeps its place.
unfoldable pub put : Text → Value → Fields → Fields
put k v end = field k v end
put k v (field j w fs) = if same j k then field j v fs else field j w (put k v fs)

-- `m.update(extra)`
unfoldable pub update : Fields → Fields → Fields
unfolding put
update m end = m
update m (field k v fs) = update (put k v m) fs

-- `xs.append(x)`
unfoldable pub append : Values → Value → Values
append nil x = cons x nil
append (cons y ys) x = cons y (append ys x)

abbrev pub to_list : Values → List Value
to_list nil = []
to_list (cons v vs) = v ∷ to_list vs
