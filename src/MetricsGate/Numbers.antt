-- ===== src/MetricsGate/Numbers.antt =====
-- Python's numbers as tools/inventory/check_metrics.py uses them: `==`, `int(v)` and `float(v)`. The
-- arithmetic of `float` is a parameter.
use gitz.Common.{
  ◌==◌, ltb, ℕ, suc, Bool, true, false, ◌&&◌, Text, same, Option, none, some, Result, ok, err,
}
use gitz.Common.Int.{ℤ, pos, negsuc}
use gitz.MetricsGate.Raised.{Crash, type_error, value_error, overflow_error}
use gitz.Yaml.{
  Value, Values, Fields, Decimal, null, bool, int, float, str, seq, dict, nil, cons, end, field,
  get,
}
use gitz.Yaml.Number.{parse_int}

-- The machine's floats, with the operations that the code calls. `none` is an `OverflowError`, or the
-- `ValueError` of a text.
pub record Floats : Type 1 where
  pub F : Type 0
  pub of_decimal : Decimal → F
  pub of_int : ℤ → Option F
  pub of_text : Text → Option F
  pub truncate : F → Option ℤ
  pub divide : ℕ → ℕ → F
  pub one : F
  pub plus_epsilon : F → F
  pub less : F → F → Bool
  pub round4 : F → F
  pub equal : F → F → Bool
  pub equal_int : ℤ → F → Bool

-- `a == b` on whole numbers.
abbrev pub same_int : ℤ → ℤ → Bool
same_int (pos m) (pos n) = m == n
same_int (pos m) (negsuc n) = false
same_int (negsuc m) (pos n) = false
same_int (negsuc m) (negsuc n) = m == n

abbrev bit : Bool → ℤ
bit true = pos 1
bit false = pos 0

-- `m < n` of a count and a whole number.
abbrev pub below : ℕ → ℤ → Bool
below m (pos n) = ltb m n
below m (negsuc n) = false

abbrev pub above : ℕ → ℤ → Bool
above m (pos n) = ltb n m
above m (negsuc n) = true

abbrev pub size : Fields → ℕ
size end = 0
size (field k v fs) = suc (size fs)

module _ (fl : Floats) where
  abbrev whole_equal : ℤ → Value → Bool
  whole_equal m (int n) = same_int m n
  whole_equal m (bool b) = same_int m (bit b)
  whole_equal m (float x) = fl.equal_int m (fl.of_decimal x)
  whole_equal m null = false
  whole_equal m (str s) = false
  whole_equal m (seq vs) = false
  whole_equal m (dict fs) = false

  abbrev float_equal : fl.F → Value → Bool
  float_equal x (float y) = fl.equal x (fl.of_decimal y)
  float_equal x (int n) = fl.equal_int n x
  float_equal x (bool b) = fl.equal_int (bit b) x
  float_equal x null = false
  float_equal x (str s) = false
  float_equal x (seq vs) = false
  float_equal x (dict fs) = false

  unfoldable mutual
    -- `a == b`
    pub equal : Value → Value → Bool
    equal null w = elim w [ null ↦ true | _ ↦ false ]
    equal (bool b) w = whole_equal (bit b) w
    equal (int n) w = whole_equal n w
    equal (float x) w = float_equal (fl.of_decimal x) w
    equal (str s) w = elim w [ str t ↦ same s t | _ ↦ false ]
    equal (seq vs) w = elim w [ seq ws ↦ equal_all vs ws | _ ↦ false ]
    equal (dict fs) w = elim w [ dict gs ↦ size fs == size gs && equal_in fs gs | _ ↦ false ]

    pub equal_all : Values → Values → Bool
    equal_all nil nil = true
    equal_all nil (cons w ws) = false
    equal_all (cons v vs) nil = false
    equal_all (cons v vs) (cons w ws) = equal v w && equal_all vs ws

    -- Every item of the first mapping stands in the second.
    pub equal_in : Fields → Fields → Bool
    equal_in end gs = true
    equal_in (field k v fs) gs =
        (elim (get k gs) [ none ↦ false | some w ↦ equal v w ]) && equal_in fs gs

  abbrev or_value_error {ℓ} : {A : Type ℓ} → Option A → Result Crash A
  or_value_error none = err value_error
  or_value_error (some a) = ok a

  abbrev or_overflow {ℓ} : {A : Type ℓ} → Option A → Result Crash A
  or_overflow none = err overflow_error
  or_overflow (some a) = ok a

  -- `int(v)`
  unfoldable pub int_of : Value → Result Crash ℤ
  unfolding parse_int
  int_of (int n) = ok n
  int_of (bool b) = ok (bit b)
  int_of (float x) = or_overflow (fl.truncate (fl.of_decimal x))
  int_of (str s) = or_value_error (parse_int s)
  int_of null = err type_error
  int_of (seq vs) = err type_error
  int_of (dict fs) = err type_error

  -- `float(v)`
  unfoldable pub float_of : Value → Result Crash fl.F
  float_of (float x) = ok (fl.of_decimal x)
  float_of (int n) = or_overflow (fl.of_int n)
  float_of (bool b) = or_overflow (fl.of_int (bit b))
  float_of (str s) = or_value_error (fl.of_text s)
  float_of null = err type_error
  float_of (seq vs) = err type_error
  float_of (dict fs) = err type_error
