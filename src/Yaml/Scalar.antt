-- ===== src/Yaml/Scalar.antt =====
-- `_parse_scalar` and `_split_flow` of simple_yaml.py.
pub mod Total
use gitz.Common.{
  ℕ, zero, suc, ◌==◌, ltb, ◌&&◌, ◌||◌, not, Bool, true, false, List, [], ◌∷◌, ◌++◌, Text, codes,
  same, one_of, if◌then◌else◌, Option, none, some, length, Result, ok, err, ◌>>=◌,
}
use mathlib.Core.Option
use gitz.Common.Str.{strip, is_empty, starts_with, ends_with, has_char}
use gitz.Yaml.{Value, Values, YamlError, null, bool, int, float, str, seq, nil, cons, out_of_fuel}
use gitz.Yaml.Number.{parse_int, parse_float}

-- `s[:-1]`
unfoldable pub init : Text → Text
init [] = []
init (c ∷ []) = []
init (c ∷ d ∷ s) = c ∷ init (d ∷ s)

-- `s[1:-1]`
unfoldable pub middle : Text → Text
unfolding init
middle [] = []
middle (c ∷ s) = init s

abbrev pub nulls : List Text
nulls = [] ∷ codes "~" ∷ codes "null" ∷ codes "Null" ∷ codes "NULL" ∷ []

abbrev pub truths : List Text
truths = codes "true" ∷ codes "True" ∷ codes "TRUE" ∷ codes "yes" ∷ codes "Yes" ∷ []

abbrev pub falsehoods : List Text
falsehoods = codes "false" ∷ codes "False" ∷ codes "FALSE" ∷ codes "no" ∷ codes "No" ∷ []

unfoldable pub is_quoted : Text → Bool
is_quoted s =
    starts_with s (codes "\"") && ends_with s (codes "\"")
    || starts_with s (codes "'") && ends_with s (codes "'")

-- The `int` attempt, which is passed over for a leading zero.
unfoldable pub try_int : Text → Option Value
unfolding parse_int
try_int s =
    if starts_with s (codes "0") && ltb 1 (length s) && not (starts_with s (codes "0."))
    then none
    else Option.map int (parse_int s)

-- The `float` attempt.
unfoldable pub try_float : Text → Option Value
unfolding parse_float has_char
try_float s = if has_char b'.' s then Option.map float (parse_float s) else none

or_else : Option Value → Option Value → Option Value
or_else none b = b
or_else (some v) b = some v

-- The scalars that are neither a flow list nor a bare text.
unfoldable pub plain : Text → Option Value
unfolding is_quoted middle try_int try_float or_else
plain s =
    if one_of s nulls
    then some null
    else if one_of s truths
    then some (bool true)
    else if one_of s falsehoods
    then some (bool false)
    else if is_quoted s
    then some (str (middle s))
    else or_else (try_int s) (try_float s)

-- The loop of `_split_flow` with its `buf` and `in_q`: the parts from here on.
unfoldable pub split_loop : Text → Option ℕ → Text → List Text
unfolding strip
split_loop buf in_q [] = if is_empty buf then [] else strip buf ∷ []
split_loop buf (some q) (ch ∷ s) =
    split_loop (buf ++ (ch ∷ [])) (if ch == q then none else some q) s
split_loop buf none (ch ∷ s) =
    let cut = strip buf ∷ split_loop [] none s in
    let more =
      split_loop (buf ++ (ch ∷ [])) (if ch == b'\'' || ch == b'"' then some ch else none) s in
    if not (ch == b'\'' || ch == b'"') && ch == b',' then cut else more

unfoldable pub split_flow : Text → List Text
unfolding split_loop
split_flow inner = split_loop [] none inner

unfoldable pub is_flow : Text → Bool
is_flow s = starts_with s (codes "[") && ends_with s (codes "]")

-- `[f(p.strip()) for p in parts]`
unfoldable pub each : (Text → Result YamlError Value) → List Text → Result YamlError Values
unfolding strip
each f [] = ok nil
each f (p ∷ ps) = do v ← f (strip p); vs ← each f ps; ok (cons v vs)

-- `_parse_scalar` with fuel for the flow lists within flow lists. The parts of an empty list are
-- none.
unfoldable pub scalar : ℕ → Text → Result YamlError Value
scalar zero s = err out_of_fuel
scalar (suc fuel) s =
    let flow = each (scalar fuel) (split_flow (strip (middle s))) in
    elim (plain s) [
      | some v ↦ ok v
      | none ↦ if is_flow s then (do vs ← flow; ok (seq vs)) else ok (str s)
    ]

-- A flow list is longer than its parts, so its length is fuel enough.
unfoldable pub parse_scalar : Text → Result YamlError Value
parse_scalar s = scalar (suc (length s)) s
