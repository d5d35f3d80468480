-- ===== src/Yaml/Block.antt =====
-- `_parse_block`, `_parse_map`, `_parse_list` and `load` of simple_yaml.py. The parsers take the
-- lines from `pos` on and return those from the new `pos` on.
pub mod Ends
pub mod Total
pub mod Items
pub mod Print
pub mod Documents
pub mod Examples
use gitz.Common.{
  ℕ, zero, suc, ◌+◌, ◌-◌, ◌*◌, ◌==◌, ltb, ◌&&◌, ◌||◌, not, Bool, true, false, List, [], ◌∷◌, Text,
  codes, same, one_of, if◌then◌else◌, Option, none, some, length, drop, Result, ok, err, ◌>>=◌,
  ◌>>◌, require,
}
use gitz.Common.Str.{strip, is_empty, starts_with, ends_with, has_char, partition}
use gitz.Yaml.{
  Value, Values, Fields, YamlError, null, bool, int, float, str, seq, dict, nil, cons, end, field,
  put, update, append, trailing_content, unexpected_indent, expected_key_value,
  unexpected_indent_in_list, out_of_fuel,
}
use gitz.Yaml.Clean.{Line, clean}
use gitz.Yaml.Scalar.{init, parse_scalar}

abbrev pub Parsed : Type 0 → Type 0
Parsed A = Result YamlError (A × List Line)

-- `content.startswith("- ")`
abbrev pub is_item : Text → Bool
is_item content = starts_with content (codes "- ")

-- `rest == "" or rest == "|" or rest == ">"`
abbrev pub opens_block : Text → Bool
opens_block rest = one_of rest ([] ∷ codes "|" ∷ codes ">" ∷ [])

-- `pos < len(lines) and lines[pos][0] > indent`: the indent of a nested block that follows.
unfoldable pub nested_indent : ℕ → List Line → Option ℕ
nested_indent indent [] = none
nested_indent indent ((ind, content) ∷ ls) = if ltb indent ind then some ind else none

-- The same for a map that goes on behind a list item: no list item stands there.
unfoldable pub extra_indent : ℕ → List Line → Option ℕ
extra_indent indent [] = none
extra_indent indent ((ind, content) ∷ ls) =
    if ltb indent ind && not (is_item content) then some ind else none

-- `key.strip()` and `rest.strip()` of `content.partition(":")`.
unfoldable pub key_of : Text → Text
unfolding partition strip
key_of content = strip (partition b':' content).0

unfoldable pub rest_of : Text → Text
unfolding partition strip
rest_of content = strip (partition b':' content).1

unfoldable pub item_of : Text → Text
unfolding strip
item_of content = strip (drop 2 content)

-- The three tests of `_parse_list` on an item that is not empty.
unfoldable pub is_key_only : Text → Bool
is_key_only item =
    ends_with item (codes ":")
    && not (starts_with item (codes "'") || starts_with item (codes "\""))

unfoldable pub is_inline_map : Text → Bool
unfolding has_char
is_inline_map item =
    has_char b':' item
    && not (
        starts_with item (codes "'")
        || starts_with item (codes "\"")
        || starts_with item (codes "[")
        || starts_with item (codes "{"))

-- A value that stands on the line of its key.
unfoldable pub scalar_then : Text → List Line → Parsed Value
scalar_then rest ls = do v ← parse_scalar rest; ok (v, ls)

unfoldable mutual
  -- The block parser, with fuel for its calls.
  pub parse_block : ℕ → List Line → ℕ → Parsed Value
  parse_block zero lines indent = err out_of_fuel
  parse_block (suc fuel) [] indent = ok (null, [])
  parse_block (suc fuel) ((ind, content) ∷ ls) indent =
      let list = parse_list fuel nil ((ind, content) ∷ ls) indent in
      let map_ = parse_map fuel end ((ind, content) ∷ ls) indent in
      if ltb ind indent
      then ok (null, (ind, content) ∷ ls)
      else if is_item content
      then (do (vs, rest) ← list; ok (seq vs, rest))
      else if has_char b':' content
      then (do (fs, rest) ← map_; ok (dict fs, rest))
      else scalar_then content ls

  -- The nested block, or `other` where none follows.
  pub parse_nested : ℕ → Value → List Line → ℕ → Parsed Value
  parse_nested zero other lines indent = err out_of_fuel
  parse_nested (suc fuel) other lines indent = elim (nested_indent indent lines) [
    | none ↦ ok (other, lines)
    | some child ↦ parse_block fuel lines child
  ]

  -- The loop of `_parse_map` with its `result`.
  pub parse_map : ℕ → Fields → List Line → ℕ → Parsed Fields
  parse_map zero result lines indent = err out_of_fuel
  parse_map (suc fuel) result [] indent = ok (result, [])
  parse_map (suc fuel) result ((ind, content) ∷ ls) indent =
      let rest = rest_of content in
      let value =
        if opens_block rest
        then parse_nested fuel (if same rest [] then null else str rest) ls indent
        else scalar_then rest ls in
      let more = value >>= λ r. parse_map fuel (put (key_of content) r.0 result) r.1 indent in
      if ltb ind indent
      then ok (result, (ind, content) ∷ ls)
      else if ltb indent ind
      then err (unexpected_indent content)
      else if is_item content
      then ok (result, (ind, content) ∷ ls)
      else if not (has_char b':' content)
      then err (expected_key_value content)
      else more

  -- The `while` behind an inline map: the keys at a deeper indent join the map.
  pub parse_extra : ℕ → Fields → List Line → ℕ → Parsed Fields
  parse_extra zero m lines indent = err out_of_fuel
  parse_extra (suc fuel) m lines indent = elim (extra_indent indent lines) [
    | none ↦ ok (m, lines)
    | some child ↦
        parse_map fuel end lines child >>= λ r. parse_extra fuel (update m r.0) r.1 indent
  ]

  -- What one list item makes of its text and the lines behind it.
  pub parse_item : ℕ → Text → List Line → ℕ → Parsed Value
  parse_item zero item ls indent = err out_of_fuel
  parse_item (suc fuel) item ls indent =
      let nested = parse_nested fuel null ls indent in
      let keyed = nested >>= λ r. ok (dict (field (strip (init item)) r.0 end), r.1) in
      let first = if same (rest_of item) [] then nested else scalar_then (rest_of item) ls in
      let inline = first >>= λ r.
      parse_extra fuel (field (key_of item) r.0 end) r.1 indent >>= λ m. ok (dict m.0, m.1) in
      if opens_block item
      then nested
      else if is_key_only item
      then keyed
      else if is_inline_map item
      then inline
      else scalar_then item ls

  -- The loop of `_parse_list` with its `result`.
  pub parse_list : ℕ → Values → List Line → ℕ → Parsed Values
  parse_list zero result lines indent = err out_of_fuel
  parse_list (suc fuel) result [] indent = ok (result, [])
  parse_list (suc fuel) result ((ind, content) ∷ ls) indent =
      let more = parse_item fuel (item_of content) ls indent >>= λ r.
      parse_list fuel (append result r.0) r.1 indent in
      if ltb ind indent
      then ok (result, (ind, content) ∷ ls)
      else if ltb indent ind
      then err (unexpected_indent_in_list content)
      else if not (is_item content)
      then ok (result, (ind, content) ∷ ls)
      else more

-- Fuel for the calls on `n` lines.
abbrev pub block_fuel : ℕ → ℕ
block_fuel n = 4 * n + 4

-- All lines must be used up.
unfoldable pub finish : List Line → Value × List Line → Result YamlError Value
finish lines (v, []) = ok v
finish lines (v, l ∷ ls) = err (trailing_content (length lines - length (l ∷ ls)))

unfoldable pub load_lines : List Line → Result YamlError Value
unfolding finish
load_lines [] = ok null
load_lines ((ind, content) ∷ ls) =
    parse_block (block_fuel (length ((ind, content) ∷ ls))) ((ind, content) ∷ ls) ind
    >>= finish ((ind, content) ∷ ls)

unfoldable pub load : Text → Result YamlError Value
unfolding clean load_lines
load text = do lines ← clean text; load_lines lines
