-- ===== src/Yaml/Block/Total.antt =====
-- The block parser always ends: its fuel is enough for every list of lines, and no call gives back
-- more lines than it was given.
use gitz.Common.{
  ℕ, zero, suc, ◌+◌, ◌*◌, ◌≤◌, ◌≡◌, ◌≢◌, ap, ltb, false, List, [], ◌∷◌, Text, Option-cases,
  Bool-cases, inl, inr, length, ok, err, ◌>>=◌, arith,
}
use gitz.Yaml.{
  Value, Values, Fields, null, end, nil, field, dict, seq, update, append, out_of_fuel,
  unexpected_indent, unexpected_indent_in_list, expected_key_value,
}
use gitz.Yaml.Clean.{Line}
use gitz.Yaml.Scalar.{init}
use gitz.Common.Str.{strip, has_char}
use gitz.Yaml.Block.{
  Parsed, parse_block, parse_nested, parse_map, parse_extra, parse_item, parse_list, nested_indent,
  extra_indent, item_of, opens_block, is_key_only, is_inline_map, is_item, finish, load_lines,
  block_fuel,
}
use gitz.Yaml.Block.Ends.{
  Ends, returns, raises, Ends-bind, Ends-le, scalar_then-Ends, extra_first, key-Ends, inline-Ends,
}

mutual
  unfolding parse_block parse_nested parse_map parse_extra parse_item parse_list

  block-Ends :
      (fuel : ℕ) (lines : List Line) (indent : ℕ)
      → 4 * length lines + 2 ≤ fuel
      → Ends (length lines) (parse_block fuel lines indent)
  block-Ends zero lines indent h = absurd (omega arith)
  block-Ends (suc fuel) [] indent h = returns null [] (omega arith)
  block-Ends (suc fuel) ((ind, content) ∷ ls) indent h =
      let lines : List Line = (ind, content) ∷ ls in
      elim (Bool-cases (ltb ind indent)) [
        | inl before ↦ rw before (returns null lines (omega arith))
        | inr here ↦ elim (Bool-cases (is_item content)) [
          | inl item ↦
              rw (here, item)
                (Ends-bind (parse_list fuel nil lines indent) (λ r. ok (seq r.0, r.1))
                  (list-Ends fuel nil lines indent (omega arith))
                  (λ v rest le. returns (seq v) rest le))
          | inr other ↦ elim (Bool-cases (has_char b':' content)) [
            | inl key ↦
                rw (here, other, key)
                  (Ends-bind (parse_map fuel end lines indent) (λ r. ok (dict r.0, r.1))
                    (map-Ends fuel end lines indent (omega arith))
                    (λ v rest le. returns (dict v) rest le))
            | inr bare ↦
                rw (here, other, bare) (Ends-le (scalar_then-Ends content ls) (omega arith))
          ]
        ]
      ]

  nested-Ends :
      (fuel : ℕ) (other : Value) (lines : List Line) (indent : ℕ)
      → 4 * length lines + 3 ≤ fuel
      → Ends (length lines) (parse_nested fuel other lines indent)
  nested-Ends zero other lines indent h = absurd (omega arith)
  nested-Ends (suc fuel) other lines indent h = elim (Option-cases (nested_indent indent lines)) [
    | inl e ↦ rw (e, parse_nested) (returns other lines (omega arith))
    | inr (child, e) ↦ rw (e, parse_nested) (block-Ends fuel lines child (omega arith))
  ]

  -- A map whose first line is a key takes that line.
  map_first :
      (fuel : ℕ) (result : Fields) (content : Text) (ls : List Line) (indent : ℕ)
      → is_item content ≡ false
      → 4 * length ls + 4 ≤ fuel
      → Ends (length ls) (parse_map fuel result ((indent, content) ∷ ls) indent)
  map_first zero result content ls indent e h = absurd (omega arith)
  map_first (suc fuel) result content ls indent e h =
      let same_indent : ltb indent indent ≡ false = ground arith in
      elim (Bool-cases (has_char b':' content)) [
        | inl key ↦
            rw (same_indent, e, key)
              (key-Ends fuel result content ls indent
                (λ other. nested-Ends fuel other ls indent (omega arith))
                (λ fs rest le. map-Ends fuel fs rest indent (omega arith)))
        | inr bare ↦ rw (same_indent, e, bare) (raises (expected_key_value content) (λ p. cc))
      ]

  map-Ends :
      (fuel : ℕ) (result : Fields) (lines : List Line) (indent : ℕ)
      → 4 * length lines + 1 ≤ fuel
      → Ends (length lines) (parse_map fuel result lines indent)
  map-Ends zero result lines indent h = absurd (omega arith)
  map-Ends (suc fuel) result [] indent h = returns result [] (omega arith)
  map-Ends (suc fuel) result ((ind, content) ∷ ls) indent h =
      let lines : List Line = (ind, content) ∷ ls in
      elim (Bool-cases (ltb ind indent)) [
        | inl before ↦ rw before (returns result lines (omega arith))
        | inr here ↦ elim (Bool-cases (ltb indent ind)) [
          | inl deeper ↦ rw (here, deeper) (raises (unexpected_indent content) (λ p. cc))
          | inr level ↦ elim (Bool-cases (is_item content)) [
            | inl item ↦ rw (here, level, item) (returns result lines (omega arith))
            | inr other ↦ elim (Bool-cases (has_char b':' content)) [
              | inl key ↦
                  rw (here, level, other, key)
                    (Ends-le
                      (key-Ends fuel result content ls indent
                        (λ v. nested-Ends fuel v ls indent (omega arith))
                        (λ fs rest le. map-Ends fuel fs rest indent (omega arith)))
                      (omega arith))
              | inr bare ↦
                  rw (here, level, other, bare) (raises (expected_key_value content) (λ p. cc))
            ]
          ]
        ]
      ]

  extra-Ends :
      (fuel : ℕ) (m : Fields) (lines : List Line) (indent : ℕ)
      → 4 * length lines + 2 ≤ fuel
      → Ends (length lines) (parse_extra fuel m lines indent)
  extra-Ends zero m lines indent h = absurd (omega arith)
  extra-Ends (suc fuel) m lines indent h = elim (Option-cases (extra_indent indent lines)) [
    | inl e ↦ rw (e, parse_extra) (returns m lines (omega arith))
    | inr (child, e) ↦
        let (content, ls, shape, key) = extra_first indent child lines e in
        let count : length lines ≡ suc (length ls) = ap length shape in
        let first : Ends (length ls) (parse_map fuel end lines child) =
          rw shape (map_first fuel end content ls child key (omega arith)) in
        rw (e, parse_extra)
          (Ends-bind (parse_map fuel end lines child)
            (λ r. parse_extra fuel (update m r.0) r.1 indent) first
            λ fs rest le.
              Ends-le (extra-Ends fuel (update m fs) rest indent (omega arith)) (omega arith))
  ]

  item-Ends :
      (fuel : ℕ) (item : Text) (ls : List Line) (indent : ℕ)
      → 4 * length ls + 4 ≤ fuel
      → Ends (length ls) (parse_item fuel item ls indent)
  item-Ends zero item ls indent h = absurd (omega arith)
  item-Ends (suc fuel) item ls indent h =
      let nested = nested-Ends fuel null ls indent (omega arith) in
      elim (Bool-cases (opens_block item)) [
        | inl opens ↦ rw opens nested
        | inr full ↦ elim (Bool-cases (is_key_only item)) [
          | inl key ↦
              rw (full, key)
                (Ends-bind (parse_nested fuel null ls indent)
                  (λ r. ok (dict (field (strip (init item)) r.0 end), r.1)) nested
                  (λ v rest le. returns (dict (field (strip (init item)) v end)) rest le))
          | inr other ↦ elim (Bool-cases (is_inline_map item)) [
            | inl inline ↦
                rw (full, other, inline)
                  (inline-Ends fuel item ls indent nested
                    (λ m rest le. extra-Ends fuel m rest indent (omega arith)))
            | inr bare ↦ rw (full, other, bare) (scalar_then-Ends item ls)
          ]
        ]
      ]

  list-Ends :
      (fuel : ℕ) (result : Values) (lines : List Line) (indent : ℕ)
      → 4 * length lines + 1 ≤ fuel
      → Ends (length lines) (parse_list fuel result lines indent)
  list-Ends zero result lines indent h = absurd (omega arith)
  list-Ends (suc fuel) result [] indent h = returns result [] (omega arith)
  list-Ends (suc fuel) result ((ind, content) ∷ ls) indent h =
      let lines : List Line = (ind, content) ∷ ls in
      elim (Bool-cases (ltb ind indent)) [
        | inl before ↦ rw before (returns result lines (omega arith))
        | inr here ↦ elim (Bool-cases (ltb indent ind)) [
          | inl deeper ↦ rw (here, deeper) (raises (unexpected_indent_in_list content) (λ p. cc))
          | inr level ↦ elim (Bool-cases (is_item content)) [
            | inr other ↦ rw (here, level, other) (returns result lines (omega arith))
            | inl item ↦
                rw (here, level, item)
                  (Ends-bind (parse_item fuel (item_of content) ls indent)
                    (λ r. parse_list fuel (append result r.0) r.1 indent)
                    (item-Ends fuel (item_of content) ls indent (omega arith))
                    λ v rest le.
                      Ends-le (list-Ends fuel (append result v) rest indent (omega arith))
                        (omega arith))
          ]
        ]
      ]

finish-Ends :
    (lines : List Line) (r : Parsed Value)
    → Ends (length lines) r
    → (r >>= finish lines) ≢ err out_of_fuel
unfolding finish
finish-Ends lines (ok (v, [])) h e = cc
finish-Ends lines (ok (v, l ∷ ls)) h e = cc
finish-Ends lines (err out_of_fuel) h e = h.by
finish-Ends lines (err x) h e = cc

-- The block parser, on any cleaned lines, uses up its fuel for no input: it returns a value or
-- raises one of the errors of the source.
pub load_lines-ne-out_of_fuel : (lines : List Line) → load_lines lines ≢ err out_of_fuel
unfolding load_lines
load_lines-ne-out_of_fuel [] = λ e. cc
load_lines-ne-out_of_fuel ((ind, content) ∷ ls) =
    finish-Ends ((ind, content) ∷ ls) _
      (block-Ends (block_fuel (suc (length ls))) ((ind, content) ∷ ls) ind (omega arith))
