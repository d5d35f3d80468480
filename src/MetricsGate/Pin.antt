-- ===== src/MetricsGate/Pin.antt =====
-- `parse_pin_from_md` of tools/inventory/check_metrics.py: its two regular expressions as matchers.
-- In both, what a repetition takes and what may follow it are different characters, so that the
-- longest match is the only one.
pub mod Row
use gitz.Common.{
  ◌≡◌, ◌==◌, Bool, true, false, not, ◌&&◌, ◌||◌, List, [], ◌∷◌, ◌++◌, ℕ, Text, codes, Option, none,
  some, if◌then◌else◌, Result, ok, err,
}
use gitz.Common.Str.{is_space, is_empty, lstrip, strip, literal, run_of}
use gitz.Files.{Files}
use gitz.MetricsGate.Raised.{Crash, os_error}
use gitz.Yaml.Number.{digit}

-- A character of `[^`|\s]`.
unfoldable pub is_cell : ℕ → Bool
unfolding is_space
is_cell c = not (c == b'`') && not (c == b'|') && not (is_space c)

-- "`?"
unfoldable pub skip_tick : Text → Text
skip_tick [] = []
skip_tick (c ∷ s) = if c == b'`' then s else c ∷ s

abbrev pub then_some {ℓ} : {A : Type ℓ} → Option Text → (Text → Option A) → Option A
then_some none f = none
then_some (some s) f = f s

-- The group of the first expression, from the cell's text on.
unfoldable pub cell_at : Text → Option Text
unfolding run_of is_cell skip_tick literal lstrip
cell_at s =
    let (cell, rest) = run_of is_cell s in
    if is_empty cell
    then none
    else then_some (literal (codes "|") (lstrip (skip_tick rest))) (λ after. some cell)

-- The first expression at the beginning of the text.
unfoldable pub row_at : Text → Option Text
unfolding literal lstrip skip_tick cell_at
row_at s = then_some (literal (codes "|") s) λ a.
    then_some (literal (codes "Pin") (lstrip a))
      λ b. then_some (literal (codes "|") (lstrip b)) λ c. cell_at (skip_tick (lstrip c))

-- `re.search`: the first place where it matches.
unfoldable pub find_row : Text → Option Text
unfolding row_at
find_row [] = row_at []
find_row (c ∷ s) =
    let later = find_row s in elim (row_at (c ∷ s)) [ some cell ↦ some cell | none ↦ later ]

unfoldable pub is_digit : ℕ → Bool
unfolding digit
is_digit c = elim (digit c) [ some d ↦ true | none ↦ false ]

-- `\d+`: the digits and what follows them.
unfoldable pub digits_at : Text → Option (Text × Text)
unfolding run_of is_digit
digits_at s = let (run, rest) = run_of is_digit s in if is_empty run then none else some (run, rest)

-- `str.isalnum` of a character.
module _ (is_alnum : ℕ → Bool) where
  -- `\w`
  unfoldable pub is_word : ℕ → Bool
  is_word c = is_alnum c || c == b'_'

  -- `\b` behind a word character.
  unfoldable pub ends_word : Text → Bool
  unfolding is_word
  ends_word [] = true
  ends_word (c ∷ s) = not (is_word c)

  -- `v\d+\.\d+\.\d+\b` at the beginning of the text.
  unfoldable pub version_at : Text → Option Text
  unfolding literal digits_at ends_word
  version_at s = then_some (literal (codes "v") s) λ a. elim (digits_at a) [
    | none ↦ none
    | some (major, b) ↦ then_some (literal (codes ".") b) λ c. elim (digits_at c) [
      | none ↦ none
      | some (minor, d) ↦ then_some (literal (codes ".") d) λ e. elim (digits_at e) [
        | none ↦ none
        | some (patch, rest) ↦
            if ends_word rest
            then some (codes "v" ++ (major ++ (codes "." ++ (minor ++ (codes "." ++ patch)))))
            else none
      ]
    ]
  ]

  -- `re.search` of the second expression; `inside` says that a word character stands before.
  unfoldable pub find_version : Bool → Text → Option Text
  unfolding version_at is_word
  find_version inside [] = none
  find_version inside (c ∷ s) =
      let later = find_version (is_word c) s in
      let here = if inside then none else version_at (c ∷ s) in
      elim here [ some v ↦ some v | none ↦ later ]

  unfoldable pub pin_of : Text → Option Text
  unfolding find_row find_version strip
  pin_of text = elim (find_row text) [
    | some cell ↦ some (strip cell)
    | none ↦ find_version false text
  ]

  abbrev pub pin_of_opened : Option Text → Result Crash (Option Text)
  pin_of_opened none = err os_error
  pin_of_opened (some text) = ok (pin_of text)

  unfoldable pub parse_pin_from_md : Files → Text → Result Crash (Option Text)
  unfolding pin_of
  parse_pin_from_md fs path = if fs.is_file path then pin_of_opened (fs.open_text path) else ok none
