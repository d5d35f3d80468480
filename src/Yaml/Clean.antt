-- ===== src/Yaml/Clean.antt =====
-- The lines that `load` of simple_yaml.py hands to its block parser: without comments and blank
-- lines, each with its indent.
pub mod Lines
use gitz.Common.{
  ℕ, suc, ◌+◌, ◌-◌, ◌==◌, ◌&&◌, not, Bool, true, false, List, [], ◌∷◌, Text, codes, if◌then◌else◌,
  Option, none, some, length, Result, ok, err, ◌>>=◌, ◌>>◌, require,
}
use mathlib.Core.Option
use gitz.Common.Str.{strip, lstrip, rstrip, is_empty, starts_with, splitlines}
use gitz.Yaml.{YamlError, tabs_not_allowed}

-- The loop of `_strip_comment`: what stands before the comment, if there is one.
unfoldable pub before_comment : Bool → Bool → Text → Option Text
before_comment in_single in_double [] = none
before_comment in_single in_double (ch ∷ s) =
    let single = ch == b'\'' && not in_double in
    let double = not single && ch == b'"' && not in_single in
    let rest =
      before_comment (if single then not in_single else in_single)
        (if double then not in_double else in_double) s in
    if not single && not double && ch == b'#' && not in_single && not in_double
    then some []
    else Option.map (λ t. ch ∷ t) rest

unfoldable pub cut_comment : Text → Option Text → Text
unfolding rstrip
cut_comment line none = line
cut_comment line (some t) = rstrip t

unfoldable pub strip_comment : Text → Text
unfolding before_comment cut_comment
strip_comment line = cut_comment line (before_comment false false line)

-- `line.lstrip(" ")`
unfoldable pub lstrip_blanks : Text → Text
lstrip_blanks [] = []
lstrip_blanks (c ∷ s) = if c == b' ' then lstrip_blanks s else c ∷ s

-- A line of the block parser: its indent and its text.
abbrev pub Line : Type 0
Line = ℕ × Text

unfoldable pub indent_of : Text → ℕ
unfolding lstrip_blanks
indent_of line = length line - length (lstrip_blanks line)

-- The loop body of `load` at the line number `i`: nothing, an error, or a line.
unfoldable pub clean_line : ℕ → Text → Result YamlError (Option Line)
clean_line i raw =
    if is_empty (strip raw)
    then ok none
    else let line = strip_comment (rstrip raw) in
      if is_empty (strip line)
      then ok none
      else if starts_with (lstrip line) (codes "\t")
      then err (tabs_not_allowed i)
      else ok (some (indent_of line, strip line))

unfoldable pub cons_line : Option Line → List Line → List Line
cons_line none ls = ls
cons_line (some l) ls = l ∷ ls

unfoldable pub clean_lines : ℕ → List Text → Result YamlError (List Line)
clean_lines i [] = ok []
clean_lines i (raw ∷ raws) = do
  l ← clean_line i raw
  ls ← clean_lines (i + 1) raws
  ok (cons_line l ls)

unfoldable pub clean : Text → Result YamlError (List Line)
clean text = clean_lines 1 (splitlines text)
