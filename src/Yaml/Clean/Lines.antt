-- ===== src/Yaml/Clean/Lines.antt =====
-- What the cleaned lines are: stripped and not empty; no line is refused for its tabs.
use gitz.Common.{
  ℕ, ◌+◌, ◌≡◌, ◌≢◌, refl, false, List, [], ◌∷◌, Text, codes, Option, none, some, All, ok, arith,
  Bool-cases, inl, inr, ◌⊎◌,
}
use gitz.Common.Str.{is_space, strip, lstrip, rstrip, is_empty, starts_with, splitlines}
use gitz.Yaml.Clean.{Line, clean_line, clean_lines, cons_line, clean, strip_comment, indent_of}

pub lstrip-no_tab : (s : Text) → starts_with (lstrip s) (codes "\t") ≡ false
unfolding lstrip
lstrip-no_tab [] = refl
lstrip-no_tab (c ∷ s) = elim (Bool-cases (is_space c)) [
  | inl space ↦ rw space (lstrip-no_tab s)
  | inr other ↦ rw other (ground (arith, tab_is_space c))
]
  where
    tab_is_space : (c : ℕ) → is_space c ≡ false → c ≢ 9
    tab_is_space c h e = unfold is_space in ground arith

rstrip-rstrip : (s : Text) → rstrip (rstrip s) ≡ rstrip s
unfolding rstrip
rstrip-rstrip [] = refl
rstrip-rstrip (c ∷ s) = ground (arith, rstrip-rstrip s)

-- A text that does not begin with white space keeps its first character.
pub lstrip-cases :
    (s : Text)
    → (lstrip s ≡ []) ⊎ ((c : ℕ) × (r : Text) × (lstrip s ≡ c ∷ r) × (is_space c ≡ false))
unfolding lstrip
lstrip-cases [] = inl refl
lstrip-cases (c ∷ s) = elim (Bool-cases (is_space c)) [
  | inl space ↦ rw space (lstrip-cases s)
  | inr other ↦ rw other (inr (c, s, refl, other))
]

lstrip-rstrip_cons :
    (c : ℕ) (r : Text) → is_space c ≡ false → lstrip (rstrip (c ∷ r)) ≡ rstrip (c ∷ r)
unfolding lstrip rstrip
lstrip-rstrip_cons c r h = rw h (rw h)

pub strip-strip : (s : Text) → strip (strip s) ≡ strip s
unfolding strip
strip-strip s = elim (lstrip-cases s) [
  | inl e ↦ rw e (unfold lstrip rstrip in refl)
  | inr (c, r, e, h) ↦ rw e (rw (lstrip-rstrip_cons c r h) (rstrip-rstrip (c ∷ r)))
]

-- A line of the block parser: its text has no white space at its ends, and is not empty.
pub record IsClean (l : Line) : Type 0 where
  pub stripped : strip l.1 ≡ l.1
  pub full : l.1 ≢ []

not_empty : (s : Text) → is_empty s ≡ false → s ≢ []
not_empty [] h e = cc
not_empty (c ∷ s) h e = cc

clean_line-total :
    (i : ℕ) (raw : Text)
    → (l : Option Line) × (clean_line i raw ≡ ok l) × All IsClean (cons_line l [])
unfolding clean_line cons_line
clean_line-total i raw = elim (Bool-cases (is_empty (strip raw))) [
  | inl blank ↦ rw blank (none, refl, tt)
  | inr text ↦
      let line : Text = strip_comment (rstrip raw) in
      elim (Bool-cases (is_empty (strip line))) [
        | inl comment ↦ rw (text, comment) (none, refl, tt)
        | inr full ↦
            rw (text, full, lstrip-no_tab line)
              (
                some (indent_of line, strip line),
                refl,
                (record { stripped = strip-strip line; full = not_empty (strip line) full }, tt),
              )
      ]
]

cons_line-All :
    (l : Option Line) (ls : List Line)
    → All IsClean (cons_line l [])
    → All IsClean ls
    → All IsClean (cons_line l ls)
unfolding cons_line
cons_line-All none ls h k = k
cons_line-All (some l) ls h k = (h.0, k)

clean_lines-total :
    (i : ℕ) (raws : List Text) → (ls : List Line) × (clean_lines i raws ≡ ok ls) × All IsClean ls
unfolding clean_lines
clean_lines-total i [] = ([], refl, tt)
clean_lines-total i (raw ∷ raws) =
    let (l, e, a) = clean_line-total i raw in
    let (ls, es, b) = clean_lines-total (i + 1) raws in
    (cons_line l ls, rw (e, es), cons_line-All l ls a b)

-- `load` never refuses a line for its tabs: the cleaning of any text returns, and every line that
-- it hands to the block parser is stripped and not empty.
pub clean-total : (text : Text) → (ls : List Line) × (clean text ≡ ok ls) × All IsClean ls
unfolding clean
clean-total text = clean_lines-total 1 (splitlines text)
