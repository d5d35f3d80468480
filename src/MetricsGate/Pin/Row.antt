-- ===== src/MetricsGate/Pin/Row.antt =====
-- The pin of a table row is found.
use gitz.Common.{
  ◌≡◌, ◌≢◌, ℕ, refl, Bool, true, false, [], ◌∷◌, ◌++◌, Text, codes, none, some, All, arith,
}
use gitz.Common.Str.{is_space, lstrip, rstrip, strip, literal, run_of-append}
use gitz.MetricsGate.Pin.{is_cell, skip_tick, cell_at, row_at, find_row, pin_of}

cell-space : (c : ℕ) → is_cell c ≡ true → is_space c ≡ false
unfolding is_cell
cell-space c h = ground arith

rstrip-cells : (v : Text) → All (λ c. is_cell c ≡ true) v → rstrip v ≡ v
unfolding rstrip
rstrip-cells [] h = refl
rstrip-cells (c ∷ v) h = rw (cell-space c h.0, rstrip-cells v h.1) refl

strip-cells : (v : Text) → All (λ c. is_cell c ≡ true) v → strip v ≡ v
unfolding strip lstrip
strip-cells [] h = rstrip-cells [] h
strip-cells (c ∷ v) h = rw (cell-space c h.0) (rstrip-cells (c ∷ v) h)

-- A table row with a pin in backticks.
abbrev pub pin_row : Text → Text → Text
pin_row v post = codes "| Pin | `" ++ (v ++ (codes "` |" ++ post))

cell_at-cells :
    (v post : Text)
    → v ≢ []
    → All (λ c. is_cell c ≡ true) v
    → cell_at (v ++ (codes "` |" ++ post)) ≡ some v
unfolding cell_at lstrip skip_tick literal
cell_at-cells [] post n h = absurd (n refl)
cell_at-cells (c ∷ v) post n h =
    let tick : is_cell 96 ≡ false = unfold is_cell in refl in
    rw (run_of-append is_cell (c ∷ v) 96 (codes " |" ++ post) h tick) refl

row_at-pin_row :
    (v post : Text) → v ≢ [] → All (λ c. is_cell c ≡ true) v → row_at (pin_row v post) ≡ some v
unfolding row_at literal lstrip skip_tick is_space
row_at-pin_row v post n h = cell_at-cells v post n h

row_at-other : (c : ℕ) (s : Text) → c ≢ 124 → row_at (c ∷ s) ≡ none
unfolding row_at literal
row_at-other c s h = ground arith

find_row-pin_row :
    (before v post : Text)
    → All (λ c. c ≢ 124) before
    → v ≢ []
    → All (λ c. is_cell c ≡ true) v
    → find_row (before ++ pin_row v post) ≡ some v
unfolding find_row
find_row-pin_row [] v post b n h = rw (row_at-pin_row v post n h, find_row) refl
find_row-pin_row (c ∷ before) v post b n h =
    rw (row_at-other c (before ++ pin_row v post) b.0, find_row)
      (find_row-pin_row before v post b.1 n h)

-- A pin that stands in backticks in a table row `| Pin | ... |` is what `parse_pin_from_md` reads from
-- the text of the document, if no bar stands before the row. The pin is not empty and has no white
-- space, no backtick and no bar.
pub pin_of-pin_row :
    (is_alnum : ℕ → Bool) (before v post : Text)
    → All (λ c. c ≢ 124) before
    → v ≢ []
    → All (λ c. is_cell c ≡ true) v
    → pin_of is_alnum (before ++ pin_row v post) ≡ some v
unfolding pin_of
pin_of-pin_row is_alnum before v post b n h =
    rw (find_row-pin_row before v post b n h, pin_of, strip-cells v h) refl
