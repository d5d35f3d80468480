-- ===== src/Yaml/Block/Items.antt =====
-- `load` on every text, and the text of a list item.
use gitz.Common.{ℕ, ◌≡◌, ◌≢◌, refl, ◌∙◌, sym, true, [], ◌∷◌, Text, err, arith}
use gitz.Common.Str.{is_space, strip, lstrip, rstrip}
use gitz.Yaml.{out_of_fuel}
use gitz.Yaml.Clean.Lines.{IsClean, clean-total}
use gitz.Yaml.Block.{is_item, item_of, load}
use gitz.Yaml.Block.Total.{load_lines-ne-out_of_fuel}

-- On every text `load` returns a value or raises an error of the source: its parsers always end.
pub load-ne-out_of_fuel : (text : Text) → load text ≢ err out_of_fuel
unfolding load
load-ne-out_of_fuel text = let (ls, e, _) = clean-total text in rw e (load_lines-ne-out_of_fuel ls)

rstrip-of_strip : (s : Text) → strip s ≡ [] → rstrip s ≡ []
unfolding strip lstrip rstrip
rstrip-of_strip [] h = refl
rstrip-of_strip (c ∷ s) h = ground (arith, rstrip-of_strip s)

-- A dash with nothing behind it but white space is stripped to the dash alone.
strip-lone_dash : (r : Text) → strip r ≡ [] → strip (45 ∷ 32 ∷ r) ≡ 45 ∷ []
unfolding strip lstrip rstrip is_space
strip-lone_dash r h = rw (rstrip-of_strip r h) refl

dash_head : (c d : ℕ) (r : Text) → is_item (c ∷ d ∷ r) ≡ true → (c ≡ 45) × (d ≡ 32)
dash_head c d r h = (ground arith, ground arith)

-- The item text of a list line that is stripped and not empty is never empty itself, so that the
-- branch of `_parse_list` for an empty item is never taken: a lone dash is no list item.
pub item_of-ne-nil :
    (ind : ℕ) (content : Text)
    → IsClean (ind, content)
    → is_item content ≡ true
    → item_of content ≢ []
item_of-ne-nil ind [] h item e = ground arith
item_of-ne-nil ind (c ∷ []) h item e = ground arith
item_of-ne-nil ind (c ∷ d ∷ r) h item e =
    let (ec, ed) = dash_head c d r item in
    let alone : strip (c ∷ d ∷ r) ≡ 45 ∷ [] =
      rw (ec, ed) (strip-lone_dash r (unfold item_of in e)) in
    let whole : c ∷ d ∷ r ≡ 45 ∷ [] = sym h.stripped ∙ alone in cc
