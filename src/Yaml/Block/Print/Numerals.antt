-- ===== src/Yaml/Block/Print/Numerals.antt =====
-- What the loader makes of a printed number, and what the block parser and the cleaning need of it.
use gitz.Common.{
  ℕ, ◌≤◌, ◌<◌, ◌==◌, ◌≡◌, inl, inr, refl, false, [], ◌∷◌, Text, codes, one_of, All, arith, none,
  some,
}
use gitz.Common.Int.{ℤ}
use gitz.Common.Str.{is_line_end, is_empty, lstrip, rstrip, ends_with, has_char}
use gitz.Yaml.{int}
use gitz.Yaml.Number.Printed.{
  IsNumeral, int_text, lstrip-All, rstrip-All, int_text-All, int_text-full, int_text-no_space,
  int_text-no_zero, parse_int-int_text, IsShort,
}
use gitz.Yaml.Scalar.{plain, try_int, is_quoted, nulls, truths, falsehoods}
use gitz.Yaml.Clean.{before_comment}
use gitz.Yaml.Block.{opens_block, is_inline_map}

-- The characters of a number.
numeral_bounds : (c : ℕ) → IsNumeral c → (b'-' ≤ c) × (c < b':')
numeral_bounds c (inl h) = (omega (arith, h.0), omega (arith, h.1))
numeral_bounds c (inr h) = (omega (arith, h), omega (arith, h))

module _ (c : ℕ) (t : Text) (h : All IsNumeral (c ∷ t)) where
  first_bounds : (b'-' ≤ c) × (c < b':')
  first_bounds = numeral_bounds c h.0

  no_word :
      (one_of (c ∷ t) nulls ≡ false)
      × (one_of (c ∷ t) truths ≡ false)
      × (one_of (c ∷ t) falsehoods ≡ false)
  no_word = let b = first_bounds in (ground arith, ground arith, ground arith)

  no_quote : is_quoted (c ∷ t) ≡ false
  unfolding is_quoted
  no_quote = let b = first_bounds in ground arith

  no_opening : opens_block (c ∷ t) ≡ false
  no_opening = let b = first_bounds in ground arith

no_end_colon : (t : Text) → All IsNumeral t → ends_with t (codes ":") ≡ false
no_end_colon [] h = refl
no_end_colon (c ∷ t) h = let b = numeral_bounds c h.0 in ground (arith, no_end_colon t h.1)

no_colon_in : (t : Text) → All IsNumeral t → has_char b':' t ≡ false
unfolding has_char
no_colon_in [] h = refl
no_colon_in (c ∷ t) h = let b = numeral_bounds c h.0 in ground (arith, no_colon_in t h.1)

no_line_end : (c : ℕ) → IsNumeral c → is_line_end c ≡ false
unfolding is_line_end
no_line_end c h = let b = numeral_bounds c h in ground arith

no_line_ends : (t : Text) → All IsNumeral t → All (λ c. is_line_end c ≡ false) t
no_line_ends [] h = tt
no_line_ends (c ∷ t) h = (no_line_end c h.0, no_line_ends t h.1)

other_than : (c d : ℕ) → IsNumeral c → (d < b'-') → (c == d) ≡ false
other_than c d h l = let b = numeral_bounds c h in ground arith

no_comment_in : (t : Text) → All IsNumeral t → before_comment false false t ≡ none
unfolding before_comment
no_comment_in [] h = refl
no_comment_in (c ∷ t) h =
    rw
      (
        other_than c b'\'' h.0 (omega arith),
        other_than c b'"' h.0 (omega arith),
        other_than c b'#' h.0 (omega arith),
        no_comment_in t h.1,
      )
      refl

-- What `_parse_scalar` makes of it.
plain-numeral :
    (t : Text) (z : ℤ)
    → All IsNumeral t
    → is_empty t ≡ false
    → try_int t ≡ some (int z)
    → plain t ≡ some (int z)
unfolding plain
plain-numeral [] z h f e = cc
plain-numeral (c ∷ t) z h f e =
    let (n, y, m) = no_word c t h in rw (n, y, m, no_quote c t h, e) refl

try_int-int_text : (z : ℤ) → IsShort z → try_int (int_text z) ≡ some (int z)
unfolding try_int
try_int-int_text z h = rw (parse_int-int_text z h) (ground (arith, int_text-no_zero z))

pub plain-int_text : (z : ℤ) → IsShort z → plain (int_text z) ≡ some (int z)
plain-int_text z h =
    plain-numeral (int_text z) z (int_text-All z) (int_text-full z) (try_int-int_text z h)

module _ (z : ℤ) where
  pub opens_block-int_text : opens_block (int_text z) ≡ false
  opens_block-int_text = go (int_text z) (int_text-All z) (int_text-full z)
    where
      go : (t : Text) → All IsNumeral t → is_empty t ≡ false → opens_block t ≡ false
      go [] h f = cc
      go (c ∷ t) h f = no_opening c t h

  pub is_inline_map-int_text : is_inline_map (int_text z) ≡ false
  unfolding is_inline_map
  is_inline_map-int_text = rw (no_colon_in (int_text z) (int_text-All z)) refl

  pub ends_with-int_text : ends_with (int_text z) (codes ":") ≡ false
  ends_with-int_text = no_end_colon (int_text z) (int_text-All z)

  pub lstrip-int_text : lstrip (int_text z) ≡ int_text z
  lstrip-int_text = lstrip-All (int_text z) (int_text-no_space z)

  pub rstrip-int_text : rstrip (int_text z) ≡ int_text z
  rstrip-int_text = rstrip-All (int_text z) (int_text-no_space z)

  pub int_text-one_line : All (λ c. is_line_end c ≡ false) (int_text z)
  int_text-one_line = no_line_ends (int_text z) (int_text-All z)

  pub before_comment-int_text : before_comment false false (int_text z) ≡ none
  before_comment-int_text = no_comment_in (int_text z) (int_text-All z)
