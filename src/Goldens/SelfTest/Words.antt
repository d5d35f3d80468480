-- ===== src/Goldens/SelfTest/Words.antt =====
-- Plain words, which the loader reads as the texts that they are.
use gitz.Common.{
  ℕ, ◌≤◌, ◌==◌, leb, ltb, ◌&&◌, ◌||◌, ◌≡◌, refl, true, false, Bool, [], ◌∷◌, Text, codes, All, all,
  arith, none, ok, one_of,
}
use gitz.Common.Str.{is_space, is_line_end, strip, ends_with, starts_with, has_char}
use gitz.Files.Paths.{IsName}
use gitz.Yaml.{str}
use gitz.Yaml.Number.{digit, digits_from, digits, sign, parse_int, parse_float}
use gitz.Yaml.Number.Printed.{lstrip-All, rstrip-All}
use gitz.Yaml.Scalar.{
  plain, scalar, parse_scalar, try_int, try_float, is_quoted, is_flow, nulls, truths, falsehoods,
}
use gitz.Yaml.Clean.{before_comment}
use gitz.Yaml.Block.{opens_block, is_inline_map}
use gitz.Yaml.Block.Print.Texts.{IsText}
use gitz.Yaml.Block.Print.Inline.{IsInline}

-- `a` to `z`, a digit, `_`, `.` or `-`.
abbrev pub is_word_char : ℕ → Bool
is_word_char c =
    (leb b'a' c && leb c b'z') || (leb b'0' c && leb c b'9') || c == b'_' || c == b'.' || c == b'-'

-- A word of such characters that begins with a letter and is none of the loader's own.
abbrev pub IsWord : Text → Type 0
IsWord [] = ⊥
IsWord (c ∷ t) =
    (b'a' ≤ c)
    × (c ≤ b'z')
    × All (λ x. is_word_char x ≡ true) t
    × (one_of (c ∷ t) nulls ≡ false)
    × (one_of (c ∷ t) truths ≡ false)
    × (one_of (c ∷ t) falsehoods ≡ false)

-- What no character of a word is.
record IsPlain (c : ℕ) : Type 0 where
  no_space : is_space c ≡ false
  no_line_end : is_line_end c ≡ false
  no_colon : (c == b':') ≡ false
  no_apostrophe : (c == b'\'') ≡ false
  no_quote : (c == b'"') ≡ false
  no_hash : (c == b'#') ≡ false
  no_slash : (c == b'/') ≡ false

word_char-IsPlain : (c : ℕ) → is_word_char c ≡ true → IsPlain c
unfolding is_space is_line_end
word_char-IsPlain c h = record {
  no_space = ground arith;
  no_line_end = ground arith;
  no_colon = ground arith;
  no_apostrophe = ground arith;
  no_quote = ground arith;
  no_hash = ground arith;
  no_slash = ground arith;
}

letter-no_digit : (c : ℕ) → b'a' ≤ c → c ≤ b'z' → digit c ≡ none
unfolding digit
letter-no_digit c h l = ground arith

AllPlain : Text → Type 0
AllPlain t = All IsPlain t

are_plain : (t : Text) → All (λ x. is_word_char x ≡ true) t → AllPlain t
unfolding AllPlain
are_plain [] h = tt
are_plain (c ∷ t) h = (word_char-IsPlain c h.0, are_plain t h.1)

module _ (c : ℕ) (t : Text) (w : IsWord (c ∷ t)) where
  letter_char : is_word_char c ≡ true
  letter_char = ground (arith, w.0, w.1)

  word-AllPlain : AllPlain (c ∷ t)
  unfolding AllPlain
  word-AllPlain = (word_char-IsPlain c letter_char, are_plain t w.2)

no_spaces : (t : Text) → AllPlain t → All (λ c. is_space c ≡ false) t
unfolding AllPlain
no_spaces [] h = tt
no_spaces (c ∷ t) h = (h.0.no_space, no_spaces t h.1)

no_line_ends : (t : Text) → AllPlain t → All (λ c. is_line_end c ≡ false) t
unfolding AllPlain
no_line_ends [] h = tt
no_line_ends (c ∷ t) h = (h.0.no_line_end, no_line_ends t h.1)

no_colons : (t : Text) → AllPlain t → has_char b':' t ≡ false
unfolding AllPlain has_char
no_colons [] h = refl
no_colons (c ∷ t) h = rw h.0.no_colon (no_colons t h.1)

no_slashes : (t : Text) → AllPlain t → has_char b'/' t ≡ false
unfolding AllPlain has_char
no_slashes [] h = refl
no_slashes (c ∷ t) h = rw h.0.no_slash (no_slashes t h.1)

no_end_colon : (t : Text) → AllPlain t → ends_with t (codes ":") ≡ false
unfolding AllPlain
no_end_colon [] h = refl
no_end_colon (c ∷ t) h = ground (arith, h.0.no_colon, no_end_colon t h.1)

no_comments : (t : Text) → AllPlain t → before_comment false false t ≡ none
unfolding AllPlain before_comment
no_comments [] h = refl
no_comments (c ∷ t) h = rw (h.0.no_apostrophe, h.0.no_quote, h.0.no_hash, no_comments t h.1) refl

-- No number begins with a letter.
module _ (c : ℕ) (t : Text) (low : b'a' ≤ c) (high : c ≤ b'z') where
  sign-letter : sign (c ∷ t) ≡ (false, c ∷ t)
  unfolding sign
  sign-letter = ground arith

  digits-letter : digits (c ∷ t) ≡ (0, 0, c ∷ t)
  unfolding digits
  digits-letter = go t
    where
      go : (t : Text) → digits_from 0 0 (c ∷ t) ≡ (0, 0, c ∷ t)
      go [] = rw (letter-no_digit c low high, digits_from) refl
      go (d ∷ t) = rw (letter-no_digit c low high, digits_from) (ground arith)

  no_point : (c == b'.') ≡ false
  no_point = ground arith

  no_zero : starts_with (c ∷ t) (codes "0") ≡ false
  no_zero = ground arith

  no_quoting : is_quoted (c ∷ t) ≡ false
  unfolding is_quoted
  no_quoting = ground arith

  no_flow : is_flow (c ∷ t) ≡ false
  unfolding is_flow
  no_flow = ground arith

  no_opening : opens_block (c ∷ t) ≡ false
  no_opening = ground arith

module _ (c : ℕ) (t : Text) (w : IsWord (c ∷ t)) where
  bare_strip : strip (c ∷ t) ≡ c ∷ t
  unfolding strip
  bare_strip =
      let h = no_spaces (c ∷ t) (word-AllPlain c t w) in
      rw (lstrip-All (c ∷ t) h, rstrip-All (c ∷ t) h) refl

  no_int : parse_int (c ∷ t) ≡ none
  unfolding parse_int
  no_int = rw (bare_strip, sign-letter c t w.0 w.1, digits-letter c t w.0 w.1) refl

  no_float : parse_float (c ∷ t) ≡ none
  unfolding parse_float
  no_float =
      rw (bare_strip, sign-letter c t w.0 w.1, digits-letter c t w.0 w.1, no_point c t w.0 w.1) refl

  try_float-word : try_float (c ∷ t) ≡ none
  unfolding try_float
  try_float-word = ground (arith, no_float)

  plain-word : plain (c ∷ t) ≡ none
  unfolding plain try_int
  plain-word =
      rw (w.3, w.4, w.5, no_quoting c t w.0 w.1, no_zero c t w.0 w.1, no_int, try_float-word) refl

  means-word : parse_scalar (c ∷ t) ≡ ok (str (c ∷ t))
  unfolding parse_scalar scalar
  means-word = rw (plain-word, scalar, no_flow c t w.0 w.1) refl

pub IsWord-IsText : (t : Text) → IsWord t → IsText (str t) t
unfolding is_inline_map
IsWord-IsText [] w = absurd w
IsWord-IsText (c ∷ t) w =
    let h = word-AllPlain c t w in
    record {
      full = refl;
      bare = lstrip-All (c ∷ t) (no_spaces (c ∷ t) h);
      tight = rstrip-All (c ∷ t) (no_spaces (c ∷ t) h);
      no_colon = no_end_colon (c ∷ t) h;
      no_block = no_opening c t w.0 w.1;
      no_map = rw (no_colons (c ∷ t) h) refl;
      means = means-word c t w;
    }

pub IsWord-IsInline : (t : Text) → IsWord t → IsInline t
IsWord-IsInline [] w = absurd w
IsWord-IsInline (c ∷ t) w =
    let h = word-AllPlain c t w in
    record {
      full = refl;
      bare = lstrip-All (c ∷ t) (no_spaces (c ∷ t) h);
      tight = rstrip-All (c ∷ t) (no_spaces (c ∷ t) h);
      one_line = no_line_ends (c ∷ t) h;
      no_comment = no_comments (c ∷ t) h;
    }

pub IsWord-IsName : (t : Text) → IsWord t → IsName t
IsWord-IsName [] w = absurd w
IsWord-IsName (c ∷ t) w = no_slashes (c ∷ t) (word-AllPlain c t w)

chars_ascii : (t : Text) → All (λ x. is_word_char x ≡ true) t → all (λ c. ltb c 128) t ≡ true
chars_ascii [] h = refl
chars_ascii (c ∷ t) h = ground (arith, chars_ascii t h.1)

pub IsWord-ascii : (t : Text) → IsWord t → all (λ c. ltb c 128) t ≡ true
IsWord-ascii [] w = absurd w
IsWord-ascii (c ∷ t) w = chars_ascii (c ∷ t) (letter_char c t w, w.2)
