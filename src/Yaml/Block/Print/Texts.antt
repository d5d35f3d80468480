-- ===== src/Yaml/Block/Print/Texts.antt =====
-- What the block parser reads off a printed key, value or item.
use gitz.Common.{
  ℕ, ◌≡◌, refl, ap, ◌==◌, true, false, [], ◌∷◌, ◌++◌, Text, codes, same, arith, ok, some,
}
use gitz.Common.Str.{is_space, is_empty, lstrip, rstrip, strip, ends_with, has_char}
use gitz.Yaml.{Value, YamlError, null, bool, int, float, str, seq, dict, nil, cons, Values}
use gitz.Yaml.Scalar.{parse_scalar, scalar, plain, is_quoted, middle, init}
use gitz.Yaml.Block.{opens_block, is_inline_map}
use gitz.Yaml.Number.Printed.{int_text, int_text-full}
use gitz.Yaml.Block.Print.Numerals.{
  plain-int_text, opens_block-int_text, is_inline_map-int_text, ends_with-int_text, lstrip-int_text,
  rstrip-int_text,
}
use gitz.Yaml.Block.Print.{flat_text, key_char, IsFlat}

pub is_empty-append : (s t : Text) → is_empty t ≡ false → is_empty (s ++ t) ≡ false
is_empty-append [] t h = h
is_empty-append (c ∷ s) t h = refl

pub rstrip-append : (s t : Text) → is_empty t ≡ false → rstrip t ≡ t → rstrip (s ++ t) ≡ s ++ t
unfolding rstrip
rstrip-append [] t h e = e
rstrip-append (c ∷ s) t h e = ground (arith, rstrip-append s t h e, is_empty-append s t h)

same-append_nil : (s t : Text) (x : ℕ) → same (s ++ (x ∷ t)) [] ≡ false
same-append_nil [] t x = refl
same-append_nil (c ∷ s) t x = refl

pub ends_with-append :
    (s t : Text) (x d : ℕ) → ends_with (s ++ (x ∷ t)) (d ∷ []) ≡ ends_with (x ∷ t) (d ∷ [])
ends_with-append [] t x d = refl
ends_with-append (c ∷ s) t x d = ground (arith, same-append_nil s t x, ends_with-append s t x d)

init-append : (s : Text) (c : ℕ) → init (s ++ (c ∷ [])) ≡ s
unfolding init
init-append [] c = refl
init-append (x ∷ []) c = refl
init-append (x ∷ y ∷ s) c = ap (λ r. x ∷ r) (init-append (y ∷ s) c)

-- A quoted item is no mapping.
quoted-no_map : (s : Text) → is_inline_map (b'"' ∷ s) ≡ false
unfolding is_inline_map
quoted-no_map s = ground arith

is_quoted-quoted : (s : Text) → is_quoted (b'"' ∷ (s ++ (b'"' ∷ []))) ≡ true
unfolding is_quoted
is_quoted-quoted s = ground (arith, ends_with-append s [] b'"' b'"')

plain-quoted : (s : Text) → plain (b'"' ∷ (s ++ (b'"' ∷ []))) ≡ some (str s)
unfolding plain middle
plain-quoted s = rw (is_quoted-quoted s, plain, init-append s b'"') refl

scalar-plain : (s : Text) {v : Value} → plain s ≡ some v → parse_scalar s ≡ ok v
unfolding parse_scalar scalar
scalar-plain s h = rw (h, scalar) refl

-- What the parsers need of the text of a value.
pub record IsText (v : Value) (t : Text) : Type 0 where
  pub full : is_empty t ≡ false
  pub bare : lstrip t ≡ t
  pub tight : rstrip t ≡ t
  pub no_colon : ends_with t (codes ":") ≡ false
  pub no_block : opens_block t ≡ false
  pub no_map : is_inline_map t ≡ false
  pub means : parse_scalar t ≡ ok v

pub flat_text-IsText : (v : Value) → IsFlat v → IsText v (flat_text v)
unfolding flat_text lstrip rstrip is_space is_inline_map parse_scalar scalar plain has_char strip
    gitz.Yaml.Scalar.is_flow gitz.Yaml.Scalar.split_flow gitz.Yaml.Scalar.each
    gitz.Yaml.Number.digits gitz.Yaml.Number.sign gitz.Yaml.Number.digit
flat_text-IsText null h = record {
  full = refl;
  bare = refl;
  tight = refl;
  no_colon = refl;
  no_block = refl;
  no_map = refl;
  means = refl;
}
flat_text-IsText (bool true) h = record {
  full = refl;
  bare = refl;
  tight = refl;
  no_colon = refl;
  no_block = refl;
  no_map = refl;
  means = refl;
}
flat_text-IsText (bool false) h = record {
  full = refl;
  bare = refl;
  tight = refl;
  no_colon = refl;
  no_block = refl;
  no_map = refl;
  means = refl;
}
flat_text-IsText (seq nil) h = record {
  full = refl;
  bare = refl;
  tight = refl;
  no_colon = refl;
  no_block = refl;
  no_map = refl;
  means = refl;
}
flat_text-IsText (seq (cons v vs)) h = absurd h
flat_text-IsText (int n) h = record {
  full = int_text-full n;
  bare = lstrip-int_text n;
  tight = rstrip-int_text n;
  no_colon = ends_with-int_text n;
  no_block = opens_block-int_text n;
  no_map = is_inline_map-int_text n;
  means = scalar-plain (int_text n) (plain-int_text n h);
}
flat_text-IsText (float x) h = absurd h
flat_text-IsText (dict fs) h = absurd h
flat_text-IsText (str s) h = record {
  full = refl;
  bare = refl;
  tight = rstrip-append (b'"' ∷ s) (b'"' ∷ []) refl refl;
  no_colon = ends_with-append s [] b'"' b':';
  no_block = refl;
  no_map = quoted-no_map (s ++ (b'"' ∷ []));
  means = scalar-plain (b'"' ∷ (s ++ (b'"' ∷ []))) (plain-quoted s);
}

pub key_char-parts :
    (c : ℕ)
    → key_char c ≡ true
    → (is_space c ≡ false)
      × ((c == b':') ≡ false)
      × ((c == b'"') ≡ false)
      × ((c == b'\'') ≡ false)
      × ((c == b'#') ≡ false)
      × ((c == b'[') ≡ false)
      × ((c == b'{') ≡ false)
unfolding key_char
key_char-parts c h = ground arith

pub seq-IsFlat : (vs : Values) → vs ≡ nil → IsFlat (seq vs)
seq-IsFlat nil h = tt
seq-IsFlat (cons v vs) h = cc
