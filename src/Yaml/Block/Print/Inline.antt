-- ===== src/Yaml/Block/Print/Inline.antt =====
-- What the cleaning of `load` needs of a printed line: no line end, no white space at its ends, no
-- comment.
use gitz.Common.{
  ℕ, ◌==◌, ◌≡◌, refl, Bool, true, false, [], ◌∷◌, ◌++◌, Text, All, All-append, Bool-cases, arith,
  none, inl, inr,
}
use gitz.Common.Str.{is_space, is_line_end, is_empty, lstrip, rstrip}
use gitz.Yaml.{Value, null, bool, int, float, str, seq, dict, nil, cons}
use gitz.Yaml.Clean.{before_comment}
use gitz.Yaml.Number.Printed.{int_text-full}
use gitz.Yaml.Block.Print.Numerals.{
  int_text-one_line, before_comment-int_text, lstrip-int_text, rstrip-int_text,
}
use gitz.Yaml.Block.Print.{
  flat_text, entry_text, key_text, item_text, key_char, text_char, IsKey, IsQuotable, IsFlat,
}
use gitz.Yaml.Block.Print.Texts.{rstrip-append, key_char-parts, flat_text-IsText, is_empty-append}

pub record IsInline (t : Text) : Type 0 where
  pub full : is_empty t ≡ false
  pub bare : lstrip t ≡ t
  pub tight : rstrip t ≡ t
  pub one_line : All (λ c. is_line_end c ≡ false) t
  pub no_comment : before_comment false false t ≡ none

key_char-one_line : (c : ℕ) → key_char c ≡ true → is_line_end c ≡ false
unfolding key_char is_space is_line_end
key_char-one_line c h = ground arith

text_char-one_line : (c : ℕ) → text_char c ≡ true → is_line_end c ≡ false
unfolding text_char is_line_end
text_char-one_line c h = ground arith

text_char-unquoted : (c : ℕ) → text_char c ≡ true → (c == b'"') ≡ false
unfolding text_char
text_char-unquoted c h = ground arith

All-map :
    (p q : ℕ → Bool) (v w : Bool) (t : Text)
    → ((c : ℕ) → p c ≡ v → q c ≡ w)
    → All (λ c. p c ≡ v) t
    → All (λ c. q c ≡ w) t
All-map p q v w [] f h = tt
All-map p q v w (c ∷ t) f h = (f c h.0, All-map p q v w t f h.1)

-- No comment begins in a key, or between the double quotes of a text.
before_comment-key :
    (k s : Text)
    → IsKey k
    → before_comment false false s ≡ none
    → before_comment false false (k ++ s) ≡ none
unfolding before_comment
before_comment-key [] s h e = e
before_comment-key (c ∷ k) s h e =
    let (a, b, t, q, d, x, y) = key_char-parts c h.0 in
    rw (q, t, d, before_comment-key k s h.1 e) refl

before_comment-text :
    (s : Text) → IsQuotable s → before_comment false true (s ++ (b'"' ∷ [])) ≡ none
unfolding before_comment
before_comment-text [] h = refl
before_comment-text (c ∷ s) h = elim (Bool-cases (c == b'\'')) [
  | inl e ↦ rw (e, text_char-unquoted c h.0, before_comment-text s h.1) (ground arith)
  | inr e ↦ rw (e, text_char-unquoted c h.0, before_comment-text s h.1) (ground arith)
]

quoted-IsInline : (s : Text) → IsQuotable s → IsInline (b'"' ∷ (s ++ (b'"' ∷ [])))
unfolding before_comment lstrip is_space is_line_end flat_text
quoted-IsInline s h = record {
  full = refl;
  bare = refl;
  tight = (flat_text-IsText (str s) h).tight;
  one_line = (
    refl,
    All-append (λ c. is_line_end c ≡ false) s (b'"' ∷ [])
        (All-map text_char is_line_end true false s text_char-one_line h) (refl, tt),
  );
  no_comment = rw (before_comment-text s h) refl;
}

pub flat_text-IsInline : (v : Value) → IsFlat v → IsInline (flat_text v)
unfolding flat_text lstrip rstrip is_space is_line_end before_comment
flat_text-IsInline null h = record {
  full = refl;
  bare = refl;
  tight = refl;
  one_line = (refl, (refl, (refl, (refl, tt))));
  no_comment = refl;
}
flat_text-IsInline (bool true) h = record {
  full = refl;
  bare = refl;
  tight = refl;
  one_line = (refl, (refl, (refl, (refl, tt))));
  no_comment = refl;
}
flat_text-IsInline (bool false) h = record {
  full = refl;
  bare = refl;
  tight = refl;
  one_line = (refl, (refl, (refl, (refl, (refl, tt)))));
  no_comment = refl;
}
flat_text-IsInline (seq nil) h = record {
  full = refl;
  bare = refl;
  tight = refl;
  one_line = (refl, (refl, tt));
  no_comment = refl;
}
flat_text-IsInline (seq (cons v vs)) h = absurd h
flat_text-IsInline (int n) h = record {
  full = int_text-full n;
  bare = lstrip-int_text n;
  tight = rstrip-int_text n;
  one_line = int_text-one_line n;
  no_comment = before_comment-int_text n;
}
flat_text-IsInline (float x) h = absurd h
flat_text-IsInline (dict fs) h = absurd h
flat_text-IsInline (str s) h = quoted-IsInline s h

keyed-IsInline :
    (k y : Text)
    → IsKey k
    → rstrip (b':' ∷ y) ≡ b':' ∷ y
    → All (λ c. is_line_end c ≡ false) y
    → before_comment false false (b':' ∷ y) ≡ none
    → IsInline (k ++ (b':' ∷ y))
keyed-IsInline k y h tight one none_begins = record {
  full = is_empty-append k (b':' ∷ y) refl;
  bare = lstrip-keyed k h;
  tight = rstrip-append k (b':' ∷ y) refl tight;
  one_line =
      All-append (λ c. is_line_end c ≡ false) k (b':' ∷ y)
        (All-map key_char is_line_end true false k key_char-one_line h)
        (unfold is_line_end in (refl, one));
  no_comment = before_comment-key k (b':' ∷ y) h none_begins;
}
  where
    lstrip-keyed : (k : Text) → IsKey k → lstrip (k ++ (b':' ∷ y)) ≡ k ++ (b':' ∷ y)
    lstrip-keyed [] h = unfold lstrip is_space in refl
    lstrip-keyed (c ∷ k) h = unfold lstrip in rw (key_char-parts c h.0).0 refl

pub entry_text-IsInline : (k t : Text) → IsKey k → IsInline t → IsInline (entry_text k t)
unfolding before_comment is_line_end
entry_text-IsInline k t h w =
    keyed-IsInline k (b' ' ∷ t) h (rstrip-append (b':' ∷ b' ' ∷ []) t w.full w.tight)
      (refl, w.one_line) (rw w.no_comment refl)

pub key_text-IsInline : (k : Text) → IsKey k → IsInline (key_text k)
unfolding before_comment rstrip is_space
key_text-IsInline k h = keyed-IsInline k [] h refl tt refl

pub item_text-IsInline : (u : Text) → IsInline u → IsInline (item_text u)
unfolding before_comment is_line_end lstrip is_space
item_text-IsInline u w = record {
  full = refl;
  bare = refl;
  tight = rstrip-append (b'-' ∷ b' ' ∷ []) u w.full w.tight;
  one_line = (refl, (refl, w.one_line));
  no_comment = rw w.no_comment refl;
}
