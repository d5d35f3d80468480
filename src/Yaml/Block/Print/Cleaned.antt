-- ===== src/Yaml/Block/Print/Cleaned.antt =====
-- The printed text of a block, cleaned and read by `load`.
use gitz.Common.{
  ℕ, zero, suc, ◌+◌, ◌==◌, ◌≡◌, refl, sym, ◌∙◌, false, List, [], ◌∷◌, ◌++◌, Text, All, All-append,
  append_assoc, length-append, length-replicate, arith, none, some, inl, inr, ok,
}
use gitz.Common.Str.{is_space, is_line_end, is_empty, strip, lstrip, splitlines, splitlines-append}
use gitz.Yaml.{Value}
use gitz.Yaml.Clean.{
  Line, before_comment, cut_comment, strip_comment, lstrip_blanks, indent_of, clean_line, cons_line,
  clean_lines, clean,
}
use gitz.Yaml.Clean.Lines.{lstrip-no_tab, lstrip-cases}
use gitz.Yaml.Block.{load}
use gitz.Yaml.Block.Print.{lines, IsBlock, blanks, print_lines, print}
use gitz.Yaml.Block.Print.Texts.{rstrip-append}
use gitz.Yaml.Block.Print.Inline.{IsInline}
use gitz.Yaml.Block.Print.Printed.{AreInline, lines-AreInline}
use gitz.Yaml.Block.Print.Whole.{load-lines}

-- An indent is white space.
lstrip-blanks : (n : ℕ) (t : Text) → lstrip (blanks n ++ t) ≡ lstrip t
unfolding lstrip is_space
lstrip-blanks zero t = refl
lstrip-blanks (suc n) t = lstrip-blanks n t

before_comment-blanks :
    (n : ℕ) (t : Text)
    → before_comment false false t ≡ none
    → before_comment false false (blanks n ++ t) ≡ none
unfolding before_comment
before_comment-blanks zero t h = h
before_comment-blanks (suc n) t h = rw (before_comment-blanks n t h) refl

blanks-one_line : (n : ℕ) → All (λ c. is_line_end c ≡ false) (blanks n)
unfolding is_line_end
blanks-one_line zero = tt
blanks-one_line (suc n) = (refl, blanks-one_line n)

lstrip_blanks-blanks : (n : ℕ) (t : Text) → lstrip_blanks (blanks n ++ t) ≡ lstrip_blanks t
unfolding lstrip_blanks
lstrip_blanks-blanks zero t = refl
lstrip_blanks-blanks (suc n) t = lstrip_blanks-blanks n t

space_is_no_text : (c : ℕ) → is_space c ≡ false → (c == b' ') ≡ false
unfolding is_space
space_is_no_text c h = ground arith

-- A text that begins with no white space begins with no blank.
lstrip_blanks-bare : (t : Text) → lstrip t ≡ t → is_empty t ≡ false → lstrip_blanks t ≡ t
unfolding lstrip_blanks
lstrip_blanks-bare t bare full = elim (lstrip-cases t) [
  | inl e ↦ let nothing = sym bare ∙ e in let x = rw nothing at full in cc
  | inr (c, r, e, h) ↦ rw (sym bare ∙ e, space_is_no_text c h) refl
]

indent_of-blanks : (n : ℕ) (t : Text) → IsInline t → indent_of (blanks n ++ t) ≡ n
unfolding indent_of
indent_of-blanks n t w =
    rw (lstrip_blanks-blanks n t, lstrip_blanks-bare t w.bare w.full)
      (omega (arith, length-append (blanks n) t, length-replicate {A = ℕ} n b' '))

-- A printed line is cleaned to the line that it was printed for.
clean_line-blanks :
    (number n : ℕ) (t : Text) → IsInline t → clean_line number (blanks n ++ t) ≡ ok (some (n, t))
unfolding clean_line strip strip_comment cut_comment
clean_line-blanks number n t w =
    rw
      (
        rstrip-append (blanks n) t w.full w.tight,
        before_comment-blanks n t w.no_comment,
        lstrip-no_tab (blanks n ++ t),
        indent_of-blanks n t w,
        lstrip-blanks n t,
        w.bare,
        w.tight,
        w.full,
      )
      refl

pub clean_lines-print_lines :
    (number : ℕ) (ls : List Line)
    → AreInline ls
    → clean_lines number (splitlines (print_lines ls)) ≡ ok ls
unfolding clean_lines print_lines cons_line
clean_lines-print_lines number [] h = unfold splitlines in refl
clean_lines-print_lines number ((i, t) ∷ ls) h =
    rw
      (
        sym (append_assoc (blanks i) t (b'\n' ∷ print_lines ls)),
        splitlines-append (blanks i ++ t) (print_lines ls)
            (All-append (λ c. is_line_end c ≡ false) (blanks i) t (blanks-one_line i) h.0.one_line),
        clean_line-blanks number i t h.0,
        clean_lines-print_lines (number + 1) ls h.1,
      )
      refl

-- `load` reads back the text that `print` writes for a list or a mapping that is not empty, where:
-- the keys of a mapping are different and have no white space, colon, quote, `#`, `[` or `{`; a value
-- is null, a Boolean, a whole number of at most 4300 digits, a text without line ends and double
-- quotes, an empty list, a list that is not empty, or a mapping that is not empty, at any depth; and
-- an item of a list is no list that is not empty, and if it is a mapping whose first value is not on
-- one line, it has only that key. The printed text has no comments.
pub load-print : (v : Value) → IsBlock v → load (print v) ≡ ok v
unfolding load print clean
load-print v h =
    rw (clean_lines-print_lines 1 (lines 0 v) (lines-AreInline 0 v h)) (load-lines 0 v h)
