-- ===== src/Yaml/Block/Print/Steps.antt =====
-- One step of each block parser on a printed line.
use gitz.Common.{
  ℕ, suc, ◌<◌, ◌≤◌, ◌≡◌, refl, ap, ltb, true, false, List, [], ◌∷◌, ◌++◌, Text, same, arith, ok,
  ◌>>=◌, some,
}
use gitz.Common.Str.{strip, is_empty}
use gitz.Yaml.{Value, Values, Fields, null, seq, dict, nil, end, field, put, update, append}
use gitz.Yaml.Clean.{Line}
use gitz.Yaml.Scalar.{parse_scalar, init}
use gitz.Yaml.Block.{
  nested_indent, extra_indent, scalar_then, parse_block, parse_nested, parse_map, parse_extra,
  parse_item, parse_list,
}
use gitz.Yaml.Block.Print.{entry_text, key_text, item_text, IsKey}
use gitz.Yaml.Block.Print.Texts.{IsText}
use gitz.Yaml.Block.Print.Keys.{
  key_of-IsKey, rest_of-entry_text, rest_of-key_text, is_item-IsKey, has_char-key, opens_block-key,
  is_key_only-key_text, is_key_only-entry_text, is_key_only-IsText, is_inline_map-IsKey,
  item_of-item_text, strip-key,
}

-- Nothing follows that is indented as deep, or deeper.
abbrev pub Below : ℕ → List Line → Type 0
Below i [] = Unit
Below i ((ind, content) ∷ ls) = ind < i

abbrev pub NotDeeper : ℕ → List Line → Type 0
NotDeeper i [] = Unit
NotDeeper i ((ind, content) ∷ ls) = ind ≤ i

ltb-true : (m n : ℕ) → m < n → ltb m n ≡ true
ltb-true m n h = ground arith

ltb-false : (m n : ℕ) → n ≤ m → ltb m n ≡ false
ltb-false m n h = ground arith

pub parse_map-Below :
    (f i : ℕ) (acc : Fields) (rest : List Line)
    → Below i rest
    → parse_map (suc f) acc rest i ≡ ok (acc, rest)
unfolding parse_map
parse_map-Below f i acc [] h = refl
parse_map-Below f i acc ((ind, content) ∷ ls) h = rw (ltb-true ind i h) refl

pub parse_list-Below :
    (f i : ℕ) (acc : Values) (rest : List Line)
    → Below i rest
    → parse_list (suc f) acc rest i ≡ ok (acc, rest)
unfolding parse_list
parse_list-Below f i acc [] h = refl
parse_list-Below f i acc ((ind, content) ∷ ls) h = rw (ltb-true ind i h) refl

scalar_then-ok :
    (t : Text) (ls : List Line) {v : Value} → parse_scalar t ≡ ok v → scalar_then t ls ≡ ok (v, ls)
unfolding scalar_then
scalar_then-ok t ls h = rw h refl

pub parse_map-entry_text :
    (f i : ℕ) (acc : Fields) (k t : Text) (ls : List Line) {v : Value}
    → IsKey k
    → IsText v t
    → parse_map (suc f) acc ((i, entry_text k t) ∷ ls) i ≡ parse_map f (put k v acc) ls i
unfolding parse_map
parse_map-entry_text f i acc k t ls h w =
    rw
      (
        ltb-false i i (omega arith),
        is_item-IsKey k (b' ' ∷ t) h,
        has_char-key k (b' ' ∷ t),
        rest_of-entry_text k t h w,
        w.no_block,
        scalar_then-ok t ls w.means,
        key_of-IsKey k (b' ' ∷ t) h,
      )
      refl

pub parse_map-key_text :
    (f i : ℕ) (acc : Fields) (k : Text) (ls : List Line)
    → IsKey k
    → parse_map (suc f) acc ((i, key_text k) ∷ ls) i
      ≡ (parse_nested f null ls i >>= λ r. parse_map f (put k r.0 acc) r.1 i)
unfolding parse_map
parse_map-key_text f i acc k ls h =
    rw
      (
        ltb-false i i (omega arith),
        is_item-IsKey k [] h,
        has_char-key k [],
        rest_of-key_text k h,
        key_of-IsKey k [] h,
      )
      refl

pub parse_nested-deeper :
    (f i j : ℕ) (other : Value) (content : Text) (ls : List Line)
    → i < j
    → parse_nested (suc f) other ((j, content) ∷ ls) i ≡ parse_block f ((j, content) ∷ ls) j
unfolding parse_nested nested_indent
parse_nested-deeper f i j other content ls h = rw (ltb-true i j h, parse_nested) refl

pub parse_block-item :
    (f i : ℕ) (u : Text) (ls : List Line)
    → parse_block (suc f) ((i, item_text u) ∷ ls) i
      ≡ (parse_list f nil ((i, item_text u) ∷ ls) i >>= λ r. ok (seq r.0, r.1))
unfolding parse_block
parse_block-item f i u ls = rw (ltb-false i i (omega arith)) refl

pub parse_block-key :
    (f i : ℕ) (k x : Text) (ls : List Line)
    → IsKey k
    → parse_block (suc f) ((i, k ++ (b':' ∷ x)) ∷ ls) i
      ≡ (parse_map f end ((i, k ++ (b':' ∷ x)) ∷ ls) i >>= λ r. ok (dict r.0, r.1))
unfolding parse_block
parse_block-key f i k x ls h =
    rw (ltb-false i i (omega arith), is_item-IsKey k x h, has_char-key k x) refl

pub parse_list-item_text :
    (f i : ℕ) (acc : Values) (u : Text) (ls : List Line)
    → strip u ≡ u
    → parse_list (suc f) acc ((i, item_text u) ∷ ls) i
      ≡ (parse_item f u ls i >>= λ r. parse_list f (append acc r.0) r.1 i)
unfolding parse_list
parse_list-item_text f i acc u ls h = rw (ltb-false i i (omega arith), item_of-item_text u h) refl

pub parse_item-IsText :
    (f i : ℕ) (t : Text) (ls : List Line) {v : Value}
    → IsText v t
    → parse_item (suc f) t ls i ≡ ok (v, ls)
unfolding parse_item
parse_item-IsText f i t ls w =
    rw (w.no_block, is_key_only-IsText t w, w.no_map, scalar_then-ok t ls w.means) refl

init-key_text : (k : Text) → init (key_text k) ≡ k
unfolding init
init-key_text [] = refl
init-key_text (c ∷ []) = refl
init-key_text (c ∷ d ∷ k) = ap (λ r. c ∷ r) (init-key_text (d ∷ k))

pub parse_item-key_text :
    (f i : ℕ) (k : Text) (ls : List Line)
    → IsKey k
    → parse_item (suc f) (key_text k) ls i
      ≡ (parse_nested f null ls i >>= λ r. ok (dict (field k r.0 end), r.1))
unfolding parse_item
parse_item-key_text f i k ls h =
    rw (opens_block-key k [], is_key_only-key_text k h, init-key_text k, strip-key k h) refl

same-nil : (t : Text) → is_empty t ≡ false → same t [] ≡ false
same-nil [] h = cc
same-nil (c ∷ t) h = refl

pub parse_item-entry_text :
    (f i : ℕ) (k t : Text) (ls : List Line) {v : Value}
    → IsKey k
    → IsText v t
    → parse_item (suc f) (entry_text k t) ls i
      ≡ (parse_extra f (field k v end) ls i >>= λ m. ok (dict m.0, m.1))
unfolding parse_item
parse_item-entry_text f i k t ls h w =
    rw
      (
        opens_block-key k (b' ' ∷ t),
        is_key_only-entry_text k t w,
        is_inline_map-IsKey k (b' ' ∷ t) h,
        rest_of-entry_text k t h w,
        same-nil t w.full,
        scalar_then-ok t ls w.means,
        key_of-IsKey k (b' ' ∷ t) h,
      )
      refl

pub parse_extra-NotDeeper :
    (f i : ℕ) (m : Fields) (ls : List Line)
    → NotDeeper i ls
    → parse_extra (suc f) m ls i ≡ ok (m, ls)
unfolding parse_extra extra_indent
parse_extra-NotDeeper f i m [] h = refl
parse_extra-NotDeeper f i m ((ind, content) ∷ ls) h = rw (ltb-false i ind h, parse_extra) refl

extra_indent-key :
    (i j : ℕ) (k x : Text) (ls : List Line)
    → i < j
    → IsKey k
    → extra_indent i ((j, k ++ (b':' ∷ x)) ∷ ls) ≡ some j
unfolding extra_indent
extra_indent-key i j k x ls l h = rw (ltb-true i j l, is_item-IsKey k x h) refl

pub parse_extra-key :
    (f i j : ℕ) (m : Fields) (k x : Text) (ls : List Line)
    → i < j
    → IsKey k
    → parse_extra (suc f) m ((j, k ++ (b':' ∷ x)) ∷ ls) i
      ≡ (parse_map f end ((j, k ++ (b':' ∷ x)) ∷ ls) j >>= λ r. parse_extra f (update m r.0) r.1 i)
unfolding parse_extra extra_indent
parse_extra-key f i j m k x ls l h = rw (extra_indent-key i j k x ls l h, parse_extra) refl
