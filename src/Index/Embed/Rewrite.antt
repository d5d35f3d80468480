-- ===== src/Index/Embed/Rewrite.antt =====
-- An array of `fixtures.zig` that has been rewritten is read back: `embed_fixtures_zig` against
-- `extract_zig_raw`.
use gitz.Common.{
  ℕ, ◌≤◌, ◌<◌, ◌≡◌, refl, ◌∙◌, sym, true, [], ◌∷◌, ◌++◌, Bytes, Text, codes, none, some, All, all,
  length, length-append, append-nil, append_assoc, ok, arith, ltb,
}
use gitz.Common.Str.{literal, run_of, run_of-append}
use gitz.Index.Embed.{
  outside, numbers, zig_byte_array, opening, is_body, raw_at, find_raw, to_bytes, extract_zig_raw,
  after_end, rewrite_at, rewrite_first, embed_one,
}
use gitz.Index.Embed.Numbers.{numbers-zig_byte_array}
use gitz.Index.Embed.Printed.{IsPlain, is_body-IsPlain, append-IsPlain, zig_byte_array-IsPlain}

literal-append : (p s : Text) → literal p (p ++ s) ≡ some s
unfolding literal
literal-append [] s = refl
literal-append (x ∷ p) s = ground (arith, literal-append p s)

literal-longer : (p q s : Text) → literal p s ≡ none → literal (p ++ q) s ≡ none
unfolding literal
literal-longer [] q s h = cc
literal-longer (x ∷ p) q [] h = refl
literal-longer (x ∷ p) q (c ∷ s) h = ground (arith, literal-longer p q s)

literal-none_append :
    (p s r : Text) → length p ≤ length s → literal p s ≡ none → literal p (s ++ r) ≡ none
unfolding literal
literal-none_append [] s r e h = cc
literal-none_append (x ∷ p) [] r e h = absurd (omega arith)
literal-none_append (x ∷ p) (c ∷ s) r e h = ground (arith, literal-none_append p s r)

-- No occurrence of the opening begins in the text.
abbrev pub IsFree : Text → Text → Type 0
IsFree start [] = Unit
IsFree start (c ∷ before) = (literal start (c ∷ (before ++ start)) ≡ none) × IsFree start before

literal-IsFree :
    (start before r : Text) (c : ℕ)
    → literal start (c ∷ (before ++ start)) ≡ none
    → literal start (c ∷ (before ++ (start ++ r))) ≡ none
literal-IsFree start before r c h = rw (sym (append_assoc before start r)) (
    literal-none_append start (c ∷ (before ++ start)) r (omega (arith, length-append before start))
      h)

raw_at-none : (start s : Text) → literal start s ≡ none → raw_at start s ≡ none
unfolding raw_at
raw_at-none start s h = rw (h, raw_at) refl

rewrite_at-none : (start body s : Text) → literal start s ≡ none → rewrite_at start body s ≡ none
unfolding rewrite_at
rewrite_at-none start body s h = rw (literal-longer start (codes "\n") s h, rewrite_at) refl

find_raw-IsFree :
    (start before r : Text)
    → IsFree start before
    → find_raw start (before ++ (start ++ r)) ≡ find_raw start (start ++ r)
unfolding find_raw
find_raw-IsFree start [] r h = refl
find_raw-IsFree start (c ∷ before) r h =
    let s = c ∷ (before ++ (start ++ r)) in
    rw (raw_at-none start s (literal-IsFree start before r c h.0), find_raw)
      (find_raw-IsFree start before r h.1)

find_raw-here :
    (start s : Text) {body : Text} → raw_at start s ≡ some body → find_raw start s ≡ some body
unfolding find_raw
find_raw-here start [] h = h
find_raw-here start (c ∷ s) h = rw (h, find_raw) refl

rewrite_first-here :
    (start body s : Text) {t : Text}
    → rewrite_at start body s ≡ some t
    → rewrite_first start body s ≡ some t
unfolding rewrite_first
rewrite_first-here start body [] h = h
rewrite_first-here start body (c ∷ s) h = rw (h, rewrite_first) refl

rewrite_first-IsFree :
    (start body before r : Text) {t : Text}
    → IsFree start before
    → rewrite_at start body (start ++ r) ≡ some t
    → rewrite_first start body (before ++ (start ++ r)) ≡ some (before ++ t)
unfolding rewrite_first
rewrite_first-IsFree start body [] r f h = rewrite_first-here start body (start ++ r) h
rewrite_first-IsFree start body (c ∷ before) r f h =
    let s = c ∷ (before ++ (start ++ r)) in
    rw
      (
        rewrite_at-none start body s (literal-IsFree start before r c f.0),
        rewrite_first,
        rewrite_first-IsFree start body before r f.1 h,
      )
      refl

-- The rewriting of an array at the beginning of the text.
unfoldable pub rewritten : Text → Text → Text → Text
rewritten start body rest = start ++ (codes "\n" ++ (body ++ (codes "\n" ++ (codes "};" ++ rest))))

rewrite_at-opening :
    (start body inner : Text) {rest : Text}
    → after_end inner ≡ some rest
    → rewrite_at start body (start ++ (codes "\n" ++ inner)) ≡ some (rewritten start body rest)
unfolding rewrite_at rewritten
rewrite_at-opening start body inner h =
    let found : literal (start ++ codes "\n") (start ++ (codes "\n" ++ inner)) ≡ some inner =
      rw (sym (append_assoc start (codes "\n") inner))
        (literal-append (start ++ codes "\n") inner) in
    rw (found, rewrite_at, h) refl

raw_at-rewritten :
    (start body rest : Text)
    → IsPlain body
    → raw_at start (rewritten start body rest) ≡ some (b'\n' ∷ (body ++ codes "\n"))
unfolding raw_at rewritten
raw_at-rewritten start body rest h =
    let inside = body ++ codes "\n" in
    let ends : run_of is_body (body ++ (codes "\n" ++ (codes "};" ++ rest)))
        ≡ (inside, codes "};" ++ rest) =
      rw (sym (append_assoc body (codes "\n") (codes "};" ++ rest))) (
        run_of-append is_body inside b'}' (codes ";" ++ rest)
          (is_body-IsPlain inside (append-IsPlain body (codes "\n") h (refl, tt))) refl) in
    rw
      (
        literal-append start (codes "\n" ++ (body ++ (codes "\n" ++ (codes "};" ++ rest)))),
        raw_at,
        ends,
      )
      refl

find_raw-rewritten :
    (start body before rest : Text)
    → IsFree start before
    → IsPlain body
    → find_raw start (before ++ rewritten start body rest) ≡ some (b'\n' ∷ (body ++ codes "\n"))
unfolding rewritten
find_raw-rewritten start body before rest f h =
    let r = codes "\n" ++ (body ++ (codes "\n" ++ (codes "};" ++ rest))) in
    find_raw-IsFree start before r f
    ∙ find_raw-here start (start ++ r) (raw_at-rewritten start body rest h)

numbers-body :
    (bs : Bytes)
    → All (λ b. b < 256) bs
    → numbers outside (b'\n' ∷ (zig_byte_array bs ++ codes "\n")) ≡ bs
unfolding numbers
numbers-body bs h = numbers-zig_byte_array bs (codes "\n") h ∙ append-nil bs

to_bytes-bytes : (name : Text) (bs : Bytes) → All (λ b. b < 256) bs → to_bytes name bs ≡ ok bs
unfolding to_bytes
to_bytes-bytes name bs h = rw (small bs h) refl
  where
    small : (bs : Bytes) → All (λ b. b < 256) bs → all (λ n. ltb n 256) bs ≡ true
    small [] h = refl
    small (b ∷ bs) h = ground (arith, small bs h.1)

pub embed_one-opening :
    (name : Text) (bs : Bytes) (before inner : Text) {rest : Text}
    → IsFree (opening name) before
    → after_end inner ≡ some rest
    → embed_one name bs (before ++ (opening name ++ (codes "\n" ++ inner)))
      ≡ ok (before ++ rewritten (opening name) (zig_byte_array bs) rest)
unfolding embed_one
embed_one-opening name bs before inner f e =
    let start = opening name in
    let body = zig_byte_array bs in
    let done =
      rewrite_first-IsFree start body before (codes "\n" ++ inner) f
        (rewrite_at-opening start body inner e) in
    rw (done, embed_one) refl

pub extract_zig_raw-rewritten :
    (name : Text) (bs : Bytes) (before rest : Text)
    → All (λ b. b < 256) bs
    → IsFree (opening name) before
    → extract_zig_raw (before ++ rewritten (opening name) (zig_byte_array bs) rest) name ≡ ok bs
unfolding extract_zig_raw
extract_zig_raw-rewritten name bs before rest h f =
    let found =
      find_raw-rewritten (opening name) (zig_byte_array bs) before rest f
        (zig_byte_array-IsPlain bs h) in
    rw (found, extract_zig_raw, numbers-body bs h) (to_bytes-bytes name bs h)

-- A byte string that is embedded into a Zig text is extracted from the new text again, if no opening
-- of its array begins before the array and the array has an end.
pub embed-extract :
    (name : Text) (bs : Bytes) (before inner : Text) {rest : Text}
    → All (λ b. b < 256) bs
    → IsFree (opening name) before
    → after_end inner ≡ some rest
    → (text : Text) × (embed_one name bs (before ++ (opening name ++ (codes "\n" ++ inner)))
        ≡ ok text)
      × (extract_zig_raw text name ≡ ok bs)
embed-extract name bs before inner {rest} h f e = (
  before ++ rewritten (opening name) (zig_byte_array bs) rest,
  embed_one-opening name bs before inner f e,
  extract_zig_raw-rewritten name bs before rest h f,
)
