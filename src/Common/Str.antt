-- ===== src/Common/Str.antt =====
-- The methods of Python's `str` that the tools call, on lists of code points.
use Prim.Native.Nat.{ℕ}
use native.Mathlib.Omega.{arith}
use mathlib.Core.Bool.{Bool, true, false, ◌&&◌, ◌||◌}
use mathlib.Core.List.{List, [], ◌∷◌, ◌++◌, append-nil, append_assoc}
use mathlib.Core.Option.{Option, none, some}
use mathlib.Core.Path.{◌≡◌, refl, ◌∙◌}
use gitz.Common.Lists.{All}
use gitz.Common.Tests.{◌==◌, leb, if◌then◌else◌}
use gitz.Common.Texts.{Text, same}

-- `c.isspace()`
unfoldable pub is_space : ℕ → Bool
is_space c =
    leb 9 c && leb c 13
    || leb 28 c && leb c 32
    || c == 0x85
    || c == 0xa0
    || c == 0x1680
    || leb 0x2000 c && leb c 0x200a
    || c == 0x2028
    || c == 0x2029
    || c == 0x202f
    || c == 0x205f
    || c == 0x3000

-- A boundary of `splitlines`.
unfoldable pub is_line_end : ℕ → Bool
is_line_end c =
    leb 10 c && leb c 13 || leb 28 c && leb c 30 || c == 0x85 || c == 0x2028 || c == 0x2029

-- `not s`
abbrev pub is_empty : Text → Bool
is_empty [] = true
is_empty (c ∷ s) = false

unfoldable pub lstrip : Text → Text
lstrip [] = []
lstrip (c ∷ s) = if is_space c then lstrip s else c ∷ s

unfoldable pub rstrip : Text → Text
rstrip [] = []
rstrip (c ∷ s) = let rest = rstrip s in if is_space c && is_empty rest then [] else c ∷ rest

unfoldable pub strip : Text → Text
unfolding lstrip rstrip
strip s = rstrip (lstrip s)

-- `s.startswith(p)`
abbrev pub starts_with : Text → Text → Bool
starts_with s [] = true
starts_with [] (x ∷ p) = false
starts_with (c ∷ s) (x ∷ p) = c == x && starts_with s p

-- `s.endswith(p)`
abbrev pub ends_with : Text → Text → Bool
ends_with [] p = same [] p
ends_with (c ∷ s) p = same (c ∷ s) p || ends_with s p

-- `p in s`
abbrev pub contains : Text → Text → Bool
contains [] p = starts_with [] p
contains (c ∷ s) p = starts_with (c ∷ s) p || contains s p

-- `chr(x) in s`
unfoldable pub has_char : ℕ → Text → Bool
has_char x [] = false
has_char x (c ∷ s) = c == x || has_char x s

-- A text without line ends holds no carriage return.
pub has_char-append :
    (s t : Text) → All (λ c. is_line_end c ≡ false) s → has_char b'\r' (s ++ t) ≡ has_char b'\r' t
unfolding has_char is_line_end
has_char-append [] t h = refl
has_char-append (c ∷ s) t h = ground (arith, has_char-append s t h.1)

-- `s.partition(chr(x))`, without the separator itself.
unfoldable pub partition : ℕ → Text → Text × Text
partition x [] = ([], [])
partition x (c ∷ s) =
    let (before, after) = partition x s in if c == x then ([], s) else (c ∷ before, after)

lines_from : Text → Text → List Text
unfolding is_line_end
lines_from cur [] = if is_empty cur then [] else cur ∷ []
lines_from cur (c ∷ []) = if is_line_end c then cur ∷ [] else (cur ++ (c ∷ [])) ∷ []
lines_from cur (c ∷ d ∷ s) =
    let crlf = lines_from [] s in
    let next = lines_from [] (d ∷ s) in
    let more = lines_from (cur ++ (c ∷ [])) (d ∷ s) in
    if c == 13 && d == 10 then cur ∷ crlf else if is_line_end c then cur ∷ next else more

-- `s.splitlines()`
unfoldable pub splitlines : Text → List Text
unfolding lines_from
splitlines s = lines_from [] s

no_line_end : (c : ℕ) → is_line_end c ≡ false → (c == 13) ≡ false
unfolding is_line_end
no_line_end c h = ground arith

lines_from-append :
    (cur s rest : Text)
    → All (λ c. is_line_end c ≡ false) s
    → lines_from cur (s ++ (b'\n' ∷ rest)) ≡ (cur ++ s) ∷ lines_from [] rest
unfolding lines_from is_line_end
lines_from-append cur [] [] h = rw (append-nil cur) refl
lines_from-append cur [] (d ∷ rest) h = rw (append-nil cur) refl
lines_from-append cur (c ∷ []) rest h =
    rw (no_line_end c h.0, h.0)
      (lines_from-append (cur ++ (c ∷ [])) [] rest tt ∙ rw (append-nil (cur ++ (c ∷ []))) refl)
lines_from-append cur (c ∷ d ∷ s) rest h =
    rw (no_line_end c h.0, h.0)
      (lines_from-append (cur ++ (c ∷ [])) (d ∷ s) rest h.1
        ∙ rw (append_assoc cur (c ∷ []) (d ∷ s)) refl)

-- A line ends at its line feed.
pub splitlines-append :
    (s rest : Text)
    → All (λ c. is_line_end c ≡ false) s
    → splitlines (s ++ (b'\n' ∷ rest)) ≡ s ∷ splitlines rest
unfolding splitlines
splitlines-append s rest h = lines_from-append [] s rest h

-- `sep.join(parts)`
unfoldable pub join : Text → List Text → Text
join sep [] = []
join sep (p ∷ []) = p
join sep (p ∷ q ∷ ps) = p ++ (sep ++ join sep (q ∷ ps))

-- A regular expression that is the literal `p`: what follows it.
unfoldable pub literal : Text → Text → Option Text
literal [] s = some s
literal (x ∷ p) [] = none
literal (x ∷ p) (c ∷ s) = if c == x then literal p s else none

-- The longest run of characters with the property, and what follows it.
unfoldable pub run_of : (ℕ → Bool) → Text → Text × Text
run_of p [] = ([], [])
run_of p (c ∷ s) = let (run, rest) = run_of p s in if p c then (c ∷ run, rest) else ([], c ∷ s)

pub run_of-append :
    (p : ℕ → Bool) (v : Text) (d : ℕ) (s : Text)
    → All (λ c. p c ≡ true) v
    → p d ≡ false
    → run_of p (v ++ (d ∷ s)) ≡ (v, d ∷ s)
unfolding run_of
run_of-append p [] d s h e = rw e refl
run_of-append p (c ∷ v) d s h e = rw (run_of-append p v d s h.1 e, h.0) refl
