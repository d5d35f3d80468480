-- ===== src/Yaml/Number/Printed.antt =====
-- Whole numbers in decimal, and `int` on them.
use gitz.Common.{
  ℕ, zero, suc, ◌+◌, ◌*◌, ◌/◌, ◌%◌, ◌<◌, ◌≤◌, ◌≡◌, refl, ap, ◌∙◌, ltb, leb, ◌&&◌, true, false, [],
  ◌∷◌, ◌++◌, Text, All, All-append, codes, arith, some, length, if◌then◌else◌, Bool-cases, inl, inr,
  ◌⊎◌, ◌-◌,
}
use gitz.Common.Int.{ℤ, pos, negsuc}
use gitz.Common.Str.{is_space, is_empty, strip, lstrip, rstrip, starts_with}
use gitz.Yaml.Number.{digit, digits_from, digits, sign, parse_int, max_str_digits}

-- The digits of a number below 10 ^ fuel.
unfoldable pub digits_of : ℕ → ℕ → Text
digits_of zero n = []
digits_of (suc fuel) n =
    let rest = digits_of fuel (n / 10) in
    if ltb n 10 then (b'0' + n) ∷ [] else rest ++ ((b'0' + n % 10) ∷ [])

abbrev IsDigit : ℕ → Type 0
IsDigit c = (b'0' ≤ c) × (c ≤ b'9')

digits_of-All : (fuel n : ℕ) → All IsDigit (digits_of fuel n)
unfolding digits_of
digits_of-All zero n = tt
digits_of-All (suc fuel) n = elim (Bool-cases (ltb n 10)) [
  | inl h ↦ rw h ((omega arith, ground arith), tt)
  | inr h ↦ rw h (
      All-append IsDigit (digits_of fuel (n / 10)) _ (digits_of-All fuel (n / 10))
        ((omega arith, omega arith), tt))
]

-- The number that digits mean behind the digits of `a`.
read : ℕ → Text → ℕ
read a [] = a
read a (c ∷ t) = read (a * 10 + (c - b'0')) t

read-append : (a : ℕ) (t : Text) (c : ℕ) → read a (t ++ (c ∷ [])) ≡ read a t * 10 + (c - b'0')
unfolding read
read-append a [] c = refl
read-append a (d ∷ t) c = read-append (a * 10 + (d - b'0')) t c

read-digits_of : (fuel n : ℕ) → n < fuel → read 0 (digits_of fuel n) ≡ n
unfolding read digits_of
read-digits_of zero n h = absurd (omega arith)
read-digits_of (suc fuel) n h = elim (Bool-cases (ltb n 10)) [
  | inl e ↦ rw e (omega arith)
  | inr e ↦
      rw
        (
          e,
          read-append 0 (digits_of fuel (n / 10)) (b'0' + n % 10),
          read-digits_of fuel (n / 10) (ground arith),
        )
        (omega arith)
]

digit-IsDigit : (c : ℕ) → IsDigit c → digit c ≡ some (c - b'0')
unfolding digit
digit-IsDigit c h = rw (at_least c h.0, below c h.1) refl
  where
    at_least : (c : ℕ) → b'0' ≤ c → leb 48 c ≡ true
    at_least c h = ground arith

    below : (c : ℕ) → c ≤ b'9' → ltb c 58 ≡ true
    below c h = ground arith

digits_from-All :
    (a k : ℕ) (t : Text) → All IsDigit t → digits_from a k t ≡ (read a t, k + length t, [])
unfolding digits_from read
digits_from-All a k [] h = ap (λ j. (a, j, [])) (omega arith)
digits_from-All a k (c ∷ []) h = rw (digit-IsDigit c h.0, digits_from) refl
digits_from-All a k (c ∷ d ∷ t) h =
    rw (digit-IsDigit c h.0, digits_from)
      (digits_from-All (a * 10 + (c - b'0')) (k + 1) (d ∷ t) h.1
        ∙ ap (λ j. (read a (c ∷ d ∷ t), j, [])) (omega arith))

-- A whole number as Python prints it.
abbrev pub int_text : ℤ → Text
int_text (pos n) = digits_of (suc n) n
int_text (negsuc n) = b'-' ∷ digits_of (suc (suc n)) (suc n)

digits_of-full : (fuel n : ℕ) → n < fuel → is_empty (digits_of fuel n) ≡ false
unfolding digits_of
digits_of-full zero n h = absurd (omega arith)
digits_of-full (suc fuel) n h = elim (Bool-cases (ltb n 10)) [
  | inl e ↦ rw e refl
  | inr e ↦ rw e (append_full (digits_of fuel (n / 10)))
]
  where
    append_full : (t : Text) → is_empty (t ++ ((b'0' + n % 10) ∷ [])) ≡ false
    append_full [] = refl
    append_full (c ∷ t) = refl

-- A digit that is not zero comes first, or the number is zero.
digits_of-no_zero :
    (fuel n : ℕ) → n < fuel → 1 ≤ n → starts_with (digits_of fuel n) (codes "0") ≡ false
unfolding digits_of
digits_of-no_zero zero n h p = absurd (omega arith)
digits_of-no_zero (suc fuel) n h p = elim (Bool-cases (ltb n 10)) [
  | inl e ↦ rw e (ground arith)
  | inr e ↦ rw e (
      first_of (digits_of fuel (n / 10)) (digits_of-full fuel (n / 10) (ground arith))
        (digits_of-no_zero fuel (n / 10) (ground arith) (ground arith)))
]
  where
    first_of :
        (t : Text)
        → is_empty t ≡ false
        → starts_with t (codes "0") ≡ false
        → starts_with (t ++ ((b'0' + n % 10) ∷ [])) (codes "0") ≡ false
    first_of [] f h = cc
    first_of (c ∷ t) f h = h

pub lstrip-All : (t : Text) → All (λ c. is_space c ≡ false) t → lstrip t ≡ t
unfolding lstrip
lstrip-All [] h = refl
lstrip-All (c ∷ t) h = rw h.0 refl

pub rstrip-All : (t : Text) → All (λ c. is_space c ≡ false) t → rstrip t ≡ t
unfolding rstrip
rstrip-All [] h = refl
rstrip-All (c ∷ t) h = rw (rstrip-All t h.1, h.0) refl

strip-All : (t : Text) → All (λ c. is_space c ≡ false) t → strip t ≡ t
unfolding strip
strip-All t h = rw (lstrip-All t h, rstrip-All t h) refl

-- A character of a printed number.
abbrev pub IsNumeral : ℕ → Type 0
IsNumeral c = IsDigit c ⊎ (c ≡ b'-')

All-map : {P Q : ℕ → Type 0} (t : Text) → ((c : ℕ) → P c → Q c) → All P t → All Q t
All-map [] f h = tt
All-map (c ∷ t) f h = (f c h.0, All-map t f h.1)

digit-IsNumeral : (c : ℕ) → IsDigit c → IsNumeral c
digit-IsNumeral c h = inl h

pub int_text-All : (z : ℤ) → All IsNumeral (int_text z)
int_text-All (pos n) = All-map (digits_of (suc n) n) digit-IsNumeral (digits_of-All (suc n) n)
int_text-All (negsuc n) = (
  inr refl,
  All-map (digits_of (suc (suc n)) (suc n)) digit-IsNumeral (digits_of-All (suc (suc n)) (suc n)),
)

pub int_text-full : (z : ℤ) → is_empty (int_text z) ≡ false
int_text-full (pos n) = digits_of-full (suc n) n (omega arith)
int_text-full (negsuc n) = refl

numeral-no_space : (c : ℕ) → IsNumeral c → is_space c ≡ false
unfolding is_space
numeral-no_space c (inl h) = ground arith
numeral-no_space c (inr h) = rw h refl

pub int_text-no_space : (z : ℤ) → All (λ c. is_space c ≡ false) (int_text z)
int_text-no_space z = All-map (int_text z) numeral-no_space (int_text-All z)

sign-digits : (t : Text) → All IsDigit t → sign t ≡ (false, t)
unfolding sign
sign-digits [] h = refl
sign-digits (c ∷ t) h = ground arith

some_digits : (t : Text) → is_empty t ≡ false → ltb 0 (0 + length t) ≡ true
some_digits [] h = cc
some_digits (c ∷ t) h = ground arith

-- How many digits a whole number has.
abbrev pub digit_count : ℤ → ℕ
digit_count (pos n) = length (digits_of (suc n) n)
digit_count (negsuc n) = length (digits_of (suc (suc n)) (suc n))

-- A whole number that `int` takes.
abbrev pub IsShort : ℤ → Type 0
IsShort z = digit_count z ≤ max_str_digits

few_digits : (k : ℕ) → k ≤ max_str_digits → leb (0 + k) max_str_digits ≡ true
few_digits k h = ground arith

-- `int` of a printed number.
pub parse_int-int_text : (z : ℤ) → IsShort z → parse_int (int_text z) ≡ some z
unfolding parse_int sign digits
parse_int-int_text (pos n) h =
    let t = digits_of (suc n) n in
    rw
      (
        strip-All t (int_text-no_space (pos n)),
        sign-digits t (digits_of-All (suc n) n),
        digits_from-All 0 0 t (digits_of-All (suc n) n),
        some_digits t (digits_of-full (suc n) n (omega arith)),
        few_digits (length t) h,
        read-digits_of (suc n) n (omega arith),
      )
      refl
parse_int-int_text (negsuc n) h =
    let t = digits_of (suc (suc n)) (suc n) in
    rw
      (
        strip-All (b'-' ∷ t) (int_text-no_space (negsuc n)),
        digits_from-All 0 0 t (digits_of-All (suc (suc n)) (suc n)),
        some_digits t (digits_of-full (suc (suc n)) (suc n) (omega arith)),
        few_digits (length t) h,
        read-digits_of (suc (suc n)) (suc n) (omega arith),
      )
      refl

-- No leading zero, so that `_parse_scalar` goes on with it.
pub int_text-no_zero :
    (z : ℤ) → (starts_with (int_text z) (codes "0") && ltb 1 (length (int_text z))) ≡ false
int_text-no_zero (negsuc n) = refl
int_text-no_zero (pos zero) = unfold digits_of in refl
int_text-no_zero (pos (suc n)) =
    rw (digits_of-no_zero (suc (suc n)) (suc n) (omega arith) (omega arith)) refl
