-- ===== src/Yaml/Scalar/Total.antt =====
-- Every scalar has a value: `_parse_scalar` ends on every text.
use gitz.Common.{
  ℕ, zero, suc, ◌+◌, ◌≤◌, ◌<◌, ◌≡◌, refl, arith, Bool, true, false, List, [], ◌∷◌, ◌++◌, Text,
  Option, none, some, All, if◌then◌else◌, length, length-append, Result, ok, Bool-cases,
  Option-cases, inl, inr,
}
use gitz.Common.Str.{strip, lstrip, rstrip}
use gitz.Yaml.{Value, Values, YamlError, seq, str, nil, cons}
use gitz.Yaml.Scalar.{
  init, middle, is_flow, split_loop, split_flow, each, scalar, plain, parse_scalar,
}

length-lstrip : (s : Text) → length (lstrip s) ≤ length s
unfolding lstrip
length-lstrip [] = omega arith
length-lstrip (c ∷ s) = ground (arith, length-lstrip s)

length-rstrip : (s : Text) → length (rstrip s) ≤ length s
unfolding rstrip
length-rstrip [] = omega arith
length-rstrip (c ∷ s) = ground (arith, length-rstrip s)

pub length-strip : (s : Text) → length (strip s) ≤ length s
unfolding strip
length-strip s = omega (arith, length-lstrip s, length-rstrip (lstrip s))

length-init : (s : Text) → length (init s) ≤ length s
unfolding init
length-init [] = omega arith
length-init (c ∷ []) = omega arith
length-init (c ∷ d ∷ s) = omega (arith, length-init (d ∷ s))

-- What stands between the brackets is shorter.
length-middle : (s : Text) → is_flow s ≡ true → length (middle s) < length s
unfolding middle is_flow
length-middle [] h = cc
length-middle (c ∷ s) h = omega (arith, length-init s)

All-if :
    (xs ys : List Text) (b : Bool) (n : ℕ)
    → All (λ p. length p ≤ n) xs
    → All (λ p. length p ≤ n) ys
    → All (λ p. length p ≤ n) (if b then xs else ys)
All-if xs ys true n h k = h
All-if xs ys false n h k = k

-- No part is longer than what it was cut from.
split_loop-shorter :
    (s buf : Text) (q : Option ℕ) (n : ℕ)
    → length buf + length s ≤ n
    → All (λ p. length p ≤ n) (split_loop buf q s)
unfolding split_loop
split_loop-shorter [] [] q n h = tt
split_loop-shorter [] (c ∷ buf) q n h = (omega (arith, length-strip (c ∷ buf)), tt)
split_loop-shorter (ch ∷ s) buf (some q) n h =
    split_loop-shorter s _ _ n (omega (arith, length-append buf (ch ∷ [])))
split_loop-shorter (ch ∷ s) buf none n h =
    All-if (strip buf ∷ split_loop [] none s) _ _ n
      (omega (arith, length-strip buf), split_loop-shorter s [] none n (omega arith))
      (split_loop-shorter s (buf ++ (ch ∷ [])) _ n (omega (arith, length-append buf (ch ∷ []))))

each-total :
    (f : Text → Result YamlError Value) (n : ℕ) (ps : List Text)
    → ((p : Text) → length p < n → (v : Value) × (f p ≡ ok v))
    → All (λ p. length p < n) ps
    → (vs : Values) × (each f ps ≡ ok vs)
unfolding each
each-total f n [] h a = (nil, refl)
each-total f n (p ∷ ps) h a =
    let (v, e) = h (strip p) (omega (arith, length-strip p, a.0)) in
    let (vs, es) = each-total f n ps h a.1 in (cons v vs, rw (e, es))

-- The parts of a flow list are shorter than the list.
flow-shorter :
    (fuel : ℕ) (s : Text)
    → is_flow s ≡ true
    → length s < suc fuel
    → All (λ p. length p < fuel) (split_flow (strip (middle s)))
unfolding split_flow
flow-shorter zero s h lt = absurd (omega (arith, length-middle s h))
flow-shorter (suc fuel) s h lt = below _ (
    split_loop-shorter (strip (middle s)) [] none fuel
      (omega (arith, length-strip (middle s), length-middle s h)))
  where
    below : (ps : List Text) → All (λ p. length p ≤ fuel) ps → All (λ p. length p < suc fuel) ps
    below [] a = tt
    below (p ∷ ps) a = (omega (arith, a.0), below ps a.1)

pub scalar-total : (fuel : ℕ) (s : Text) → length s < fuel → (v : Value) × (scalar fuel s ≡ ok v)
unfolding scalar
scalar-total zero s h = absurd (omega arith)
scalar-total (suc fuel) s h = elim (Option-cases (plain s)) [
  | inr (v, e) ↦ (v, rw (e, scalar))
  | inl e ↦ elim (Bool-cases (is_flow s)) [
    | inl flow ↦
        let (vs, es) =
          each-total (scalar fuel) fuel _ (scalar-total fuel) (flow-shorter fuel s flow h) in
        (seq vs, rw (e, scalar) (rw (flow, es)))
    | inr bare ↦ (str s, rw (e, scalar) (rw bare))
  ]
]

-- `_parse_scalar` ends on every text, with a value and without an exception, nested flow lists
-- included.
pub parse_scalar-total : (s : Text) → (v : Value) × (parse_scalar s ≡ ok v)
unfolding parse_scalar
parse_scalar-total s = scalar-total (suc (length s)) s (omega arith)
