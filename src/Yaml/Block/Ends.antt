-- ===== src/Yaml/Block/Ends.antt =====
-- Calls of the block parser that end with a value or a `YamlError`, and how they compose.
use gitz.Common.{
  ℕ, ◌≤◌, ◌≡◌, ◌≢◌, refl, Bool, true, false, List, [], ◌∷◌, Text, same, if◌then◌else◌, some, length,
  ok, err, ◌>>=◌, arith,
}
use gitz.Yaml.{Value, Fields, YamlError, null, str, end, field, dict, put, out_of_fuel}
use gitz.Yaml.Clean.{Line}
use gitz.Yaml.Scalar.Total.{parse_scalar-total}
use gitz.Yaml.Block.{
  Parsed, parse_nested, parse_map, parse_extra, scalar_then, extra_indent, rest_of, opens_block,
  key_of, is_item,
}

abbrev pub EndsBy : {A : Type 0} → ℕ → Parsed A → Type 0
EndsBy n (ok (v, rest)) = length rest ≤ n
EndsBy n (err out_of_fuel) = ⊥
EndsBy n (err e) = Unit

-- The parser returned, with at most `n` lines left, or raised a `YamlError`.
pub record Ends {A : Type 0} (n : ℕ) (r : Parsed A) : Type 0 where
  pub by : EndsBy n r

pub returns :
    {A : Type 0} {n : ℕ} (v : A) (rest : List Line) → length rest ≤ n → Ends n (ok (v, rest))
returns v rest h = record { by = h }

pub raises : {A : Type 0} {n : ℕ} (e : YamlError) → e ≢ out_of_fuel → Ends {A = A} n (err e)
raises out_of_fuel h = absurd (h refl)
raises e h = record { by = tt }

pub Ends-bind :
    {A B : Type 0} {m n : ℕ} (r : Parsed A) (f : A × List Line → Parsed B)
    → Ends m r
    → ((v : A) (rest : List Line) → length rest ≤ m → Ends n (f (v, rest)))
    → Ends n (r >>= f)
Ends-bind (ok (v, rest)) f h k = k v rest h.by
Ends-bind (err out_of_fuel) f h k = absurd h.by
Ends-bind (err e) f h k = record { by = tt }

pub Ends-if :
    {A : Type 0} {n : ℕ} (b : Bool) (x y : Parsed A)
    → Ends n x
    → Ends n y
    → Ends n (if b then x else y)
Ends-if true x y h k = h
Ends-if false x y h k = k

pub Ends-le : {A : Type 0} {m n : ℕ} {r : Parsed A} → Ends m r → m ≤ n → Ends n r
Ends-le {r = ok (v, rest)} h le = record { by = omega (arith, h.by) }
Ends-le {r = err out_of_fuel} h le = absurd h.by
Ends-le {r = err e} h le = record { by = tt }

pub scalar_then-Ends : (rest : Text) (ls : List Line) → Ends (length ls) (scalar_then rest ls)
unfolding scalar_then
scalar_then-Ends rest ls = let (v, e) = parse_scalar-total rest in rw e (returns v ls (omega arith))

pub extra_first :
    (indent child : ℕ) (lines : List Line)
    → extra_indent indent lines ≡ some child
    → (content : Text) × (ls : List Line) × (lines ≡ (child, content) ∷ ls)
      × (is_item content ≡ false)
unfolding extra_indent
extra_first indent child [] e = cc
extra_first indent child ((ind, content) ∷ ls) e = (content, ls, ground arith, ground arith)

-- A key, with its value on its line or nested below it, and the keys after it.
pub key-Ends :
    (fuel : ℕ) (result : Fields) (content : Text) (ls : List Line) (indent : ℕ)
    → ((other : Value) → Ends (length ls) (parse_nested fuel other ls indent))
    → ((fs : Fields) (rest : List Line)
        → length rest ≤ length ls
        → Ends (length rest) (parse_map fuel fs rest indent))
    → Ends (length ls) (
        (if opens_block (rest_of content)
          then parse_nested fuel
              (if same (rest_of content) [] then null else str (rest_of content))
              ls
              indent
          else scalar_then (rest_of content) ls)
        >>= λ r. parse_map fuel (put (key_of content) r.0 result) r.1 indent)
key-Ends fuel result content ls indent nested more =
    Ends-bind _ (λ r. parse_map fuel (put (key_of content) r.0 result) r.1 indent)
      (Ends-if (opens_block (rest_of content)) _ _ (nested _)
        (scalar_then-Ends (rest_of content) ls))
      (λ v rest le. Ends-le (more _ rest le) le)

-- A list item that is a map: its first value, and the keys that go on behind it.
pub inline-Ends :
    (fuel : ℕ) (item : Text) (ls : List Line) (indent : ℕ)
    → Ends (length ls) (parse_nested fuel null ls indent)
    → ((m : Fields) (rest : List Line)
        → length rest ≤ length ls
        → Ends (length rest) (parse_extra fuel m rest indent))
    → Ends (length ls) (
        (if same (rest_of item) []
          then parse_nested fuel null ls indent
          else scalar_then (rest_of item) ls)
        >>= λ r.
            parse_extra fuel (field (key_of item) r.0 end) r.1 indent >>= λ m. ok (dict m.0, m.1))
inline-Ends fuel item ls indent nested more =
    Ends-bind _
      (λ r. parse_extra fuel (field (key_of item) r.0 end) r.1 indent >>= λ m. ok (dict m.0, m.1))
      (Ends-if (same (rest_of item) []) _ _ nested (scalar_then-Ends (rest_of item) ls))
      λ v rest le.
        Ends-bind _ (λ m. ok (dict m.0, m.1))
          (Ends-le (more (field (key_of item) v end) rest le) le)
          (λ m after kept. returns (dict m) after kept)
