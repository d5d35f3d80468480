-- ===== src/Yaml/SelfTest.antt =====
-- `self_test` of tools/inventory/simple_yaml.py: three documents and the assertions on them.
use gitz.Common.{
  ℕ, zero, suc, ◌==◌, Bool, true, false, ◌&&◌, List, [], ◌∷◌, Text, codes, same, Option, some, none,
  length, if◌then◌else◌, Result, ok, err, ◌>>=◌, ◌>>◌,
}
use gitz.Common.Int.{pos}
use gitz.Yaml.{Value, Values, YamlError, null, bool, int, str, seq, dict, nil, cons, get, to_list}
use gitz.Yaml.Block.{load}

-- How it fails: by an error of `load`, by a key or an index that is not there, or by an `assert`.
pub data Failure : Type 0 where
  not_loaded : YamlError → Failure
  lookup_error : Failure
  assertion_error : Value → Failure

abbrev from_load : Result YamlError Value → Result Failure Value
from_load (ok v) = ok v
from_load (err e) = err (not_loaded e)

abbrev found : Option Value → Result Failure Value
found (some v) = ok v
found none = err lookup_error

abbrev nth : ℕ → Values → Option Value
nth n nil = none
nth zero (cons v vs) = some v
nth (suc n) (cons v vs) = nth n vs

-- `v[key]` and `v[index]`
abbrev at_key : Text → Value → Result Failure Value
at_key key (dict fs) = found (get key fs)
at_key key v = err lookup_error

abbrev at_index : ℕ → Value → Result Failure Value
at_index n (seq vs) = found (nth n vs)
at_index n v = err lookup_error

-- `v == "..."`, `v is True`, `v is None`, `v == [1, 2, ...]`, `v == ["...", ...]` and `len(v) == n`.
abbrev is_str : Text → Value → Bool
is_str t (str s) = same s t
is_str t v = false

abbrev is_true : Value → Bool
is_true (bool b) = b
is_true v = false

abbrev is_none : Value → Bool
is_none null = true
is_none v = false

abbrev is_int : ℕ → Value → Bool
is_int n (int (pos m)) = m == n
is_int n v = false

abbrev are : {A : Type 0} → (A → Value → Bool) → List A → Values → Bool
are is [] nil = true
are is [] (cons v vs) = false
are is (a ∷ as_) nil = false
are is (a ∷ as_) (cons v vs) = is a v && are is as_ vs

abbrev is_list : {A : Type 0} → (A → Value → Bool) → List A → Value → Bool
is_list is as_ (seq vs) = are is as_ vs
is_list is as_ v = false

abbrev has_length : ℕ → Value → Bool
has_length n (seq vs) = length (to_list vs) == n
has_length n v = false

-- `assert test(v)`
abbrev asserted : (Value → Bool) → Result Failure Value → Result Failure Bool
asserted test (ok v) = if test v then ok true else err (assertion_error v)
asserted test (err e) = err e

unfoldable pub packages_test : Result Failure Bool
unfolding load
packages_test = do
  doc ← from_load (
      load (
        codes
          "\n# comment\npin: v5.19.2\npackages:\n  - go: plumbing/hash\n    zig: src/plumbing/hash\n    status: required\n  - go: _examples\n    status: excluded\n    notes: \"examples only\"\ncounts: [1, 2, 3]\nflag: true\nempty:\n"))
  let packages = at_key (codes "packages") doc
  a ← asserted (is_str (codes "v5.19.2")) (at_key (codes "pin") doc)
  b ← asserted (has_length 2) packages
  c ← asserted (is_str (codes "plumbing/hash")) (packages >>= at_index 0 >>= at_key (codes "go"))
  d ← asserted (is_str (codes "excluded")) (packages >>= at_index 1 >>= at_key (codes "status"))
  e ← asserted (is_str (codes "examples only")) (packages >>= at_index 1 >>= at_key (codes "notes"))
  f ← asserted (is_list is_int (1 ∷ 2 ∷ 3 ∷ [])) (at_key (codes "counts") doc)
  g ← asserted is_true (at_key (codes "flag") doc)
  asserted is_none (at_key (codes "empty") doc)

unfoldable pub api_test : Result Failure Bool
unfolding load
api_test = do
  api ← from_load (
      load (
        codes
          "\npackage: plumbing/hash\nrequire:\n  types: []\n  functions:\n    - New\n    - RegisterHash\n  semantic:\n    - hash.new\nzig_map:\n  New: hash.new\n"))
  a ← asserted (is_str (codes "plumbing/hash")) (at_key (codes "package") api)
  b ←
      asserted (is_list is_str (codes "New" ∷ codes "RegisterHash" ∷ []))
        (at_key (codes "require") api >>= at_key (codes "functions"))
  asserted (is_str (codes "hash.new")) (at_key (codes "zig_map") api >>= at_key (codes "New"))

unfoldable pub entries_test : Result Failure Bool
unfolding load
entries_test = do
  allow ← from_load (load (codes "entries: []\n"))
  asserted (is_list is_int []) (at_key (codes "entries") allow)

unfoldable pub self_test : Result Failure Bool
unfolding packages_test api_test entries_test
self_test = packages_test >> api_test >> entries_test
