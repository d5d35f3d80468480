-- ===== src/Cli.antt =====
-- What `main` of the inventory tools has in common: arguments that must be given, the document that
-- is loaded first, and the exit status.
use gitz.Common.{
  ℕ, ◌≡◌, refl, Bool, true, false, Text, Option, none, some, if◌then◌else◌, Result, ok, err, ◌>>=◌,
  >>=-eq-ok, ok-injective, ap,
}
use gitz.Common.Str.{is_empty}
use gitz.Files.{LoadError}
use gitz.Yaml.{Value, Fields, YamlError, dict}
use gitz.Yaml.Shape.{as_dict, as_dict-some}

-- An argument that is given and is not the empty text.
abbrev pub given : Option Text → Option Text
given none = none
given (some s) = if is_empty s then none else some s

-- How a tool ends: by `parser.error`, with one of its two `FAIL` lines, or with the messages and
-- metrics of a report.
pub data Output {ℓ} (R : Type ℓ) : Type ℓ where
  usage : Output R
  load_failed : LoadError → Output R
  no_root_mapping : Output R
  finished : R → Output R

abbrev pub exit_of : Bool → ℕ
exit_of true = 0
exit_of false = 1

-- The exit status; `parser.error` exits with 2.
abbrev pub status {ℓ} : {R : Type ℓ} → (R → Bool) → Output R → ℕ
status good usage = 2
status good (load_failed e) = 1
status good no_root_mapping = 1
status good (finished r) = exit_of (good r)

abbrev pub with_document {ℓ} :
    {C : Type 0} {R : Type ℓ} → (Fields → Result C R) → Option Fields → Result C (Output R)
with_document check none = ok no_root_mapping
with_document check (some doc) = do r ← check doc; ok (finished r)

abbrev pub with_value {ℓ} :
    {C : Type 0} {R : Type ℓ} → (Fields → Result C R) → Result LoadError Value → Result C (Output R)
with_value check (err e) = ok (load_failed e)
with_value check (ok v) = with_document check (as_dict v)

-- How a self test fails: by an exception of what it calls, of `load`, or of `get` on a document that
-- is no mapping, or by an `assert` on what a call returned.
pub data Failure (C R : Type 0) : Type 0 where
  crashed : C → Failure C R
  not_loaded : YamlError → Failure C R
  attribute_error : Failure C R
  assertion_error : R → Failure C R

-- A call and the assertions on what it returns.
abbrev pub asserted : {C R : Type 0} → (R → Bool) → Result C R → Result (Failure C R) R
asserted test (err e) = err (crashed e)
asserted test (ok r) = if test r then ok r else err (assertion_error r)

abbrev pub loaded_mapping : {C R : Type 0} → Option Fields → Result (Failure C R) Fields
loaded_mapping none = err attribute_error
loaded_mapping (some doc) = ok doc

-- A document of a self test.
abbrev pub loaded : {C R : Type 0} → Result YamlError Value → Result (Failure C R) Fields
loaded (err e) = err (not_loaded e)
loaded (ok v) = loaded_mapping (as_dict v)

pub exit_of-zero : (b : Bool) → exit_of b ≡ 0 → b ≡ true
exit_of-zero true h = refl
exit_of-zero false h = cc

with_document-zero :
    {C : Type 0} {R : Type 0} (check : Fields → Result C R) (good : R → Bool) (o : Option Fields)
    {out : Output R}
    → with_document check o ≡ ok out
    → status good out ≡ 0
    → (doc : Fields) × (r : R) × (o ≡ some doc) × (check doc ≡ ok r) × (good r ≡ true)
with_document-zero check good none h z = let w = rw (← ok-injective h) at z in cc
with_document-zero check good (some doc) h z =
    let (r, e, h1) = >>=-eq-ok (check doc) _ h in
    (doc, r, refl, e, exit_of-zero (good r) (rw (← ok-injective h1) at z))

-- The status is 0 only if the document loads as a mapping and the check of it accepts.
pub with_value-zero :
    {C : Type 0} {R : Type 0} (check : Fields → Result C R) (good : R → Bool)
    (v : Result LoadError Value) {out : Output R}
    → with_value check v ≡ ok out
    → status good out ≡ 0
    → (doc : Fields) × (r : R) × (v ≡ ok (dict doc)) × (check doc ≡ ok r) × (good r ≡ true)
with_value-zero check good (err e) h z = let w = rw (← ok-injective h) at z in cc
with_value-zero check good (ok v) h z =
    let (doc, r, e, c, g) = with_document-zero check good (as_dict v) h z in
    (doc, r, ap ok (as_dict-some v e), c, g)
