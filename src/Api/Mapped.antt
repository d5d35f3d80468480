-- ===== src/Api/Mapped.antt =====
-- What the files of an accepted run of the API inventory check hold.
use gitz.Common.{
  ◌≡◌, ◌⊎◌, inl, inr, refl, ap, ◌∙◌, ◌≢◌, false, List, [], ◌∷◌, Text, codes, Option, none, some,
  All, length-zero, Result, ok, err, >>=-eq-ok, ok-injective, Bool-cases, Option-cases, arith,
}
use gitz.Common.Str.{strip, is_empty}
use gitz.Files.{Files, LoadError, load_path}
use gitz.Yaml.{Value, Fields, null, bool, int, float, str, seq, dict, end, get}
use gitz.Yaml.Shape.{as_dict, as_str, as_dict-some}
use gitz.Api.{
  check_symbols, check_package, check_valid, name_of, check_loaded, check_paths, zig_path,
}
use gitz.Api.Counters.{
  no_zig_mapping, hollow_package, Tally, Message, rejected, failed, presence, count_mapped,
  name_keys, cannot_load, no_mapping,
}
use gitz.Yaml.Truth.{or_value}
use gitz.Api.Packages.{as_mapping, Crash, lookup}
use gitz.Api.Schema.{SchemaError, validate_schema}
use gitz.Api.Schema.Valid.{IsNamed, IsSchema, validate_schema-nil}
use gitz.Api.Symbols.{semantic_ids, check_mapped_presence, read_zig_blob}
use gitz.Api.Symbols.Found.{Found, absent_ids-Found}

-- The package of the document has a Zig text with every identifier of the document.
abbrev pub HasSymbols : Files → Text → Fields → Option Text → Type 0
HasSymbols fs src_root doc zig =
    (path : Text) × (text : Text) × (ids : List Value) × (zig ≡ some path)
    × (read_zig_blob fs src_root path ≡ ok text)
    × (is_empty (strip text) ≡ false)
    × (semantic_ids doc ≡ ok ids)
    × All (Found text) ids

check_mapped_presence-nil :
    (doc : Fields) (text : Text)
    → check_mapped_presence doc text ≡ ok []
    → (ids : List Value) × (semantic_ids doc ≡ ok ids) × All (Found text) ids
unfolding check_mapped_presence
check_mapped_presence-nil doc text h =
    let (ids, e, k) = >>=-eq-ok (semantic_ids doc) _ h in (ids, e, absent_ids-Found ids text k)

presence-nil : (name : Text) (ids : List Value) → (presence name ids).mapped_fail ≡ 0 → ids ≡ []
presence-nil name [] h = refl
presence-nil name (v ∷ ids) h = absurd (omega arith)

failed-ne :
    (ms : List Message) {t : Tally}
    → ◌≡◌ {A = Result Crash Tally} (ok (failed ms)) (ok t)
    → t.mapped_fail ≢ 0
failed-ne ms h z = let one = ap (λ u. u.mapped_fail) (ok-injective h) ∙ z in absurd (omega arith)

check_symbols-HasSymbols :
    (fs : Files) (src_root name : Text) (doc : Fields) (zig : Option Text) {t : Tally}
    → check_symbols fs src_root name doc zig ≡ ok t
    → t.mapped_fail ≡ 0
    → HasSymbols fs src_root doc zig
unfolding check_symbols
check_symbols-HasSymbols fs src_root name doc none h z =
    absurd (failed-ne (no_zig_mapping name ∷ []) h z)
check_symbols-HasSymbols fs src_root name doc (some zig) h z =
    let (text, e, h1) = >>=-eq-ok (read_zig_blob fs src_root zig) _ h in
    elim (Bool-cases (is_empty (strip text))) [
      | inl blank ↦ absurd (failed-ne (hollow_package name zig ∷ []) (rw blank at h1) z)
      | inr full ↦
          let (missing, e2, h2) = >>=-eq-ok (check_mapped_presence doc text) _ (rw full at h1) in
          let (ids, e3, found) = check_mapped_presence-nil doc text (
            rw (presence-nil name missing (ap (λ u. u.mapped_fail) (ok-injective h2) ∙ z)) at e2) in
          (zig, text, ids, refl, e, full, e3, found)
    ]

-- The file loads as a document that fits the schema, and its package has its symbols.
abbrev pub IsMapped : Files → Text → List (Text × Fields) → Result LoadError Value → Type 0
IsMapped fs src_root index r =
    (doc : Fields) × (name : Text) × (r ≡ ok (dict doc))
    × IsSchema doc
    × (name_of doc ≡ some name)
    × HasSymbols fs src_root doc (zig_path (lookup name index))

check_package-HasSymbols :
    (fs : Files) (src_root : Text) (index : List (Text × Fields)) (name : Text) (doc : Fields)
    {t : Tally}
    → check_package fs src_root index name doc ≡ ok t
    → t.mapped_fail ≡ 0
    → HasSymbols fs src_root doc (zig_path (lookup name index))
unfolding check_package
check_package-HasSymbols fs src_root index name doc h z =
    let (ids, e1, h1) = >>=-eq-ok (semantic_ids doc) _ h in
    let (required, e2, h2) =
      >>=-eq-ok (as_mapping (or_value (get (codes "require") doc) (dict end))) _ h1 in
    let (zig_map, e3, h3) =
      >>=-eq-ok (as_mapping (or_value (get (codes "zig_map") doc) (dict end))) _ h2 in
    let (mapped, e4, h4) = >>=-eq-ok (count_mapped name_keys required zig_map) _ h3 in
    let zig = zig_path (lookup name index) in
    let (verdict, e5, h5) = >>=-eq-ok (check_symbols fs src_root name doc zig) _ h4 in
    check_symbols-HasSymbols fs src_root name doc zig e5
      (let w = ap (λ u. u.mapped_fail) (ok-injective h5) ∙ z in omega arith)

rejected-ne :
    (m : Message) {t : Tally}
    → ◌≡◌ {A = Result Crash Tally} (ok (rejected m)) (ok t)
    → t.schema_errors ≢ 0
rejected-ne m h z = let one = ap (λ u. u.schema_errors) (ok-injective h) ∙ z in absurd (omega arith)

check_valid-IsMapped :
    (fs : Files) (src_root : Text) (index : List (Text × Fields)) (path : Text) (doc : Fields)
    (errors : List SchemaError) (name : Option Text) {t : Tally}
    → check_valid fs src_root index path doc errors name ≡ ok t
    → t.schema_errors ≡ 0
    → t.mapped_fail ≡ 0
    → (errors ≡ [])
      × ((name ≡ none)
          ⊎ ((s : Text) × (name ≡ some s) × HasSymbols fs src_root doc (zig_path (lookup s index))))
unfolding check_valid
check_valid-IsMapped fs src_root index path doc errors none h z w =
    let e = ap (λ u. u.schema_errors) (ok-injective h) ∙ z in (length-zero errors e, inl refl)
check_valid-IsMapped fs src_root index path doc [] (some s) h z w =
    (refl, inr (s, refl, check_package-HasSymbols fs src_root index s doc h w))
check_valid-IsMapped fs src_root index path doc (x ∷ xs) (some s) h z w =
    let e = ap (λ u. u.schema_errors) (ok-injective h) ∙ z in absurd (omega arith)

-- A document that fits the schema has a name.
named-some : (o : Option Value) → IsNamed o → (elim o [ none ↦ none | some v ↦ as_str v ]) ≢ none
unfolding as_str
named-some (some (str s)) h e = cc
named-some none h e = absurd h
named-some (some null) h e = absurd h
named-some (some (bool b)) h e = absurd h
named-some (some (int n)) h e = absurd h
named-some (some (float x)) h e = absurd h
named-some (some (seq vs)) h e = absurd h
named-some (some (dict fs)) h e = absurd h

check_loaded-IsMapped :
    (fs : Files) (src_root : Text) (index : List (Text × Fields)) (path : Text)
    (r : Result LoadError Value) {t : Tally}
    → check_loaded fs src_root index path r ≡ ok t
    → t.schema_errors ≡ 0
    → t.mapped_fail ≡ 0
    → IsMapped fs src_root index r
unfolding check_loaded
check_loaded-IsMapped fs src_root index path (err e) h z w =
    absurd (rejected-ne (cannot_load path e) h z)
check_loaded-IsMapped fs src_root index path (ok v) h z w = elim (Option-cases (as_dict v)) [
  | inl e ↦ absurd (rejected-ne (no_mapping path) (rw (e, check_loaded) at h) z)
  | inr (doc, e) ↦
      let (valid, named) =
        check_valid-IsMapped fs src_root index path doc (validate_schema doc) (name_of doc)
          (rw (e, check_loaded) at h) z w in
      let schema = (validate_schema-nil doc).0 valid in
      elim named [
        | inl lacks ↦ absurd (named-some (get (codes "package") doc) schema.named lacks)
        | inr (name, e1, has) ↦ (doc, name, ap ok (as_dict-some v e), schema, e1, has)
      ]
]

pub check_paths-IsMapped :
    (fs : Files) (src_root : Text) (index : List (Text × Fields)) (paths : List Text) {t : Tally}
    → check_paths fs src_root index paths ≡ ok t
    → t.schema_errors ≡ 0
    → t.mapped_fail ≡ 0
    → All (λ path. IsMapped fs src_root index (load_path fs path)) paths
unfolding check_paths
check_paths-IsMapped fs src_root index [] h z w = tt
check_paths-IsMapped fs src_root index (path ∷ paths) h z w =
    let (here, e1, h1) = >>=-eq-ok (check_loaded fs src_root index path (load_path fs path)) _ h in
    let (more, e2, h2) = >>=-eq-ok (check_paths fs src_root index paths) _ h1 in
    let z1 = ap (λ u. u.schema_errors) (ok-injective h2) ∙ z in
    let w1 = ap (λ u. u.mapped_fail) (ok-injective h2) ∙ w in
    (
      check_loaded-IsMapped fs src_root index path (load_path fs path) e1 (omega arith)
          (omega arith),
      check_paths-IsMapped fs src_root index paths e2 (omega arith) (omega arith),
    )
