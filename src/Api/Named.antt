-- ===== src/Api/Named.antt =====
-- The package names that the loop of `check` collects are those of the loaded files.
use gitz.Common.{
  ◌≡◌, ◌⊎◌, inl, inr, refl, ap, sym, Bool, true, false, List, [], ◌∷◌, Text, codes, same, same→eq,
  one_of, Option, none, some, if◌then◌else◌, Result, ok, err, >>=-eq-ok, ok-injective, Bool-cases,
  Option-cases,
}
use gitz.Common.Str.{strip, is_empty}
use gitz.Files.{Files, LoadError, load_path}
use gitz.Yaml.{Value, Fields, dict, end, get}
use gitz.Yaml.Shape.{as_dict, as_dict-some}
use gitz.Yaml.Truth.{or_value}
use gitz.Api.{
  check_symbols, check_package, check_valid, name_of, check_loaded, check_paths, zig_path,
}
use gitz.Api.Counters.{Tally, union, presence, count_mapped, name_keys}
use gitz.Api.Packages.{lookup, as_mapping}
use gitz.Api.Schema.{SchemaError, validate_schema}
use gitz.Api.Symbols.{semantic_ids, check_mapped_presence, read_zig_blob}

-- The file loads as a mapping whose package is the name.
abbrev pub Names : Text → Result LoadError Value → Type 0
Names name r = (doc : Fields) × (r ≡ ok (dict doc)) × (name_of doc ≡ some name)

-- Some file of the list does.
abbrev pub SomeNames : Files → Text → List Text → Type 0
SomeNames fs name [] = ⊥
SomeNames fs name (path ∷ paths) = Names name (load_path fs path) ⊎ SomeNames fs name paths

one_of-union :
    (x : Text) (as_ bs : List Text)
    → one_of x (union as_ bs) ≡ true
    → (one_of x as_ ≡ true) ⊎ (one_of x bs ≡ true)
one_of-union x [] bs h = inr h
one_of-union x (a ∷ as_) bs h = elim (Bool-cases (same x a)) [
  | inl here ↦ inl (rw here refl)
  | inr other ↦ elim (one_of-union x as_ bs (in_rest (one_of a (union as_ bs)) other h)) [
    | inl p ↦ inl (rw (other, p) refl)
    | inr q ↦ inr q
  ]
]
  where
    in_rest :
        (t : Bool)
        → same x a ≡ false
        → one_of x (if t then union as_ bs else a ∷ union as_ bs) ≡ true
        → one_of x (union as_ bs) ≡ true
    in_rest true other k = k
    in_rest false other k = rw other at k

presence-names : (name : Text) (ids : List Value) → (presence name ids).api_packages ≡ []
presence-names name [] = refl
presence-names name (v ∷ ids) = refl

check_symbols-names :
    (fs : Files) (src_root name : Text) (doc : Fields) (zig : Option Text) {t : Tally}
    → check_symbols fs src_root name doc zig ≡ ok t
    → t.api_packages ≡ []
unfolding check_symbols
check_symbols-names fs src_root name doc none h = rw (← ok-injective h) refl
check_symbols-names fs src_root name doc (some zig) h =
    let (text, e, h1) = >>=-eq-ok (read_zig_blob fs src_root zig) _ h in
    elim (Bool-cases (is_empty (strip text))) [
      | inl blank ↦ rw (← ok-injective (rw blank at h1)) refl
      | inr full ↦
          let (missing, e2, h2) = >>=-eq-ok (check_mapped_presence doc text) _ (rw full at h1) in
          rw (← ok-injective h2) (presence-names name missing)
    ]

check_package-names :
    (fs : Files) (src_root : Text) (index : List (Text × Fields)) (name : Text) (doc : Fields)
    {t : Tally}
    → check_package fs src_root index name doc ≡ ok t
    → t.api_packages ≡ name ∷ []
unfolding check_package
check_package-names fs src_root index name doc h =
    let (ids, e1, h1) = >>=-eq-ok (semantic_ids doc) _ h in
    let (required, e2, h2) =
      >>=-eq-ok (as_mapping (or_value (get (codes "require") doc) (dict end))) _ h1 in
    let (zig_map, e3, h3) =
      >>=-eq-ok (as_mapping (or_value (get (codes "zig_map") doc) (dict end))) _ h2 in
    let (mapped, e4, h4) = >>=-eq-ok (count_mapped name_keys required zig_map) _ h3 in
    let zig = zig_path (lookup name index) in
    let (verdict, e5, h5) = >>=-eq-ok (check_symbols fs src_root name doc zig) _ h4 in
    let none_ = check_symbols-names fs src_root name doc zig e5 in
    rw (← ok-injective h5, none_) refl

one_of-single : (x s : Text) → one_of x (s ∷ []) ≡ true → s ≡ x
one_of-single x s h = elim (Bool-cases (same x s)) [
  | inl e ↦ sym (same→eq x s e)
  | inr e ↦ let w = rw e at h in cc
]

check_valid-names :
    (fs : Files) (src_root : Text) (index : List (Text × Fields)) (path : Text) (doc : Fields)
    (errors : List SchemaError) (o : Option Text) (name : Text) {t : Tally}
    → check_valid fs src_root index path doc errors o ≡ ok t
    → one_of name t.api_packages ≡ true
    → o ≡ some name
unfolding check_valid
check_valid-names fs src_root index path doc errors none name h p =
    let w = rw (← ok-injective h) at p in cc
check_valid-names fs src_root index path doc [] (some s) name h p =
    ap some (one_of-single name s (rw (check_package-names fs src_root index s doc h) at p))
check_valid-names fs src_root index path doc (x ∷ xs) (some s) name h p =
    ap some (one_of-single name s (rw (← ok-injective h) at p))

check_loaded-Names :
    (fs : Files) (src_root : Text) (index : List (Text × Fields)) (path : Text)
    (r : Result LoadError Value) (name : Text) {t : Tally}
    → check_loaded fs src_root index path r ≡ ok t
    → one_of name t.api_packages ≡ true
    → Names name r
unfolding check_loaded
check_loaded-Names fs src_root index path (err e) name h p =
    let w = rw (← ok-injective h) at p in cc
check_loaded-Names fs src_root index path (ok v) name h p = elim (Option-cases (as_dict v)) [
  | inl e ↦ let w = rw (← ok-injective (rw (e, check_loaded) at h)) at p in cc
  | inr (doc, e) ↦ (
    doc,
    ap ok (as_dict-some v e),
    check_valid-names fs src_root index path doc (validate_schema doc) (name_of doc) name
        (rw (e, check_loaded) at h) p,
  )
]

pub check_paths-SomeNames :
    (fs : Files) (src_root : Text) (index : List (Text × Fields)) (paths : List Text) (name : Text)
    {t : Tally}
    → check_paths fs src_root index paths ≡ ok t
    → one_of name t.api_packages ≡ true
    → SomeNames fs name paths
unfolding check_paths
check_paths-SomeNames fs src_root index [] name h p = let w = rw (← ok-injective h) at p in cc
check_paths-SomeNames fs src_root index (path ∷ paths) name h p =
    let (here, e1, h1) = >>=-eq-ok (check_loaded fs src_root index path (load_path fs path)) _ h in
    let (more, e2, h2) = >>=-eq-ok (check_paths fs src_root index paths) _ h1 in
    elim (one_of-union name here.api_packages more.api_packages (rw (← ok-injective h2) at p)) [
      | inl a ↦ inl (check_loaded-Names fs src_root index path (load_path fs path) name e1 a)
      | inr b ↦ inr (check_paths-SomeNames fs src_root index paths name e2 b)
    ]
