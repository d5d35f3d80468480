-- ===== src/Goldens/Passing.antt =====
-- What a passed golden case says of its files.
use gitz.Common.{
  ◌≡◌, refl, true, false, ◌⊎◌, inl, inr, Text, Bytes, codes, same→eq, Option, some, none, Result,
  ok, err, >>=-eq-ok, ok-injective, Bool-cases, arith, ap,
}
use gitz.Common.Str.{contains}
use gitz.Files.{Files, LoadError, load_path, rstrip_char, join_path, dirname, basename}
use gitz.Files.Utf8.{decode_replace}
use gitz.Yaml.{Value, Fields, str, dict, null, bool, int, float, seq}
use gitz.Goldens.{
  Message, run_case, run_loaded, run_meta, compare_paths, compare_files, open_or_crash, is_type,
  file_equals, text_equals, static_contains, path_of, get_or,
}

-- The files agree in the way that the golden's type asks for.
abbrev pub Agree : Value → Bytes → Bytes → Type 0
Agree gtype actual expected =
    ((is_type gtype (codes "file_equals") ≡ true) × (actual ≡ expected))
    ⊎ (((is_type gtype (codes "text_equals") ≡ true)
          × (rstrip_char b'\n' (decode_replace actual)
              ≡ rstrip_char b'\n' (decode_replace expected)))
        ⊎ ((is_type gtype (codes "static_contains") ≡ true) × (contains actual expected ≡ true)))

file_equals-eq :
    (name : Value) (a e : Bytes) {msg : Message} → file_equals name a e ≡ (true, msg) → a ≡ e
unfolding file_equals
file_equals-eq name a e h = same→eq a e (let h0 = ap (λ v. v.0) h in ground arith)

text_equals-eq :
    (name : Value) (a e : Bytes) {msg : Message}
    → text_equals name a e ≡ (true, msg)
    → rstrip_char b'\n' (decode_replace a) ≡ rstrip_char b'\n' (decode_replace e)
unfolding text_equals
text_equals-eq name a e h = same→eq _ _ (let h0 = ap (λ v. v.0) h in ground arith)

static_contains-eq :
    (name : Value) (a e : Bytes) {msg : Message}
    → static_contains name a e ≡ (true, msg)
    → contains a e ≡ true
unfolding static_contains
static_contains-eq name a e h = let h0 = ap (λ v. v.0) h in ground arith

compare_files-Agree :
    (name gtype : Value) (actual expected : Bytes) {msg : Message}
    → compare_files name gtype actual expected ≡ (true, msg)
    → Agree gtype actual expected
unfolding compare_files
compare_files-Agree name gtype actual expected h =
    elim (Bool-cases (is_type gtype (codes "file_equals"))) [
      | inl a ↦ inl (a, file_equals-eq name actual expected (rw (a) at h))
      | inr a ↦ elim (Bool-cases (is_type gtype (codes "text_equals"))) [
        | inl b ↦ inr (inl (b, text_equals-eq name actual expected (rw (a, b) at h)))
        | inr b ↦ elim (Bool-cases (is_type gtype (codes "static_contains"))) [
          | inl c ↦ inr (inr (c, static_contains-eq name actual expected (rw (a, b, c) at h)))
          | inr c ↦ let wrong : false ≡ true = ap (λ v. v.0) (rw (a, b, c) at h) in cc
        ]
      ]
    ]

open_or_crash-ok : (o : Option Bytes) {bs : Bytes} → open_or_crash o ≡ ok bs → o ≡ some bs
unfolding open_or_crash
open_or_crash-ok none h = cc
open_or_crash-ok (some bs) h = ap some (ok-injective h)

-- Two files that are there, are read and agree.
abbrev pub Compared : Files → Value → Text → Text → Type 0
Compared fs gtype p q =
    (actual : Bytes) × (expected : Bytes) × (fs.is_file p ≡ true)
    × (fs.is_file q ≡ true)
    × (fs.open_binary p ≡ some actual)
    × (fs.open_binary q ≡ some expected)
    × Agree gtype actual expected

compare_paths-Compared :
    (fs : Files) (name gtype : Value) (a e : Text × Text) {msg : Message}
    → compare_paths fs name gtype a e ≡ ok (true, msg)
    → Compared fs gtype a.1 e.1
unfolding compare_paths
compare_paths-Compared fs name gtype (an, ap_) (en, ep) h = elim (Bool-cases (fs.is_file ap_)) [
  | inr x ↦ let wrong = ap (λ v. v.0) (ok-injective (rw x at h)) in cc
  | inl x ↦ elim (Bool-cases (fs.is_file ep)) [
    | inr y ↦ let wrong = ap (λ v. v.0) (ok-injective (rw (x, y) at h)) in cc
    | inl y ↦
        let (actual, e1, h1) = >>=-eq-ok (open_or_crash (fs.open_binary ap_)) _ (rw (x, y) at h) in
        let (expected, e2, h2) = >>=-eq-ok (open_or_crash (fs.open_binary ep)) _ h1 in
        (
          actual,
          expected,
          x,
          y,
          open_or_crash-ok (fs.open_binary ap_) e1,
          open_or_crash-ok (fs.open_binary ep) e2,
          compare_files-Agree name gtype actual expected (ok-injective h2),
        )
  ]
]

path_of-ok : (v : Value) {s : Text} → path_of v ≡ ok s → v ≡ str s
unfolding path_of
path_of-ok (str s) h = ap str (ok-injective h)
path_of-ok null h = cc
path_of-ok (bool b) h = cc
path_of-ok (int n) h = cc
path_of-ok (float x) h = cc
path_of-ok (seq vs) h = cc
path_of-ok (dict fs) h = cc

-- The mapping `doc` of the meta file names two files in its directory that agree by its type.
abbrev pub Agreed : Files → Text → Fields → Type 0
Agreed fs meta doc =
    (a : Text) × (e : Text) × (get_or (codes "actual") doc (codes "actual.txt") ≡ str a)
    × (get_or (codes "expected") doc (codes "expected.txt") ≡ str e)
    × Compared fs (get_or (codes "type") doc (codes "file_equals")) (join_path (dirname meta) a)
        (join_path (dirname meta) e)

run_meta-Agreed :
    (fs : Files) (meta : Text) (doc : Fields) {msg : Message}
    → run_meta fs meta doc ≡ ok (true, msg)
    → Agreed fs meta doc
unfolding run_meta
run_meta-Agreed fs meta doc h =
    let actual : Value = get_or (codes "actual") doc (codes "actual.txt") in
    let expected : Value = get_or (codes "expected") doc (codes "expected.txt") in
    let (a, e1, h1) = >>=-eq-ok (path_of actual) _ h in
    let (e, e2, h2) = >>=-eq-ok (path_of expected) _ h1 in
    (
      a,
      e,
      path_of-ok actual e1,
      path_of-ok expected e2,
      compare_paths-Compared fs (get_or (codes "name") doc (basename (dirname meta)))
          (get_or (codes "type") doc (codes "file_equals")) (a, join_path (dirname meta) a)
          (e, join_path (dirname meta) e) h2,
    )

run_loaded-Agreed :
    (fs : Files) (meta : Text) (r : Result LoadError Value) {msg : Message}
    → run_loaded fs meta r ≡ ok (true, msg)
    → (doc : Fields) × (r ≡ ok (dict doc)) × Agreed fs meta doc
unfolding run_loaded
run_loaded-Agreed fs meta (ok (dict doc)) h = (doc, refl, run_meta-Agreed fs meta doc h)
run_loaded-Agreed fs meta (err e) h = let wrong = ap (λ v. v.0) (ok-injective h) in cc
run_loaded-Agreed fs meta (ok null) h = let wrong = ap (λ v. v.0) (ok-injective h) in cc
run_loaded-Agreed fs meta (ok (bool b)) h = let wrong = ap (λ v. v.0) (ok-injective h) in cc
run_loaded-Agreed fs meta (ok (int n)) h = let wrong = ap (λ v. v.0) (ok-injective h) in cc
run_loaded-Agreed fs meta (ok (float x)) h = let wrong = ap (λ v. v.0) (ok-injective h) in cc
run_loaded-Agreed fs meta (ok (str s)) h = let wrong = ap (λ v. v.0) (ok-injective h) in cc
run_loaded-Agreed fs meta (ok (seq vs)) h = let wrong = ap (λ v. v.0) (ok-injective h) in cc

-- A case passes only if its meta file loads as a mapping and the two files that the mapping names
-- in its directory are there, are read, and agree in the way of its golden type: equal bytes, equal
-- texts but for the newlines at their ends, or the expected bytes within the actual ones.
pub run_case-Agreed :
    (fs : Files) (meta : Text) {msg : Message}
    → run_case fs meta ≡ ok (true, msg)
    → (doc : Fields) × (load_path fs meta ≡ ok (dict doc)) × Agreed fs meta doc
unfolding run_case
run_case-Agreed fs meta h = run_loaded-Agreed fs meta (load_path fs meta) h
