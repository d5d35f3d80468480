-- ===== src/Api/Raises.antt =====
-- The exceptions of the API inventory check on documents that fit the schema.
use gitz.Common.{
  ℕ, ◌+◌, ◌≡◌, inl, inr, refl, not, ◌&&◌, List, [], ◌∷◌, Text, codes, Option, none, some, All,
  if◌then◌else◌, Result, ok, err, >>=-eq-err, Bool-cases,
}
use gitz.Common.Str.{strip, is_empty, ends_with}
use gitz.Common.Sort.{sorted}
use gitz.Files.{Files, join_path, read_replace}
use gitz.Inventory.Tree.{zig_rel_to_full, PathError}
use gitz.Yaml.{Value, Fields, get}
use gitz.Yaml.Shape.{has_key}
use gitz.Api.{check_package, check_symbols, zig_path}
use gitz.Api.Counters.{count_mapped, sum_mapped, in_map, name_keys}
use gitz.Api.Packages.{Crash, os_error, lookup}
use gitz.Api.Schema.Valid.{AllStr, IsNames, IsSchema}
use gitz.Api.Symbols.{or_os_error, read_chunks, read_full, read_zig_blob, check_mapped_presence}
use gitz.Api.Symbols.Found.{
  iterate-IsNames, as_mapping-IsTexts, as_mapping-IsRequire, semantic_ids-IsSchema,
  absent_ids-total,
}

or_os_error-err : (o : Option Text) {e : Crash} → or_os_error o ≡ err e → e ≡ os_error
or_os_error-err none h = cc
or_os_error-err (some t) h = cc

read_chunks-err :
    (fs : Files) (full : Text) (names : List Text) {e : Crash}
    → read_chunks fs full names ≡ err e
    → e ≡ os_error
unfolding read_chunks
read_chunks-err fs full [] h = cc
read_chunks-err fs full (name ∷ names) h =
    let path = join_path full name in
    elim (Bool-cases (ends_with name (codes ".zig") && fs.is_file path)) [
      | inr other ↦ read_chunks-err fs full names (rw other at h)
      | inl zig ↦ elim (>>=-eq-err (or_os_error (read_replace fs path)) _ (rw zig at h)) [
        | inl a ↦ or_os_error-err (read_replace fs path) a
        | inr (text, a, h1) ↦ elim (>>=-eq-err (read_chunks fs full names) _ h1) [
          | inl b ↦ read_chunks-err fs full names b
          | inr (more, b, h2) ↦ cc
        ]
      ]
    ]

read_full-err : (fs : Files) (full : Text) {e : Crash} → read_full fs full ≡ err e → e ≡ os_error
unfolding read_full
read_full-err fs full h = elim (Bool-cases (fs.is_file full && ends_with full (codes ".zig"))) [
  | inl file ↦ or_os_error-err (read_replace fs full) (rw file at h)
  | inr other ↦ elim (Bool-cases (not (fs.is_dir full))) [
    | inl t ↦ let w = rw (other, t) at h in cc
    | inr t ↦
        elim (>>=-eq-err (read_chunks fs full (sorted (fs.list_dir full))) _ (rw (other, t) at h)) [
          | inl a ↦ read_chunks-err fs full (sorted (fs.list_dir full)) a
          | inr (texts, a, h1) ↦ cc
        ]
  ]
]

read_zig_blob-err :
    (fs : Files) (src_root zig : Text) {e : Crash}
    → read_zig_blob fs src_root zig ≡ err e
    → e ≡ os_error
unfolding read_zig_blob
read_zig_blob-err fs src_root zig h = on_path (zig_rel_to_full fs src_root zig) h
  where
    on_path :
        (r : Result PathError Text) {e : Crash}
        → ◌≡◌ {A = Result Crash Text}
            (elim r [ err x ↦ ok [] | ok full ↦ read_full fs full ])
            (err e)
        → e ≡ os_error
    on_path (err x) h = cc
    on_path (ok full) h = read_full-err fs full h

check_mapped_presence-total :
    (doc : Fields) (text : Text)
    → IsSchema doc
    → (ms : List Value) × (check_mapped_presence doc text ≡ ok ms)
unfolding check_mapped_presence
check_mapped_presence-total doc text s =
    let (ids, e, strs) = semantic_ids-IsSchema doc s in
    let (ms, e1) = absent_ids-total ids text strs in (ms, rw e e1)

check_symbols-err :
    (fs : Files) (src_root name : Text) (doc : Fields) (zig : Option Text) {e : Crash}
    → IsSchema doc
    → check_symbols fs src_root name doc zig ≡ err e
    → e ≡ os_error
unfolding check_symbols
check_symbols-err fs src_root name doc none s h = cc
check_symbols-err fs src_root name doc (some zig) s h =
    elim (>>=-eq-err (read_zig_blob fs src_root zig) _ h) [
      | inl a ↦ read_zig_blob-err fs src_root zig a
      | inr (text, a, h1) ↦ elim (Bool-cases (is_empty (strip text))) [
        | inl blank ↦ let w = rw blank at h1 in cc
        | inr full ↦
            let (ms, e1) = check_mapped_presence-total doc text s in
            let w = rw (full, e1) at h1 in cc
      ]
    ]

sum_mapped-total :
    (vs : List Value) (zig_map : Fields) → AllStr vs → (n : ℕ) × (sum_mapped vs zig_map ≡ ok n)
unfolding sum_mapped in_map
sum_mapped-total [] zig_map h = (0, refl)
sum_mapped-total (v ∷ vs) zig_map ((s, e), h) =
    let (n, k) = sum_mapped-total vs zig_map h in
    ((if has_key s zig_map then 1 else 0) + n, rw e (rw k refl))

count_mapped-total :
    (keys : List Text) (required zig_map : Fields)
    → All (λ key. IsNames (get key required)) keys
    → (n : ℕ) × (count_mapped keys required zig_map ≡ ok n)
unfolding count_mapped
count_mapped-total [] required zig_map h = (0, refl)
count_mapped-total (key ∷ keys) required zig_map h =
    let (names, e, strs) = iterate-IsNames (get key required) h.0 in
    let (here, e1) = sum_mapped-total names zig_map strs in
    let (more, e2) = count_mapped-total keys required zig_map h.1 in
    (here + more, rw (e, e1, e2) refl)

-- On a document that fits the schema, the only exception of the loop body behind the schema check
-- is that a source file cannot be read.
pub check_package-err :
    (fs : Files) (src_root : Text) (index : List (Text × Fields)) (name : Text) (doc : Fields)
    {e : Crash}
    → IsSchema doc
    → check_package fs src_root index name doc ≡ err e
    → e ≡ os_error
unfolding check_package
check_package-err fs src_root index name doc s h =
    let (ids, e1, strs) = semantic_ids-IsSchema doc s in
    let (required, e2, req) = as_mapping-IsRequire (get (codes "require") doc) s.requires in
    let (zig_map, e3, texts) = as_mapping-IsTexts (get (codes "zig_map") doc) s.maps in
    let (mapped, e4) =
      count_mapped-total name_keys required zig_map (req.0, (req.1.0, (req.1.1.0, tt))) in
    let zig = zig_path (lookup name index) in
    elim (>>=-eq-err (check_symbols fs src_root name doc zig) _ (rw (e1, e2, e3, e4) at h)) [
      | inl a ↦ check_symbols-err fs src_root name doc zig s a
      | inr (verdict, a, h1) ↦ cc
    ]
