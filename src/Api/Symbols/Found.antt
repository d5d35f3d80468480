-- ===== src/Api/Symbols/Found.antt =====
-- The identifiers of a valid document are texts, and are looked for without an exception.
use gitz.Common.{
  ◌≡◌, inl, inr, refl, Bool, true, false, List, [], ◌∷◌, ◌++◌, Text, codes, Option, none, some, All,
  if◌then◌else◌, ok, >>=-eq-ok, ok-injective, Bool-cases,
}
use gitz.Common.Str.{contains}
use gitz.Yaml.{
  Value, Fields, null, bool, int, float, str, seq, dict, nil, cons, end, field, get, to_list,
}
use gitz.Yaml.Shape.{as_str, as_dict, iterate, values_of}
use gitz.Yaml.Truth.{or_value, truthy}
use gitz.Api.Packages.{as_mapping}
use gitz.Api.Schema.Valid.{AllStr, IsNames, IsTexts, IsRequire, IsSchema}
use gitz.Api.Symbols.{has_text, add_values, semantic_ids, absent_ids, last_part}

-- The last part of the identifier stands in the Zig text.
abbrev pub Found : Text → Value → Type 0
Found zig_text v = (s : Text) × (v ≡ str s) × (contains zig_text (last_part s) ≡ true)

-- What `doc.get(key) or []` iterates over, if the key holds texts or nothing.
pub iterate-IsNames :
    (o : Option Value)
    → IsNames o
    → (vs : List Value) × (iterate (or_value o (seq nil)) ≡ some vs) × AllStr vs
unfolding or_value iterate truthy
iterate-IsNames none h = ([], refl, tt)
iterate-IsNames (some null) h = ([], refl, tt)
iterate-IsNames (some (seq nil)) h = ([], refl, tt)
iterate-IsNames (some (seq (cons v vs))) h = (to_list (cons v vs), refl, h)
iterate-IsNames (some (bool b)) h = absurd h
iterate-IsNames (some (int n)) h = absurd h
iterate-IsNames (some (float x)) h = absurd h
iterate-IsNames (some (str s)) h = absurd h
iterate-IsNames (some (dict fs)) h = absurd h

-- What `doc.get("zig_map") or {}` maps to, if it maps to texts or is nothing.
pub as_mapping-IsTexts :
    (o : Option Value)
    → IsTexts o
    → (fs : Fields) × (as_mapping (or_value o (dict end)) ≡ ok fs) × AllStr (values_of fs)
unfolding or_value truthy as_mapping as_dict values_of
as_mapping-IsTexts none h = (end, refl, tt)
as_mapping-IsTexts (some null) h = (end, refl, tt)
as_mapping-IsTexts (some (dict end)) h = (end, refl, tt)
as_mapping-IsTexts (some (dict (field k v fs))) h = (field k v fs, refl, h)
as_mapping-IsTexts (some (bool b)) h = absurd h
as_mapping-IsTexts (some (int n)) h = absurd h
as_mapping-IsTexts (some (float x)) h = absurd h
as_mapping-IsTexts (some (str s)) h = absurd h
as_mapping-IsTexts (some (seq vs)) h = absurd h

-- The mapping of `require`.
pub as_mapping-IsRequire :
    (o : Option Value)
    → IsRequire o
    → (fs : Fields) × (as_mapping (or_value o (dict end)) ≡ ok fs) × IsRequire (some (dict fs))
unfolding or_value truthy as_mapping as_dict
as_mapping-IsRequire (some (dict end)) h = (end, refl, h)
as_mapping-IsRequire (some (dict (field k v fs))) h = (field k v fs, refl, h)
as_mapping-IsRequire none h = absurd h
as_mapping-IsRequire (some null) h = absurd h
as_mapping-IsRequire (some (bool b)) h = absurd h
as_mapping-IsRequire (some (int n)) h = absurd h
as_mapping-IsRequire (some (float x)) h = absurd h
as_mapping-IsRequire (some (str s)) h = absurd h
as_mapping-IsRequire (some (seq vs)) h = absurd h

AllStr-append : (vs ws : List Value) → AllStr vs → AllStr ws → AllStr (vs ++ ws)
AllStr-append [] ws h k = k
AllStr-append (v ∷ vs) ws h k = (h.0, AllStr-append vs ws h.1 k)

add_values-AllStr : (ids vs : List Value) → AllStr ids → AllStr vs → AllStr (add_values ids vs)
unfolding add_values as_str
add_values-AllStr ids [] h k = h
add_values-AllStr ids (v ∷ vs) h ((s, e), k) = rw e (
    add_values-AllStr (if has_text s ids then ids else ids ++ (str s ∷ [])) vs
      (kept (has_text s ids)) k)
  where
    kept : (b : Bool) → AllStr (if b then ids else ids ++ (str s ∷ []))
    kept true = h
    kept false = AllStr-append ids (str s ∷ []) h ((s, refl), tt)

-- For a document that fits the schema, `semantic_ids` returns, and every identifier is a text.
pub semantic_ids-IsSchema :
    (doc : Fields) → IsSchema doc → (ids : List Value) × (semantic_ids doc ≡ ok ids) × AllStr ids
unfolding semantic_ids
semantic_ids-IsSchema doc h =
    let (required, e1, req) = as_mapping-IsRequire (get (codes "require") doc) h.requires in
    let (names, e2, strs) = iterate-IsNames (get (codes "semantic") required) req.1.1.1.0 in
    let (zig_map, e3, texts) = as_mapping-IsTexts (get (codes "zig_map") doc) h.maps in
    (
      add_values names (values_of zig_map),
      rw (e1, e2, e3),
      add_values-AllStr names (values_of zig_map) strs texts,
    )

-- Every identifier that is a text is looked for without an exception.
pub absent_ids-total :
    (ids : List Value) (zig_text : Text)
    → AllStr ids
    → (ms : List Value) × (absent_ids ids zig_text ≡ ok ms)
unfolding absent_ids as_str
absent_ids-total [] zig_text h = ([], refl)
absent_ids-total (v ∷ ids) zig_text ((s, e), h) =
    let (ms, k) = absent_ids-total ids zig_text h in
    elim (Bool-cases (contains zig_text (last_part s))) [
      | inl t ↦ (ms, rw e (rw t k))
      | inr t ↦ (v ∷ ms, rw e (rw (t, k) refl))
    ]

-- If none is missing, all are found.
pub absent_ids-Found :
    (ids : List Value) (zig_text : Text)
    → absent_ids ids zig_text ≡ ok []
    → All (Found zig_text) ids
unfolding absent_ids as_str
absent_ids-Found [] zig_text h = tt
absent_ids-Found (str s ∷ ids) zig_text h = elim (Bool-cases (contains zig_text (last_part s))) [
  | inl t ↦ ((s, refl, t), absent_ids-Found ids zig_text (rw t at h))
  | inr t ↦
      let (ms, e, k) = >>=-eq-ok (absent_ids ids zig_text) _ (rw t at h) in
      let w = ok-injective k in cc
]
absent_ids-Found (null ∷ ids) zig_text h = cc
absent_ids-Found (bool b ∷ ids) zig_text h = cc
absent_ids-Found (int n ∷ ids) zig_text h = cc
absent_ids-Found (float x ∷ ids) zig_text h = cc
absent_ids-Found (seq vs ∷ ids) zig_text h = cc
absent_ids-Found (dict fs ∷ ids) zig_text h = cc
