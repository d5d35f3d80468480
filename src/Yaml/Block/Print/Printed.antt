-- ===== src/Yaml/Block/Print/Printed.antt =====
-- Every line that is printed for a block can be cleaned.
use gitz.Common.{ℕ, ◌+◌, ◌≡◌, refl, List, [], ◌∷◌, ◌++◌, Text, All, All-append, inl, inr}
use gitz.Yaml.{Value, Values, Fields, null, bool, int, float, str, seq, dict, nil, cons, end, field}
use gitz.Yaml.Clean.{Line}
use gitz.Yaml.Block.Print.{
  flat_text, entry_text, key_text, item_text, lines, items, item, item_fields, entries, IsFlat,
  IsBlock, IsItem, IsItemFields, AreItems, AreEntries,
}
use gitz.Yaml.Block.Print.Texts.{seq-IsFlat}
use gitz.Yaml.Block.Print.Inline.{
  IsInline, flat_text-IsInline, entry_text-IsInline, key_text-IsInline, item_text-IsInline,
}

abbrev pub AreInline : List Line → Type 0
AreInline ls = All (λ l. IsInline l.1) ls

abbrev InlineValue : Value → Type 0
InlineValue v =
    ((i : ℕ) → IsBlock v → AreInline (lines i v)) × ((i : ℕ) → IsItem v → AreInline (item i v))

abbrev InlineItems : Values → Type 0
InlineItems vs = (i : ℕ) → AreItems vs → AreInline (items i vs)

abbrev InlineFields : Fields → Type 0
InlineFields fs =
    ((i : ℕ) → AreEntries fs → AreInline (entries i fs))
    × ((i : ℕ) → IsItemFields fs → AreInline (item_fields i fs))

AreInline-append : (ls ms : List Line) → AreInline ls → AreInline ms → AreInline (ls ++ ms)
AreInline-append ls ms h k = All-append (λ l. IsInline l.1) ls ms h k

inline_fields :
    (k : Text) (v : Value) (fs : Fields)
    → InlineValue v
    → InlineFields fs
    → InlineFields (field k v fs)
unfolding IsItemFields AreEntries entries item_fields
inline_fields k v fs ih ihs = (in_block, in_item)
  where
    in_block : (i : ℕ) → AreEntries (field k v fs) → AreInline (entries i (field k v fs))
    in_block i h = elim h.2 [
      | inl (e, flat) ↦
          rw e (entry_text-IsInline k (flat_text v) h.0 (flat_text-IsInline v flat), ihs.0 i h.3)
      | inr (e, block) ↦ rw e (
        key_text-IsInline k h.0,
        AreInline-append (lines (i + 2) v) (entries i fs) (ih.0 (i + 2) block) (ihs.0 i h.3),
      )
    ]

    in_item : (i : ℕ) → IsItemFields (field k v fs) → AreInline (item_fields i (field k v fs))
    in_item i h = elim h.2 [
      | inl (e, flat, more) ↦ rw e (
        item_text-IsInline (entry_text k (flat_text v))
            (entry_text-IsInline k (flat_text v) h.0 (flat_text-IsInline v flat)),
        ihs.0 (i + 2) more,
      )
      | inr (e, block, last) ↦
          rw e (item_text-IsInline (key_text k) (key_text-IsInline k h.0), ih.0 (i + 2) block)
    ]

-- A value that is no block.
inline_flat :
    (v : Value)
    → ((i : ℕ) → item i v ≡ (i, item_text (flat_text v)) ∷ [])
    → (IsItem v → IsFlat v)
    → (i : ℕ) → IsItem v
    → AreInline (item i v)
inline_flat v e flat i h =
    rw (e i) (item_text-IsInline (flat_text v) (flat_text-IsInline v (flat h)), tt)

inline_value : (v : Value) → InlineValue v
unfolding IsBlock IsItem AreItems item items
inline_value v = elim v as InlineValue InlineItems InlineFields [
  | null ↦ (λ i h. absurd h, inline_flat null (λ i. refl) (λ h. h))
  | bool b ↦ (λ i h. absurd h, inline_flat (bool b) (λ i. refl) (λ h. h))
  | str s ↦ (λ i h. absurd h, inline_flat (str s) (λ i. refl) (λ h. h))
  | int n ↦ (λ i h. absurd h, inline_flat (int n) (λ i. refl) (λ h. h))
  | float x ↦ (λ i h. absurd h, λ i h. absurd h)
  | seq (vs → ih) ↦ (λ i h. ih i h.0, inline_flat (seq vs) (λ i. refl) (seq-IsFlat vs))
  | dict (fs → ih) ↦ (λ i h. ih.0 i h.0, ih.1)
  | nil ↦ λ i h. tt
  | cons (w → ih) (vs → ihs) ↦
      λ i h. AreInline-append (item i w) (items i vs) (ih.1 i h.0) (ihs i h.1)
  | end ↦ (λ i h. tt, λ i h. tt)
  | field k (w → ih) (fs → ihs) ↦ inline_fields k w fs ih ihs
]

-- Every line of a block can be cleaned.
pub lines-AreInline : (i : ℕ) (v : Value) → IsBlock v → AreInline (lines i v)
lines-AreInline i v h = (inline_value v).0 i h
