-- ===== src/Yaml/Block/Print/Whole.antt =====
-- The block parser on all the lines of a block, with the fuel that `load` gives.
use gitz.Common.{
  ℕ, zero, suc, ◌+◌, ◌≤◌, ◌≡◌, refl, ap, ◌∙◌, List, [], ◌∷◌, ◌++◌, Text, arith, ok, inl, inr,
  length, append-nil,
}
use gitz.Yaml.{
  Value, Values, Fields, null, bool, int, float, str, seq, dict, nil, cons, end, field, update,
  append,
}
use gitz.Yaml.Clean.{Line}
use gitz.Yaml.Block.{parse_block, parse_list, load_lines, block_fuel, finish}
use gitz.Yaml.Block.Print.{
  flat_text, entry_text, key_text, item_text, lines, items, item, entries, IsFlat, IsBlock, IsItem,
  IsItemFields, AreItems, AreEntries,
}
use gitz.Yaml.Block.Print.Texts.{flat_text-IsText, seq-IsFlat}
use gitz.Yaml.Block.Print.Keys.{strip-entry_text, strip-key_text, strip-IsText}
use gitz.Yaml.Block.Print.Steps
use gitz.Yaml.Block.Print.Steps.{Below, NotDeeper}
use gitz.Yaml.Block.Print.Joined.{append_all, append_all-nil, update-end}
use gitz.Yaml.Block.Print.Heads.{
  item_fields-flat, item_fields-block, entries_head, items_head, block_head, block_of_items,
  block_of_entries,
}
use gitz.Yaml.Block.Print.Reads.{
  ReadsBlock, ReadsItem, ReadsItems, ReadsEntries, ReadsItemFields, nested_lines, cons-ReadsItems,
  cons-ReadsEntries, extra_lines,
}

field-ReadsItemFields :
    (k : Text) (v : Value) (fs : Fields)
    → ReadsBlock v
    → ReadsEntries fs
    → ReadsItemFields (field k v fs)
unfolding IsItemFields
field-ReadsItemFields k v fs ih ihs zero i acc rest h b le = elim h.2 [
  | inl (e, flat, more) ↦ absurd (omega (arith, ap length (item_fields-flat i k v fs e)))
  | inr (e, block, last) ↦ absurd (omega (arith, ap length (item_fields-block i k v fs e)))
]
field-ReadsItemFields k v fs ih ihs (suc f) i acc rest h b le = elim h.2 [
  | inl (e, flat, more) ↦
      let size = ap length (item_fields-flat i k v fs e) in
      let text = flat_text-IsText v flat in
      let read = extra_lines f i k v fs rest ihs more h.1 b (omega arith) in
      rw
        (
          item_fields-flat i k v fs e,
          Steps.parse_list-item_text (suc f) i acc (entry_text k (flat_text v))
              (entries (i + 2) fs ++ rest) (strip-entry_text k (flat_text v) h.0 text),
          Steps.parse_item-entry_text f i k (flat_text v) (entries (i + 2) fs ++ rest) h.0 text,
          read,
        )
        refl
  | inr (e, block, last) ↦
      let size = ap length (item_fields-block i k v fs e) in
      let nested = nested_lines f i v rest ih block b (omega arith) in
      rw
        (
          item_fields-block i k v fs e,
          Steps.parse_list-item_text (suc f) i acc (key_text k) (lines (i + 2) v ++ rest)
              (strip-key_text k h.0),
          Steps.parse_item-key_text f i k (lines (i + 2) v ++ rest) h.0,
          nested,
          last,
        )
        refl
]

parse_list-flat_text :
    (f i : ℕ) (acc : Values) (v : Value) (rest : List Line)
    → IsFlat v
    → 1 ≤ f
    → parse_list (suc f) acc ((i, item_text (flat_text v)) ∷ rest) i
      ≡ parse_list f (append acc v) rest i
parse_list-flat_text zero i acc v rest h le = absurd (omega arith)
parse_list-flat_text (suc f) i acc v rest h le =
    let text = flat_text-IsText v h in
    rw
      (
        Steps.parse_list-item_text (suc f) i acc (flat_text v) rest
            (strip-IsText (flat_text v) text),
        Steps.parse_item-IsText f i (flat_text v) rest text,
      )
      refl

seq-ReadsBlock : (vs : Values) → ReadsItems vs → ReadsBlock (seq vs)
unfolding lines IsBlock AreItems
seq-ReadsBlock vs ih zero i rest h b le = absurd (omega arith)
seq-ReadsBlock nil ih (suc f) i rest h b le = absurd (h.1 refl)
seq-ReadsBlock (cons v vs) ih (suc f) i rest h b le =
    let (u, ls, e) = items_head i v vs h.0.0 in
    block_of_items f i u ls (items i (cons v vs)) rest e
    ∙ rw (ih f i nil rest h.0 b (omega arith), append_all-nil (cons v vs)) refl

dict-ReadsBlock : (fs : Fields) → ReadsEntries fs → ReadsBlock (dict fs)
unfolding lines IsBlock AreEntries
dict-ReadsBlock fs ih zero i rest h b le = absurd (omega arith)
dict-ReadsBlock end ih (suc f) i rest h b le = absurd (h.1 refl)
dict-ReadsBlock (field k v fs) ih (suc f) i rest h b le =
    let (x, ls, e) = entries_head i k v fs in
    block_of_entries f i k x ls (entries i (field k v fs)) rest h.0.0 e
    ∙ rw (ih f i end rest h.0 b (omega arith), update-end (field k v fs) h.0) refl

abbrev ReadsValue : Value → Type 0
ReadsValue v = ReadsBlock v × ReadsItem v

abbrev ReadsFields : Fields → Type 0
ReadsFields fs = ReadsEntries fs × ReadsItemFields fs

-- A value that is no block.
flat_text-ReadsItem :
    (v : Value)
    → ((i : ℕ) → item i v ≡ (i, item_text (flat_text v)) ∷ [])
    → (IsItem v → IsFlat v)
    → ReadsItem v
flat_text-ReadsItem v e flat f i acc rest h b le =
    rw (e i) (parse_list-flat_text f i acc v rest (flat h) (omega (arith, ap length (e i))))

nil-ReadsItems : ReadsItems nil
unfolding items append_all
nil-ReadsItems zero i acc rest h b le = absurd (omega arith)
nil-ReadsItems (suc f) i acc rest h b le = Steps.parse_list-Below f i acc rest b

end-ReadsEntries : ReadsEntries end
unfolding entries update
end-ReadsEntries zero i acc rest h b le = absurd (omega arith)
end-ReadsEntries (suc f) i acc rest h b le = Steps.parse_map-Below f i acc rest b

reads_value : (v : Value) → ReadsValue v
unfolding IsBlock IsItem item
reads_value v = elim v as ReadsValue ReadsItems ReadsFields [
  | null ↦ (λ f i rest h. absurd h, flat_text-ReadsItem null (λ i. refl) (λ h. h))
  | bool b ↦ (λ f i rest h. absurd h, flat_text-ReadsItem (bool b) (λ i. refl) (λ h. h))
  | str s ↦ (λ f i rest h. absurd h, flat_text-ReadsItem (str s) (λ i. refl) (λ h. h))
  | int n ↦ (λ f i rest h. absurd h, flat_text-ReadsItem (int n) (λ i. refl) (λ h. h))
  | float x ↦ (λ f i rest h. absurd h, λ f i acc rest h. absurd h)
  | seq (vs → ih) ↦ (seq-ReadsBlock vs ih, flat_text-ReadsItem (seq vs) (λ i. refl) (seq-IsFlat vs))
  | dict (fs → ih) ↦ (dict-ReadsBlock fs ih.0, ih.1)
  | nil ↦ nil-ReadsItems
  | cons (w → ih) (vs → ihs) ↦ cons-ReadsItems w vs ih.1 ihs
  | end ↦ (end-ReadsEntries, λ f i acc rest h. absurd h)
  | field k (w → ih) (fs → ihs) ↦
      (cons-ReadsEntries k w fs ih.0 ihs.0, field-ReadsItemFields k w fs ih.0 ihs.0)
]

load_first :
    (i : ℕ) (c : Text) (ls block : List Line) (v : Value)
    → block ≡ (i, c) ∷ ls
    → parse_block (block_fuel (length block)) block i ≡ ok (v, [])
    → load_lines block ≡ ok v
unfolding load_lines finish
load_first i c ls block v e read = rw e (rw (rw e at read) refl)

-- The block parser reads the lines of a block with the fuel of `load`, and leaves none.
pub load-lines : (i : ℕ) (v : Value) → IsBlock v → load_lines (lines i v) ≡ ok v
load-lines i v h =
    let (c, ls, e) = block_head i v h in
    let read = (reads_value v).0 (block_fuel (length (lines i v))) i [] h tt (omega arith) in
    load_first i c ls (lines i v) v e (rw (append-nil (lines i v)) at read)
