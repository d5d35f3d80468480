-- ===== src/Yaml/Block/Print/Reads.antt =====
-- What the parsers of lists and mappings read off the lines of their items and keys.
use gitz.Common.{
  ℕ, zero, suc, ◌+◌, ◌*◌, ◌≤◌, ◌≡◌, ap, ◌∙◌, List, ◌++◌, Text, arith, ok, none, inl, inr, length,
  length-append, append_assoc,
}
use gitz.Yaml.{Value, Values, Fields, null, dict, cons, end, field, get, put, update, append}
use gitz.Yaml.Clean.{Line}
use gitz.Yaml.Block.{parse_block, parse_nested, parse_map, parse_extra, parse_list}
use gitz.Yaml.Block.Print.{
  flat_text, lines, items, item, item_fields, entries, IsKey, IsBlock, IsItem, IsItemFields,
  AreItems, AreEntries,
}
use gitz.Yaml.Block.Print.Texts.{flat_text-IsText}
use gitz.Yaml.Block.Print.Steps
use gitz.Yaml.Block.Print.Steps.{Below, NotDeeper}
use gitz.Yaml.Block.Print.Joined.{append_all, update-end, update-field}
use gitz.Yaml.Block.Print.Heads.{
  entries-flat, entries-block, item_head, entries_head, block_head, items-NotDeeper,
  entries-NotDeeper, NotDeeper-Below, nested_deeper, extra_of_entries,
}

-- The block parser reads the value off its lines, whatever follows at a smaller indent.
abbrev pub ReadsBlock : Value → Type 0
ReadsBlock v =
    (f i : ℕ) (rest : List Line)
    → IsBlock v
    → Below i rest
    → 4 * length (lines i v) + 2 ≤ f
    → parse_block f (lines i v ++ rest) i ≡ ok (v, rest)

-- The loop of the list parser appends the item.
abbrev pub ReadsItem : Value → Type 0
ReadsItem v =
    (f i : ℕ) (acc : Values) (rest : List Line)
    → IsItem v
    → NotDeeper i rest
    → 4 * length (item i v) ≤ f
    → parse_list (suc f) acc (item i v ++ rest) i ≡ parse_list f (append acc v) rest i

abbrev pub ReadsItems : Values → Type 0
ReadsItems vs =
    (f i : ℕ) (acc : Values) (rest : List Line)
    → AreItems vs
    → Below i rest
    → 4 * length (items i vs) + 1 ≤ f
    → parse_list f acc (items i vs ++ rest) i ≡ ok (append_all acc vs, rest)

abbrev pub ReadsEntries : Fields → Type 0
ReadsEntries fs =
    (f i : ℕ) (acc : Fields) (rest : List Line)
    → AreEntries fs
    → Below i rest
    → 4 * length (entries i fs) + 1 ≤ f
    → parse_map f acc (entries i fs ++ rest) i ≡ ok (update acc fs, rest)

abbrev pub ReadsItemFields : Fields → Type 0
ReadsItemFields fs =
    (f i : ℕ) (acc : Values) (rest : List Line)
    → IsItemFields fs
    → NotDeeper i rest
    → 4 * length (item_fields i fs) ≤ f
    → parse_list (suc f) acc (item_fields i fs ++ rest) i
      ≡ parse_list f (append acc (dict fs)) rest i

pub nested_lines :
    (f i : ℕ) (v : Value) (rest : List Line)
    → ReadsBlock v
    → IsBlock v
    → NotDeeper i rest
    → 4 * length (lines (i + 2) v) + 3 ≤ f
    → parse_nested f null (lines (i + 2) v ++ rest) i ≡ ok (v, rest)
nested_lines zero i v rest ih h b le = absurd (omega arith)
nested_lines (suc f) i v rest ih h b le =
    let (c, ls, e) = block_head (i + 2) v h in
    nested_deeper f i (i + 2) c ls (lines (i + 2) v) rest e (omega arith)
    ∙ ih f (i + 2) rest h (NotDeeper-Below i rest b) (omega arith)

pub cons-ReadsItems :
    (v : Value) (vs : Values) → ReadsItem v → ReadsItems vs → ReadsItems (cons v vs)
unfolding AreItems items append_all
cons-ReadsItems v vs ih ihs zero i acc rest h b le = absurd (omega arith)
cons-ReadsItems v vs ih ihs (suc f) i acc rest h b le =
    let (u, ls, e) = item_head i v h.0 in
    let total = length-append (item i v) (items i vs) in
    let some_lines = ap length e in
    rw (append_assoc (item i v) (items i vs) rest) (
      ih f i acc (items i vs ++ rest) h.0 (items-NotDeeper i vs rest h.1 b) (omega arith)
      ∙ ihs f i (append acc v) rest h.1 b (omega arith))

pub cons-ReadsEntries :
    (k : Text) (v : Value) (fs : Fields)
    → ReadsBlock v
    → ReadsEntries fs
    → ReadsEntries (field k v fs)
unfolding AreEntries update
cons-ReadsEntries k v fs ih ihs zero i acc rest h b le = absurd (omega arith)
cons-ReadsEntries k v fs ih ihs (suc f) i acc rest h b le = elim h.2 [
  | inl (e, flat) ↦
      let size = ap length (entries-flat i k v fs e) in
      rw (entries-flat i k v fs e) (
        Steps.parse_map-entry_text f i acc k (flat_text v) (entries i fs ++ rest) h.0
          (flat_text-IsText v flat)
        ∙ ihs f i (put k v acc) rest h.3 b (omega arith))
  | inr (e, block) ↦
      let size = ap length (entries-block i k v fs e) in
      let total = length-append (lines (i + 2) v) (entries i fs) in
      let nested =
        nested_lines f i v (entries i fs ++ rest) ih block (entries-NotDeeper i fs rest b)
          (omega arith) in
      rw (entries-block i k v fs e, append_assoc (lines (i + 2) v) (entries i fs) rest)
        (Steps.parse_map-key_text f i acc k (lines (i + 2) v ++ (entries i fs ++ rest)) h.0
          ∙ rw nested (ihs f i (put k v acc) rest h.3 b (omega arith)))
]

pub extra_lines :
    (f i : ℕ) (k : Text) (v : Value) (fs : Fields) (rest : List Line)
    → ReadsEntries fs
    → AreEntries fs
    → get k fs ≡ none
    → NotDeeper i rest
    → 4 * length (entries (i + 2) fs) + 3 ≤ f
    → parse_extra f (field k v end) (entries (i + 2) fs ++ rest) i ≡ ok (field k v fs, rest)
extra_lines zero i k v fs rest ih h g b le = absurd (omega arith)
extra_lines (suc zero) i k v fs rest ih h g b le = absurd (omega arith)
extra_lines (suc (suc f)) i k v end rest ih h g b le =
    unfold entries in Steps.parse_extra-NotDeeper (suc f) i (field k v end) rest b
extra_lines (suc (suc f)) i k v (field j w fs) rest ih h g b le =
    let (x, ls, e) = entries_head (i + 2) j w fs in
    let read =
      ih (suc f) (i + 2) end rest h (NotDeeper-Below i rest b) (omega arith)
      ∙ ap (λ m. ok (m, rest)) (update-end (field j w fs) h) in
    extra_of_entries (suc f) i (i + 2) (field k v end) j x ls (entries (i + 2) (field j w fs)) rest
      (omega arith) (key_of_entries j w fs h) e
    ∙ rw (read, update-field k v (field j w fs) h g)
        (Steps.parse_extra-NotDeeper f i (field k v (field j w fs)) rest b)
  where
    key_of_entries : (j : Text) (w : Value) (fs : Fields) → AreEntries (field j w fs) → IsKey j
    key_of_entries j w fs h = unfold AreEntries in h.0
