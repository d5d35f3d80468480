-- ===== src/Yaml/Block/Print/Heads.antt =====
-- The first of the lines that are printed for a block, and the step that it makes.
use gitz.Common.{
  ℕ, suc, ◌+◌, ◌<◌, ◌≡◌, refl, true, false, List, [], ◌∷◌, ◌++◌, Text, arith, ok, ◌>>=◌, inl, inr,
  Bool-cases,
}
use gitz.Yaml.{
  Value, Values, Fields, null, bool, int, float, str, seq, dict, nil, cons, end, field, update,
}
use gitz.Yaml.Clean.{Line}
use gitz.Yaml.Block.{parse_block, parse_nested, parse_map, parse_extra, parse_list}
use gitz.Yaml.Block.Print.{
  is_flat, flat_text, entry_text, key_text, item_text, lines, items, item, item_fields, entries,
  IsKey, IsBlock, IsItem, IsItemFields, AreItems,
}
use gitz.Yaml.Block.Print.Steps
use gitz.Yaml.Block.Print.Steps.{Below, NotDeeper}

pub entries-flat :
    (i : ℕ) (k : Text) (v : Value) (fs : Fields)
    → is_flat v ≡ true
    → entries i (field k v fs) ≡ (i, entry_text k (flat_text v)) ∷ entries i fs
unfolding entries
entries-flat i k v fs e = rw e refl

pub entries-block :
    (i : ℕ) (k : Text) (v : Value) (fs : Fields)
    → is_flat v ≡ false
    → entries i (field k v fs) ≡ (i, key_text k) ∷ (lines (i + 2) v ++ entries i fs)
unfolding entries
entries-block i k v fs e = rw e refl

pub item_fields-flat :
    (i : ℕ) (k : Text) (v : Value) (fs : Fields)
    → is_flat v ≡ true
    → item_fields i (field k v fs)
      ≡ (i, item_text (entry_text k (flat_text v))) ∷ entries (i + 2) fs
unfolding item_fields
item_fields-flat i k v fs e = rw e refl

pub item_fields-block :
    (i : ℕ) (k : Text) (v : Value) (fs : Fields)
    → is_flat v ≡ false
    → item_fields i (field k v fs) ≡ (i, item_text (key_text k)) ∷ lines (i + 2) v
unfolding item_fields
item_fields-block i k v fs e = rw e refl

pub item_fields_head :
    (i : ℕ) (fs : Fields)
    → IsItemFields fs
    → (u : Text) × (ls : List Line) × (item_fields i fs ≡ (i, item_text u) ∷ ls)
unfolding IsItemFields
item_fields_head i end h = absurd h
item_fields_head i (field k v fs) h = elim (Bool-cases (is_flat v)) [
  | inl e ↦ (entry_text k (flat_text v), entries (i + 2) fs, item_fields-flat i k v fs e)
  | inr e ↦ (key_text k, lines (i + 2) v, item_fields-block i k v fs e)
]

pub item_head :
    (i : ℕ) (v : Value)
    → IsItem v
    → (u : Text) × (ls : List Line) × (item i v ≡ (i, item_text u) ∷ ls)
unfolding item IsItem
item_head i (dict fs) h = item_fields_head i fs h
item_head i null h = (flat_text null, [], refl)
item_head i (bool b) h = (flat_text (bool b), [], refl)
item_head i (str s) h = (flat_text (str s), [], refl)
item_head i (seq vs) h = (flat_text (seq vs), [], refl)
item_head i (int n) h = (flat_text (int n), [], refl)
item_head i (float x) h = absurd h

pub entries_head :
    (i : ℕ) (k : Text) (v : Value) (fs : Fields)
    → (x : Text) × (ls : List Line) × (entries i (field k v fs) ≡ (i, k ++ (b':' ∷ x)) ∷ ls)
entries_head i k v fs = elim (Bool-cases (is_flat v)) [
  | inl e ↦ (b' ' ∷ flat_text v, entries i fs, entries-flat i k v fs e)
  | inr e ↦ ([], lines (i + 2) v ++ entries i fs, entries-block i k v fs e)
]

pub items_head :
    (i : ℕ) (v : Value) (vs : Values)
    → IsItem v
    → (u : Text) × (ls : List Line) × (items i (cons v vs) ≡ (i, item_text u) ∷ ls)
unfolding items
items_head i v vs h = let (u, ls, e) = item_head i v h in (u, ls ++ items i vs, rw e refl)

pub block_head :
    (i : ℕ) (v : Value) → IsBlock v → (c : Text) × (ls : List Line) × (lines i v ≡ (i, c) ∷ ls)
unfolding lines IsBlock AreItems
block_head i (seq nil) h = absurd (h.1 refl)
block_head i (seq (cons v vs)) h = let (u, ls, e) = items_head i v vs h.0.0 in (item_text u, ls, e)
block_head i (dict end) h = absurd (h.1 refl)
block_head i (dict (field k v fs)) h =
    let (x, ls, e) = entries_head i k v fs in (k ++ (b':' ∷ x), ls, e)
block_head i null h = absurd h
block_head i (bool b) h = absurd h
block_head i (str s) h = absurd h
block_head i (int n) h = absurd h
block_head i (float x) h = absurd h

-- What follows inside a block keeps its indent.
pub items-NotDeeper :
    (i : ℕ) (vs : Values) (rest : List Line)
    → AreItems vs
    → Below i rest
    → NotDeeper i (items i vs ++ rest)
unfolding AreItems
items-NotDeeper i nil [] h b = unfold items in tt
items-NotDeeper i nil (l ∷ rest) h b = unfold items in omega arith
items-NotDeeper i (cons v vs) rest h b =
    let (u, ls, e) = items_head i v vs h.0 in rw e (omega arith)

pub entries-NotDeeper :
    (i : ℕ) (fs : Fields) (rest : List Line) → Below i rest → NotDeeper i (entries i fs ++ rest)
entries-NotDeeper i end [] b = unfold entries in tt
entries-NotDeeper i end (l ∷ rest) b = unfold entries in omega arith
entries-NotDeeper i (field k v fs) rest b =
    let (x, ls, e) = entries_head i k v fs in rw e (omega arith)

pub NotDeeper-Below : (i : ℕ) (rest : List Line) → NotDeeper i rest → Below (i + 2) rest
NotDeeper-Below i [] h = tt
NotDeeper-Below i (l ∷ rest) h = omega arith

-- The same steps on lines known by their first.
pub nested_deeper :
    (f i j : ℕ) (c : Text) (ls block rest : List Line)
    → block ≡ (j, c) ∷ ls
    → i < j
    → parse_nested (suc f) null (block ++ rest) i ≡ parse_block f (block ++ rest) j
nested_deeper f i j c ls block rest e l =
    rw e (Steps.parse_nested-deeper f i j null c (ls ++ rest) l)

pub block_of_items :
    (f i : ℕ) (u : Text) (ls block rest : List Line)
    → block ≡ (i, item_text u) ∷ ls
    → parse_block (suc f) (block ++ rest) i
      ≡ (parse_list f nil (block ++ rest) i >>= λ r. ok (seq r.0, r.1))
block_of_items f i u ls block rest e = rw e (Steps.parse_block-item f i u (ls ++ rest))

pub block_of_entries :
    (f i : ℕ) (k x : Text) (ls block rest : List Line)
    → IsKey k
    → block ≡ (i, k ++ (b':' ∷ x)) ∷ ls
    → parse_block (suc f) (block ++ rest) i
      ≡ (parse_map f end (block ++ rest) i >>= λ r. ok (dict r.0, r.1))
block_of_entries f i k x ls block rest h e = rw e (Steps.parse_block-key f i k x (ls ++ rest) h)

pub extra_of_entries :
    (f i j : ℕ) (m : Fields) (k x : Text) (ls block rest : List Line)
    → i < j
    → IsKey k
    → block ≡ (j, k ++ (b':' ∷ x)) ∷ ls
    → parse_extra (suc f) m (block ++ rest) i
      ≡ (parse_map f end (block ++ rest) j >>= λ r. parse_extra f (update m r.0) r.1 i)
extra_of_entries f i j m k x ls block rest l h e =
    rw e (Steps.parse_extra-key f i j m k x (ls ++ rest) l h)
