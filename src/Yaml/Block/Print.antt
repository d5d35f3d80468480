-- ===== src/Yaml/Block/Print.antt =====
-- A printer for the documents that `load` of simple_yaml.py can hold: the lines of a value, and what
-- it asks of keys and texts.
pub mod Numerals
pub mod Texts
pub mod Keys
pub mod Steps
pub mod Joined
pub mod Heads
pub mod Reads
pub mod Whole
pub mod Inline
pub mod Printed
pub mod Cleaned
mod Examples
use gitz.Common.{
  ℕ, ◌+◌, ◌==◌, ◌≡◌, ◌⊎◌, ◌||◌, not, Bool, true, false, List, [], ◌∷◌, ◌++◌, Text, codes, same, All,
  Option, none, some, replicate, if◌then◌else◌,
}
use gitz.Common.Str.{is_space, is_line_end}
use gitz.Yaml.{
  Value, Values, Fields, null, bool, int, float, str, seq, dict, nil, cons, end, field, get,
}
use gitz.Yaml.Number.Printed.{int_text, IsShort}
use gitz.Yaml.Clean.{Line}

-- A value that stands on one line: texts in double quotes, whole numbers in decimal.
abbrev pub is_flat : Value → Bool
is_flat null = true
is_flat (bool b) = true
is_flat (str s) = true
is_flat (int n) = true
is_flat (seq nil) = true
is_flat (seq (cons v vs)) = false
is_flat (float x) = false
is_flat (dict fs) = false

unfoldable pub flat_text : Value → Text
flat_text null = codes "null"
flat_text (bool true) = codes "true"
flat_text (bool false) = codes "false"
flat_text (str s) = b'"' ∷ (s ++ (b'"' ∷ []))
flat_text (seq vs) = codes "[]"
flat_text (int n) = int_text n
flat_text (float x) = []
flat_text (dict fs) = []

-- `k: t` and `k:`
abbrev pub entry_text : Text → Text → Text
entry_text k t = k ++ (b':' ∷ b' ' ∷ t)

abbrev pub key_text : Text → Text
key_text k = k ++ (b':' ∷ [])

-- `- t`
abbrev pub item_text : Text → Text
item_text t = b'-' ∷ b' ' ∷ t

unfoldable mutual
  -- A block at an indent.
  pub lines : ℕ → Value → List Line
  lines i (seq vs) = items i vs
  lines i (dict fs) = entries i fs
  lines i null = []
  lines i (bool b) = []
  lines i (int n) = []
  lines i (float x) = []
  lines i (str s) = []

  pub items : ℕ → Values → List Line
  items i nil = []
  items i (cons v vs) = item i v ++ items i vs

  -- A mapping begins on the line of its dash.
  pub item : ℕ → Value → List Line
  item i (dict fs) = item_fields i fs
  item i null = (i, item_text (flat_text null)) ∷ []
  item i (bool b) = (i, item_text (flat_text (bool b))) ∷ []
  item i (str s) = (i, item_text (flat_text (str s))) ∷ []
  item i (seq vs) = (i, item_text (flat_text (seq vs))) ∷ []
  item i (int n) = (i, item_text (flat_text (int n))) ∷ []
  item i (float x) = []

  pub item_fields : ℕ → Fields → List Line
  item_fields i end = []
  item_fields i (field k v fs) =
      if is_flat v
      then (i, item_text (entry_text k (flat_text v))) ∷ entries (i + 2) fs
      else (i, item_text (key_text k)) ∷ lines (i + 2) v

  pub entries : ℕ → Fields → List Line
  entries i end = []
  entries i (field k v fs) =
      (if is_flat v
        then (i, entry_text k (flat_text v)) ∷ []
        else (i, key_text k) ∷ lines (i + 2) v)
      ++ entries i fs

-- A character of a key, and of a text.
unfoldable pub key_char : ℕ → Bool
unfolding is_space
key_char c =
    not (is_space c || c == b':' || c == b'"' || c == b'\'' || c == b'#' || c == b'[' || c == b'{')

unfoldable pub text_char : ℕ → Bool
unfolding is_line_end
text_char c = not (is_line_end c || c == b'"')

abbrev pub IsKey : Text → Type 0
IsKey k = All (λ c. key_char c ≡ true) k

abbrev pub IsQuotable : Text → Type 0
IsQuotable s = All (λ c. text_char c ≡ true) s

-- A value on one line.
abbrev pub IsFlat : Value → Type 0
IsFlat null = Unit
IsFlat (bool b) = Unit
IsFlat (str s) = IsQuotable s
IsFlat (seq nil) = Unit
IsFlat (seq (cons v vs)) = ⊥
IsFlat (int n) = IsShort n
IsFlat (float x) = ⊥
IsFlat (dict fs) = ⊥

unfoldable mutual
  -- A list that is not empty, or a mapping that is not empty.
  pub IsBlock : Value → Type 0
  IsBlock (seq vs) = AreItems vs × ((vs ≡ nil) → ⊥)
  IsBlock (dict fs) = AreEntries fs × ((fs ≡ end) → ⊥)
  IsBlock null = ⊥
  IsBlock (bool b) = ⊥
  IsBlock (int n) = ⊥
  IsBlock (float x) = ⊥
  IsBlock (str s) = ⊥

  pub AreItems : Values → Type 0
  AreItems nil = Unit
  AreItems (cons v vs) = IsItem v × AreItems vs

  -- On one line, or a mapping whose first value is, or a mapping of one block.
  pub IsItem : Value → Type 0
  IsItem (dict fs) = IsItemFields fs
  IsItem (seq vs) = vs ≡ nil
  IsItem (str s) = IsQuotable s
  IsItem null = Unit
  IsItem (bool b) = Unit
  IsItem (int n) = IsShort n
  IsItem (float x) = ⊥

  pub IsItemFields : Fields → Type 0
  IsItemFields end = ⊥
  IsItemFields (field k v fs) =
      IsKey k
      × (get k fs ≡ none)
      × (((is_flat v ≡ true) × IsFlat v × AreEntries fs)
          ⊎ ((is_flat v ≡ false) × IsBlock v × (fs ≡ end)))

  -- Different keys, and values on one line or blocks.
  pub AreEntries : Fields → Type 0
  AreEntries end = Unit
  AreEntries (field k v fs) =
      IsKey k
      × (get k fs ≡ none)
      × (((is_flat v ≡ true) × IsFlat v) ⊎ ((is_flat v ≡ false) × IsBlock v))
      × AreEntries fs

-- `" " * n`
abbrev pub blanks : ℕ → Text
blanks n = replicate n b' '

-- The text of the lines.
unfoldable pub print_lines : List Line → Text
print_lines [] = []
print_lines ((i, content) ∷ ls) = blanks i ++ (content ++ (b'\n' ∷ print_lines ls))

unfoldable pub print : Value → Text
unfolding lines print_lines
print v = print_lines (lines 0 v)
