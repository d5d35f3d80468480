-- ===== src/Allowlists.antt =====
-- tools/inventory/check_allowlists.py: the entries of the allowlist files of a directory.
pub mod Verdict
pub mod Main
pub mod SelfTest
mod Examples
use gitz.Common.{
  ℕ, zero, suc, ◌+◌, ◌==◌, Bool, true, false, not, ◌&&◌, ◌||◌, List, [], ◌∷◌, ◌++◌, Text, codes,
  one_of, Option, none, some, length, if◌then◌else◌, Result, ok, err,
}
use gitz.Common.Sort.{sorted}
use gitz.Common.Str.{ends_with}
use gitz.Files.{Files, LoadError, load_path, join_path}
use gitz.Yaml.{
  Value, Values, Fields, Decimal, null, bool, int, float, str, seq, dict, nil, cons, end, field,
  get, put,
}
use gitz.Yaml.Truth.{truthy}

-- The messages, with what they name.
pub data Message : Type 0 where
  cannot_load : Text → LoadError → Message
  no_entries_list : Text → Message
  no_mapping : Text → Value → Message
  missing : Text → Fields → Message
  duplicate : Text → Message
  all_valid : ℕ → Message

-- `entries` and `errors`.
abbrev pub Loaded : Type 0
Loaded = List Fields × List Message

-- What is added to both in front of what comes later.
abbrev pub add_error : Message → Loaded → Loaded
add_error m (entries, errors) = (entries, m ∷ errors)

abbrev pub add_entry : Fields → Loaded → Loaded
add_entry e (entries, errors) = (e ∷ entries, errors)

-- The loop over `doc["entries"]`: `item` is a copy of the entry with its file.
unfoldable pub load_items : Text → Values → Loaded → Loaded
unfolding put
load_items name nil later = later
load_items name (cons (dict fs) vs) later =
    add_entry (put (codes "_file") (str name) fs) (load_items name vs later)
load_items name (cons null vs) later = add_error (no_mapping name null) (load_items name vs later)
load_items name (cons (bool b) vs) later =
    add_error (no_mapping name (bool b)) (load_items name vs later)
load_items name (cons (int n) vs) later =
    add_error (no_mapping name (int n)) (load_items name vs later)
load_items name (cons (float x) vs) later =
    add_error (no_mapping name (float x)) (load_items name vs later)
load_items name (cons (str s) vs) later =
    add_error (no_mapping name (str s)) (load_items name vs later)
load_items name (cons (seq ws) vs) later =
    add_error (no_mapping name (seq ws)) (load_items name vs later)

-- `doc.get("entries")`, if it is a list.
unfoldable pub entries_of : Value → Option Values
entries_of null = none
entries_of (bool b) = none
entries_of (int n) = none
entries_of (float x) = none
entries_of (str s) = none
entries_of (seq vs) = none
entries_of (dict fs) = elim (get (codes "entries") fs) [
  | some (seq vs) ↦ some vs
  | some null ↦ none
  | some (bool b) ↦ none
  | some (int n) ↦ none
  | some (float x) ↦ none
  | some (str s) ↦ none
  | some (dict gs) ↦ none
  | none ↦ none
]

unfoldable pub load_document : Text → Result LoadError Value → Loaded → Loaded
unfolding load_items entries_of
load_document name (err e) later = add_error (cannot_load name e) later
load_document name (ok doc) later = elim (entries_of doc) [
  | some vs ↦ load_items name vs later
  | none ↦ add_error (no_entries_list name) later
]

-- The loop over the sorted names of the directory.
unfoldable pub load_names : Files → Text → List Text → Loaded
unfolding load_document load_path join_path
load_names fs directory [] = ([], [])
load_names fs directory (name ∷ names) =
    let later = load_names fs directory names in
    if ends_with name (codes ".yaml") || ends_with name (codes ".yml")
    then load_document name (load_path fs (join_path directory name)) later
    else later

unfoldable pub load_entries : Files → Text → Loaded
unfolding load_names sorted
load_entries fs directory =
    if fs.is_dir directory
    then load_names fs directory (sorted (fs.list_dir directory))
    else ([], [])

-- `bool(entry.get(key))`
abbrev pub has_field : Text → Fields → Bool
has_field key entry = elim (get key entry) [ some v ↦ truthy v | none ↦ false ]

-- The first of the two fields that an entry lacks.
unfoldable pub missing_field : Fields → List Message
unfolding truthy
missing_field entry =
    if not (has_field (codes "id") entry)
    then missing (codes "id") entry ∷ []
    else if not (has_field (codes "reason") entry)
    then missing (codes "reason") entry ∷ []
    else []

-- `entry.get("id")`, if it is a text.
unfoldable pub id_of : Fields → Option Text
id_of entry = elim (get (codes "id") entry) [
  | some (str s) ↦ some s
  | some null ↦ none
  | some (bool b) ↦ none
  | some (int n) ↦ none
  | some (float x) ↦ none
  | some (seq vs) ↦ none
  | some (dict gs) ↦ none
  | none ↦ none
]

unfoldable pub duplicate_id : List Text → Option Text → List Message
duplicate_id seen none = []
duplicate_id seen (some s) = if one_of s seen then duplicate s ∷ [] else []

abbrev pub see : Option Text → List Text → List Text
see none seen = seen
see (some s) seen = s ∷ seen

-- The loop of `check` with its `seen`: the messages, each of which counts as invalid.
unfoldable pub check_entries : List Text → List Fields → List Message
unfolding missing_field id_of duplicate_id
check_entries seen [] = []
check_entries seen (entry ∷ entries) =
    missing_field entry
    ++ (duplicate_id seen (id_of entry) ++ check_entries (see (id_of entry) seen) entries)

-- `allowlist.active` and `allowlist.invalid` beside the verdict and the messages.
pub record Report : Type 0 where
  pub good : Bool
  pub messages : List Message
  pub active : ℕ
  pub invalid : ℕ

unfoldable pub report : List Fields → List Message → Report
report entries messages = record {
  good = length messages == 0;
  messages =
      if length messages == 0 then messages ++ (all_valid (length entries) ∷ []) else messages;
  active = length entries;
  invalid = length messages;
}

unfoldable pub check : Files → Text → Report
unfolding load_entries check_entries report
check fs directory =
    let (entries, errors) = load_entries fs directory in
    report entries (errors ++ check_entries [] entries)
