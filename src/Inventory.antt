-- ===== src/Inventory.antt =====
-- tools/inventory/check_file_inventory.py: the package inventory against the source tree.
pub mod Tree
pub mod Verdict
pub mod Main
pub mod SelfTest
mod Examples
use gitz.Common.{
  ℕ, zero, suc, ◌+◌, ◌-◌, ◌==◌, Bool, true, false, not, ◌&&◌, ◌||◌, List, [], ◌∷◌, ◌++◌, Text,
  codes, same, one_of, drop, Option, none, some, length, if◌then◌else◌, Result, ok, err, ◌>>=◌,
}
use gitz.Common.Sort.{sorted}
use gitz.Common.Str.{is_empty, starts_with, ends_with}
use gitz.Files.{Files, join_path, commonpath, split_char}
use gitz.Inventory.Tree.{PathError, zig_rel_to_full, package_has_zig, collect_top_level_src}
use gitz.Yaml.{
  Value, Values, Fields, null, bool, int, float, str, seq, dict, nil, cons, get, to_list,
}
use gitz.Yaml.Shape.{as_dict}
use gitz.Yaml.Truth.{or_value}

-- `VALID_STATUSES`
abbrev pub valid_statuses : List Text
valid_statuses = codes "required" ∷ codes "excluded" ∷ codes "test_only" ∷ codes "deferred" ∷ []

-- `ENFORCED_STATUSES`
abbrev pub enforced_statuses : List Text
enforced_statuses = codes "required" ∷ codes "deferred" ∷ []

-- `package.get` on a value that is no mapping, and a list or mapping where a set is asked for it.
pub data Crash : Type 0 where
  attribute_error : Crash
  type_error : Crash

-- `zig.split("/")` of one package: the directory under `src`, or the first part of another path.
unfoldable pub top_of : Text × List Text → List Text
top_of (first, []) = if same first (codes "src") then [] else first ∷ []
top_of (first, second ∷ parts) = if same first (codes "src") then second ∷ [] else first ∷ []

unfoldable pub zig_of : Fields → Option Text
zig_of pkg = elim (get (codes "zig") pkg) [
  | some (str s) ↦ (if is_empty s then none else some s)
  | some null ↦ none
  | some (bool b) ↦ none
  | some (int n) ↦ none
  | some (float x) ↦ none
  | some (seq vs) ↦ none
  | some (dict gs) ↦ none
  | none ↦ none
]

abbrev tops_of : Option Text → List Text
tops_of none = []
tops_of (some zig) = top_of (split_char b'/' zig)

unfoldable pub inventory_top_level_zig : List Value → Result Crash (List Text)
unfolding as_dict zig_of top_of split_char
inventory_top_level_zig [] = ok []
inventory_top_level_zig (v ∷ vs) = elim (as_dict v) [
  | none ↦ err attribute_error
  | some pkg ↦ inventory_top_level_zig vs >>= λ tops. ok (tops_of (zig_of pkg) ++ tops)
]

-- Why a package counts as missing.
pub data Reason : Type 0 where
  hollow_directory path_missing hollow : Reason

-- The messages, with what they name.
pub data Message : Type 0 where
  packages_not_a_list : Message
  no_mapping : Value → Message
  invalid_status : Value → Fields → Message
  missing_zig_path : Fields → Message
  invalid_zig_path : Fields → PathError → Message
  missing_package : Fields → Text → Reason → Message
  unexpected_package : Text → Message
  inventory_ok : ℕ → Message

-- What the loop of `check` makes of one package: it passes over it, counts a status error, or
-- requires the package at a path.
pub data Outcome : Type 0 where
  skipped : Outcome
  status_error : Message → Outcome
  required : Fields → Text → Outcome

abbrev pub require_zig : Files → Text → Fields → Option Text → Outcome
require_zig fs src_root pkg none = status_error (missing_zig_path pkg)
require_zig fs src_root pkg (some zig) = elim (zig_rel_to_full fs src_root zig) [
  | ok full ↦ required pkg zig
  | err e ↦ status_error (invalid_zig_path pkg e)
]

abbrev pub status_of : Fields → Value
status_of pkg = elim (get (codes "status") pkg) [ some v ↦ v | none ↦ str (codes "required") ]

unfoldable pub judge_status : Files → Text → Fields → Value → Result Crash Outcome
unfolding zig_rel_to_full zig_of
judge_status fs src_root pkg (str s) =
    if not (one_of s valid_statuses)
    then ok (status_error (invalid_status (str s) pkg))
    else if not (one_of s enforced_statuses)
    then ok skipped
    else ok (require_zig fs src_root pkg (zig_of pkg))
judge_status fs src_root pkg (seq vs) = err type_error
judge_status fs src_root pkg (dict gs) = err type_error
judge_status fs src_root pkg null = ok (status_error (invalid_status null pkg))
judge_status fs src_root pkg (bool b) = ok (status_error (invalid_status (bool b) pkg))
judge_status fs src_root pkg (int n) = ok (status_error (invalid_status (int n) pkg))
judge_status fs src_root pkg (float x) = ok (status_error (invalid_status (float x) pkg))

unfoldable pub judge : Files → Text → Value → Result Crash Outcome
unfolding as_dict judge_status
judge fs src_root v = elim (as_dict v) [
  | none ↦ ok (status_error (no_mapping v))
  | some pkg ↦ judge_status fs src_root pkg (status_of pkg)
]

-- `messages`, `required` and `missing`.
pub record Tally : Type 0 where
  pub errors : List Message
  pub needed : List Fields
  pub missing : List (Fields × Text)

-- What one package adds in front of the packages behind it.
unfoldable pub tally_one : Files → Text → Outcome → Tally → Tally
unfolding package_has_zig
tally_one fs src_root skipped t = t
tally_one fs src_root (status_error m) t = record {
  errors = m ∷ t.errors;
  needed = t.needed;
  missing = t.missing;
}
tally_one fs src_root (required pkg zig) t = record {
  errors = t.errors;
  needed = pkg ∷ t.needed;
  missing = if package_has_zig fs src_root zig then t.missing else (pkg, zig) ∷ t.missing;
}

unfoldable pub tally : Files → Text → List Value → Result Crash Tally
unfolding judge tally_one
tally fs src_root [] = ok (record { errors = []; needed = []; missing = [] })
tally fs src_root (v ∷ vs) = do
  outcome ← judge fs src_root v
  t ← tally fs src_root vs
  ok (tally_one fs src_root outcome t)

-- The path was accepted before, so that the call does not raise.
unfoldable pub reason_of : Files → Text → Text → Reason
unfolding zig_rel_to_full
reason_of fs src_root zig = elim (zig_rel_to_full fs src_root zig) [
  | ok full ↦
      if fs.is_dir full
      then hollow_directory
      else if not (fs.exists full)
      then path_missing
      else hollow
  | err e ↦ hollow
]

unfoldable pub missing_messages : Files → Text → List (Fields × Text) → List Message
unfolding reason_of
missing_messages fs src_root [] = []
missing_messages fs src_root ((pkg, zig) ∷ more) =
    missing_package pkg zig (reason_of fs src_root zig) ∷ missing_messages fs src_root more

-- The difference of the two sets.
unfoldable pub not_among : List Text → List Text → List Text
not_among known [] = []
not_among known (name ∷ names) =
    if one_of name known then not_among known names else name ∷ not_among known names

abbrev pub unexpected_messages : List Text → List Message
unexpected_messages [] = []
unexpected_messages (name ∷ names) = unexpected_package name ∷ unexpected_messages names

pub record Metrics : Type 0 where
  pub total : ℕ
  pub required_ : ℕ
  pub present : ℕ
  pub absent : ℕ
  pub unexpected_top : ℕ
  pub status_errors : ℕ

-- No metrics are returned where the packages are no list.
pub record Report : Type 0 where
  pub good : Bool
  pub messages : List Message
  pub metrics : Option Metrics

unfoldable pub report : Files → Text → List Value → Tally → List Text → Report
unfolding missing_messages
report fs src_root pkgs t unexpected =
    let messages =
      t.errors ++ (missing_messages fs src_root t.missing ++ unexpected_messages unexpected) in
    let good = length t.missing == 0 && length unexpected == 0 && length t.errors == 0 in
    record {
      good = good;
      messages = if good then messages ++ (inventory_ok (length t.needed) ∷ []) else messages;
      metrics = some (record {
        total = length pkgs;
        required_ = length t.needed;
        present = length t.needed - length t.missing;
        absent = length t.missing;
        unexpected_top = length unexpected;
        status_errors = length t.errors;
      });
    }

unfoldable pub check_packages : Files → List Value → Text → Result Crash Report
unfolding tally inventory_top_level_zig collect_top_level_src not_among report
check_packages fs pkgs src_root = do
  t ← tally fs src_root pkgs
  tops ← inventory_top_level_zig pkgs
  ok (report fs src_root pkgs t (sorted (not_among tops (collect_top_level_src fs src_root))))

-- A value of `packages` that is no list.
abbrev pub not_a_list : Report
not_a_list = record { good = false; messages = packages_not_a_list ∷ []; metrics = none }

unfoldable pub check_value : Files → Value → Text → Result Crash Report
unfolding check_packages
check_value fs (seq vs) src_root = check_packages fs (to_list vs) src_root
check_value fs (dict gs) src_root = ok not_a_list
check_value fs (str s) src_root = ok not_a_list
check_value fs null src_root = ok not_a_list
check_value fs (bool b) src_root = ok not_a_list
check_value fs (int n) src_root = ok not_a_list
check_value fs (float x) src_root = ok not_a_list

unfoldable pub check : Files → Fields → Text → Result Crash Report
unfolding check_value or_value
check fs packages_doc src_root =
    check_value fs (or_value (get (codes "packages") packages_doc) (seq nil)) src_root
