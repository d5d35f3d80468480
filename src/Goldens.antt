-- ===== src/Goldens.antt =====
-- tools/golden/run_goldens.py: the golden cases under a directory and their verdicts.
pub mod Verdict
pub mod Main
pub mod Examples
pub mod Passing
pub mod SelfTest
use gitz.Common.{
  ℕ, zero, suc, ◌+◌, ◌==◌, Bool, true, false, not, ◌||◌, List, [], ◌∷◌, ◌++◌, map, Text, Bytes,
  codes, same, one_of, Option, none, some, length, if◌then◌else◌, Result, ok, err, ◌>>=◌,
}
use gitz.Common.Sort.{sorted}
use gitz.Common.Str.{contains}
use gitz.Files.{Files, LoadError, load_path, join_path, dirname, basename, rstrip_char}
use gitz.Files.Utf8.{decode_replace}
use gitz.Yaml.{
  Value, Values, Fields, Decimal, null, bool, int, float, str, seq, dict, nil, cons, end, field,
  get,
}
use gitz.Yaml.Truth.{or_value}

-- The exceptions that no handler catches: a name that is no text, a file that cannot be opened.
pub data Crash : Type 0 where
  type_error : Crash
  os_error : Crash

-- The messages, with what they name.
pub data Message : Type 0 where
  cannot_load : Text → LoadError → Message
  no_mapping : Text → Message
  missing_actual missing_expected : Value → Text → Message
  passed : Value → Text → Message
  differs : Value → ℕ → ℕ → Message
  text_mismatch : Value → Message
  not_found : Value → Message
  unknown_type : Value → Value → Message
  none_found : Message
  no_goldens : Text → Message
  all_passed : ℕ → Message

abbrev pub Verdict : Type 0
Verdict = Bool × Message

abbrev is_meta : Text → Bool
is_meta fn = one_of fn (codes "meta.yaml" ∷ codes "meta.yml" ∷ [])

-- The loop over the file names of one directory.
unfoldable pub metas_in : Text → List Text → List Text
unfolding join_path
metas_in dirpath [] = []
metas_in dirpath (fn ∷ fns) =
    if is_meta fn then join_path dirpath fn ∷ metas_in dirpath fns else metas_in dirpath fns

unfoldable pub metas_under : List (Text × List Text) → List Text
unfolding metas_in
metas_under [] = []
metas_under ((dirpath, fns) ∷ dirs) = metas_in dirpath fns ++ metas_under dirs

unfoldable pub find_meta_files : Files → Text → List Text
unfolding metas_under sorted
find_meta_files fs root = if fs.is_dir root then sorted (metas_under (fs.walk root)) else []

-- `os.path.join(case_dir, v)` takes texts only.
unfoldable pub path_of : Value → Result Crash Text
path_of (str s) = ok s
path_of null = err type_error
path_of (bool b) = err type_error
path_of (int n) = err type_error
path_of (float x) = err type_error
path_of (seq vs) = err type_error
path_of (dict fs) = err type_error

unfoldable pub open_or_crash : Option Bytes → Result Crash Bytes
open_or_crash none = err os_error
open_or_crash (some bs) = ok bs

abbrev pub is_type : Value → Text → Bool
is_type (str s) t = same s t
is_type null t = false
is_type (bool b) t = false
is_type (int n) t = false
is_type (float x) t = false
is_type (seq vs) t = false
is_type (dict fs) t = false

-- The three comparisons.
unfoldable pub file_equals : Value → Bytes → Bytes → Verdict
file_equals name actual expected =
    if same actual expected
    then (true, passed name (codes "file_equals"))
    else (false, differs name (length actual) (length expected))

unfoldable pub text_equals : Value → Bytes → Bytes → Verdict
unfolding decode_replace rstrip_char
text_equals name actual expected =
    if same (rstrip_char b'\n' (decode_replace actual))
      (rstrip_char b'\n' (decode_replace expected))
    then (true, passed name (codes "text_equals"))
    else (false, text_mismatch name)

unfoldable pub static_contains : Value → Bytes → Bytes → Verdict
static_contains name actual expected =
    if contains actual expected
    then (true, passed name (codes "static_contains"))
    else (false, not_found name)

-- The branches on the golden's type.
unfoldable pub compare_files : Value → Value → Bytes → Bytes → Verdict
compare_files name gtype actual expected =
    if is_type gtype (codes "file_equals")
    then file_equals name actual expected
    else if is_type gtype (codes "text_equals")
    then text_equals name actual expected
    else if is_type gtype (codes "static_contains")
    then static_contains name actual expected
    else (false, unknown_type name gtype)

-- The two files of a case, looked for in this order and then read.
unfoldable pub compare_paths :
    Files → Value → Value → Text × Text → Text × Text → Result Crash Verdict
unfolding compare_files open_or_crash
compare_paths fs name gtype (actual_name, actual_path) (expected_name, expected_path) =
    let compared = do
      actual ← open_or_crash (fs.open_binary actual_path)
      expected ← open_or_crash (fs.open_binary expected_path)
      ok (compare_files name gtype actual expected)
    in if not (fs.is_file actual_path)
      then ok (false, missing_actual name actual_name)
      else if not (fs.is_file expected_path)
      then ok (false, missing_expected name expected_name)
      else compared

-- `doc.get(key) or default`
abbrev pub get_or : Text → Fields → Text → Value
get_or key doc default = or_value (get key doc) (str default)

-- A meta file that is a mapping.
unfoldable pub run_meta : Files → Text → Fields → Result Crash Verdict
unfolding path_of join_path dirname basename
run_meta fs meta_path doc = do
  let case_dir = dirname meta_path
  let name = get_or (codes "name") doc (basename case_dir)
  let gtype = get_or (codes "type") doc (codes "file_equals")
  actual_name ← path_of (get_or (codes "actual") doc (codes "actual.txt"))
  expected_name ← path_of (get_or (codes "expected") doc (codes "expected.txt"))
  compare_paths fs name gtype (actual_name, join_path case_dir actual_name)
      (expected_name, join_path case_dir expected_name)

unfoldable pub run_loaded : Files → Text → Result LoadError Value → Result Crash Verdict
unfolding run_meta
run_loaded fs meta_path (err e) = ok (false, cannot_load meta_path e)
run_loaded fs meta_path (ok (dict doc)) = run_meta fs meta_path doc
run_loaded fs meta_path (ok null) = ok (false, no_mapping meta_path)
run_loaded fs meta_path (ok (bool b)) = ok (false, no_mapping meta_path)
run_loaded fs meta_path (ok (int n)) = ok (false, no_mapping meta_path)
run_loaded fs meta_path (ok (float x)) = ok (false, no_mapping meta_path)
run_loaded fs meta_path (ok (str s)) = ok (false, no_mapping meta_path)
run_loaded fs meta_path (ok (seq vs)) = ok (false, no_mapping meta_path)

unfoldable pub run_case : Files → Text → Result Crash Verdict
unfolding load_path run_loaded
run_case fs meta_path = run_loaded fs meta_path (load_path fs meta_path)

-- `goldens.count`, `goldens.pass` and `goldens.fail`.
pub record Metrics : Type 0 where
  pub count : ℕ
  pub passes : ℕ
  pub failures : ℕ

pub record Report : Type 0 where
  pub good : Bool
  pub messages : List Message
  pub metrics : Metrics

-- The loop of `run_all`: the messages in order, the passed cases and the failed ones.
unfoldable pub run_cases : Files → List Text → Result Crash (List Message × ℕ × ℕ)
unfolding run_case
run_cases fs [] = ok ([], 0, 0)
run_cases fs (meta ∷ metas) = do
  (good, msg) ← run_case fs meta
  (msgs, pass, fail) ← run_cases fs metas
  ok (msg ∷ msgs, (if good then suc pass else pass), (if good then fail else suc fail))

unfoldable pub report : List Text → List Message × ℕ × ℕ → Report
report metas (msgs, pass, fail) = record {
  good = fail == 0;
  messages = if fail == 0 then msgs ++ (all_passed pass ∷ []) else msgs;
  metrics = record { count = length metas; passes = pass; failures = fail };
}

unfoldable pub report_empty : Text → Bool → Report
report_empty root allow_empty = record {
  good = allow_empty;
  messages = (if allow_empty then none_found else no_goldens root) ∷ [];
  metrics = record { count = 0; passes = 0; failures = 0 };
}

unfoldable pub run_metas : Files → Text → Bool → List Text → Result Crash Report
unfolding run_cases report report_empty
run_metas fs root allow_empty [] = ok (report_empty root allow_empty)
run_metas fs root allow_empty (meta ∷ metas) =
    run_cases fs (meta ∷ metas) >>= λ r. ok (report (meta ∷ metas) r)

unfoldable pub run_all : Files → Text → Bool → Result Crash Report
unfolding find_meta_files run_metas
run_all fs root allow_empty = run_metas fs root allow_empty (find_meta_files fs root)
