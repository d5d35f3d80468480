-- ===== src/MetricsGate.antt =====
-- tools/inventory/check_metrics.py: the repository's metrics and their thresholds.
pub mod Raised
pub mod Pin
pub mod Measures
pub mod Numbers
pub mod Limits
pub mod Verdict
pub mod Main
pub mod SelfTest
pub mod Examples
use gitz.Common.{
  ◌≡◌, ◌==◌, ◌-◌, ℕ, Bool, true, false, not, ◌&&◌, ◌||◌, List, [], ◌∷◌, ◌++◌, Text, codes, Option,
  none, some, if◌then◌else◌, Result, ok, err, ◌>>=◌, length,
}
use gitz.Allowlists.{load_entries}
use gitz.Allowlists
use gitz.Files.{Files, LoadError, load_path}
use gitz.MetricsGate.Raised.{Crash, type_error}
use gitz.MetricsGate.Pin.{parse_pin_from_md}
use gitz.MetricsGate.Measures.{count_api, count_goldens, required_of, missing_of}
use gitz.MetricsGate.Numbers.{Floats}
use gitz.MetricsGate.Limits.{Measured, Thresholds, Failure, limits, failures, mapped_ratio}
use gitz.Yaml.{Value, Fields, seq, nil, get}
use gitz.Yaml.Shape.{as_dict, iterate}
use gitz.Yaml.Truth.{or_value}

-- The messages, with what they name. All but the last begin with `error:` or `FAIL`.
pub data Message : Type 0 where
  load_failed : LoadError → Message
  no_mappings : Message
  allowlist : Allowlists.Message → Message
  fail : Failure → Message
  metrics_ok : Message

abbrev pub is_failure : Message → Bool
is_failure metrics_ok = false
is_failure (load_failed e) = true
is_failure no_mappings = true
is_failure (allowlist m) = true
is_failure (fail f) = true

abbrev pub any_failure : List Message → Bool
any_failure [] = false
any_failure (m ∷ ms) = is_failure m || any_failure ms

abbrev pub allow_messages : List Allowlists.Message → List Message
allow_messages [] = []
allow_messages (m ∷ ms) = allowlist m ∷ allow_messages ms

abbrev pub fail_messages : List Failure → List Message
fail_messages [] = []
fail_messages (f ∷ fs) = fail f ∷ fail_messages fs

abbrev pub or_type_error {ℓ} : {A : Type ℓ} → Option A → Result Crash A
or_type_error none = err type_error
or_type_error (some a) = ok a

module _ (fl : Floats) (is_alnum : ℕ → Bool) where
  -- No metrics are returned where the inputs do not load. `present` and `api.mapped_ratio` are
  -- computed from the others.
  pub record Report : Type 0 where
    pub good : Bool
    pub messages : List Message
    pub metrics : Option Measured
    pub present : ℕ
    pub rounded_ratio : Option fl.F

  abbrev pub refused : Message → Report
  refused m = record {
    good = false;
    messages = m ∷ [];
    metrics = none;
    present = 0;
    rounded_ratio = none;
  }

  -- The paths of the seven arguments.
  pub record Paths : Type 0 where
    pub packages_path : Text
    pub metrics_path : Text
    pub api_dir : Text
    pub allowlists_dir : Text
    pub goldens_dir : Text
    pub pin_md_path : Text
    pub src_root : Text

  -- The metrics, and the messages of the allowlists.
  unfoldable pub measure :
      Files → Paths → Fields → Result Crash (Measured × List Allowlists.Message)
  unfolding or_value iterate required_of missing_of parse_pin_from_md count_api count_goldens
      load_entries
  measure fs p packages_doc = do
    packages ← or_type_error (iterate (or_value (get (codes "packages") packages_doc) (seq nil)))
    required ← required_of packages
    missing ← missing_of fs p.src_root required
    pin_md ← parse_pin_from_md is_alnum fs p.pin_md_path
    let api = count_api fs p.api_dir
    let allow = load_entries fs p.allowlists_dir
    ok (
      record {
        pin = get (codes "pin") packages_doc;
        pin_md = pin_md;
        total = length packages;
        required = length required;
        missing = length missing;
        api_files = api.files;
        required_names = api.required_names;
        mapped_names = api.mapped_names;
        goldens = count_goldens fs p.goldens_dir;
        active = length allow.0;
      },
      allow.1,
    )

  unfoldable pub report : Measured → List Allowlists.Message → Thresholds fl → Report
  unfolding failures mapped_ratio
  report m allow l =
      let messages = allow_messages allow ++ fail_messages (failures fl m l) in
      let good = not (any_failure messages) in
      record {
        good = good;
        messages = if good then messages ++ (metrics_ok ∷ []) else messages;
        metrics = some m;
        present = m.required - m.missing;
        rounded_ratio = some (fl.round4 (mapped_ratio fl m));
      }

  unfoldable pub check_docs : Files → Paths → Fields → Fields → Result Crash Report
  unfolding measure limits report
  check_docs fs p packages_doc config = do
    (m, allow) ← measure fs p packages_doc
    l ← limits fl config
    ok (report m allow l)

  abbrev pub check_mappings : Files → Paths → Option Fields → Option Fields → Result Crash Report
  check_mappings fs p (some packages_doc) (some config) = check_docs fs p packages_doc config
  check_mappings fs p (some packages_doc) none = ok (refused no_mappings)
  check_mappings fs p none config = ok (refused no_mappings)

  abbrev pub check_loaded :
      Files → Paths → Result LoadError Value → Result LoadError Value → Result Crash Report
  check_loaded fs p (err e) config = ok (refused (load_failed e))
  check_loaded fs p (ok v) (err e) = ok (refused (load_failed e))
  check_loaded fs p (ok v) (ok w) = check_mappings fs p (as_dict v) (as_dict w)

  unfoldable pub check : Files → Paths → Result Crash Report
  unfolding load_path check_docs as_dict
  check fs p = check_loaded fs p (load_path fs p.packages_path) (load_path fs p.metrics_path)
