-- ===== src/MetricsGate/Limits.antt =====
-- The thresholds of tools/inventory/check_metrics.py and the failures against them.
pub mod Within
use gitz.Common.{
  ◌≡◌, ◌==◌, ◌-◌, ℕ, Bool, true, false, not, ◌&&◌, ◌||◌, List, [], ◌∷◌, ◌++◌, Text, codes, Option,
  none, some, if◌then◌else◌, Result, ok, err, ◌>>=◌,
}
use gitz.Common.Int.{ℤ, pos}
use gitz.Common.Str.{is_empty}
use gitz.MetricsGate.Raised.{Crash, attribute_error}
use gitz.MetricsGate.Numbers.{Floats, below, above, equal, int_of, float_of}
use gitz.Yaml.{Value, Fields, Decimal, null, int, float, str, dict, end, get}
use gitz.Yaml.Shape.{as_dict}
use gitz.Yaml.Truth.{or_value, truthy}

-- The metrics that the thresholds are about.
pub record Measured : Type 0 where
  pub pin : Option Value
  pub pin_md : Option Text
  pub total : ℕ
  pub required : ℕ
  pub missing : ℕ
  pub api_files : ℕ
  pub required_names : ℕ
  pub mapped_names : ℕ
  pub goldens : ℕ
  pub active : ℕ

-- What a failed threshold names.
pub data Failure : Type 0 where
  pin_expected pin_documented : Failure
  few_packages few_required : ℕ → ℤ → Failure
  many_missing : ℕ → ℤ → Failure
  few_files : ℕ → ℤ → Failure
  low_ratio : Failure
  few_goldens : ℕ → ℤ → Failure
  many_active : ℕ → ℤ → Failure

abbrev pub failing : Bool → Failure → List Failure
failing true f = f ∷ []
failing false f = []

-- `(config.get(key) or {})`, whose `get` is called next.
unfoldable pub section_of : Text → Fields → Result Crash Fields
unfolding or_value as_dict
section_of key config = elim (as_dict (or_value (get key config) (dict end))) [
  | none ↦ err attribute_error
  | some fs ↦ ok fs
]

abbrev zero_decimal : Decimal
zero_decimal = record { negative = false; mantissa = 0; scale = 1; exponent = pos 0 }

-- A missing value stands for `None`.
abbrev pub true_value : Option Value → Bool
true_value none = false
true_value (some v) = truthy v

module _ (fl : Floats) where
  -- `int(section.get(key) or 0)`
  unfoldable pub limit : Text → Fields → Result Crash ℤ
  unfolding int_of or_value
  limit key fs = int_of fl (or_value (get key fs) (int (pos 0)))

  -- The numbers of the configuration.
  pub record Thresholds : Type 0 where
    pub expected : Option Value
    pub min_total : ℤ
    pub min_required : ℤ
    pub max_missing : ℤ
    pub min_files : ℤ
    pub min_ratio : fl.F
    pub min_goldens : ℤ
    pub max_active : ℤ

  -- The reads of the configuration, in their order.
  unfoldable pub limits : Fields → Result Crash Thresholds
  unfolding section_of limit float_of or_value
  limits config = do
    pin_config ← section_of (codes "pin") config
    package_config ← section_of (codes "packages") config
    min_total ← limit (codes "min_total") package_config
    min_required ← limit (codes "min_required") package_config
    max_missing ← limit (codes "max_missing") package_config
    api_config ← section_of (codes "api") config
    min_files ← limit (codes "min_files") api_config
    min_ratio ←
        float_of fl (or_value (get (codes "min_mapped_ratio") api_config) (float zero_decimal))
    golden_config ← section_of (codes "goldens") config
    min_goldens ← limit (codes "min_count") golden_config
    allow_config ← section_of (codes "allowlists") config
    max_active ← limit (codes "max_active") allow_config
    ok (record {
      expected = get (codes "expected") pin_config;
      min_total = min_total;
      min_required = min_required;
      max_missing = max_missing;
      min_files = min_files;
      min_ratio = min_ratio;
      min_goldens = min_goldens;
      max_active = max_active;
    })

  abbrev pub or_null : Option Value → Value
  or_null none = null
  or_null (some v) = v

  -- `mapped_names / required_names if required_names else 1.0`
  unfoldable pub mapped_ratio : Measured → fl.F
  mapped_ratio m =
      if m.required_names == 0 then fl.one else fl.divide m.mapped_names m.required_names

  -- `expected_pin and pin != expected_pin`
  unfoldable pub wrong_pin : Measured → Thresholds → Bool
  unfolding equal truthy
  wrong_pin m l = true_value l.expected && not (equal fl (or_null m.pin) (or_null l.expected))

  -- `pin_md and pin and pin_md != pin`
  unfoldable pub wrong_document : Measured → Bool
  unfolding equal truthy
  wrong_document m = elim m.pin_md [
    | none ↦ false
    | some text ↦
        not (is_empty text) && true_value m.pin && not (equal fl (str text) (or_null m.pin))
  ]

  unfoldable pub failures : Measured → Thresholds → List Failure
  unfolding wrong_pin wrong_document mapped_ratio
  failures m l =
      failing (wrong_pin m l) pin_expected
      ++ (failing (wrong_document m) pin_documented
          ++ (failing (below m.total l.min_total) (few_packages m.total l.min_total)
              ++ (failing (below m.required l.min_required) (few_required m.required l.min_required)
                  ++ (failing (above m.missing l.max_missing) (many_missing m.missing l.max_missing)
                      ++ (failing (below m.api_files l.min_files)
                            (few_files m.api_files l.min_files)
                          ++ (failing (fl.less (fl.plus_epsilon (mapped_ratio m)) l.min_ratio)
                                low_ratio
                              ++ (failing (below m.goldens l.min_goldens)
                                    (few_goldens m.goldens l.min_goldens)
                                  ++ failing (above m.active l.max_active)
                                      (many_active m.active l.max_active))))))))
