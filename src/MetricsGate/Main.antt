-- ===== src/MetricsGate/Main.antt =====
-- `main` of tools/inventory/check_metrics.py behind its argument parser, without `--self-test`.
use gitz.Common.{ℕ, Bool, Text, Option, none, some, Result, ok, ◌>>=◌}
use gitz.Cli.{Output, usage, finished, given}
use gitz.Files.{Files}
use gitz.MetricsGate.{Paths, Report, check}
use gitz.MetricsGate.Numbers.{Floats}
use gitz.MetricsGate.Raised.{Crash}

-- The seven arguments.
pub record Args : Type 0 where
  pub packages : Option Text
  pub metrics : Option Text
  pub api_dir : Option Text
  pub allowlists_dir : Option Text
  pub goldens_dir : Option Text
  pub pin_md : Option Text
  pub src_root : Option Text

abbrev pub and_given {ℓ} : {A : Type ℓ} → Option Text → (Text → Option A) → Option A
and_given arg next = elim (given arg) [ none ↦ none | some s ↦ next s ]

module _ (fl : Floats) (is_alnum : ℕ → Bool) where
  -- `all(values)`
  unfoldable pub all_given : Args → Option (Paths fl is_alnum)
  all_given a = and_given a.packages λ packages. and_given a.metrics λ metrics.
      and_given a.api_dir λ api_dir. and_given a.allowlists_dir λ allowlists_dir.
        and_given a.goldens_dir λ goldens_dir. and_given a.pin_md λ pin_md.
          and_given a.src_root λ src_root. some (record {
            packages_path = packages;
            metrics_path = metrics;
            api_dir = api_dir;
            allowlists_dir = allowlists_dir;
            goldens_dir = goldens_dir;
            pin_md_path = pin_md;
            src_root = src_root;
          })

  unfoldable pub main : Files → Args → Result Crash (Output (Report fl is_alnum))
  unfolding all_given check
  main fs a = elim (all_given a) [
    | none ↦ ok usage
    | some p ↦ (do r ← check fl is_alnum fs p; ok (finished r))
  ]
