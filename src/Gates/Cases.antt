-- ===== src/Gates/Cases.antt =====
-- The golden runner and the goldens that the metrics count.
use gitz.Common.{
  ℕ, ◌≡◌, ◌≢◌, ◌≤◌, refl, ap, sym, ◌∙◌, false, true, ◌⊎◌, Bool, List, [], ◌∷◌, Text, codes, Option,
  some, All, Option-cases, inl, inr, ok, >>=-eq-ok, ok-injective, length, arith,
}
use gitz.Allowlists
use gitz.Cli.{Output, status, given, exit_of-zero}
use gitz.Files.{Files}
use gitz.Goldens
use gitz.Goldens.{run_all, find_meta_files}
use gitz.Goldens.Main as GoldensMain
use gitz.Goldens.Verdict.{run_all-good, Passes}
use gitz.MetricsGate.{Paths, measure, or_type_error}
use gitz.MetricsGate.Limits.{Measured}
use gitz.MetricsGate.Measures.{required_of, missing_of, count_goldens}
use gitz.MetricsGate.Measures.Bounds.{find_meta_files-le}
use gitz.MetricsGate.Numbers.{Floats}
use gitz.MetricsGate.Pin.{parse_pin_from_md}
use gitz.Yaml.{Fields, seq, nil, get}
use gitz.Yaml.Shape.{iterate}
use gitz.Yaml.Truth.{or_value}

not_allowed : {metas : List Text} → (metas ≢ []) ⊎ (false ≡ true) → metas ≢ []
not_allowed (inl some_) = some_
not_allowed (inr allowed) = cc

-- What a run of the golden runner with status 0 was given and found.
goldens_main-Passes :
    (fs : Files) (dir : Option Text) {a : Output Goldens.Report}
    → GoldensMain.main fs dir false ≡ ok a
    → status (λ r. r.good) a ≡ 0
    → (root : Text) × (given dir ≡ some root)
      × (find_meta_files fs root ≢ [])
      × All (Passes fs) (find_meta_files fs root)
unfolding GoldensMain.main
goldens_main-Passes fs dir h z = elim (Option-cases (given dir)) [
  | inl e ↦ let w = rw (← ok-injective (rw (e, GoldensMain.main) at h)) at z in cc
  | inr (root, e) ↦
      let (r, run, out) = >>=-eq-ok (run_all fs root false) _ (rw (e, GoldensMain.main) at h) in
      let good = exit_of-zero r.good (rw (← ok-injective out) at z) in
      let (some_, all_) = (run_all-good fs root false run).1.0 good in
      (root, e, not_allowed some_, all_)
]

not_empty-le : (metas : List Text) → metas ≢ [] → 1 ≤ length metas
not_empty-le [] h = absurd (h refl)
not_empty-le (m ∷ metas) h = omega arith

module _ (fl : Floats) (is_alnum : ℕ → Bool) where
  measure-goldens :
      (fs : Files) (p : Paths fl is_alnum) (packages_doc : Fields) {m : Measured}
      {allow : List Allowlists.Message}
      → measure fl is_alnum fs p packages_doc ≡ ok (m, allow)
      → m.goldens ≡ count_goldens fs p.goldens_dir
  unfolding measure
  measure-goldens fs p packages_doc h =
      let (packages, e1, h1) =
        >>=-eq-ok
          (or_type_error (iterate (or_value (get (codes "packages") packages_doc) (seq nil)))) _
          h in
      let (required, e2, h2) = >>=-eq-ok (required_of packages) _ h1 in
      let (missing, e3, h3) = >>=-eq-ok (missing_of fs p.src_root required) _ h2 in
      let (pin_md, e4, h4) = >>=-eq-ok (parse_pin_from_md is_alnum fs p.pin_md_path) _ h3 in
      rw (← ap (λ x. x.0) (ok-injective h4)) refl

  -- If the golden runner, without `--allow-empty`, exits with 0 on the goldens of the metrics, then all of
  -- its cases pass, and the metrics count at least that many goldens, and at least one.
  pub main-measure :
      (fs : Files) (p : Paths fl is_alnum) (packages_doc : Fields) (dir : Option Text)
      {a : Output Goldens.Report} {m : Measured} {allow : List Allowlists.Message}
      → given dir ≡ some p.goldens_dir
      → GoldensMain.main fs dir false ≡ ok a
      → status (λ r. r.good) a ≡ 0
      → measure fl is_alnum fs p packages_doc ≡ ok (m, allow)
      → All (Passes fs) (find_meta_files fs p.goldens_dir)
        × (length (find_meta_files fs p.goldens_dir) ≤ m.goldens)
        × (1 ≤ m.goldens)
  main-measure fs p packages_doc dir is_dir h z k =
      let (root, e, some_, all_) = goldens_main-Passes fs dir h z in
      let same_root : root ≡ p.goldens_dir = some-injective (sym e ∙ is_dir) in
      let cases = find_meta_files fs p.goldens_dir in
      let le =
        rw (sym (measure-goldens fs p packages_doc k)) at (find_meta_files-le fs p.goldens_dir) in
      let one = not_empty-le cases (rw same_root at some_) in
      (rw same_root at all_, le, omega arith)
    where
      some-injective : {x y : Text} → ◌≡◌ {A = Option Text} (some x) (some y) → x ≡ y
      some-injective q = cc
