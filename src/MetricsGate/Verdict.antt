-- ===== src/MetricsGate/Verdict.antt =====
-- What an accepted run of the metrics check says of its inputs.
use gitz.Common.{
  ◌≡◌, ◌≢◌, ◌↔◌, ℕ, refl, ap, sym, ◌∙◌, Option-cases, inl, inr, Bool, true, not, List, [], ◌∷◌,
  ◌++◌, none, Result, ok, err, >>=-eq-ok, ok-injective,
}
use gitz.Allowlists
use gitz.Files.{Files, LoadError, load_path}
use gitz.MetricsGate.{
  Message, any_failure, allow_messages, fail_messages, Paths, Report, measure, report, check_docs,
  check_loaded, check, refused, load_failed, no_mappings,
}
use gitz.MetricsGate.Limits.{Measured, Thresholds, Failure, limits, failures}
use gitz.MetricsGate.Limits.Within.{IsWithin, failures-nil}
use gitz.MetricsGate.Numbers.{Floats}
use gitz.MetricsGate.Raised.{Crash}
use gitz.Yaml.{Value, Fields, dict}
use gitz.Yaml.Shape.{as_dict, as_dict-some}

no_failure :
    (allow : List Allowlists.Message) (fails : List Failure)
    → (not (any_failure (allow_messages allow ++ fail_messages fails)) ≡ true)
      ↔ ((allow ≡ []) × (fails ≡ []))
no_failure [] [] = (λ _. (refl, refl), λ _. refl)
no_failure [] (f ∷ fs) = (λ h. cc, λ h. let e = h.1 in cc)
no_failure (m ∷ ms) fs = (λ h. cc, λ h. let e = h.0 in cc)

as_dict-none : (v : Value) {fs : Fields} → as_dict v ≡ none → v ≢ dict fs
unfolding as_dict
as_dict-none v e h = let w = rw h at e in cc

module _ (fl : Floats) (is_alnum : ℕ → Bool) where
  report-good :
      (m : Measured) (allow : List Allowlists.Message) (l : Thresholds fl)
      → ((report fl is_alnum m allow l).good ≡ true) ↔ ((allow ≡ []) × IsWithin fl m l)
  unfolding report
  report-good m allow l =
      let (f, f') = no_failure allow (failures fl m l) in
      let (g, g') = failures-nil fl m l in (λ h. ((f h).0, g (f h).1), λ h. f' (h.0, g' h.1))

  check_docs-good :
      (fs : Files) (p : Paths fl is_alnum) (packages_doc config : Fields) {r : Report fl is_alnum}
      → check_docs fl is_alnum fs p packages_doc config ≡ ok r
      → (m : Measured) × (allow : List Allowlists.Message) × (l : Thresholds fl) × (measure fl
            is_alnum fs p packages_doc
          ≡ ok (m, allow))
        × (limits fl config ≡ ok l)
        × (r ≡ report fl is_alnum m allow l)
  unfolding check_docs
  check_docs-good fs p packages_doc config h =
      let ((m, allow), e1, h1) = >>=-eq-ok (measure fl is_alnum fs p packages_doc) _ h in
      let (l, e2, h2) = >>=-eq-ok (limits fl config) _ h1 in
      (m, allow, l, e1, e2, sym (ok-injective h2))

  -- Both documents are mappings, the allowlists load without an error, and the metrics are within the
  -- thresholds.
  abbrev pub Accepted :
      Files → Paths fl is_alnum → Result LoadError Value → Result LoadError Value → Type 0
  Accepted fs p v w =
      (packages_doc : Fields) × (config : Fields) × (m : Measured) × (l : Thresholds fl) × (v
        ≡ ok (dict packages_doc))
      × (w ≡ ok (dict config))
      × (measure fl is_alnum fs p packages_doc ≡ ok (m, []))
      × (limits fl config ≡ ok l)
      × IsWithin fl m l

  refused-ne :
      (m : Message) {r : Report fl is_alnum}
      → ◌≡◌ {A = Result Crash (Report fl is_alnum)} (ok (refused fl is_alnum m)) (ok r)
      → r.good ≢ true
  refused-ne m h g = let e = ap (λ x. x.good) (ok-injective h) ∙ g in cc

  mappings-good :
      (fs : Files) (p : Paths fl is_alnum) (packages_doc config : Fields) {r : Report fl is_alnum}
      → check_docs fl is_alnum fs p packages_doc config ≡ ok r
      → (r.good ≡ true) ↔ Accepted fs p (ok (dict packages_doc)) (ok (dict config))
  mappings-good fs p packages_doc config h =
      let (m, allow, l, e1, e2, e) = check_docs-good fs p packages_doc config h in
      let (f, f') = report-good m allow l in
      (
        λ g.
            let (none_, within) = f (rw e at g) in
            (packages_doc, config, m, l, refl, refl, rw none_ at e1, e2, within),
        λ a.
            let (pd, c, m', l', x1, x2, measured, limited, within) = a in
            let q : pd ≡ packages_doc = cc in
            let q' : c ≡ config = cc in
            let both = ok-injective (sym (rw q at measured) ∙ e1) in
            let m_same : m' ≡ m = ap (λ x. x.0) both in
            let l_same : l' ≡ l = ok-injective (sym (rw q' at limited) ∙ e2) in
            rw e (f' (sym (ap (λ x. x.1) both), rw (m_same, l_same) at within)),
      )

  loaded-good :
      (fs : Files) (p : Paths fl is_alnum) (v w : Result LoadError Value) {r : Report fl is_alnum}
      → check_loaded fl is_alnum fs p v w ≡ ok r
      → (r.good ≡ true) ↔ Accepted fs p v w
  loaded-good fs p (err x) w h =
      (λ g. absurd (refused-ne (load_failed x) h g), λ a. let x1 = a.4 in cc)
  loaded-good fs p (ok v) (err x) h =
      (λ g. absurd (refused-ne (load_failed x) h g), λ a. let x2 = a.5 in cc)
  loaded-good fs p (ok v) (ok w) h = elim (Option-cases (as_dict v)) [
    | inl e ↦ (
      λ g. absurd (refused-ne no_mappings (rw e at h) g),
      λ a. absurd (as_dict-none v e (ok-injective a.4)),
    )
    | inr (packages_doc, e) ↦ elim (Option-cases (as_dict w)) [
      | inl e1 ↦ (
        λ g. absurd (refused-ne no_mappings (rw (e, e1) at h) g),
        λ a. absurd (as_dict-none w e1 (ok-injective a.5)),
      )
      | inr (config, e1) ↦
          rw (as_dict-some v e, as_dict-some w e1)
            (mappings-good fs p packages_doc config (rw (e, e1) at h))
    ]
  ]

  -- A run of `check` that returns a report accepts if and only if both of its documents load as
  -- mappings, the allowlists load without an error, and the metrics are within the thresholds.
  pub check-Accepted :
      (fs : Files) (p : Paths fl is_alnum) {r : Report fl is_alnum}
      → check fl is_alnum fs p ≡ ok r
      → (r.good ≡ true) ↔ Accepted fs p (load_path fs p.packages_path) (load_path fs p.metrics_path)
  unfolding check
  check-Accepted fs p h =
      loaded-good fs p (load_path fs p.packages_path) (load_path fs p.metrics_path) h
