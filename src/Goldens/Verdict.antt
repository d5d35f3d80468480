-- ===== src/Goldens/Verdict.antt =====
-- What the verdicts of the golden runner mean.
use gitz.Common.{
  ap, ℕ, suc, ◌+◌, ◌≡◌, refl, Bool, true, false, List, [], ◌∷◌, Text, All, length, if◌then◌else◌,
  ok, >>=-eq-ok, ok-injective, arith, ◌↔◌, ==_iff, ◌⊎◌, inl, inr,
}
use mathlib.Core.Logic.{◌≢◌}
use gitz.Files.{Files}
use gitz.Goldens.{
  Message, run_case, run_cases, run_metas, run_all, report, report_empty, find_meta_files, Report,
}

-- The case passes: the runner returns `True` for it.
abbrev pub Passes : Files → Text → Type 0
Passes fs meta = (msg : Message) × (run_case fs meta ≡ ok (true, msg))

-- One message for each case, each case counted once, and no failure exactly if all cases pass.
abbrev pub Counts : Files → List Text → List Message × ℕ × ℕ → Type 0
Counts fs metas (msgs, pass, fail) =
    (length msgs ≡ length metas)
    × (pass + fail ≡ length metas)
    × ((fail ≡ 0) ↔ All (Passes fs) metas)

ok-ne :
    (fs : Files) (meta : Text) {msg : Message}
    → run_case fs meta ≡ ok (false, msg)
    → ¬ Passes fs meta
ok-ne fs meta e (m, p) = cc

Counts-cons :
    (fs : Files) (meta : Text) (metas : List Text) (good : Bool) (msg : Message)
    (msgs : List Message) (pass fail : ℕ)
    → run_case fs meta ≡ ok (good, msg)
    → Counts fs metas (msgs, pass, fail)
    → Counts fs
        (meta ∷ metas)
        (msg ∷ msgs, (if good then suc pass else pass), (if good then fail else suc fail))
Counts-cons fs meta metas true msg msgs pass fail e (a, b, c) =
    (ap suc a, omega arith, (λ z. ((msg, e), c.0 z), λ all. c.1 all.1))
Counts-cons fs meta metas false msg msgs pass fail e (a, b, c) =
    (ap suc a, omega arith, (λ z. absurd (ground arith), λ all. absurd (ok-ne fs meta e all.0)))

-- When the loop of `run_all` returns, it has one message for each case and has counted each case
-- once, and it counted no failure if and only if every case passes.
pub run_cases-Counts :
    (fs : Files) (metas : List Text) {r : List Message × ℕ × ℕ}
    → run_cases fs metas ≡ ok r
    → Counts fs metas r
unfolding run_cases
run_cases-Counts fs [] h = rw (← ok-injective h) (refl, refl, (λ _. tt, λ _. refl))
run_cases-Counts fs (meta ∷ metas) h =
    let ((good, msg), e, h1) = >>=-eq-ok (run_case fs meta) _ h in
    let ((more, p, f), e2, h2) = >>=-eq-ok (run_cases fs metas) _ h1 in
    rw (← ok-injective h2)
      (Counts-cons fs meta metas good msg more p f e (run_cases-Counts fs metas e2))

run_metas-good :
    (fs : Files) (root : Text) (allow_empty : Bool) (metas : List Text) {r : Report}
    → run_metas fs root allow_empty metas ≡ ok r
    → (r.metrics.passes + r.metrics.failures ≡ length metas)
      × ((r.good ≡ true) ↔ (((metas ≢ []) ⊎ (allow_empty ≡ true)) × All (Passes fs) metas))
unfolding run_metas report report_empty
run_metas-good fs root allow_empty [] h = rw (← ok-injective h) (
  refl,
  (
    λ good. (inr good, tt),
    λ all. elim all.0 [ inl none_ ↦ absurd (none_ refl) | inr allowed ↦ allowed ],
  ),
)
run_metas-good fs root allow_empty (meta ∷ metas) h =
    let ((msgs, p, f), e, h1) = >>=-eq-ok (run_cases fs (meta ∷ metas)) _ h in
    let (a, b, c) = run_cases-Counts fs (meta ∷ metas) e in
    rw (← ok-injective h1)
      (b, (λ good. (inl (λ q. cc), c.0 ((==_iff f 0).0 good)), λ all. rw (c.1 all.1) refl))

-- A run that returns is successful if and only if every case passes, and there is a case or
-- `allow_empty` is given; its metrics count all the cases.
pub run_all-good :
    (fs : Files) (root : Text) (allow_empty : Bool) {r : Report}
    → run_all fs root allow_empty ≡ ok r
    → (r.metrics.passes + r.metrics.failures ≡ length (find_meta_files fs root))
      × ((r.good ≡ true) ↔ (
          ((find_meta_files fs root ≢ []) ⊎ (allow_empty ≡ true))
          × All (Passes fs) (find_meta_files fs root)))
unfolding run_all
run_all-good fs root allow_empty h = run_metas-good fs root allow_empty (find_meta_files fs root) h
