-- ===== src/Inventory/Verdict.antt =====
-- What an accepted inventory says of the packages and the source tree.
use gitz.Common.{
  ◌≡◌, refl, sym, ◌∙◌, ◌==◌, ==_iff, true, ◌&&◌, &&-eq-true, List, [], ◌∷◌, Text, one_of, Option,
  none, some, All, length, arith, Bool-cases, inl, inr, Option-cases, Result, ok, err, >>=-eq-ok,
  ok-injective,
}
use gitz.Common.Sort.{sorted, length-sorted}
use gitz.Files.{Files}
use gitz.Yaml.{Fields, Value, dict, str, null, bool, int, float, seq}
use gitz.Inventory.{
  check_packages, tally, tally_one, judge, judge_status, Outcome, skipped, status_error, required,
  Tally, Report, report, status_of, inventory_top_level_zig, not_among, zig_of, require_zig,
  invalid_zig_path, valid_statuses, enforced_statuses,
}
use gitz.Inventory.Tree.{PathError, zig_rel_to_full, package_has_zig, collect_top_level_src}
use gitz.Yaml.Shape.{as_dict, as_dict-some}

-- The package is a mapping with a valid status, and has a direct Zig file if the status is enforced.
abbrev pub Inventoried : Files → Text → Value → Type 0
Inventoried fs src_root v =
    (pkg : Fields) × (s : Text) × (v ≡ dict pkg)
    × (status_of pkg ≡ str s)
    × (one_of s valid_statuses ≡ true)
    × (one_of s enforced_statuses ≡ true
        → (zig : Text) × (zig_of pkg ≡ some zig) × (package_has_zig fs src_root zig ≡ true))

-- The outcome adds neither a status error nor a missing package.
abbrev Fine : Files → Text → Outcome → Type 0
Fine fs src_root skipped = Unit
Fine fs src_root (status_error m) = ⊥
Fine fs src_root (required pkg zig) = package_has_zig fs src_root zig ≡ true

require_zig-Fine :
    (fs : Files) (src_root : Text) (pkg : Fields) (z : Option Text)
    → Fine fs src_root (require_zig fs src_root pkg z)
    → (zig : Text) × (z ≡ some zig) × (package_has_zig fs src_root zig ≡ true)
require_zig-Fine fs src_root pkg none h = absurd h
require_zig-Fine fs src_root pkg (some zig) h =
    (zig, refl, on_path (zig_rel_to_full fs src_root zig) h)
  where
    on_path :
        (r : Result PathError Text)
        → Fine fs src_root
            (elim r [ ok full ↦ required pkg zig | err e ↦ status_error (invalid_zig_path pkg e) ])
        → package_has_zig fs src_root zig ≡ true
    on_path (ok full) h = h
    on_path (err e) h = absurd h

judge_status-Fine :
    (fs : Files) (src_root : Text) (pkg : Fields) (status : Value) {o : Outcome}
    → judge_status fs src_root pkg status ≡ ok o
    → Fine fs src_root o
    → (s : Text) × (status ≡ str s)
      × (one_of s valid_statuses ≡ true)
      × (one_of s enforced_statuses ≡ true
          → (zig : Text) × (zig_of pkg ≡ some zig) × (package_has_zig fs src_root zig ≡ true))
unfolding judge_status
judge_status-Fine fs src_root pkg (str s) h f = elim (Bool-cases (one_of s valid_statuses)) [
  | inr bad ↦ absurd (rw (← ok-injective (rw bad at h)) at f)
  | inl good ↦ elim (Bool-cases (one_of s enforced_statuses)) [
    | inr free ↦ (s, refl, good, λ t. cc)
    | inl held ↦ (
      s,
      refl,
      good,
      λ t.
          require_zig-Fine fs src_root pkg (zig_of pkg)
            (rw (← ok-injective (rw (good, held) at h)) at f),
    )
  ]
]
judge_status-Fine fs src_root pkg null h f = absurd (rw (← ok-injective h) at f)
judge_status-Fine fs src_root pkg (bool b) h f = absurd (rw (← ok-injective h) at f)
judge_status-Fine fs src_root pkg (int n) h f = absurd (rw (← ok-injective h) at f)
judge_status-Fine fs src_root pkg (float x) h f = absurd (rw (← ok-injective h) at f)
judge_status-Fine fs src_root pkg (seq vs) h f = cc
judge_status-Fine fs src_root pkg (dict gs) h f = cc

judge-Fine :
    (fs : Files) (src_root : Text) (v : Value) {o : Outcome}
    → judge fs src_root v ≡ ok o
    → Fine fs src_root o
    → Inventoried fs src_root v
unfolding judge as_dict
judge-Fine fs src_root (dict pkg) h f =
    let (s, e, valid, held) = judge_status-Fine fs src_root pkg (status_of pkg) h f in
    (pkg, s, refl, e, valid, held)
judge-Fine fs src_root null h f = absurd (rw (← ok-injective h) at f)
judge-Fine fs src_root (bool b) h f = absurd (rw (← ok-injective h) at f)
judge-Fine fs src_root (int n) h f = absurd (rw (← ok-injective h) at f)
judge-Fine fs src_root (float x) h f = absurd (rw (← ok-injective h) at f)
judge-Fine fs src_root (str s) h f = absurd (rw (← ok-injective h) at f)
judge-Fine fs src_root (seq vs) h f = absurd (rw (← ok-injective h) at f)

tally_one-Fine :
    (fs : Files) (src_root : Text) (o : Outcome) (t : Tally)
    → length (tally_one fs src_root o t).errors ≡ 0
    → length (tally_one fs src_root o t).missing ≡ 0
    → Fine fs src_root o × (length t.errors ≡ 0) × (length t.missing ≡ 0)
unfolding tally_one
tally_one-Fine fs src_root skipped t e m = (tt, e, m)
tally_one-Fine fs src_root (status_error x) t e m = absurd (omega arith)
tally_one-Fine fs src_root (required pkg zig) t e m =
    elim (Bool-cases (package_has_zig fs src_root zig)) [
      | inl has ↦ (has, e, rw has at m)
      | inr lacks ↦ let wrong = rw lacks at m in absurd (omega arith)
    ]

tally-Inventoried :
    (fs : Files) (src_root : Text) (vs : List Value) {t : Tally}
    → tally fs src_root vs ≡ ok t
    → length t.errors ≡ 0
    → length t.missing ≡ 0
    → All (Inventoried fs src_root) vs
unfolding tally
tally-Inventoried fs src_root [] h e m = tt
tally-Inventoried fs src_root (v ∷ vs) h e m =
    let (o, e1, h1) = >>=-eq-ok (judge fs src_root v) _ h in
    let (t, e2, h2) = >>=-eq-ok (tally fs src_root vs) _ h1 in
    let whole = ok-injective h2 in
    let (fine, es, ms) = tally_one-Fine fs src_root o t (rw (← whole) at e) (rw (← whole) at m) in
    (judge-Fine fs src_root v e1 fine, tally-Inventoried fs src_root vs e2 es ms)

not_among-none :
    (known names : List Text)
    → length (not_among known names) ≡ 0
    → All (λ name. one_of name known ≡ true) names
unfolding not_among
not_among-none known [] h = tt
not_among-none known (name ∷ names) h = elim (Bool-cases (one_of name known)) [
  | inl old ↦ (old, not_among-none known names (rw old at h))
  | inr new ↦ let wrong = rw new at h in absurd (omega arith)
]

report-good :
    (fs : Files) (src_root : Text) (vs : List Value) (t : Tally) (names : List Text)
    → (report fs src_root vs t names).good ≡ true
    → (length t.missing ≡ 0) × (length names ≡ 0) × (length t.errors ≡ 0)
unfolding report
report-good fs src_root vs t names h =
    let (two, e) =
      &&-eq-true (length t.missing == 0 && length names == 0) (length t.errors == 0) h in
    let (m, u) = &&-eq-true (length t.missing == 0) (length names == 0) two in
    ((==_iff _ 0).0 m, (==_iff _ 0).0 u, (==_iff _ 0).0 e)

pub check_packages-Inventoried :
    (fs : Files) (vs : List Value) (src_root : Text) {r : Report}
    → check_packages fs vs src_root ≡ ok r
    → r.good ≡ true
    → All (Inventoried fs src_root) vs
      × ((tops : List Text) × (inventory_top_level_zig vs ≡ ok tops)
          × All (λ name. one_of name tops ≡ true) (collect_top_level_src fs src_root))
unfolding check_packages
check_packages-Inventoried fs vs src_root h g =
    let (t, e1, h1) = >>=-eq-ok (tally fs src_root vs) _ h in
    let (tops, e2, h2) = >>=-eq-ok (inventory_top_level_zig vs) _ h1 in
    let top = collect_top_level_src fs src_root in
    let (m, u, e) =
      report-good fs src_root vs t (sorted (not_among tops top)) (rw (← ok-injective h2) at g) in
    (
      tally-Inventoried fs src_root vs e1 e m,
      (tops, e2, not_among-none tops top (sym (length-sorted (not_among tops top)) ∙ u)),
    )

inventory_top_level_zig-dicts :
    (vs : List Value) {tops : List Text}
    → inventory_top_level_zig vs ≡ ok tops
    → All (λ v. (pkg : Fields) × (v ≡ dict pkg)) vs
unfolding inventory_top_level_zig
inventory_top_level_zig-dicts [] h = tt
inventory_top_level_zig-dicts (v ∷ vs) h = elim (Option-cases (as_dict v)) [
  | inl e ↦ let wrong = rw (e, inventory_top_level_zig) at h in cc
  | inr (pkg, e) ↦
      let (tops, e1, h1) =
        >>=-eq-ok (inventory_top_level_zig vs) _ (rw (e, inventory_top_level_zig) at h) in
      ((pkg, as_dict-some v e), inventory_top_level_zig-dicts vs e1)
]

-- A report is returned only if every package of the list is a mapping: with another package the
-- run ends in an exception, although the loop has a message for it.
pub check_packages-dicts :
    (fs : Files) (vs : List Value) (src_root : Text) {r : Report}
    → check_packages fs vs src_root ≡ ok r
    → All (λ v. (pkg : Fields) × (v ≡ dict pkg)) vs
unfolding check_packages
check_packages-dicts fs vs src_root h =
    let (t, e1, h1) = >>=-eq-ok (tally fs src_root vs) _ h in
    let (tops, e2, h2) = >>=-eq-ok (inventory_top_level_zig vs) _ h1 in
    inventory_top_level_zig-dicts vs e2
