-- ===== src/Gates/Missing.antt =====
-- The metrics of a packages document that the file inventory accepts.
use gitz.Common.{
  ℕ, ◌≡◌, refl, ap, sym, ◌∙◌, true, Bool, false, List, [], ◌∷◌, Text, codes, one_of, Option, none,
  some, All, Option-cases, inl, inr, ok, >>=-eq-ok, ok-injective, if◌then◌else◌,
}
use gitz.Common.Str.{is_empty}
use gitz.Allowlists
use gitz.Files.{Files}
use gitz.Gates.Covered.{check_value-list}
use gitz.Inventory
use gitz.Inventory.{zig_of, status_of, enforced_statuses}
use gitz.Inventory.Tree.{package_has_zig}
use gitz.Inventory.Verdict.{Inventoried, check_packages-Inventoried}
use gitz.MetricsGate.{Paths, measure, or_type_error}
use gitz.MetricsGate.Limits.{Measured}
use gitz.MetricsGate.Measures.{required_of, missing_of, enforced, zig_text}
use gitz.MetricsGate.Numbers.{Floats}
use gitz.MetricsGate.Pin.{parse_pin_from_md}
use gitz.Yaml.{Value, Fields, dict, seq, nil, get, to_list, null, bool, int, float, str}
use gitz.Yaml.Shape.{as_dict, as_str, iterate}
use gitz.Yaml.Truth.{or_value}

-- The package has a Zig path with a direct Zig file.
abbrev HasZig : Files → Text → Fields → Type 0
HasZig fs src_root pkg =
    (zig : Text) × (zig_of pkg ≡ some zig) × (package_has_zig fs src_root zig ≡ true)

required_of-HasZig :
    (fs : Files) (src_root : Text) (vs : List Value) {pkgs : List Fields}
    → All (Inventoried fs src_root) vs
    → required_of vs ≡ ok pkgs
    → All (HasZig fs src_root) pkgs
unfolding required_of enforced as_dict
required_of-HasZig fs src_root [] h e = rw (← ok-injective e) tt
required_of-HasZig fs src_root (v ∷ vs) ((pkg, s, is_dict, has_status, valid, zig), h) e =
    let (test, e1, e2) = >>=-eq-ok (enforced (status_of pkg)) _ (rw (is_dict, required_of) at e) in
    let (more, e3, e4) = >>=-eq-ok (required_of vs) _ e2 in
    let rest = required_of-HasZig fs src_root vs h e3 in
    let tested : one_of s enforced_statuses ≡ test = ok-injective (rw has_status at e1) in
    rw (← ok-injective e4) (kept test more rest (λ t. zig (tested ∙ t)))
  where
    kept :
        (test : Bool) (more : List Fields)
        → All (HasZig fs src_root) more
        → (test ≡ true → HasZig fs src_root pkg)
        → All (HasZig fs src_root) (if test then pkg ∷ more else more)
    kept true more k z = (z refl, k)
    kept false more k z = k

zig_text-zig_of :
    (pkg : Fields) {zig : Text}
    → zig_of pkg ≡ some zig
    → zig_text (or_value (get (codes "zig") pkg) (str [])) ≡ ok zig
unfolding zig_of zig_text or_value as_str
zig_text-zig_of pkg h = elim (Option-cases (get (codes "zig") pkg)) [
  | inl e ↦ let w = rw (e, zig_of) at h in cc
  | inr (v, e) ↦ rw e (on_value v (rw (e, zig_of) at h))
]
  where
    on_value :
        (v : Value) {zig : Text}
        → ◌≡◌ {A = Option Text}
            (elim v [
              | null ↦ none
              | bool b ↦ none
              | int n ↦ none
              | float x ↦ none
              | str s ↦ (if is_empty s then none else some s)
              | seq vs ↦ none
              | dict gs ↦ none
            ])
            (some zig)
        → zig_text (or_value (some v) (str [])) ≡ ok zig
    on_value null k = cc
    on_value (bool b) k = cc
    on_value (int n) k = cc
    on_value (float x) k = cc
    on_value (str []) k = cc
    on_value (str (c ∷ s)) k = cc
    on_value (seq vs) k = cc
    on_value (dict gs) k = cc

missing_of-HasZig :
    (fs : Files) (src_root : Text) (pkgs : List Fields)
    → All (HasZig fs src_root) pkgs
    → missing_of fs src_root pkgs ≡ ok []
unfolding missing_of
missing_of-HasZig fs src_root [] h = refl
missing_of-HasZig fs src_root (pkg ∷ pkgs) ((zig, is_zig, has), h) =
    rw (zig_text-zig_of pkg is_zig, missing_of-HasZig fs src_root pkgs h, has) refl

module _ (fl : Floats) (is_alnum : ℕ → Bool) where
  -- If the file inventory of a packages document returns an accepted report, then in the metrics of the
  -- same document and source tree no package is missing.
  pub measure-check :
      (fs : Files) (p : Paths fl is_alnum) (packages_doc : Fields) {r : Inventory.Report}
      {m : Measured} {allow : List Allowlists.Message}
      → Inventory.check fs packages_doc p.src_root ≡ ok r
      → r.good ≡ true
      → measure fl is_alnum fs p packages_doc ≡ ok (m, allow)
      → m.missing ≡ 0
  unfolding measure Inventory.check iterate
  measure-check fs p packages_doc c g h =
      let v = or_value (get (codes "packages") packages_doc) (seq nil) in
      let (vs, q, k) = check_value-list fs v p.src_root c g in
      let inventoried = (check_packages-Inventoried fs (to_list vs) p.src_root k g).0 in
      let (packages, e1, h1) = >>=-eq-ok (or_type_error (iterate v)) _ h in
      let (required, e2, h2) = >>=-eq-ok (required_of packages) _ h1 in
      let (missing, e3, h3) = >>=-eq-ok (missing_of fs p.src_root required) _ h2 in
      let (pin_md, e4, h4) = >>=-eq-ok (parse_pin_from_md is_alnum fs p.pin_md_path) _ h3 in
      let list : to_list vs ≡ packages = ok-injective (rw q at e1) in
      let zigs = required_of-HasZig fs p.src_root packages (rw list at inventoried) e2 in
      let none_ : [] ≡ missing =
        ok-injective (sym (missing_of-HasZig fs p.src_root required zigs) ∙ e3) in
      rw (← ap (λ x. x.0) (ok-injective h4), ← none_) refl
