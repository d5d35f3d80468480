-- ===== src/Api/Verdict.antt =====
-- What an accepted run of the API inventory check says of the documents, the index and the sources.
use gitz.Common.{
  ◌≡◌, refl, ap, sym, ◌∙◌, ◌==◌, ==_iff, Bool, true, false, not, ◌&&◌, &&-eq-true, List, [], ◌∷◌,
  Text, one_of, All, length, if◌then◌else◌, ok, >>=-eq-ok, ok-injective, arith,
}
use gitz.Files.{Files, load_path}
use gitz.Inventory.{status_of, enforced_statuses}
use gitz.Yaml.{Value, Fields, str}
use gitz.Api.{check_paths, without_api, is_enforced, report, Report, check, list_api_files}
use gitz.Api.Counters.{Tally}
use gitz.Api.Packages.{load_packages_index}
use gitz.Api.Named.{SomeNames, check_paths-SomeNames}
use gitz.Api.Mapped.{IsMapped, check_paths-IsMapped}

-- If the status of the package is enforced, some file has it as its package.
abbrev pub Covers : Files → List Text → Text × Fields → Type 0
Covers fs paths (name, pkg) =
    (s : Text) → status_of pkg ≡ str s → one_of s enforced_statuses ≡ true → SomeNames fs name paths

length-if_cons :
    (b : Bool) (name : Text) (more : List Text)
    → length (if b then name ∷ more else more) ≡ 0
    → (b ≡ false) × (length more ≡ 0)
length-if_cons true name more h = absurd (omega arith)
length-if_cons false name more h = (refl, h)

is_enforced-true :
    (status : Value) (s : Text) {b : Bool}
    → is_enforced status ≡ ok b
    → status ≡ str s
    → one_of s enforced_statuses ≡ true
    → b ≡ true
unfolding is_enforced
is_enforced-true status s h e p = sym (ok-injective (rw e at h)) ∙ p

known_of :
    (enforced known : Bool) → (enforced && not known) ≡ false → enforced ≡ true → known ≡ true
known_of enforced true h e = refl
known_of true false h e = cc
known_of false false h e = cc

without_api-Covers :
    (fs : Files) (paths : List Text) (index : List (Text × Fields)) (known : List Text)
    {ms : List Text}
    → ((name : Text) → one_of name known ≡ true → SomeNames fs name paths)
    → without_api index known ≡ ok ms
    → length ms ≡ 0
    → All (Covers fs paths) index
unfolding without_api
without_api-Covers fs paths [] known k h z = tt
without_api-Covers fs paths ((name, pkg) ∷ index) known k h z =
    let (enforced, e1, h1) = >>=-eq-ok (is_enforced (status_of pkg)) _ h in
    let (more, e2, h2) = >>=-eq-ok (without_api index known) _ h1 in
    let (bare, rest) =
      length-if_cons (enforced && not (one_of name known)) name more
        (ap length (ok-injective h2) ∙ z) in
    (
      λ s e p.
          k name (
            known_of enforced (one_of name known) bare (is_enforced-true (status_of pkg) s e1 e p)),
      without_api-Covers fs paths index known k e2 rest,
    )

report-good :
    (paths : List Text) (t : Tally) (missing : List Text)
    → (report paths t missing).good ≡ true
    → (t.schema_errors ≡ 0) × (t.mapped_fail ≡ 0) × (length missing ≡ 0)
unfolding report
report-good paths t missing h =
    let (two, c) =
      &&-eq-true (t.schema_errors == 0 && t.mapped_fail == 0) (length missing == 0) h in
    let (a, b) = &&-eq-true (t.schema_errors == 0) (t.mapped_fail == 0) two in
    ((==_iff _ 0).0 a, (==_iff _ 0).0 b, (==_iff _ 0).0 c)

-- When the check returns a report that is good, every API file loads as a document that fits the
-- schema and whose package has a Zig text with the last part of each of its identifiers, and every
-- package of the index with an enforced status has an API file.
pub check-IsMapped :
    (fs : Files) (packages_doc : Fields) (api_dir src_root : Text) {r : Report}
    → check fs packages_doc api_dir src_root ≡ ok r
    → r.good ≡ true
    → (index : List (Text × Fields)) × (load_packages_index packages_doc ≡ ok index)
      × All (λ path. IsMapped fs src_root index (load_path fs path)) (list_api_files fs api_dir)
      × All (Covers fs (list_api_files fs api_dir)) index
unfolding check
check-IsMapped fs packages_doc api_dir src_root h g =
    let paths = list_api_files fs api_dir in
    let (index, e1, h1) = >>=-eq-ok (load_packages_index packages_doc) _ h in
    let (t, e2, h2) = >>=-eq-ok (check_paths fs src_root index paths) _ h1 in
    let (missing, e3, h3) = >>=-eq-ok (without_api index t.api_packages) _ h2 in
    let (a, b, c) = report-good paths t missing (rw (← ok-injective h3) at g) in
    (
      index,
      e1,
      check_paths-IsMapped fs src_root index paths e2 a b,
      without_api-Covers fs paths index t.api_packages
          (λ name p. check_paths-SomeNames fs src_root index paths name e2 p) e3 c,
    )
