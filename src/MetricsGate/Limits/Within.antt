-- ===== src/MetricsGate/Limits/Within.antt =====
-- No failure is reported exactly if every threshold holds.
use gitz.Common.{
  ◌≡◌, ◌↔◌, ◌≤◌, inl, inr, ltb, ℕ, refl, Bool, true, false, List, [], ◌∷◌, ◌++◌, arith,
  append-nil_parts, Bool-cases, Option-cases, ◌≢◌, ◌==◌, ◌&&◌, not, Text, Option, none, some,
}
use gitz.Common.Int.{ℤ, pos, negsuc}
use gitz.MetricsGate.Numbers.{Floats, below, above, equal}
use gitz.Yaml.{Value, str}
use gitz.Yaml.Truth.{truthy}
use gitz.Common.Str.{is_empty}
use gitz.MetricsGate.Limits.{
  or_null, true_value, Measured, Thresholds, Failure, failing, failures, wrong_pin, wrong_document,
  mapped_ratio, low_ratio, pin_expected, pin_documented, few_packages, few_required, many_missing,
  few_files, few_goldens, many_active,
}

-- The count is at least the number, or at most.
abbrev pub AtLeast : ℕ → ℤ → Type 0
AtLeast m (pos n) = n ≤ m
AtLeast m (negsuc n) = Unit

abbrev pub AtMost : ℕ → ℤ → Type 0
AtMost m (pos n) = m ≤ n
AtMost m (negsuc n) = ⊥

below-AtLeast : (m : ℕ) (z : ℤ) (f : Failure) → (failing (below m z) f ≡ []) ↔ AtLeast m z
below-AtLeast m (pos n) f = elim (Bool-cases (ltb m n)) [
  | inl t ↦ rw t (λ h. cc, λ h. ground arith)
  | inr t ↦ rw t (λ _. ground arith, λ _. refl)
]
below-AtLeast m (negsuc n) f = (λ _. tt, λ _. refl)

above-AtMost : (m : ℕ) (z : ℤ) (f : Failure) → (failing (above m z) f ≡ []) ↔ AtMost m z
above-AtMost m (pos n) f = elim (Bool-cases (ltb n m)) [
  | inl t ↦ rw t (λ h. cc, λ h. ground arith)
  | inr t ↦ rw t (λ _. ground arith, λ _. refl)
]
above-AtMost m (negsuc n) f = (λ h. cc, λ h. absurd h)

failing-false : (b : Bool) (f : Failure) → (failing b f ≡ []) ↔ (b ≡ false)
failing-false true f = (λ h. cc, λ h. cc)
failing-false false f = (λ _. refl, λ _. refl)

failing-append :
    (b : Bool) (f : Failure) (rest : List Failure)
    → (failing b f ++ rest ≡ [])
    → (failing b f ≡ []) × (rest ≡ [])
failing-append b f rest h = (append-nil_parts (failing b f) rest).0 h

module _ (fl : Floats) where
  -- The ratio of the mapped names reaches the number, up to the epsilon.
  abbrev pub Reaches : fl.F → fl.F → Type 0
  Reaches x low = fl.less (fl.plus_epsilon x) low ≡ false

  -- Every threshold holds, and the pins agree where they are given: the pin of the packages with the
  -- one that the configuration expects, and the pin of the document with that of the packages.
  pub record IsWithin (m : Measured) (l : Thresholds fl) : Type 0 where
    pub pinned :
        (v : Value) → l.expected ≡ some v → truthy v ≡ true → equal fl (or_null fl m.pin) v ≡ true
    pub documented :
        (t : Text) (v : Value)
        → m.pin_md ≡ some t
        → t ≢ []
        → m.pin ≡ some v
        → truthy v ≡ true
        → equal fl (str t) v ≡ true
    pub total : AtLeast m.total l.min_total
    pub required : AtLeast m.required l.min_required
    pub missing : AtMost m.missing l.max_missing
    pub files : AtLeast m.api_files l.min_files
    pub no_names : m.required_names ≡ 0 → Reaches fl.one l.min_ratio
    pub ratio :
        m.required_names ≢ 0 → Reaches (fl.divide m.mapped_names m.required_names) l.min_ratio
    pub goldens : AtLeast m.goldens l.min_goldens
    pub active : AtMost m.active l.max_active

  right_pin :
      (p : Value) (e : Option Value)
      → ((true_value e && not (equal fl p (or_null fl e))) ≡ false)
        ↔ ((v : Value) → e ≡ some v → truthy v ≡ true → equal fl p v ≡ true)
  right_pin p none = (λ _ v h. cc, λ _. refl)
  right_pin p (some w) = (
    λ h v e t. let q : w ≡ v = cc in rw (← q) (agree (truthy w) (equal fl p w) h (rw (← q) at t)),
    λ f. elim (Bool-cases (truthy w)) [ inl t ↦ rw (t, f w refl t) refl | inr t ↦ rw t refl ],
  )
    where
      agree : (a b : Bool) → (a && not b) ≡ false → a ≡ true → b ≡ true
      agree a b h t = ground arith

  right_text :
      (t : Text) (pin : Option Value)
      → ((not (is_empty t) && true_value pin && not (equal fl (str t) (or_null fl pin))) ≡ false)
        ↔ ((u : Text) (v : Value)
            → ◌≡◌ {A = Option Text} (some t) (some u)
            → u ≢ []
            → pin ≡ some v
            → truthy v ≡ true
            → equal fl (str u) v ≡ true)
  right_text [] pin = (λ _ u v h n. absurd (n (let q : u ≡ [] = cc in q)), λ _. refl)
  right_text (c ∷ t) none = (λ _ u v h n e. cc, λ _. refl)
  right_text (c ∷ t) (some w) =
      let (f, f') = right_pin (str (c ∷ t)) (some w) in
      (
        λ h u v e n p y. let q : c ∷ t ≡ u = cc in rw (← q) (f h v p y),
        λ g. f' (λ v p y. g (c ∷ t) v refl (λ x. cc) p y),
      )

  right_document :
      (m : Measured)
      → (wrong_document fl m ≡ false) ↔ (
          (t : Text) (v : Value)
          → m.pin_md ≡ some t
          → t ≢ []
          → m.pin ≡ some v
          → truthy v ≡ true
          → equal fl (str t) v ≡ true)
  unfolding wrong_document
  right_document m = elim (Option-cases m.pin_md) [
    | inl e ↦ rw (e, wrong_document) (λ _ t v h. cc, λ _. refl)
    | inr (t, e) ↦ rw (e, wrong_document) (right_text t m.pin)
  ]

  right_ratio :
      (m : Measured) (low : fl.F)
      → Reaches (mapped_ratio fl m) low ↔ (
          (m.required_names ≡ 0 → Reaches fl.one low)
          × (m.required_names ≢ 0 → Reaches (fl.divide m.mapped_names m.required_names) low))
  unfolding mapped_ratio
  right_ratio m low = elim (Bool-cases (m.required_names == 0)) [
    | inl z ↦ rw z (λ h. (λ _. h, λ n. absurd (n (ground arith))), λ h. h.0 (ground arith))
    | inr z ↦ rw z (λ h. (λ e. absurd (ground arith), λ _. h), λ h. h.1 (λ e. ground arith))
  ]

  -- No failure is reported if and only if every threshold holds and the pins agree where given.
  pub failures-nil : (m : Measured) (l : Thresholds fl) → (failures fl m l ≡ []) ↔ IsWithin m l
  unfolding failures
  failures-nil m l =
      let q = right_pin (or_null fl m.pin) l.expected in
      let d2 = right_document m in
      let r = right_ratio m l.min_ratio in
      let (a, a') = failing-false (wrong_pin fl m l) pin_expected in
      let (b, b') = failing-false (wrong_document fl m) pin_documented in
      let (c, c') = below-AtLeast m.total l.min_total (few_packages m.total l.min_total) in
      let (d, d') =
        below-AtLeast m.required l.min_required (few_required m.required l.min_required) in
      let (e, e') = above-AtMost m.missing l.max_missing (many_missing m.missing l.max_missing) in
      let (f, f') = below-AtLeast m.api_files l.min_files (few_files m.api_files l.min_files) in
      let (g, g') =
        failing-false (fl.less (fl.plus_epsilon (mapped_ratio fl m)) l.min_ratio) low_ratio in
      let (i, i') = below-AtLeast m.goldens l.min_goldens (few_goldens m.goldens l.min_goldens) in
      let (j, j') = above-AtMost m.active l.max_active (many_active m.active l.max_active) in
      (
        λ h.
            let (p1, h1) = failing-append _ _ _ h in
            let (p2, h2) = failing-append _ _ _ h1 in
            let (p3, h3) = failing-append _ _ _ h2 in
            let (p4, h4) = failing-append _ _ _ h3 in
            let (p5, h5) = failing-append _ _ _ h4 in
            let (p6, h6) = failing-append _ _ _ h5 in
            let (p7, h7) = failing-append _ _ _ h6 in
            let (p8, h8) = failing-append _ _ _ h7 in
            record {
              pinned = q.0 (a p1);
              documented = d2.0 (b p2);
              total = c p3;
              required = d p4;
              missing = e p5;
              files = f p6;
              no_names = (r.0 (g p7)).0;
              ratio = (r.0 (g p7)).1;
              goldens = i p8;
              active = j h8;
            },
        λ w.
            rw
              (
                a' (q.1 w.pinned),
                b' (d2.1 w.documented),
                c' w.total,
                d' w.required,
                e' w.missing,
                f' w.files,
                g' (r.1 (w.no_names, w.ratio)),
                i' w.goldens,
                j' w.active,
              )
              refl,
      )
