-- ===== src/Api/Packages/Lookup.antt =====
-- The index of the packages as a function from names: the last package of a name counts.
use gitz.Common.{
  ◌≡◌, refl, Bool, true, false, List, [], ◌∷◌, Text, codes, same, same_iff, Option, none, some,
  if◌then◌else◌, arith, ok, Option-cases, inl, inr, >>=-eq-ok, ok-injective, ◌∙◌, sym,
}
use gitz.Yaml.{Value, Fields, get, seq, nil}
use gitz.Yaml.Shape.{iterate}
use gitz.Yaml.Truth.{or_value}
use gitz.Api.Packages.{set_item, lookup, go_of, index_from, load_packages_index, or_type_error}

pub lookup-set_item :
    (k j : Text) (v : Fields) (d : List (Text × Fields))
    → lookup k (set_item j v d) ≡ (if same j k then some v else lookup k d)
unfolding lookup set_item
lookup-set_item k j v [] = refl
lookup-set_item k j v ((i, w) ∷ d) =
    ground (arith, same_iff j k, same_iff i j, same_iff i k, lookup-set_item k j v d)

-- `a` if it is there, else `b`.
abbrev pub first_some : Option Fields → Option Fields → Option Fields
first_some none b = b
first_some (some a) b = some a

abbrev named_here : Text → Option (Text × Fields) → Option Fields
named_here name none = none
named_here name (some (go, pkg)) = if same go name then some pkg else none

-- The last mapping of the list whose `go` is the text `name`.
abbrev pub last_named : Text → List Value → Option Fields
last_named name [] = none
last_named name (v ∷ vs) = first_some (last_named name vs) (named_here name (go_of v))

first_some_assoc :
    (a b c : Option Fields) → first_some (first_some a b) c ≡ first_some a (first_some b c)
first_some_assoc none b c = refl
first_some_assoc (some x) b c = refl

first_some_if :
    (t : Bool) (a b : Option Fields) (pkg : Fields)
    → first_some a (if t then some pkg else b)
      ≡ first_some (first_some a (if t then some pkg else none)) b
first_some_if true none b pkg = refl
first_some_if false none b pkg = refl
first_some_if t (some x) b pkg = refl

lookup-index_from :
    (name : Text) (d : List (Text × Fields)) (vs : List Value)
    → lookup name (index_from d vs) ≡ first_some (last_named name vs) (lookup name d)
unfolding index_from
lookup-index_from name d [] = refl
lookup-index_from name d (v ∷ vs) = elim (Option-cases (go_of v)) [
  | inl e ↦
      rw (e, index_from, lookup-index_from name d vs)
        (sym (first_some_assoc (last_named name vs) none (lookup name d)))
  | inr ((go, pkg), e) ↦
      rw
        (
          e,
          index_from,
          lookup-index_from name (set_item go pkg d) vs,
          lookup-set_item name go pkg d,
        )
        (first_some_if (same go name) (last_named name vs) (lookup name d) pkg)
]

first_some-none : (a : Option Fields) → first_some a none ≡ a
first_some-none none = refl
first_some-none (some x) = refl

-- The index that `load_packages_index` returns is, as a function from names, the last package of the
-- iterated list that has the name as its `go`.
pub lookup-load_packages_index :
    (packages_doc : Fields) (name : Text) {index : List (Text × Fields)}
    → load_packages_index packages_doc ≡ ok index
    → (vs : List Value) × (iterate (or_value (get (codes "packages") packages_doc) (seq nil))
        ≡ some vs)
      × (lookup name index ≡ last_named name vs)
unfolding load_packages_index lookup
lookup-load_packages_index packages_doc name h =
    let packages = or_value (get (codes "packages") packages_doc) (seq nil) in
    let (vs, e, h1) = >>=-eq-ok (or_type_error (iterate packages)) _ h in
    (
      vs,
      iterated (iterate packages) e,
      rw (← ok-injective h1) (lookup-index_from name [] vs ∙ first_some-none (last_named name vs)),
    )
  where
    iterated : (o : Option (List Value)) {vs : List Value} → or_type_error o ≡ ok vs → o ≡ some vs
    iterated none h = cc
    iterated (some vs) h = cc
