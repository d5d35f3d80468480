-- ===== src/Gates/Covered.antt =====
-- What holds when check_file_inventory.py and check_api_inventory.py both exit with 0.
use gitz.Common.{
  ◌≡◌, refl, ap, sym, ◌∙◌, true, List, [], ◌∷◌, Text, codes, same, Option, none, some, All,
  Option-cases, inl, inr, Bool-cases, ok, ok-injective,
}
use gitz.Api.Main as ApiMain
use gitz.Api.{list_api_files}
use gitz.Api
use gitz.Api.Packages.{load_packages_index, index_from, set_item, go_of}
use gitz.Api.Verdict.{check-IsMapped, Covers}
use gitz.Cli.{Output, status, given, with_value-zero}
use gitz.Files.{Files, load_path}
use gitz.Inventory
use gitz.Inventory.Main as InventoryMain
use gitz.Inventory.{check_packages, check_value}
use gitz.Inventory.Verdict.{Inventoried, check_packages-Inventoried}
use gitz.Yaml.{Value, Values, Fields, dict, seq, nil, get, to_list, null, bool, int, float, str}
use gitz.Yaml.Shape.{as_dict, as_dict-some, as_str, iterate}
use gitz.Yaml.Truth.{or_value}

-- A package of the index is inventoried.
abbrev pub Held : Files → Text → Text × Fields → Type 0
Held fs src_root (name, pkg) = Inventoried fs src_root (dict pkg)

set_item-Held :
    (fs : Files) (src_root k : Text) (pkg : Fields) (d : List (Text × Fields))
    → All (Held fs src_root) d
    → Inventoried fs src_root (dict pkg)
    → All (Held fs src_root) (set_item k pkg d)
unfolding set_item
set_item-Held fs src_root k pkg [] h p = (p, tt)
set_item-Held fs src_root k pkg ((j, w) ∷ d) h p = elim (Bool-cases (same j k)) [
  | inl e ↦ rw e (p, h.1)
  | inr e ↦ rw e (h.0, set_item-Held fs src_root k pkg d h.1 p)
]

go_of-dict : (v : Value) {name : Text} {pkg : Fields} → go_of v ≡ some (name, pkg) → v ≡ dict pkg
go_of-dict v h = elim (Option-cases (as_dict v)) [
  | inl e ↦ let w = rw (e, go_of) at h in cc
  | inr (fs, e) ↦ as_dict-some v e ∙ ap dict (of_go fs (get (codes "go") fs) (rw (e, go_of) at h))
]
  where
    of_text :
        (fs : Fields) (o : Option Text) {name : Text} {pkg : Fields}
        → ◌≡◌ {A = Option (Text × Fields)}
            (elim o [ none ↦ none | some s ↦ some (s, fs) ])
            (some (name, pkg))
        → fs ≡ pkg
    of_text fs none h = cc
    of_text fs (some s) h = cc

    of_go :
        (fs : Fields) (o : Option Value) {name : Text} {pkg : Fields}
        → ◌≡◌ {A = Option (Text × Fields)}
            (elim o [
              | none ↦ none
              | some go ↦ elim (as_str go) [ none ↦ none | some s ↦ some (s, fs) ]
            ])
            (some (name, pkg))
        → fs ≡ pkg
    of_go fs none h = cc
    of_go fs (some go) h = of_text fs (as_str go) h

index_from-Held :
    (fs : Files) (src_root : Text) (d : List (Text × Fields)) (vs : List Value)
    → All (Held fs src_root) d
    → All (Inventoried fs src_root) vs
    → All (Held fs src_root) (index_from d vs)
unfolding index_from
index_from-Held fs src_root d [] h k = h
index_from-Held fs src_root d (v ∷ vs) h k = elim (Option-cases (go_of v)) [
  | inl e ↦ rw (e, index_from) (index_from-Held fs src_root d vs h k.1)
  | inr ((name, pkg), e) ↦
      rw (e, index_from)
        (index_from-Held fs src_root (set_item name pkg d) vs
          (set_item-Held fs src_root name pkg d h (rw (go_of-dict v e) at k.0)) k.1)
]

dict-injective : {a b : Fields} → dict a ≡ dict b → a ≡ b
dict-injective h = cc

index-Held :
    (fs : Files) (src_root : Text) (doc : Fields) (vs : Values) {index : List (Text × Fields)}
    → or_value (get (codes "packages") doc) (seq nil) ≡ seq vs
    → All (Inventoried fs src_root) (to_list vs)
    → load_packages_index doc ≡ ok index
    → All (Held fs src_root) index
unfolding load_packages_index iterate
index-Held fs src_root doc vs q h e =
    rw (← ok-injective (rw (q, load_packages_index) at e))
      (index_from-Held fs src_root [] (to_list vs) tt h)

pub check_value-list :
    (fs : Files) (v : Value) (src_root : Text) {r : Inventory.Report}
    → check_value fs v src_root ≡ ok r
    → r.good ≡ true
    → (vs : Values) × (v ≡ seq vs) × (check_packages fs (to_list vs) src_root ≡ ok r)
unfolding check_value
check_value-list fs (seq vs) src_root h g = (vs, refl, h)
check_value-list fs (dict gs) src_root h g = let w = rw (← ok-injective h) at g in cc
check_value-list fs (str s) src_root h g = let w = rw (← ok-injective h) at g in cc
check_value-list fs null src_root h g = let w = rw (← ok-injective h) at g in cc
check_value-list fs (bool b) src_root h g = let w = rw (← ok-injective h) at g in cc
check_value-list fs (int n) src_root h g = let w = rw (← ok-injective h) at g in cc
check_value-list fs (float x) src_root h g = let w = rw (← ok-injective h) at g in cc

-- What a file inventory run with status 0 was given and found.
inventory_main-Inventoried :
    (fs : Files) (packages src_root : Option Text) {a : Output Inventory.Report}
    → InventoryMain.main fs packages src_root ≡ ok a
    → status (λ r. r.good) a ≡ 0
    → (path : Text) × (root : Text) × (doc : Fields) × (vs : Values) × (given packages ≡ some path)
      × (given src_root ≡ some root)
      × (load_path fs path ≡ ok (dict doc))
      × (or_value (get (codes "packages") doc) (seq nil) ≡ seq vs)
      × All (Inventoried fs root) (to_list vs)
unfolding InventoryMain.main Inventory.check
inventory_main-Inventoried fs packages src_root h z = elim (Option-cases (given packages)) [
  | inl e ↦ let w = rw (← ok-injective (rw (e, InventoryMain.main) at h)) at z in cc
  | inr (path, e) ↦ elim (Option-cases (given src_root)) [
    | inl e1 ↦ let w = rw (← ok-injective (rw (e, e1, InventoryMain.main) at h)) at z in cc
    | inr (root, e1) ↦
        let (doc, r, l, c, g) =
          with_value-zero (λ doc. Inventory.check fs doc root) (λ r. r.good) (load_path fs path)
            (rw (e, e1, InventoryMain.main) at h) z in
        let (vs, q, k) =
          check_value-list fs (or_value (get (codes "packages") doc) (seq nil)) root c g in
        (path, root, doc, vs, e, e1, l, q, (check_packages-Inventoried fs (to_list vs) root k g).0)
  ]
]

-- If the file inventory and the API inventory both exit with 0 on the same documents and sources, then
-- every package of the index is inventoried, and has an API file if its status is enforced.
pub main-Covers :
    (fs : Files) (packages api_dir src_root : Option Text) {a : Output Inventory.Report}
    {b : Output Api.Report}
    → InventoryMain.main fs packages src_root ≡ ok a
    → status (λ r. r.good) a ≡ 0
    → ApiMain.main fs packages api_dir src_root ≡ ok b
    → status (λ r. r.good) b ≡ 0
    → (path : Text) × (dir : Text) × (root : Text) × (doc : Fields) × (index : List (Text × Fields))
      × (given packages ≡ some path)
      × (given api_dir ≡ some dir)
      × (given src_root ≡ some root)
      × (load_path fs path ≡ ok (dict doc))
      × (load_packages_index doc ≡ ok index)
      × All (Held fs root) index
      × All (Covers fs (list_api_files fs dir)) index
unfolding ApiMain.main
main-Covers fs packages api_dir src_root h z k w =
    let (path, root, doc, vs, e, e1, l, q, inventoried) =
      inventory_main-Inventoried fs packages src_root h z in
    elim (Option-cases (given api_dir)) [
      | inl e2 ↦ let x = rw (← ok-injective (rw (e, e2, ApiMain.main) at k)) at w in cc
      | inr (dir, e2) ↦
          let (doc', r, l', c, g) =
            with_value-zero (λ d. Api.check fs d dir root) (λ r. r.good) (load_path fs path)
              (rw (e, e2, e1, ApiMain.main) at k) w in
          let same_doc : doc' ≡ doc = dict-injective (ok-injective (sym l' ∙ l)) in
          let (index, i, mapped, covers) = check-IsMapped fs doc dir root (rw same_doc at c) g in
          (
            path,
            dir,
            root,
            doc,
            index,
            e,
            e2,
            e1,
            l,
            i,
            index-Held fs root doc vs q inventoried i,
            covers,
          )
    ]
