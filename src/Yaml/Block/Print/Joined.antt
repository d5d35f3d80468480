-- ===== src/Yaml/Block/Print/Joined.antt =====
-- What the parsers accumulate, item after item and key after key.
use gitz.Common.{
  ◌≡◌, refl, ap, ◌∙◌, sym, false, Text, same, same_iff, none, arith, Bool-cases, inl, inr,
}
use gitz.Yaml.{Value, Values, Fields, nil, cons, end, field, get, put, update, append}
use gitz.Yaml.Block.Print.{AreEntries}

-- The items, appended one by one.
unfoldable pub append_all : Values → Values → Values
append_all acc nil = acc
append_all acc (cons v vs) = append_all (append acc v) vs

join_values : Values → Values → Values
join_values nil ws = ws
join_values (cons v vs) ws = cons v (join_values vs ws)

append-join :
    (acc : Values) (v : Value) (vs : Values)
    → join_values (append acc v) vs ≡ join_values acc (cons v vs)
unfolding append join_values
append-join nil v vs = refl
append-join (cons w acc) v vs = ap (λ r. cons w r) (append-join acc v vs)

append_all-join : (acc vs : Values) → append_all acc vs ≡ join_values acc vs
unfolding append_all join_values
append_all-join nil nil = refl
append_all-join (cons w acc) nil = ap (λ r. cons w r) (append_all-join acc nil)
append_all-join acc (cons v vs) = append_all-join (append acc v) vs ∙ append-join acc v vs

pub append_all-nil : (vs : Values) → append_all nil vs ≡ vs
unfolding join_values
append_all-nil vs = append_all-join nil vs

join : Fields → Fields → Fields
join end gs = gs
join (field k v fs) gs = field k v (join fs gs)

-- No key of the second mapping is in the first.
Absent : Fields → Fields → Type 0
Absent m end = Unit
Absent m (field k v fs) = (get k m ≡ none) × Absent m fs

put-join : (k : Text) (v : Value) (m : Fields) → get k m ≡ none → put k v m ≡ join m (field k v end)
unfolding put join
put-join k v end h = refl
put-join k v (field j w m) h = elim (Bool-cases (same j k)) [
  | inl e ↦ let x = rw e at h in cc
  | inr e ↦ rw e (ap (λ r. field j w r) (put-join k v m (rw e at h)))
]

get-join :
    (j k : Text) (v : Value) (m : Fields)
    → get j m ≡ none
    → same k j ≡ false
    → get j (join m (field k v end)) ≡ none
unfolding join
get-join j k v end h e = rw e refl
get-join j k v (field i w m) h e = elim (Bool-cases (same i j)) [
  | inl t ↦ let x = rw t at h in cc
  | inr t ↦ rw t (get-join j k v m (rw t at h) e)
]

same_sym : (j k : Text) → same j k ≡ false → same k j ≡ false
same_sym j k h = ground (arith, same_iff j k, same_iff k j)

Absent-join :
    (m : Fields) (k : Text) (v : Value) (fs : Fields)
    → Absent m fs
    → get k fs ≡ none
    → Absent (join m (field k v end)) fs
unfolding Absent
Absent-join m k v end h e = tt
Absent-join m k v (field j w fs) h e = elim (Bool-cases (same j k)) [
  | inl t ↦ let x = rw t at e in cc
  | inr t ↦ (get-join j k v m h.0 (same_sym j k t), Absent-join m k v fs h.1 (rw t at e))
]

update-join : (m fs : Fields) → AreEntries fs → Absent m fs → update m fs ≡ join m fs
unfolding update join Absent AreEntries
update-join m end h a = sym (join-end m)
  where
    join-end : (m : Fields) → join m end ≡ m
    join-end end = refl
    join-end (field k v m) = ap (λ r. field k v r) (join-end m)
update-join m (field k v fs) h a =
    ap (λ x. update x fs) (put-join k v m a.0)
    ∙ update-join (join m (field k v end)) fs h.3 (Absent-join m k v fs a.1 h.1)
    ∙ join-assoc m
  where
    join-assoc : (m : Fields) → join (join m (field k v end)) fs ≡ join m (field k v fs)
    join-assoc end = refl
    join-assoc (field j w m) = ap (λ r. field j w r) (join-assoc m)

pub update-end : (fs : Fields) → AreEntries fs → update end fs ≡ fs
unfolding join Absent
update-end fs h = update-join end fs h (nowhere fs)
  where
    nowhere : (fs : Fields) → Absent end fs
    nowhere end = tt
    nowhere (field k v fs) = (refl, nowhere fs)

pub update-field :
    (k : Text) (v : Value) (fs : Fields)
    → AreEntries fs
    → get k fs ≡ none
    → update (field k v end) fs ≡ field k v fs
unfolding join Absent
update-field k v fs h e = update-join (field k v end) fs h (elsewhere fs e)
  where
    elsewhere : (fs : Fields) → get k fs ≡ none → Absent (field k v end) fs
    elsewhere end e = tt
    elsewhere (field j w fs) e = elim (Bool-cases (same j k)) [
      | inl t ↦ let x = rw t at e in cc
      | inr t ↦ (rw (same_sym j k t) refl, elsewhere fs (rw t at e))
    ]
