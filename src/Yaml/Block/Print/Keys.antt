-- ===== src/Yaml/Block/Print/Keys.antt =====
-- What the block parser reads off a printed key, alone or with a value behind it.
use gitz.Common.{ℕ, ◌≡◌, refl, ◌==◌, true, false, [], ◌∷◌, ◌++◌, Text, codes, arith}
use gitz.Common.Str.{is_space, lstrip, rstrip, strip, starts_with, has_char, partition}
use gitz.Yaml.{Value}
use gitz.Yaml.Block.{is_item, opens_block, key_of, rest_of, item_of, is_key_only, is_inline_map}
use gitz.Yaml.Block.Print.{entry_text, key_text, item_text, key_char, IsKey}
use gitz.Yaml.Block.Print.Texts.{IsText, rstrip-append, ends_with-append, key_char-parts}

partition-key : (k x : Text) → IsKey k → partition b':' (k ++ (b':' ∷ x)) ≡ (k, x)
unfolding partition
partition-key [] x h = refl
partition-key (c ∷ k) x h = rw (partition-key k x h.1, (key_char-parts c h.0).1) refl

rstrip-key : (k : Text) → IsKey k → rstrip k ≡ k
unfolding rstrip
rstrip-key [] h = refl
rstrip-key (c ∷ k) h = rw (rstrip-key k h.1, (key_char-parts c h.0).0) refl

pub strip-key : (k : Text) → IsKey k → strip k ≡ k
unfolding strip lstrip
strip-key [] h = rstrip-key [] h
strip-key (c ∷ k) h = rw (key_char-parts c h.0).0 (rstrip-key (c ∷ k) h)

pub key_of-IsKey : (k x : Text) → IsKey k → key_of (k ++ (b':' ∷ x)) ≡ k
unfolding key_of
key_of-IsKey k x h = rw (partition-key k x h) (strip-key k h)

pub rest_of-entry_text :
    (k t : Text) {v : Value} → IsKey k → IsText v t → rest_of (entry_text k t) ≡ t
unfolding rest_of strip lstrip is_space
rest_of-entry_text k t h w = rw (partition-key k (b' ' ∷ t) h, w.bare, w.tight) refl

pub rest_of-key_text : (k : Text) → IsKey k → rest_of (key_text k) ≡ []
unfolding rest_of strip lstrip rstrip
rest_of-key_text k h = rw (partition-key k [] h) refl

key_char-no_blank : (c : ℕ) → key_char c ≡ true → (c == b' ') ≡ false
unfolding key_char is_space
key_char-no_blank c h = ground arith

-- A key is no list item.
pub is_item-IsKey : (k x : Text) → IsKey k → is_item (k ++ (b':' ∷ x)) ≡ false
is_item-IsKey [] x h = refl
is_item-IsKey (c ∷ []) x h = ground arith
is_item-IsKey (c ∷ d ∷ k) x h = ground (arith, key_char-no_blank d h.1.0)

pub has_char-key : (k x : Text) → has_char b':' (k ++ (b':' ∷ x)) ≡ true
unfolding has_char
has_char-key [] x = refl
has_char-key (c ∷ k) x = ground (arith, has_char-key k x)

pub opens_block-key : (k x : Text) → opens_block (k ++ (b':' ∷ x)) ≡ false
opens_block-key [] x = refl
opens_block-key (c ∷ []) x = ground arith
opens_block-key (c ∷ d ∷ k) x = ground arith

-- No quote and no bracket begins a key.
unquoted :
    (k x : Text)
    → IsKey k
    → (starts_with (k ++ (b':' ∷ x)) (codes "'") ≡ false)
      × (starts_with (k ++ (b':' ∷ x)) (codes "\"") ≡ false)
      × (starts_with (k ++ (b':' ∷ x)) (codes "[") ≡ false)
      × (starts_with (k ++ (b':' ∷ x)) (codes "{") ≡ false)
unquoted [] x h = (refl, refl, refl, refl)
unquoted (c ∷ k) x h =
    let (a, b, q, s, d, e, f) = key_char-parts c h.0 in (rw s refl, rw q refl, rw e refl, rw f refl)

pub is_key_only-key_text : (k : Text) → IsKey k → is_key_only (key_text k) ≡ true
unfolding is_key_only
is_key_only-key_text k h =
    let (a, b, c, d) = unquoted k [] h in rw (ends_with-append k [] b':' b':', a, b) refl

pub is_key_only-entry_text :
    (k t : Text) {v : Value} → IsText v t → is_key_only (entry_text k t) ≡ false
unfolding is_key_only
is_key_only-entry_text k t w = rw (ends_with-append k (b' ' ∷ t) b':' b':', w.no_colon) refl

pub is_key_only-IsText : (t : Text) {v : Value} → IsText v t → is_key_only t ≡ false
unfolding is_key_only
is_key_only-IsText t w = rw w.no_colon refl

pub is_inline_map-IsKey : (k x : Text) → IsKey k → is_inline_map (k ++ (b':' ∷ x)) ≡ true
unfolding is_inline_map
is_inline_map-IsKey k x h =
    let (a, b, c, d) = unquoted k x h in rw (has_char-key k x, a, b, c, d) refl

strip-keyed :
    (k y : Text)
    → IsKey k
    → rstrip (b':' ∷ y) ≡ b':' ∷ y
    → strip (k ++ (b':' ∷ y)) ≡ k ++ (b':' ∷ y)
unfolding strip lstrip is_space
strip-keyed [] y h e = e
strip-keyed (c ∷ k) y h e = rw (key_char-parts c h.0).0 (rstrip-append (c ∷ k) (b':' ∷ y) refl e)

pub strip-entry_text :
    (k t : Text) {v : Value} → IsKey k → IsText v t → strip (entry_text k t) ≡ entry_text k t
strip-entry_text k t h w =
    strip-keyed k (b' ' ∷ t) h (rstrip-append (b':' ∷ b' ' ∷ []) t w.full w.tight)

pub strip-key_text : (k : Text) → IsKey k → strip (key_text k) ≡ key_text k
unfolding rstrip is_space
strip-key_text k h = strip-keyed k [] h refl

pub strip-IsText : (t : Text) {v : Value} → IsText v t → strip t ≡ t
unfolding strip
strip-IsText t w = rw w.bare w.tight

pub item_of-item_text : (u : Text) → strip u ≡ u → item_of (item_text u) ≡ u
unfolding item_of
item_of-item_text u h = h
