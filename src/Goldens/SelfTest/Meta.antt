-- ===== src/Goldens/SelfTest/Meta.antt =====
-- The meta file that `_write_case` writes, as the loader reads it.
use gitz.Common.{
  ◌==◌, ◌≡◌, refl, ap, ◌∙◌, sym, ◌&&◌, ◌||◌, not, Bool, true, false, List, [], ◌∷◌, ◌++◌, Text,
  codes, same, same_refl, All, all, ltb, ℕ, arith, if◌then◌else◌, Option, some, none, Result, ok,
  err, ◌>>=◌,
}
use gitz.Common.Str.{is_empty, is_line_end, has_char, has_char-append}
use gitz.Yaml.{Fields, str, dict, end, field}
use gitz.Yaml.Clean.{Line, clean}
use gitz.Yaml.Block.{load, load_lines, finish}
use gitz.Yaml.Block.Print.{entry_text, key_char, IsKey, print_lines}
use gitz.Yaml.Block.Print.Inline.{entry_text-IsInline}
use gitz.Yaml.Block.Print.Cleaned.{clean_lines-print_lines}
use gitz.Yaml.Block.Print.Steps
use gitz.Goldens.SelfTest.{meta_text}
use gitz.Goldens.SelfTest.Words.{IsWord, IsWord-IsText, IsWord-IsInline, IsWord-ascii}

abbrev meta_lines : Text → Text → Text → Text → List Line
meta_lines n t a e =
    (0, entry_text (codes "name") n)
    ∷ (0, entry_text (codes "type") t)
    ∷ (0, entry_text (codes "actual") a)
    ∷ (0, entry_text (codes "expected") e)
    ∷ []

abbrev pub meta_fields : Text → Text → Text → Text → Fields
meta_fields n t a e = field (codes "name") (str n) (
    field (codes "type") (str t)
      (field (codes "actual") (str a) (field (codes "expected") (str e) end)))

meta_keys-IsKey :
    IsKey (codes "name") × IsKey (codes "type") × IsKey (codes "actual") × IsKey (codes "expected")
unfolding key_char gitz.Common.Str.is_space
meta_keys-IsKey = (
  (refl, (refl, (refl, (refl, tt)))),
  (refl, (refl, (refl, (refl, tt)))),
  (refl, (refl, (refl, (refl, (refl, (refl, tt)))))),
  (refl, (refl, (refl, (refl, (refl, (refl, (refl, (refl, tt)))))))),
)

load_lines-meta_lines :
    (n t a e : Text)
    → IsWord n
    → IsWord t
    → IsWord a
    → IsWord e
    → load_lines (meta_lines n t a e) ≡ ok (dict (meta_fields n t a e))
unfolding load_lines finish gitz.Yaml.put
load_lines-meta_lines n t a e hn ht ha he =
    let (k1, k2, k3, k4) = meta_keys-IsKey in
    rw
      (
        Steps.parse_block-key 19 0 (codes "name") (b' ' ∷ n) _ k1,
        Steps.parse_map-entry_text 18 0 end (codes "name") n _ k1 (IsWord-IsText n hn),
        Steps.parse_map-entry_text 17 0 _ (codes "type") t _ k2 (IsWord-IsText t ht),
        Steps.parse_map-entry_text 16 0 _ (codes "actual") a _ k3 (IsWord-IsText a ha),
        Steps.parse_map-entry_text 15 0 _ (codes "expected") e [] k4 (IsWord-IsText e he),
        Steps.parse_map-Below 14 0 _ [] tt,
      )
      refl

pub load-meta_text :
    (n t a e : Text)
    → IsWord n
    → IsWord t
    → IsWord a
    → IsWord e
    → load (meta_text n t a e) ≡ ok (dict (meta_fields n t a e))
unfolding load clean print_lines
load-meta_text n t a e hn ht ha he =
    let (k1, k2, k3, k4) = meta_keys-IsKey in
    let cleaned = clean_lines-print_lines 1 (meta_lines n t a e) (
      entry_text-IsInline (codes "name") n k1 (IsWord-IsInline n hn),
      (
        entry_text-IsInline (codes "type") t k2 (IsWord-IsInline t ht),
        (
          entry_text-IsInline (codes "actual") a k3 (IsWord-IsInline a ha),
          (entry_text-IsInline (codes "expected") e k4 (IsWord-IsInline e he), tt),
        ),
      ),
    ) in
    rw cleaned (load_lines-meta_lines n t a e hn ht ha he)

-- The meta file is in ASCII and has no carriage return.
all_in-append : (f : ℕ → Bool) (s t : Text) → all f s ≡ true → all f (s ++ t) ≡ all f t
all_in-append f [] t h = refl
all_in-append f (c ∷ s) t h = ground (arith, all_in-append f s t (ground arith))

pub meta_text-ascii :
    (n t a e : Text)
    → IsWord n
    → IsWord t
    → IsWord a
    → IsWord e
    → all (λ c. ltb c 128) (meta_text n t a e) ≡ true
meta_text-ascii n t a e hn ht ha he =
    rw
      (
        all_in-append (λ c. ltb c 128) n _ (IsWord-ascii n hn),
        all_in-append (λ c. ltb c 128) t _ (IsWord-ascii t ht),
        all_in-append (λ c. ltb c 128) a _ (IsWord-ascii a ha),
        all_in-append (λ c. ltb c 128) e _ (IsWord-ascii e he),
      )
      refl

pub meta_text-no_return :
    (n t a e : Text)
    → IsWord n
    → IsWord t
    → IsWord a
    → IsWord e
    → has_char b'\r' (meta_text n t a e) ≡ false
unfolding has_char
meta_text-no_return n t a e hn ht ha he =
    rw
      (
        has_char-append n _ (IsWord-IsInline n hn).one_line,
        has_char-append t _ (IsWord-IsInline t ht).one_line,
        has_char-append a _ (IsWord-IsInline a ha).one_line,
        has_char-append e _ (IsWord-IsInline e he).one_line,
      )
      refl
