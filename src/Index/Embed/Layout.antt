-- ===== src/Index/Embed/Layout.antt =====
-- A Zig text with the arrays of all images: `embed_fixtures_zig`, then `check_embed`.
use gitz.Common.{
  ◌≡◌, ◌<◌, refl, sym, false, List, [], ◌∷◌, ◌++◌, Bytes, Text, codes, same_refl, none, some, All,
  append_assoc, ok, arith, ◌==◌,
}
use gitz.Common.Str.{literal}
use gitz.Index.Embed.{
  zig_byte_array, opening, extract_zig_raw, after_end, embed_all, embed_fixtures_zig, check_arrays,
  check_embed,
}
use gitz.Index.Embed.Printed.{IsPlain, zig_byte_array-IsPlain}
use gitz.Index.Embed.Rewrite.{IsFree, rewritten, embed_one-opening, extract_zig_raw-rewritten}

-- No opening begins in the text, whatever follows it.
abbrev pub NoStart : Text → Text → Type 0
NoStart start [] = Unit
NoStart start (c ∷ x) = ((r : Text) → literal start (c ∷ (x ++ r)) ≡ none) × NoStart start x

append-NoStart : (start x y : Text) → NoStart start x → NoStart start y → NoStart start (x ++ y)
append-NoStart start [] y h k = k
append-NoStart start (c ∷ x) y h k =
    (λ r. rw (append_assoc x y r) (h.0 (y ++ r)), append-NoStart start x y h.1 k)

NoStart-IsFree : (start x : Text) → NoStart start x → IsFree start x
NoStart-IsFree start [] h = tt
NoStart-IsFree start (c ∷ x) h = (h.0 start, NoStart-IsFree start x h.1)

NoO : Text → Type 0
NoO x = All (λ c. (c == b'o') ≡ false) x

IsPlain-NoO : (x : Text) → IsPlain x → NoO x
unfolding NoO
IsPlain-NoO [] h = tt
IsPlain-NoO (c ∷ x) h = (ground (arith, h.0), IsPlain-NoO x h.1)

append-NoO : (x y : Text) → NoO x → NoO y → NoO (x ++ y)
unfolding NoO
append-NoO [] y h k = k
append-NoO (c ∷ x) y h k = (h.0, append-NoO x y h.1 k)

-- A text without an `o`, up to a semicolon.
NoO-NoStart : (name x : Text) → NoO x → NoStart (opening name) (x ++ codes ";")
unfolding literal NoO
NoO-NoStart name [] h = (λ r. refl, tt)
NoO-NoStart name (c ∷ []) h = (λ r. ground arith, NoO-NoStart name [] tt)
NoO-NoStart name (c ∷ d ∷ x) h = (λ r. ground (arith, h.1.0), NoO-NoStart name (d ∷ x) h.1)

-- An array in a text: its name, the image it is for, what stands before it, and its lines so far.
pub record Slot : Type 0 where
  pub name : Text
  pub image : Bytes
  pub before : Text
  pub old : Text

abbrev pub images_of : List Slot → List (Text × Bytes)
images_of [] = []
images_of (s ∷ ss) = (s.name, s.image) ∷ images_of ss

-- The text with the arrays.
abbrev pub layout : List Slot → Text → Text
layout [] tail = tail
layout (s ∷ ss) tail =
    s.before ++ (opening s.name ++ (codes "\n" ++ (s.old ++ (codes "\n};" ++ layout ss tail))))

-- Nothing of the array or before it begins an opening of the name.
abbrev pub Avoids : Text → Slot → Type 0
Avoids name s = NoStart (opening name) s.before × NoStart (opening name) (opening s.name)

-- The image has bytes, its array ends behind its lines, and its opening does not begin before it.
abbrev pub IsSlot : Slot → Type 0
IsSlot s =
    All (λ b. b < 256) s.image
    × ((r : Text) → after_end (s.old ++ (codes "\n};" ++ r)) ≡ some r)
    × NoStart (opening s.name) s.before

abbrev pub AreSlots : List Slot → Type 0
AreSlots [] = Unit
AreSlots (s ∷ ss) = IsSlot s × All (λ t. Avoids t.name s) ss × AreSlots ss

-- The array behind its opening.
printed : Bytes → Text
printed bs = codes "\n" ++ (zig_byte_array bs ++ codes "\n};")

filled : Slot → Text
filled s = s.before ++ (opening s.name ++ printed s.image)

filled-NoStart :
    (name : Text) (s : Slot)
    → All (λ b. b < 256) s.image
    → Avoids name s
    → NoStart (opening name) (filled s)
unfolding filled printed
filled-NoStart name s h (a, b) =
    let body = zig_byte_array s.image in
    let plain : NoO (codes "\n" ++ (body ++ codes "\n}")) =
      unfold NoO in
      (
        refl,
        append-NoO body (codes "\n}") (IsPlain-NoO body (zig_byte_array-IsPlain s.image h))
            (refl, (refl, tt)),
      ) in
    let array : NoStart (opening name) (codes "\n" ++ (body ++ codes "\n};")) =
      rw (sym (append_assoc body (codes "\n}") (codes ";")))
        (NoO-NoStart name (codes "\n" ++ (body ++ codes "\n}")) plain) in
    append-NoStart (opening name) s.before
      (opening s.name ++ (codes "\n" ++ (body ++ codes "\n};"))) a
      (append-NoStart (opening name) (opening s.name) (codes "\n" ++ (body ++ codes "\n};")) b
        array)

-- Behind the filled array, what was rewritten goes on.
rewritten-filled :
    (done : Text) (s : Slot) (rest : Text)
    → (done ++ s.before) ++ rewritten (opening s.name) (zig_byte_array s.image) rest
      ≡ (done ++ filled s) ++ rest
unfolding rewritten filled printed
rewritten-filled done s rest =
    let body = zig_byte_array s.image in
    let start = opening s.name in
    rw
      (
        append_assoc done s.before
            (start ++ (codes "\n" ++ (body ++ (codes "\n" ++ (codes "};" ++ rest))))),
        append_assoc done (s.before ++ (start ++ (codes "\n" ++ (body ++ codes "\n};")))) rest,
        append_assoc s.before (start ++ (codes "\n" ++ (body ++ codes "\n};"))) rest,
        append_assoc start (codes "\n" ++ (body ++ codes "\n};")) rest,
        append_assoc body (codes "\n};") rest,
      )
      refl

next-NoStart :
    (done : Text) (s : Slot) (ss : List Slot)
    → All (λ b. b < 256) s.image
    → All (λ t. Avoids t.name s) ss
    → All (λ t. NoStart (opening t.name) done) ss
    → All (λ t. NoStart (opening t.name) (done ++ filled s)) ss
next-NoStart done s [] h a f = tt
next-NoStart done s (t ∷ ss) h a f = (
  append-NoStart (opening t.name) done (filled s) f.0 (filled-NoStart t.name s h a.0),
  next-NoStart done s ss h a.1 f.1,
)

-- Every array is found in the text with its image.
Extracted : Text → List Slot → Type 0
Extracted text [] = Unit
Extracted text (s ∷ ss) = (extract_zig_raw text s.name ≡ ok s.image) × Extracted text ss

embed_all-layout :
    (slots : List Slot) (tail done : Text)
    → AreSlots slots
    → All (λ t. NoStart (opening t.name) done) slots
    → (rest : Text) × (embed_all (images_of slots) (done ++ layout slots tail) ≡ ok (done ++ rest))
      × Extracted (done ++ rest) slots
unfolding embed_all Extracted
embed_all-layout [] tail done h f = (tail, refl, tt)
embed_all-layout (s ∷ ss) tail done ((bytes, ends, starts), avoids, h) f =
    let before = done ++ s.before in
    let inner = s.old ++ (codes "\n};" ++ layout ss tail) in
    let free =
      NoStart-IsFree (opening s.name) before
        (append-NoStart (opening s.name) done s.before f.0 starts) in
    let one = embed_one-opening s.name s.image before inner free (ends (layout ss tail)) in
    let (rest, e, got) =
      embed_all-layout ss tail (done ++ filled s) h (next-NoStart done s ss bytes avoids f.1) in
    let here = extract_zig_raw-rewritten s.name s.image before rest bytes free in
    (
      filled s ++ rest,
      rw
          (
            sym (append_assoc done s.before (opening s.name ++ (codes "\n" ++ inner))),
            one,
            rewritten-filled done s (layout ss tail),
            e,
            append_assoc done (filled s) rest,
          )
          refl,
      (
        rw (rewritten-filled done s rest, append_assoc done (filled s) rest) at here,
        rw (append_assoc done (filled s) rest) at got,
      ),
    )

check_arrays-Extracted :
    (text : Text) (slots : List Slot)
    → Extracted text slots
    → check_arrays text (images_of slots) ≡ ok tt
unfolding check_arrays Extracted
check_arrays-Extracted text [] h = refl
check_arrays-Extracted text (s ∷ ss) h =
    rw (h.0, same_refl s.image, check_arrays-Extracted text ss h.1) refl

-- If a text holds the arrays of the images in their order, each ends behind its lines, no opening of
-- an array begins elsewhere before it, and the images have bytes, then `embed_fixtures_zig` returns a
-- text, and `check_embed` accepts that text.
pub check_embed-embed_fixtures_zig :
    (slots : List Slot) (tail : Text)
    → AreSlots slots
    → (text : Text) × (embed_fixtures_zig (some (layout slots tail)) (images_of slots) ≡ ok text)
      × (check_embed (some text) (images_of slots) ≡ ok tt)
unfolding embed_fixtures_zig check_embed
check_embed-embed_fixtures_zig slots tail h =
    let (text, e, got) = embed_all-layout slots tail [] h (nowhere slots) in
    (text, e, check_arrays-Extracted text slots got)
  where
    nowhere : (ss : List Slot) → All (λ t. NoStart (opening t.name) []) ss
    nowhere [] = tt
    nowhere (s ∷ ss) = (tt, nowhere ss)
