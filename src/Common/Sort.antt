-- ===== src/Common/Sort.antt =====
-- Python's `sorted` on texts and byte strings: a stable sort by the lexicographic order.
use Prim.Native.Nat.{suc}
use mathlib.Core.Path.{◌≡◌, refl, ap, ◌∙◌}
use native.Mathlib.Omega.{arith}
use gitz.Common.Lists.{length}
use mathlib.Core.Bool.{Bool, true, false}
use mathlib.Core.List.{List, [], ◌∷◌}
use gitz.Common.Tests.{ltb, ◌==◌, if◌then◌else◌}
use gitz.Common.Texts.{Text}

-- `a <= b`
abbrev pub text_leb : Text → Text → Bool
text_leb [] b = true
text_leb (x ∷ a) [] = false
text_leb (x ∷ a) (y ∷ b) = if x == y then text_leb a b else ltb x y

unfoldable pub insert_sorted : Text → List Text → List Text
insert_sorted a [] = a ∷ []
insert_sorted a (b ∷ bs) = if text_leb a b then a ∷ b ∷ bs else b ∷ insert_sorted a bs

unfoldable pub sorted : List Text → List Text
unfolding insert_sorted
sorted [] = []
sorted (a ∷ bs) = insert_sorted a (sorted bs)

length-insert_sorted : (a : Text) (bs : List Text) → length (insert_sorted a bs) ≡ suc (length bs)
unfolding insert_sorted
length-insert_sorted a [] = refl
length-insert_sorted a (b ∷ bs) = ground (arith, length-insert_sorted a bs)

pub length-sorted : (bs : List Text) → length (sorted bs) ≡ length bs
unfolding sorted
length-sorted [] = refl
length-sorted (b ∷ bs) = length-insert_sorted b (sorted bs) ∙ ap suc (length-sorted bs)
