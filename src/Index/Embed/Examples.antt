-- ===== src/Index/Embed/Examples.antt =====
-- A Zig text with one array.
use gitz.Common.{ℕ, ◌≡◌, ◌<◌, refl, [], ◌∷◌, ◌++◌, Text, codes, some, ok, All, arith}
use gitz.Index.Embed.{
  opening, embed_one, extract_zig_raw, after_end, embed_fixtures_zig, check_embed,
}
use gitz.Index.Embed.Layout.{
  Slot, layout, images_of, Avoids, AreSlots, check_embed-embed_fixtures_zig,
}
use gitz.Index.Embed.Rewrite.{embed-extract, IsFree}

abbrev before : Text
before = codes "// c\n"

abbrev inner : Text
inner = codes "    0x00,\n};\n\nconst b = 1;\n"

before-IsFree : IsFree (opening (codes "a")) before
unfolding gitz.Common.Str.literal
before-IsFree = (refl, (refl, (refl, (refl, (refl, tt)))))

inner_ended : after_end inner ≡ some (codes "\n\nconst b = 1;\n")
unfolding after_end gitz.Common.Str.literal
inner_ended = refl

embed-extract_example :
    (text : Text) × (embed_one
        (codes "a")
        (1 ∷ 255 ∷ [])
        (before ++ (opening (codes "a") ++ (codes "\n" ++ inner)))
      ≡ ok text)
    × (extract_zig_raw text (codes "a") ≡ ok (1 ∷ 255 ∷ []))
embed-extract_example =
    embed-extract (codes "a") (1 ∷ 255 ∷ []) before inner (omega arith, (omega arith, tt))
      before-IsFree inner_ended

abbrev first_slot : Slot
first_slot = record {
  name = codes "a";
  image = 1 ∷ 255 ∷ [];
  before = codes "//\n";
  old = codes " 0x00,";
}

abbrev second_slot : Slot
second_slot = record { name = codes "b"; image = 7 ∷ []; before = codes "\n"; old = [] }

first_avoided : Avoids (codes "b") first_slot
unfolding gitz.Common.Str.literal
first_avoided = (
  (λ r. refl, (λ r. refl, (λ r. refl, tt))),
  (
    λ r. refl,
    (
      λ r. refl,
      (
        λ r. refl,
        (
          λ r. refl,
          (
            λ r. refl,
            (
              λ r. refl,
              (
                λ r. refl,
                (
                  λ r. refl,
                  (
                    λ r. refl,
                    (
                      λ r. refl,
                      (
                        λ r. refl,
                        (
                          λ r. refl,
                          (
                            λ r. refl,
                            (
                              λ r. refl,
                              (
                                λ r. refl,
                                (λ r. refl, (λ r. refl, (λ r. refl, (λ r. refl, (λ r. refl, tt))))),
                              ),
                            ),
                          ),
                        ),
                      ),
                    ),
                  ),
                ),
              ),
            ),
          ),
        ),
      ),
    ),
  ),
)

slots : AreSlots (first_slot ∷ second_slot ∷ [])
unfolding after_end gitz.Common.Str.literal
slots = (
  ((omega arith, (omega arith, tt)), λ r. refl, (λ r. refl, (λ r. refl, (λ r. refl, tt)))),
  (first_avoided, tt),
  (((omega arith, tt), λ r. refl, (λ r. refl, tt)), tt, tt),
)

check_embed-embed_fixtures_zig_example :
    (text : Text) × (embed_fixtures_zig
        (some (layout (first_slot ∷ second_slot ∷ []) (codes "\n")))
        (images_of (first_slot ∷ second_slot ∷ []))
      ≡ ok text)
    × (check_embed (some text) (images_of (first_slot ∷ second_slot ∷ [])) ≡ ok tt)
check_embed-embed_fixtures_zig_example =
    check_embed-embed_fixtures_zig (first_slot ∷ second_slot ∷ []) (codes "\n") slots
