-- ===== src/Index/Main/Examples.antt =====
-- A run of the generator that embeds its images into a text with three empty arrays.
use gitz.Common.{
  ℕ, zero, suc, ◌≡◌, ◌<◌, refl, false, List, [], ◌∷◌, Bytes, Text, codes, same, replicate, none,
  some, All, ok, if◌then◌else◌, arith,
}
use gitz.Index.Directory.Generated.{v2, v3, v4, images, build_all-images, images-AreBytes}
use gitz.Index.Embed.{after_end}
use gitz.Index.Embed.Layout.{Slot, layout, images_of, Avoids, AreSlots}
use gitz.Index.Image.{build_all, finish, v2_simple, v3_intent, v4_prefix}
use gitz.Index.Main.{World, done, main}
use gitz.Index.Main.Rerun.{only_embed, only_check_embed, main-only_embed}

-- A digest of 20 bytes.
abbrev sevens : Bytes → Bytes
sevens b = replicate 20 7

seven_bytes : (n : ℕ) → All (λ c. c < 256) (replicate n 7)
seven_bytes zero = tt
seven_bytes (suc n) = (omega arith, seven_bytes n)

abbrev empty_slot : Text → Bytes → Slot
empty_slot name image = record { name = name; image = image; before = codes "\n"; old = [] }

abbrev slots : List Slot
slots =
    empty_slot v2_simple (finish sevens v2)
    ∷ empty_slot v3_intent (finish sevens v3)
    ∷ empty_slot v4_prefix (finish sevens v4)
    ∷ []

slots_built : build_all sevens ≡ ok (images_of slots)
unfolding images
slots_built = build_all-images sevens

v3-Avoids : (image : Bytes) → Avoids v3_intent (empty_slot v2_simple image)
unfolding gitz.Common.Str.literal
v3-Avoids image = (
  (λ r. refl, tt),
  (
    λ r. refl,
    (
      λ r. refl,
      (
        λ r. refl,
        (
          λ r. refl,
          (
            λ r. refl,
            (
              λ r. refl,
              (
                λ r. refl,
                (
                  λ r. refl,
                  (
                    λ r. refl,
                    (
                      λ r. refl,
                      (
                        λ r. refl,
                        (
                          λ r. refl,
                          (
                            λ r. refl,
                            (
                              λ r. refl,
                              (
                                λ r. refl,
                                (
                                  λ r. refl,
                                  (
                                    λ r. refl,
                                    (
                                      λ r. refl,
                                      (
                                        λ r. refl,
                                        (
                                          λ r. refl,
                                          (
                                            λ r. refl,
                                            (
                                              λ r. refl,
                                              (
                                                λ r. refl,
                                                (
                                                  λ r. refl,
                                                  (
                                                    λ r. refl,
                                                    (λ r. refl, (λ r. refl, (λ r. refl, tt))),
                                                  ),
                                                ),
                                              ),
                                            ),
                                          ),
                                        ),
                                      ),
                                    ),
                                  ),
                                ),
                              ),
                            ),
                          ),
                        ),
                      ),
                    ),
                  ),
                ),
              ),
            ),
          ),
        ),
      ),
    ),
  ),
)

v4-Avoids : (image : Bytes) → Avoids v4_prefix (empty_slot v2_simple image)
unfolding gitz.Common.Str.literal
v4-Avoids image = (
  (λ r. refl, tt),
  (
    λ r. refl,
    (
      λ r. refl,
      (
        λ r. refl,
        (
          λ r. refl,
          (
            λ r. refl,
            (
              λ r. refl,
              (
                λ r. refl,
                (
                  λ r. refl,
                  (
                    λ r. refl,
                    (
                      λ r. refl,
                      (
                        λ r. refl,
                        (
                          λ r. refl,
                          (
                            λ r. refl,
                            (
                              λ r. refl,
                              (
                                λ r. refl,
                                (
                                  λ r. refl,
                                  (
                                    λ r. refl,
                                    (
                                      λ r. refl,
                                      (
                                        λ r. refl,
                                        (
                                          λ r. refl,
                                          (
                                            λ r. refl,
                                            (
                                              λ r. refl,
                                              (
                                                λ r. refl,
                                                (
                                                  λ r. refl,
                                                  (
                                                    λ r. refl,
                                                    (λ r. refl, (λ r. refl, (λ r. refl, tt))),
                                                  ),
                                                ),
                                              ),
                                            ),
                                          ),
                                        ),
                                      ),
                                    ),
                                  ),
                                ),
                              ),
                            ),
                          ),
                        ),
                      ),
                    ),
                  ),
                ),
              ),
            ),
          ),
        ),
      ),
    ),
  ),
)

v4-v3_Avoids : (image : Bytes) → Avoids v4_prefix (empty_slot v3_intent image)
unfolding gitz.Common.Str.literal
v4-v3_Avoids image = (
  (λ r. refl, tt),
  (
    λ r. refl,
    (
      λ r. refl,
      (
        λ r. refl,
        (
          λ r. refl,
          (
            λ r. refl,
            (
              λ r. refl,
              (
                λ r. refl,
                (
                  λ r. refl,
                  (
                    λ r. refl,
                    (
                      λ r. refl,
                      (
                        λ r. refl,
                        (
                          λ r. refl,
                          (
                            λ r. refl,
                            (
                              λ r. refl,
                              (
                                λ r. refl,
                                (
                                  λ r. refl,
                                  (
                                    λ r. refl,
                                    (
                                      λ r. refl,
                                      (
                                        λ r. refl,
                                        (
                                          λ r. refl,
                                          (
                                            λ r. refl,
                                            (
                                              λ r. refl,
                                              (
                                                λ r. refl,
                                                (
                                                  λ r. refl,
                                                  (
                                                    λ r. refl,
                                                    (λ r. refl, (λ r. refl, (λ r. refl, tt))),
                                                  ),
                                                ),
                                              ),
                                            ),
                                          ),
                                        ),
                                      ),
                                    ),
                                  ),
                                ),
                              ),
                            ),
                          ),
                        ),
                      ),
                    ),
                  ),
                ),
              ),
            ),
          ),
        ),
      ),
    ),
  ),
)

slots-AreSlots : AreSlots slots
unfolding after_end gitz.Common.Str.literal
slots-AreSlots =
    let (a, b, c, d) = images-AreBytes sevens (λ b. refl) (λ b. seven_bytes 20) in
    (
      (a, λ r. refl, (λ r. refl, tt)),
      (v3-Avoids (finish sevens v2), (v4-Avoids (finish sevens v2), tt)),
      (
        (b, λ r. refl, (λ r. refl, tt)),
        (v4-v3_Avoids (finish sevens v3), tt),
        ((c, λ r. refl, (λ r. refl, tt)), tt, tt),
      ),
    )

abbrev before_run : World
before_run = record {
  parents = λ p. [];
  dirs = λ p. none;
  texts = λ p. if same p (codes "z") then some (layout slots (codes "\n")) else none;
}

main-only_embed_example :
    (w' : World) × (main sevens (only_embed (codes "z")) before_run ≡ ok (done w'))
    × (main sevens (only_check_embed (codes "z")) w' ≡ ok (done w'))
    × (w'.dirs ≡ before_run.dirs)
    × ((p : Text) → same (codes "z") p ≡ false → w'.texts p ≡ before_run.texts p)
main-only_embed_example =
    main-only_embed sevens before_run (codes "z") slots (codes "\n") slots_built slots-AreSlots refl
