-- ===== src/Index/Main/Rerun.antt =====
-- Runs of the generator that write a directory and check it.
use gitz.Common.{
  ◌≡◌, ◌<◌, Bool, refl, ap, sym, ◌∙◌, false, true, ◌||◌, if◌then◌else◌, [], ◌∷◌, ◌++◌, Option,
  one_of, same_iff, Bool-cases, Option-cases, inl, inr, arith, List, Text, Bytes, same, same_refl,
  none, some, All, length, ok,
}
use gitz.Index.Directory.Generated.{build-write-check}
use gitz.Index.Embed.Layout.{Slot, layout, images_of, AreSlots, check_embed-embed_fixtures_zig}
use gitz.Index.Image.{build_all}
use gitz.Index.Directory.{Dir}
use gitz.Index.Main.{
  set_text, World, Args, done, main, steps, made_dir, set_dir, make_dir, make_dirs,
}

-- `--outdir path --check path`
abbrev pub write_and_check : Text → Args
write_and_check path = record {
  print = none;
  outdir = some path;
  check = some path;
  check_embed = none;
  embed = none;
}

-- `--check path`
abbrev pub only_check : Text → Args
only_check path = record {
  print = none;
  outdir = none;
  check = some path;
  check_embed = none;
  embed = none;
}

-- `--embed path`
abbrev pub only_embed : Text → Args
only_embed path = record {
  print = none;
  outdir = none;
  check = none;
  check_embed = none;
  embed = some path;
}

-- `--check-embed path`
abbrev pub only_check_embed : Text → Args
only_check_embed path = record {
  print = none;
  outdir = none;
  check = none;
  check_embed = some path;
  embed = none;
}

-- If the text at the path holds the arrays of the generated images in their order, each ends behind
-- its lines, no opening of an array begins elsewhere before it, and the images have bytes, then a run
-- with `--embed` returns 0 and changes only that text, and a later run with `--check-embed` returns 0
-- and changes nothing.
pub main-only_embed :
    (sha1 : Bytes → Bytes) (w : World) (path : Text) (slots : List Slot) (tail : Text)
    → build_all sha1 ≡ ok (images_of slots)
    → AreSlots slots
    → w.texts path ≡ some (layout slots tail)
    → (w' : World) × (main sha1 (only_embed path) w ≡ ok (done w'))
      × (main sha1 (only_check_embed path) w' ≡ ok (done w'))
      × (w'.dirs ≡ w.dirs)
      × ((p : Text) → same path p ≡ false → w'.texts p ≡ w.texts p)
unfolding main steps
main-only_embed sha1 w path slots tail built h e =
    let (text, embedded, checked) = check_embed-embed_fixtures_zig slots tail h in
    (
      set_text path text w,
      rw (built, e, embedded) refl,
      rw (built, same_refl path, checked) refl,
      refl,
      λ p other. rw other refl,
    )

-- The directories that `make_dirs` leaves: those of the list are there, with their files.
record IsMade (paths : List Text) (w w1 : World) : Type 0 where
  dirs_made :
      (p : Text) → w1.dirs p ≡ (if one_of p paths then some (made_dir (w.dirs p)) else w.dirs p)
  texts_kept : w1.texts ≡ w.texts

same_sym : (p q : Text) → same p q ≡ same q p
same_sym p q = ground (arith, same_iff p q, same_iff q p)

record_head : (path p : Text) (w : World) → same path p ≡ true → w.dirs p ≡ w.dirs path
record_head path p w e = ap w.dirs (sym ((same_iff path p).0 e))

make_dir-IsMade :
    (path : Text) (w : World)
    → w.texts path ≡ none
    → (w1 : World) × (make_dir path w ≡ ok w1) × IsMade (path ∷ []) w w1
make_dir-IsMade path w free = elim (Option-cases (w.dirs path)) [
  | inl e ↦ (
    set_dir path [] w,
    rw (e, free) refl,
    record {
      dirs_made = λ p. elim (Bool-cases (same path p)) [
        | inl here ↦ rw (here, same_sym p path, here, record_head path p w here, e) refl
        | inr away ↦ rw (away, same_sym p path, away) refl
      ];
      texts_kept = refl;
    },
  )
  | inr (d, e) ↦ (
    w,
    rw e refl,
    record {
      dirs_made = λ p. elim (Bool-cases (same path p)) [
        | inl here ↦ rw (same_sym p path, here, record_head path p w here, e) refl
        | inr away ↦ rw (same_sym p path, away) refl
      ];
      texts_kept = refl;
    },
  )
]

-- No path of the list has a text.
abbrev pub AreFree : World → List Text → Type 0
AreFree w paths = All (λ p. w.texts p ≡ none) paths

AreFree-kept :
    (w w1 : World) (paths : List Text) → w1.texts ≡ w.texts → AreFree w paths → AreFree w1 paths
AreFree-kept w w1 [] e h = tt
AreFree-kept w w1 (p ∷ ps) e h = (ap (λ t. t p) e ∙ h.0, AreFree-kept w w1 ps e h.1)

made_both :
    (a b : Bool) (o : Option Dir)
    → (if b
        then some (made_dir (if a || false then some (made_dir o) else o))
        else if a || false
        then some (made_dir o)
        else o)
      ≡ (if a || b then some (made_dir o) else o)
made_both true true o = refl
made_both true false o = refl
made_both false true o = refl
made_both false false o = refl

make_dirs-IsMade :
    (paths : List Text) (w : World)
    → AreFree w paths
    → (w1 : World) × (make_dirs paths w ≡ ok w1) × IsMade paths w w1
make_dirs-IsMade [] w free = (w, refl, record { dirs_made = λ p. refl; texts_kept = refl })
make_dirs-IsMade (path ∷ paths) w free =
    let (w1, first, one) = make_dir-IsMade path w free.0 in
    let (w2, rest, more) =
      make_dirs-IsMade paths w1 (AreFree-kept w w1 paths one.texts_kept free.1) in
    (
      w2,
      rw (first, rest) refl,
      record {
        dirs_made = λ p.
            more.dirs_made p
            ∙ rw (one.dirs_made p) (made_both (same p path) (one_of p paths) (w.dirs p));
        texts_kept = more.texts_kept ∙ one.texts_kept;
      },
    )

module _ (sha1 : Bytes → Bytes) (len : (b : Bytes) → length (sha1 b) ≡ 20)
    (digest : (b : Bytes) → All (λ c. c < 256) (sha1 b)) where
  -- With any digest of 20 bytes, from a world with no text at the path or at one of its parents, a
  -- run that writes a directory and checks it returns 0, and a later run that only checks it returns
  -- 0 and changes nothing. Of the other directories, the parents that are missing are made, without
  -- files, and every other is as it was, and no text is changed.
  pub main-write_and_check :
      (w : World) (path : Text)
      → AreFree w (w.parents path ++ (path ∷ []))
      → (w' : World) × (main sha1 (write_and_check path) w ≡ ok (done w'))
        × (main sha1 (only_check path) w' ≡ ok (done w'))
        × ((p : Text)
            → same path p ≡ false
            → w'.dirs p ≡ (
                if one_of p (w.parents path ++ (path ∷ []))
                then some (made_dir (w.dirs p))
                else w.dirs p))
        × (w'.texts ≡ w.texts)
  unfolding main steps
  main-write_and_check w path free =
      let (w1, making, made) = make_dirs-IsMade (w.parents path ++ (path ∷ [])) w free in
      let (images, d', built, written, checked) =
        build-write-check sha1 len digest (made_dir (w1.dirs path)) in
      (
        set_dir path d' w1,
        rw (built, making, written, same_refl path, checked) refl,
        rw (built, same_refl path, checked) refl,
        λ p other. rw other (made.dirs_made p),
        made.texts_kept,
      )
