-- ===== src/Index/Main.antt =====
-- `main` of tools/gen_index_fixtures.py behind its argument parser. A path names a directory or a
-- text; the files of a directory are kept with it.
pub mod Rerun
mod Examples
use gitz.Common.{
  ◌≡◌, Bool, true, false, List, [], ◌∷◌, ◌++◌, Text, Bytes, codes, same, one_of, Option, none, some,
  if◌then◌else◌, Result, ok, err, ◌>>=◌, ◌>>◌, ◌||◌,
}
use gitz.Index.{StructError}
use gitz.Index.Directory.{Exit, Dir, read_file, write_outdir, check_dir}
use gitz.Index.Embed.{embed_fixtures_zig, check_embed}
use gitz.Index.Hex.{hex}
use gitz.Index.Image.{build_all, v2_simple, v3_intent, v4_prefix}

-- What is on the disk, and the parents of a path, outermost first, as `pathlib` has them.
pub record World : Type 0 where
  pub parents : Text → List Text
  pub dirs : Text → Option Dir
  pub texts : Text → Option Text

pub record Args : Type 0 where
  pub print : Option Text
  pub outdir : Option Text
  pub check : Option Text
  pub check_embed : Option Text
  pub embed : Option Text

-- A run that does not return 0: `parser.error`, a `SystemExit` of a step, a `struct.error`, or the
-- `FileExistsError` or `NotADirectoryError` of a directory to be made where a file is.
pub data Stop : Type 0 where
  not_a_directory : Text → Stop
  usage : Stop
  exit : Exit → Stop
  struct_error : StructError → Stop

-- What a run that returns 0 has written: to stdout, or to the disk.
pub data Outcome : Type 0 where
  printed : Text → Outcome
  done : World → Outcome

abbrev pub or_exit {ℓ} : {A : Type ℓ} → Result Exit A → Result Stop A
or_exit (ok a) = ok a
or_exit (err e) = err (exit e)

abbrev pub or_struct_error {ℓ} : {A : Type ℓ} → Result StructError A → Result Stop A
or_struct_error (ok a) = ok a
or_struct_error (err e) = err (struct_error e)

abbrev pub set_dir : Text → Dir → World → World
set_dir path d w = record w { dirs = λ p. if same path p then some d else w.dirs p }

abbrev pub set_text : Text → Text → World → World
set_text path t w = record w { texts = λ p. if same path p then some t else w.texts p }

-- A directory that is there, or is made without files.
abbrev pub made_dir : Option Dir → Dir
made_dir none = []
made_dir (some d) = d

-- One directory of `mkdir`, with the directory and the text that are at its path.
abbrev pub make_missing : Text → World → Option Dir → Option Text → Result Stop World
make_missing path w (some d) t = ok w
make_missing path w none (some t) = err (not_a_directory path)
make_missing path w none none = ok (set_dir path [] w)

abbrev pub make_dir : Text → World → Result Stop World
make_dir path w = make_missing path w (w.dirs path) (w.texts path)

abbrev pub make_dirs : List Text → World → Result Stop World
make_dirs [] w = ok w
make_dirs (path ∷ paths) w = do w1 ← make_dir path w; make_dirs paths w1

-- `outdir.mkdir(parents=True, exist_ok=True)`
abbrev pub mkdir : Text → World → Result Stop World
mkdir path w = make_dirs (w.parents path ++ (path ∷ [])) w

abbrev pub is_given : Option Text → Bool
is_given none = false
is_given (some p) = true

abbrev pub synthetic_names : List Text
synthetic_names = v2_simple ∷ v3_intent ∷ v4_prefix ∷ []

abbrev pub check_step : Option Text → List (Text × Bytes) → World → Result Stop (Unit {0})
check_step none images w = ok tt
check_step (some path) images w = or_exit (check_dir (w.dirs path) images)

abbrev pub check_embed_step : Option Text → List (Text × Bytes) → World → Result Stop (Unit {0})
check_embed_step none images w = ok tt
check_embed_step (some path) images w = or_exit (check_embed (w.texts path) images)

abbrev pub embed_step : Option Text → List (Text × Bytes) → World → Result Stop World
embed_step none images w = ok w
embed_step (some path) images w = do
  t ← or_exit (embed_fixtures_zig (w.texts path) images)
  ok (set_text path t w)

-- `did`
abbrev pub did : Args → Bool
did a = is_given a.outdir || (is_given a.check || (is_given a.check_embed || is_given a.embed))

abbrev pub print_hex : Option Bytes → Result Stop Outcome
print_hex none = err usage
print_hex (some bs) = ok (printed (hex bs))

module _ (sha1 : Bytes → Bytes) where
  abbrev pub outdir_step : Option Text → List (Text × Bytes) → World → Result Stop World
  outdir_step none images w = ok w
  outdir_step (some path) images w = do
    w1 ← mkdir path w
    d ← or_exit (write_outdir sha1 images (made_dir (w1.dirs path)))
    ok (set_dir path d w1)

  -- The steps, in the order of the code.
  unfoldable pub steps : Args → List (Text × Bytes) → World → Result Stop Outcome
  steps a images w = do
    w1 ← outdir_step a.outdir images w
    check_step a.check images w1
    check_embed_step a.check_embed images w1
    w2 ← embed_step a.embed images w1
    if did a then ok (done w2) else err usage

  -- `--print` takes only the synthetic names.
  unfoldable pub print_or_steps :
      Option Text → Args → List (Text × Bytes) → World → Result Stop Outcome
  unfolding steps
  print_or_steps none a images w = steps a images w
  print_or_steps (some name) a images w = print_hex (read_file name images)

  abbrev pub is_choice : Option Text → Bool
  is_choice none = true
  is_choice (some name) = one_of name synthetic_names

  unfoldable pub main : Args → World → Result Stop Outcome
  unfolding print_or_steps
  main a w =
      let run = or_struct_error (build_all sha1) >>= λ images. print_or_steps a.print a images w in
      if is_choice a.print then run else err usage
