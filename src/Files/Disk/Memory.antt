-- ===== src/Files/Disk/Memory.antt =====
-- A disk for tests: the directories in the order in which they were made, and the files with what
-- they hold, the latest first.
use gitz.Common.{
  refl, ◌≡◌, ◌∙◌, ◌==◌, Bool, true, false, not, ◌||◌, ◌&&◌, List, [], ◌∷◌, ◌++◌, Text, same,
  same_refl, one_of, Option, none, some, if◌then◌else◌,
}
use gitz.Common.Str.{starts_with, is_empty}
use gitz.Files.Paths.{same-append}
use gitz.Files.{Files, dirname, basename}
use gitz.Files.Disk.{Disk, IsDisk}

pub record Memory : Type 0 where
  pub dirs : List Text
  pub files : List (Text × Text)

abbrev pub find : List (Text × Text) → Text → Option Text
find [] p = none
find ((q, t) ∷ fs) p = if same p q then some t else find fs p

abbrev has : List (Text × Text) → Text → Bool
has [] p = false
has ((q, t) ∷ fs) p = if same p q then true else has fs p

-- `p` or a path below it.
abbrev is_under : Text → Text → Bool
is_under p q = same q p || starts_with q (p ++ (b'/' ∷ []))

-- The files below a directory, each once.
abbrev names_in : Text → List (Text × Text) → List Text
names_in d [] = []
names_in d ((q, t) ∷ fs) =
    let rest = names_in d fs in
    if same (dirname q) d && not (one_of (basename q) rest) then basename q ∷ rest else rest

abbrev dirs_in : Text → List Text → List Text
dirs_in d [] = []
dirs_in d (q ∷ qs) =
    let rest = dirs_in d qs in if same (dirname q) d then basename q ∷ rest else rest

abbrev walk_from : Text → List (Text × Text) → List Text → List (Text × List Text)
walk_from root files [] = []
walk_from root files (d ∷ ds) =
    let rest = walk_from root files ds in
    if is_under root d then (d, names_in d files) ∷ rest else rest

abbrev keep_dirs : Text → List Text → List Text
keep_dirs p [] = []
keep_dirs p (d ∷ ds) = let rest = keep_dirs p ds in if is_under p d then rest else d ∷ rest

abbrev keep_files : Text → List (Text × Text) → List (Text × Text)
keep_files p [] = []
keep_files p ((q, t) ∷ fs) =
    let rest = keep_files p fs in if is_under p q then rest else (q, t) ∷ rest

-- The directories on the way to a path, and the path.
abbrev prefixes : Text → Text → List Text
prefixes cur [] = cur ∷ []
prefixes cur (c ∷ s) =
    let rest = prefixes (cur ++ (c ∷ [])) s in
    if c == b'/' && not (is_empty cur) then cur ∷ rest else rest

abbrev add_dirs : List Text → List Text → List Text
add_dirs ds [] = ds
add_dirs ds (p ∷ ps) = add_dirs (if one_of p ds then ds else ds ++ (p ∷ [])) ps

abbrev pub memory_files : Memory → Files
memory_files m = record {
  is_dir = λ p. one_of p m.dirs;
  is_file = has m.files;
  exists = λ p. one_of p m.dirs || has m.files p;
  realpath = λ p. p;
  list_dir = λ p. dirs_in p m.dirs ++ names_in p m.files;
  walk = λ p. walk_from p m.files m.dirs;
  open_text = find m.files;
  open_binary = find m.files;
}

abbrev pub memory : Disk Memory
memory = record {
  view = memory_files;
  make_dirs = λ p m. record m { dirs = add_dirs m.dirs (prefixes [] p) };
  write_text = λ p t m. record m { files = (p, t) ∷ m.files };
  remove = λ p m. record m { files = keep_files p m.files };
  remove_tree = λ p m. record m { dirs = keep_dirs p m.dirs; files = keep_files p m.files };
  encode = some;
}

-- Two paths of one directory are the same if the names are.
same_join :
    (dir x y : Text) → same x y ≡ false → same (dir ++ (b'/' ∷ x)) (dir ++ (b'/' ∷ y)) ≡ false
same_join dir x y h = same-append dir (b'/' ∷ x) (b'/' ∷ y) ∙ h

-- All names are accepted, and all directories are plain.
pub memory-IsDisk : IsDisk memory (λ x. true) (λ dir m. Unit)
memory-IsDisk = record {
  encode_ascii = λ t a. refl;
  write_text-IsPlain = λ dir x t m p a e. tt;
  open_text_written = λ dir x t m p a e r. rw (same_refl (dir ++ (b'/' ∷ x))) refl;
  open_binary_written = λ dir x t m p a e. rw (same_refl (dir ++ (b'/' ∷ x))) e;
  is_file_written = λ dir x t m p a e. rw (same_refl (dir ++ (b'/' ∷ x))) refl;
  open_text_other = λ dir x y t m p a b e h. rw (same_join dir y x h) refl;
  open_binary_other = λ dir x y t m p a b e h. rw (same_join dir y x h) refl;
  is_file_other = λ dir x y t m p a b e h. rw (same_join dir y x h) refl;
}
