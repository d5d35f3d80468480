-- ===== src/Files.antt =====
-- The file system that the Python tools read, the path functions of `os.path` (POSIX) that they
-- call, and `load_path` of tools/inventory/simple_yaml.py.
pub mod Disk
pub mod Paths
pub mod Utf8
use gitz.Common.{
  ℕ, suc, ◌==◌, Bool, true, false, ◌&&◌, ◌||◌, List, [], ◌∷◌, ◌++◌, Text, Bytes, codes, same,
  Option, none, some, if◌then◌else◌, Result, ok, err,
}
use gitz.Common.Str.{is_empty, starts_with, ends_with, has_char, join}
use gitz.Files.Utf8.{decode_replace}
use gitz.Yaml.{Value, YamlError}
use gitz.Yaml.Block.{load}

-- What the operating system answers. `none` is an `OSError`. `open_text` is the file in text mode
-- with UTF-8, where the files that are opened so hold UTF-8: other bytes raise `UnicodeDecodeError`,
-- which no tool catches. `walk` is the directories of `os.walk` with their file names.
pub record Files : Type 0 where
  pub is_dir : Text → Bool
  pub is_file : Text → Bool
  pub exists : Text → Bool
  pub realpath : Text → Text
  pub list_dir : Text → List Text
  pub walk : Text → List (Text × List Text)
  pub open_text : Text → Option Text
  pub open_binary : Text → Option Bytes

-- `os.path.join(a, b)`
unfoldable pub join_path : Text → Text → Text
join_path a b =
    if starts_with b (codes "/")
    then b
    else if is_empty a
    then b
    else if ends_with a (codes "/")
    then a ++ b
    else a ++ (b'/' ∷ b)

-- The text up to the last slash, with it, and the text behind it.
unfoldable pub split_path : Text → Text × Text
unfolding has_char
split_path [] = ([], [])
split_path (c ∷ s) =
    let (head, tail) = split_path s in
    if c == b'/'
    then (c ∷ head, tail)
    else if is_empty head
    then ([], c ∷ tail)
    else (c ∷ head, tail)

-- `head.rstrip("/")`
unfoldable pub rstrip_char : ℕ → Text → Text
rstrip_char x [] = []
rstrip_char x (c ∷ s) =
    let rest = rstrip_char x s in if c == x && is_empty rest then [] else c ∷ rest

-- `os.path.dirname(path)`: a head of slashes alone is kept.
unfoldable pub dirname : Text → Text
unfolding split_path rstrip_char
dirname path =
    let head = (split_path path).0 in
    let bare = rstrip_char b'/' head in if is_empty bare then head else bare

-- `os.path.basename(path)`
unfoldable pub basename : Text → Text
unfolding split_path
basename path = (split_path path).1

-- `path.split("/")`
unfoldable pub split_char : ℕ → Text → Text × List Text
split_char x [] = ([], [])
split_char x (c ∷ s) =
    let (part, parts) = split_char x s in if c == x then ([], part ∷ parts) else (c ∷ part, parts)

-- The parts of a path without the empty ones and those for the directory itself.
unfoldable pub components : List Text → List Text
components [] = []
components (p ∷ ps) = if is_empty p || same p (codes ".") then components ps else p ∷ components ps

unfoldable pub common : List Text → List Text → List Text
common [] qs = []
common (p ∷ ps) [] = []
common (p ∷ ps) (q ∷ qs) = if same p q then p ∷ common ps qs else []

-- `os.path.commonpath((a, b))` of absolute paths, as `realpath` returns.
unfoldable pub commonpath : Text → Text → Text
unfolding split_char components common join
commonpath a b =
    let (a0, as_) = split_char b'/' a in
    let (b0, bs) = split_char b'/' b in
    b'/' ∷ join (codes "/") (common (components (a0 ∷ as_)) (components (b0 ∷ bs)))

pub data LoadError : Type 0 where
  os_error : LoadError
  yaml_error : YamlError → LoadError

abbrev pub from_yaml : Result YamlError Value → Result LoadError Value
from_yaml (ok v) = ok v
from_yaml (err e) = err (yaml_error e)

abbrev pub load_opened : Option Text → Result LoadError Value
load_opened none = err os_error
load_opened (some text) = from_yaml (load text)

unfoldable pub load_path : Files → Text → Result LoadError Value
load_path fs path = load_opened (fs.open_text path)

-- The newlines of text mode: a carriage return, with the line feed behind it, is a line feed.
unfoldable pub text_newlines : Text → Text
text_newlines [] = []
text_newlines (c ∷ []) = (if c == 13 then 10 else c) ∷ []
text_newlines (c ∷ d ∷ s) =
    let pair = text_newlines s in
    let next = text_newlines (d ∷ s) in
    if c == 13 then (if d == 10 then 10 ∷ pair else 10 ∷ next) else c ∷ next

abbrev pub decoded : Option Bytes → Option Text
decoded none = none
decoded (some bs) = some (text_newlines (decode_replace bs))

-- `open(path, "r", encoding="utf-8", errors="replace").read()`
unfoldable pub read_replace : Files → Text → Option Text
unfolding text_newlines decode_replace
read_replace fs path = decoded (fs.open_binary path)
