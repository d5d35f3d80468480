-- ===== src/Yaml/Block/Print/Examples.antt =====
-- A printed document, and what `load` makes of it.
use gitz.Common.{
  all-All, ◌≡◌, ◌⊎◌, refl, inl, inr, Text, codes, true, List, [], ◌∷◌, ℕ, Bool, All, all, ok, arith,
}
use gitz.Common.Int.{negsuc}
use gitz.Yaml.{int, Value, Values, Fields, null, bool, str, seq, dict, nil, cons, end, field}
use gitz.Yaml.Block.{load}
use gitz.Yaml.Block.Print.{print, IsBlock, IsItem, key_char, text_char}
use gitz.Yaml.Number.Printed.{IsShort}
use gitz.Yaml.Block.Print.Cleaned.{load-print}

abbrev files_fields : Fields
files_fields =
    field (codes "path") (str (codes "src/a.zig # no comment"))
      (field (codes "tests") (seq (cons (str (codes "it's tested")) (cons (seq nil) nil))) end)

abbrev document : Value
document = dict (
    field (codes "version") (str (codes "1")) (
      field (codes "files") (seq (cons (dict files_fields) (cons null nil)))
        (field (codes "ok") (bool true) (field (codes "count") (int (negsuc 11)) end))))

print-document :
    print document
    ≡ codes
        "version: \"1\"\nfiles:\n  - path: \"src/a.zig # no comment\"\n    tests:\n      - \"it's tested\"\n      - []\n  - null\nok: true\ncount: -12\n"
unfolding print gitz.Yaml.Block.Print.print_lines gitz.Yaml.Block.Print.lines
    gitz.Yaml.Block.Print.flat_text gitz.Yaml.Number.Printed.digits_of
print-document = refl

count-IsShort : IsShort (negsuc 11)
unfolding gitz.Yaml.Number.Printed.digits_of
count-IsShort = omega arith

document-IsBlock : IsBlock document
unfolding IsBlock key_char text_char gitz.Common.Str.is_space gitz.Common.Str.is_line_end
document-IsBlock = (
  (
    all-All key_char (codes "version") refl,
    refl,
    inl (refl, all-All text_char (codes "1") refl),
    (
      all-All key_char (codes "files") refl,
      refl,
      inr (refl, ((files_item, (tt, tt)), λ e. cc)),
      (
        all-All key_char (codes "ok") refl,
        refl,
        inl (refl, tt),
        (all-All key_char (codes "count") refl, refl, inl (refl, count-IsShort), tt),
      ),
    ),
  ),
  λ e. cc,
)
  where
    files_item : IsItem (dict files_fields)
    files_item = (
      all-All key_char (codes "path") refl,
      refl,
      inl (
        refl,
        all-All text_char (codes "src/a.zig # no comment") refl,
        (
          all-All key_char (codes "tests") refl,
          refl,
          inr (refl, ((all-All text_char (codes "it's tested") refl, (refl, tt)), λ e. cc)),
          tt,
        ),
      ),
    )

load-print_example : load (print document) ≡ ok document
load-print_example = load-print document document-IsBlock
