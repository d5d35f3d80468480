-- ===== src/Yaml/Block/Examples.antt =====
-- Documents and scalars, loaded.
use gitz.Common.{
  ◌≡◌, ◌≢◌, refl, true, false, [], ◌∷◌, List, Text, Bool, codes, ok, err, ◌++◌, All, Result,
}
use gitz.Common.Int.{negsuc}
use gitz.Yaml.{
  Value, Fields, null, bool, int, float, str, seq, dict, nil, cons, end, field, out_of_fuel,
}
use gitz.Yaml.Scalar.{parse_scalar}
use gitz.Yaml.Scalar.Total.{parse_scalar-total}
use gitz.Yaml.Clean.{Line, clean}
use gitz.Yaml.Clean.Lines.{IsClean, clean-total}
use gitz.Yaml.Block.{load, load_lines, parse_block, is_item, item_of}
use gitz.Yaml.Block.Items.{load-ne-out_of_fuel, item_of-ne-nil}

-- A document in the style of that of `self_test`.
abbrev document : Text
document =
    codes
      "pin: v5.19.2\npackages:\n  - go: plumbing/hash\n    status: required\n  - go: _examples\n    status: excluded\ncounts: [1, 2, 3]\nflag: true\nempty:\n"

test_leading_zero : parse_scalar (codes "-01") ≡ ok (int (negsuc 0))
unfolding parse_scalar gitz.Yaml.Scalar.scalar gitz.Yaml.Scalar.plain gitz.Yaml.Number.digits
    gitz.Yaml.Number.sign gitz.Common.Str.strip gitz.Common.Str.is_space gitz.Yaml.Number.digit
test_leading_zero = refl

-- The meta file of a golden case.
abbrev pub meta_text : Text
meta_text = codes "a: b"

abbrev pub meta_fields : Fields
meta_fields = field (codes "a") (str (codes "b")) end

pub load-meta_text : load meta_text ≡ ok (dict meta_fields)
unfolding load clean load_lines gitz.Yaml.Clean.clean_lines gitz.Common.Str.splitlines
    gitz.Yaml.Clean.clean_line gitz.Common.Str.strip gitz.Common.Str.is_space
    gitz.Yaml.Clean.strip_comment gitz.Yaml.Clean.cons_line parse_block gitz.Yaml.Clean.indent_of
    gitz.Common.Str.has_char gitz.Yaml.Block.rest_of gitz.Yaml.Block.scalar_then parse_scalar
    gitz.Yaml.Scalar.scalar gitz.Yaml.Scalar.plain gitz.Yaml.Number.digits gitz.Yaml.Number.sign
    gitz.Yaml.Number.digit gitz.Yaml.Scalar.is_flow gitz.Yaml.put gitz.Yaml.Block.key_of
load-meta_text = refl

load-ne-out_of_fuel_example : load document ≢ err out_of_fuel
load-ne-out_of_fuel_example = load-ne-out_of_fuel document

parse_scalar-total_example : (v : Value) × (parse_scalar (codes "[a, [b, 'c, d']]") ≡ ok v)
parse_scalar-total_example = parse_scalar-total (codes "[a, [b, 'c, d']]")

clean-total_example :
    (ls : List Line) × (clean (codes "a: 1\n\tb: 2 # c\n") ≡ ok ls) × All IsClean ls
clean-total_example = clean-total (codes "a: 1\n\tb: 2 # c\n")

dash_IsClean : IsClean (2, codes "- x")
unfolding gitz.Common.Str.strip gitz.Common.Str.is_space
dash_IsClean = record { stripped = refl; full = λ e. cc }

item_of-ne-nil_example : item_of (codes "- x") ≢ []
item_of-ne-nil_example = item_of-ne-nil 2 (codes "- x") dash_IsClean refl
