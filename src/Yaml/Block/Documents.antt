-- ===== src/Yaml/Block/Documents.antt =====
-- Two documents of the inventories, loaded.
use gitz.Common.{◌≡◌, refl, [], ◌∷◌, List, Text, codes, ok}
use gitz.Yaml.{Fields, str, seq, dict, nil, cons, end, field}
use gitz.Yaml.Clean.{Line, clean}
use gitz.Yaml.Block.{load, load_lines, parse_block}
use gitz.Yaml.Scalar.{parse_scalar}

-- A packages document with one package.
abbrev pub packages_text : Text
packages_text = codes "packages:\n - go: a\n   zig: src/a\n"

abbrev packages_lines : List Line
packages_lines = (0, codes "packages:") ∷ (1, codes "- go: a") ∷ (3, codes "zig: src/a") ∷ []

abbrev pub one_package : Fields
one_package = field (codes "go") (str (codes "a")) (field (codes "zig") (str (codes "src/a")) end)

abbrev pub packages_fields : Fields
packages_fields = field (codes "packages") (seq (cons (dict one_package) nil)) end

clean-packages_text : clean packages_text ≡ ok packages_lines
unfolding clean gitz.Yaml.Clean.clean_lines gitz.Common.Str.splitlines gitz.Yaml.Clean.clean_line
    gitz.Common.Str.strip gitz.Common.Str.is_space gitz.Yaml.Clean.strip_comment
    gitz.Yaml.Clean.cons_line gitz.Yaml.Clean.indent_of gitz.Common.Str.has_char
clean-packages_text = refl

load_lines-packages : load_lines packages_lines ≡ ok (dict packages_fields)
unfolding load_lines parse_block gitz.Common.Str.strip gitz.Common.Str.is_space
    gitz.Common.Str.has_char gitz.Yaml.Block.rest_of gitz.Yaml.Block.scalar_then parse_scalar
    gitz.Yaml.Block.item_of gitz.Yaml.Block.extra_indent gitz.Yaml.Block.nested_indent
    gitz.Yaml.Block.is_key_only gitz.Yaml.Block.is_inline_map gitz.Yaml.append gitz.Yaml.update
    gitz.Yaml.Scalar.scalar gitz.Yaml.Scalar.plain gitz.Yaml.Number.digits gitz.Yaml.Number.sign
    gitz.Yaml.Number.digit gitz.Yaml.Scalar.is_flow gitz.Yaml.put gitz.Yaml.Block.key_of
load_lines-packages = refl

pub load-packages_text : load packages_text ≡ ok (dict packages_fields)
unfolding load
load-packages_text = rw clean-packages_text load_lines-packages

-- An API document of that package.
abbrev pub api_text : Text
api_text = codes "package: a\nrequire:\n semantic: [a.b]\n"

abbrev api_lines : List Line
api_lines = (0, codes "package: a") ∷ (0, codes "require:") ∷ (1, codes "semantic: [a.b]") ∷ []

abbrev pub api_required : Fields
api_required = field (codes "semantic") (seq (cons (str (codes "a.b")) nil)) end

abbrev pub api_fields : Fields
api_fields =
    field (codes "package") (str (codes "a")) (field (codes "require") (dict api_required) end)

clean-api_text : clean api_text ≡ ok api_lines
unfolding clean gitz.Yaml.Clean.clean_lines gitz.Common.Str.splitlines gitz.Yaml.Clean.clean_line
    gitz.Common.Str.strip gitz.Common.Str.is_space gitz.Yaml.Clean.strip_comment
    gitz.Yaml.Clean.cons_line gitz.Yaml.Clean.indent_of gitz.Common.Str.has_char
clean-api_text = refl

load_lines-api : load_lines api_lines ≡ ok (dict api_fields)
unfolding load_lines parse_block gitz.Common.Str.strip gitz.Common.Str.is_space
    gitz.Common.Str.has_char gitz.Yaml.Block.rest_of gitz.Yaml.Block.scalar_then parse_scalar
    gitz.Yaml.Block.nested_indent gitz.Yaml.append gitz.Yaml.Scalar.split_flow gitz.Yaml.Scalar.each
    gitz.Yaml.Scalar.scalar gitz.Yaml.Scalar.plain gitz.Yaml.Number.digits gitz.Yaml.Number.sign
    gitz.Yaml.Number.digit gitz.Yaml.Scalar.is_flow gitz.Yaml.put gitz.Yaml.Block.key_of
load_lines-api = refl

pub load-api_text : load api_text ≡ ok (dict api_fields)
unfolding load
load-api_text = rw clean-api_text load_lines-api
