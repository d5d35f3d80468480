-- ===== src/Gates/SelfTests.antt =====
-- The self tests of the tools, each run in a temporary directory of a disk in memory.
use gitz.Common.{
  ℕ, ◌≡◌, ◌/◌, ◌^◌, ◌==◌, ◌||◌, ◌&&◌, ltb, leb, refl, Bool, true, false, [], ◌∷◌, codes, some, none,
  ok, Result,
}
use gitz.Common.Int.{pos, negsuc}
use gitz.Files.Disk.Memory.{Memory, memory}
use gitz.MetricsGate.Numbers.{Floats}

abbrev temp_dir : Memory
temp_dir = record { dirs = codes "/t" ∷ []; files = [] }

-- Floats without their fractions.
abbrev whole : Floats
whole = record {
  F = ℕ;
  of_decimal = λ x. x.mantissa / (10 ^ x.scale);
  of_int = λ z. elim z [ pos n ↦ some n | negsuc n ↦ some 0 ];
  of_text = λ t. none;
  truncate = λ n. some (pos n);
  divide = λ m n. m / n;
  one = 1;
  plus_epsilon = λ n. n;
  less = ltb;
  round4 = λ n. n;
  equal = λ m n. m == n;
  equal_int = λ z n. elim z [ pos m ↦ m == n | negsuc m ↦ false ];
}

abbrev is_alnum : ℕ → Bool
is_alnum c = leb 97 c && leb c 122 || leb 48 c && leb c 57

self_test-yaml : gitz.Yaml.SelfTest.self_test ≡ ok true
unfolding gitz.Common.Str.is_space gitz.Common.Str.splitlines gitz.Yaml.update gitz.Yaml.append
    gitz.Yaml.Number.digit gitz.Yaml.Number.digits gitz.Yaml.Number.sign gitz.Yaml.Scalar.plain
    gitz.Yaml.Scalar.split_flow gitz.Yaml.Scalar.is_flow gitz.Yaml.Scalar.each
    gitz.Yaml.Scalar.scalar gitz.Yaml.Scalar.parse_scalar gitz.Yaml.Clean.strip_comment
    gitz.Yaml.Clean.indent_of gitz.Yaml.Clean.clean_line gitz.Yaml.Clean.cons_line
    gitz.Yaml.Clean.clean_lines gitz.Yaml.Block.nested_indent gitz.Yaml.Block.extra_indent
    gitz.Yaml.Block.key_of gitz.Yaml.Block.rest_of gitz.Yaml.Block.item_of
    gitz.Yaml.Block.is_key_only gitz.Yaml.Block.is_inline_map gitz.Yaml.Block.scalar_then
    gitz.Yaml.Block.parse_list gitz.Yaml.SelfTest.self_test
self_test-yaml = refl

self_test-allowlists : gitz.Allowlists.SelfTest.self_test memory (codes "/t") temp_dir ≡ ok true
unfolding gitz.Common.Str.is_space gitz.Common.Str.splitlines gitz.Files.dirname gitz.Files.basename
    gitz.Yaml.update gitz.Yaml.append gitz.Yaml.Number.digit gitz.Yaml.Number.digits
    gitz.Yaml.Number.sign gitz.Yaml.Scalar.plain gitz.Yaml.Scalar.split_flow
    gitz.Yaml.Scalar.is_flow gitz.Yaml.Scalar.each gitz.Yaml.Scalar.scalar
    gitz.Yaml.Scalar.parse_scalar gitz.Yaml.Clean.strip_comment gitz.Yaml.Clean.indent_of
    gitz.Yaml.Clean.clean_line gitz.Yaml.Clean.cons_line gitz.Yaml.Clean.clean_lines
    gitz.Yaml.Block.nested_indent gitz.Yaml.Block.extra_indent gitz.Yaml.Block.key_of
    gitz.Yaml.Block.rest_of gitz.Yaml.Block.item_of gitz.Yaml.Block.is_key_only
    gitz.Yaml.Block.is_inline_map gitz.Yaml.Block.scalar_then gitz.Yaml.Block.parse_list
    gitz.Yaml.Block.load gitz.Allowlists.SelfTest.self_test
self_test-allowlists = refl

self_test-inventory : gitz.Inventory.SelfTest.self_test memory (codes "/t") temp_dir ≡ ok true
unfolding gitz.Common.Str.is_space gitz.Common.Str.splitlines gitz.Common.Sort.sorted
    gitz.Files.dirname gitz.Files.basename gitz.Yaml.update gitz.Yaml.append gitz.Yaml.Number.digit
    gitz.Yaml.Number.digits gitz.Yaml.Number.sign gitz.Yaml.Scalar.plain gitz.Yaml.Scalar.is_flow
    gitz.Yaml.Scalar.scalar gitz.Yaml.Scalar.parse_scalar gitz.Yaml.Clean.strip_comment
    gitz.Yaml.Clean.indent_of gitz.Yaml.Clean.clean_line gitz.Yaml.Clean.cons_line
    gitz.Yaml.Clean.clean_lines gitz.Yaml.Block.nested_indent gitz.Yaml.Block.extra_indent
    gitz.Yaml.Block.key_of gitz.Yaml.Block.rest_of gitz.Yaml.Block.item_of
    gitz.Yaml.Block.is_key_only gitz.Yaml.Block.is_inline_map gitz.Yaml.Block.scalar_then
    gitz.Yaml.Block.parse_list gitz.Inventory.SelfTest.self_test
self_test-inventory = refl

self_test-api : gitz.Api.SelfTest.self_test memory (codes "/t") temp_dir ≡ ok true
unfolding gitz.Common.Str.is_space gitz.Common.Str.splitlines gitz.Files.dirname gitz.Files.basename
    gitz.Yaml.update gitz.Yaml.append gitz.Yaml.Number.digit gitz.Yaml.Number.digits
    gitz.Yaml.Number.sign gitz.Yaml.Scalar.plain gitz.Yaml.Scalar.split_flow
    gitz.Yaml.Scalar.is_flow gitz.Yaml.Scalar.each gitz.Yaml.Scalar.scalar
    gitz.Yaml.Scalar.parse_scalar gitz.Yaml.Clean.strip_comment gitz.Yaml.Clean.indent_of
    gitz.Yaml.Clean.clean_line gitz.Yaml.Clean.cons_line gitz.Yaml.Clean.clean_lines
    gitz.Yaml.Block.nested_indent gitz.Yaml.Block.extra_indent gitz.Yaml.Block.key_of
    gitz.Yaml.Block.rest_of gitz.Yaml.Block.item_of gitz.Yaml.Block.is_key_only
    gitz.Yaml.Block.is_inline_map gitz.Yaml.Block.scalar_then gitz.Yaml.Block.parse_list
    gitz.Api.Packages.as_mapping gitz.Api.SelfTest.self_test
self_test-api = refl

self_test-metrics :
    gitz.MetricsGate.SelfTest.self_test whole is_alnum memory (codes "/t") temp_dir ≡ ok true
unfolding gitz.Common.Str.splitlines gitz.Yaml.update gitz.Yaml.append gitz.Yaml.Number.digits
    gitz.Yaml.Number.sign gitz.Yaml.Scalar.plain gitz.Yaml.Scalar.split_flow
    gitz.Yaml.Scalar.is_flow gitz.Yaml.Scalar.each gitz.Yaml.Scalar.scalar
    gitz.Yaml.Scalar.parse_scalar gitz.Yaml.Clean.strip_comment gitz.Yaml.Clean.indent_of
    gitz.Yaml.Clean.clean_line gitz.Yaml.Clean.cons_line gitz.Yaml.Clean.clean_lines
    gitz.Yaml.Block.nested_indent gitz.Yaml.Block.extra_indent gitz.Yaml.Block.key_of
    gitz.Yaml.Block.rest_of gitz.Yaml.Block.item_of gitz.Yaml.Block.is_key_only
    gitz.Yaml.Block.is_inline_map gitz.Yaml.Block.scalar_then gitz.Yaml.Block.parse_list
    gitz.Yaml.Block.load gitz.Goldens.run_all gitz.MetricsGate.SelfTest.self_test
self_test-metrics = refl
