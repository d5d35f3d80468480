-- ===== src/Vectors/Examples.antt =====
-- Zig literals, read back.
use gitz.Common.{◌≡◌, ◌++◌, codes, some}
use gitz.Vectors.{zig_string}
use gitz.Vectors.Literal.{read_literal, read_literal-zig_string}

read_literal-zig_string_example :
    read_literal (zig_string (codes "a\"b\\\n") ++ codes ";") ≡ some (codes "a\"b\\\n", codes ";")
read_literal-zig_string_example = read_literal-zig_string (codes "a\"b\\\n") (codes ";")
