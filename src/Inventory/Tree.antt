-- ===== src/Inventory/Tree.antt =====
-- The source tree, as tools/inventory/check_file_inventory.py looks at it.
use gitz.Common.{
  Bool, false, ◌&&◌, ◌||◌, List, [], ◌∷◌, Text, codes, same, one_of, drop, if◌then◌else◌, Result,
  ok, err,
}
use gitz.Common.Str.{starts_with, ends_with}
use gitz.Files.{Files, join_path, commonpath}

-- `ALLOWED_SRC_ROOT_FILES`
abbrev allowed_src_root_files : List Text
allowed_src_root_files =
    codes "root.zig" ∷ codes "ownership_gpa_test.zig" ∷ codes "BUILD.bazel" ∷ codes "BUILD" ∷ []

-- The two `ValueError`s.
pub data PathError : Type 0 where
  not_under_src escapes_src : PathError

-- The full path, which must not leave the root.
unfoldable pub within : Text → Text → Result PathError Text
unfolding commonpath
within root full = if same (commonpath root full) root then ok full else err escapes_src

unfoldable pub zig_rel_to_full : Files → Text → Text → Result PathError Text
unfolding within join_path
zig_rel_to_full fs src_root zig_rel =
    let root = fs.realpath src_root in
    if same zig_rel (codes "src")
    then within root (fs.realpath (join_path root []))
    else if starts_with zig_rel (codes "src/")
    then within root (fs.realpath (join_path root (drop 4 zig_rel)))
    else err not_under_src

-- `any(...)` over the names of the directory.
unfoldable pub any_zig : Files → Text → List Text → Bool
unfolding join_path
any_zig fs full [] = false
any_zig fs full (name ∷ names) =
    ends_with name (codes ".zig") && fs.is_file (join_path full name) || any_zig fs full names

unfoldable pub full_has_zig : Files → Text → Bool
unfolding any_zig
full_has_zig fs full =
    if fs.is_file full
    then ends_with full (codes ".zig")
    else if fs.is_dir full
    then any_zig fs full (fs.list_dir full)
    else false

unfoldable pub package_has_zig : Files → Text → Text → Bool
unfolding zig_rel_to_full full_has_zig
package_has_zig fs src_root zig_rel = elim (zig_rel_to_full fs src_root zig_rel) [
  | ok full ↦ full_has_zig fs full
  | err e ↦ false
]

-- The loop over the names of the source root.
unfoldable pub top_names : Files → Text → List Text → List Text
unfolding join_path
top_names fs src_root [] = []
top_names fs src_root (name ∷ names) =
    let later = top_names fs src_root names in
    if one_of name allowed_src_root_files || starts_with name (codes ".")
    then later
    else if fs.is_dir (join_path src_root name) || ends_with name (codes ".zig")
    then name ∷ later
    else later

unfoldable pub collect_top_level_src : Files → Text → List Text
unfolding top_names
collect_top_level_src fs src_root =
    if fs.is_dir src_root then top_names fs src_root (fs.list_dir src_root) else []
