-- ===== src/MetricsGate/Measures/Bounds.antt =====
-- The goldens that the metrics count.
use gitz.Common.{◌≤◌, List, [], ◌∷◌, Text, arith, length, length-append, Bool-cases, inl, inr}
use gitz.Common.Sort.{length-sorted}
use gitz.Files.{Files}
use gitz.Goldens.{find_meta_files, metas_under, metas_in}
use gitz.MetricsGate.Measures.{goldens_in, goldens_under, count_goldens}

metas_in-le : (dirpath : Text) (fns : List Text) → length (metas_in dirpath fns) ≤ goldens_in fns
unfolding metas_in goldens_in
metas_in-le dirpath [] = omega arith
metas_in-le dirpath (fn ∷ fns) = ground (arith, metas_in-le dirpath fns)

metas_under-le : (dirs : List (Text × List Text)) → length (metas_under dirs) ≤ goldens_under dirs
unfolding metas_under goldens_under
metas_under-le [] = omega arith
metas_under-le ((dirpath, fns) ∷ dirs) =
    rw (length-append (metas_in dirpath fns) (metas_under dirs))
      (omega (arith, metas_in-le dirpath fns, metas_under-le dirs))

-- The metrics count at least as many goldens as the golden runner finds cases in the same directory.
pub find_meta_files-le :
    (fs : Files) (root : Text) → length (find_meta_files fs root) ≤ count_goldens fs root
unfolding find_meta_files count_goldens
find_meta_files-le fs root = elim (Bool-cases (fs.is_dir root)) [
  | inl t ↦ rw (t, length-sorted (metas_under (fs.walk root))) (metas_under-le (fs.walk root))
  | inr t ↦ rw t (omega arith)
]
