-- ===== src/Allowlists/Verdict.antt =====
-- What an accepted directory of allowlists holds.
use gitz.Common.{◌≡◌, true, false, List, [], ◌∷◌, Text, codes, one_of, Option, some, All}
use mathlib.Core.Logic.{◌≢◌}
use gitz.Files.{Files}
use gitz.Yaml.{Fields}
use gitz.Allowlists.{id_of, has_field}

-- The entry has an `id` and a `reason` that Python takes as true.
abbrev pub IsComplete : Fields → Type 0
IsComplete e = (has_field (codes "id") e ≡ true) × (has_field (codes "reason") e ≡ true)

-- The two ids are not the same text.
abbrev pub Apart : Option Text → Option Text → Type 0
Apart a b = (s : Text) → a ≡ some s → b ≢ some s

-- No two entries have the same text as their `id`.
abbrev pub Distinct : List Fields → Type 0
Distinct [] = Unit
Distinct (e ∷ es) = All (λ x. Apart (id_of e) (id_of x)) es × Distinct es

abbrev Unseen : List Text → Option Text → Type 0
Unseen seen o = (s : Text) → o ≡ some s → one_of s seen ≡ false
