-- ===== src/Allowlists/Examples.antt =====
-- A directory with one allowlist.
use gitz.Common.{true, [], ◌∷◌, codes, same, some, none, if◌then◌else◌}
use gitz.Files.{Files}

abbrev tree : Files
tree = record {
  is_dir = λ p. same p (codes "d");
  is_file = λ p. true;
  exists = λ p. true;
  realpath = λ p. p;
  list_dir = λ p. codes "a.yaml" ∷ codes "b.txt" ∷ [];
  walk = λ p. [];
  open_text = λ p.
      if same p (codes "d/a.yaml")
      then some (codes "entries:\n  - id: x\n    reason: r\n")
      else none;
  open_binary = λ p. none;
}
