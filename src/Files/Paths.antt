-- ===== src/Files/Paths.antt =====
-- Paths that are joined from a directory and a name.
use gitz.Common.{◌≡◌, refl, false, [], ◌∷◌, ◌++◌, Text, codes, same, ==_refl, arith}
use gitz.Common.Str.{is_empty, starts_with, ends_with, has_char}
use gitz.Files.{join_path, dirname, split_path, rstrip_char}

-- A name in a directory, and a path of a directory: not empty, no slash at its end.
abbrev pub IsName : Text → Type 0
IsName x = has_char b'/' x ≡ false

pub record IsDirectory (a : Text) : Type 0 where
  pub full : is_empty a ≡ false
  pub bare : ends_with a (codes "/") ≡ false

starts_with-name : (x : Text) → IsName x → starts_with x (codes "/") ≡ false
unfolding has_char
starts_with-name [] h = refl
starts_with-name (c ∷ x) h = ground arith

pub join_path-IsName : (a x : Text) → IsDirectory a → IsName x → join_path a x ≡ a ++ (b'/' ∷ x)
unfolding join_path
join_path-IsName a x d h = rw (starts_with-name x h, d.full, d.bare) refl

split_path-name : (x : Text) → IsName x → split_path x ≡ ([], x)
unfolding split_path has_char
split_path-name [] h = refl
split_path-name (c ∷ x) h = rw (split_path-name x (ground arith)) (ground arith)

nonempty : (a : Text) → is_empty (a ++ (b'/' ∷ [])) ≡ false
nonempty [] = refl
nonempty (c ∷ a) = refl

split_path-append : (a x : Text) → IsName x → split_path (a ++ (b'/' ∷ x)) ≡ (a ++ (b'/' ∷ []), x)
unfolding split_path
split_path-append [] x h = rw (split_path-name x h) refl
split_path-append (c ∷ a) x h = rw (split_path-append a x h) (ground (arith, nonempty a))

rstrip_char-bare : (a : Text) → ends_with a (codes "/") ≡ false → rstrip_char b'/' a ≡ a
unfolding rstrip_char
rstrip_char-bare [] h = refl
rstrip_char-bare (c ∷ []) h = ground arith
rstrip_char-bare (c ∷ d ∷ a) h = rw (rstrip_char-bare (d ∷ a) (ground arith)) (ground arith)

rstrip_char-slash : (a : Text) → rstrip_char b'/' (a ++ (b'/' ∷ [])) ≡ rstrip_char b'/' a
unfolding rstrip_char
rstrip_char-slash [] = refl
rstrip_char-slash (c ∷ a) = rw (rstrip_char-slash a) refl

pub dirname-join : (a x : Text) → IsDirectory a → IsName x → dirname (a ++ (b'/' ∷ x)) ≡ a
unfolding dirname
dirname-join a x d h =
    rw (split_path-append a x h, rstrip_char-slash a, rstrip_char-bare a d.bare, d.full) refl

pub same-append : (a x y : Text) → same (a ++ x) (a ++ y) ≡ same x y
same-append [] x y = refl
same-append (c ∷ a) x y = rw (==_refl c) (same-append a x y)

ends_with-name : (x : Text) → IsName x → ends_with x (codes "/") ≡ false
unfolding has_char
ends_with-name [] h = refl
ends_with-name (c ∷ x) h = ground (arith, ends_with-name x)

same-nil_of : (a x : Text) → same (a ++ (b'/' ∷ x)) [] ≡ false
same-nil_of [] x = refl
same-nil_of (c ∷ a) x = refl

ends_with-join :
    (a x : Text)
    → is_empty x ≡ false
    → ends_with x (codes "/") ≡ false
    → ends_with (a ++ (b'/' ∷ x)) (codes "/") ≡ false
ends_with-join [] [] f h = cc
ends_with-join [] (c ∷ x) f h = h
ends_with-join (c ∷ a) x f h = ground (arith, same-nil_of a x, ends_with-join a x f h)

-- A directory in a directory.
pub join-IsDirectory : (a x : Text) → is_empty x ≡ false → IsName x → IsDirectory (a ++ (b'/' ∷ x))
join-IsDirectory a x f h = record {
  full = full_of a;
  bare = ends_with-join a x f (ends_with-name x h);
}
  where
    full_of : (a : Text) → is_empty (a ++ (b'/' ∷ x)) ≡ false
    full_of [] = refl
    full_of (c ∷ a) = refl
