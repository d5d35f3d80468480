-- ===== src/Index/Images.antt =====
-- A version 4 image decodes to the names that it was built from.
use gitz.Common.{
  ℕ, ◌+◌, ◌%◌, ◌≡◌, refl, ◌<◌, ◌^◌, ◌==◌, sym, arith, false, List, [], ◌∷◌, ◌++◌, append_assoc,
  append-nil, Bytes, codes, All, if◌then◌else◌, length, ok, >>=-eq-ok, ok-injective, ◌∙◌,
}
use gitz.Index.{be32, v4_entry}
use gitz.Index.Image.{sample, zero_id, v4_loop, v4_body}
use gitz.Index.Reader.{Entry, read_entries, validate_header, decode}
use gitz.Index.Fields.{read_hashed_uint32-be32}
use gitz.Index.RoundTrip.{IsPath, entry_of}
use gitz.Index.Prefix.{read_entry-v4_entry}

abbrev v4_id : ℕ → Bytes
v4_id i = if i % 2 == 0 then sample else zero_id

length-v4_id : (i : ℕ) → length (v4_id i) ≡ 20
length-v4_id i = ground arith

-- The entries that `build_v4` means by its names, the first of them entry `i`.
abbrev pub v4_entries : List Bytes → ℕ → List Entry
v4_entries [] i = []
v4_entries (name ∷ names) i =
    entry_of 1 0 1 0 (i + 1) (v4_id i) false false name ∷ v4_entries names (i + 1)

-- What the loop adds to its body is read back, behind the name it began with.
v4_loop-read :
    (names : List Bytes) (i : ℕ) (prev body : Bytes) (out : Bytes)
    → length prev < 2 ^ 63
    → All IsPath names
    → v4_loop names i prev body ≡ ok out
    → (tail : Bytes) × (out ≡ body ++ tail)
      × ((s : Bytes) → read_entries 4 (length names) prev (tail ++ s) ≡ ok (v4_entries names i, s))
unfolding v4_loop read_entries
v4_loop-read [] i prev body out short p e = ([], sym (append-nil body ∙ ok-injective e), λ s. refl)
v4_loop-read (name ∷ names) i prev body out short p e =
    let (o, first, e1) = >>=-eq-ok (v4_entry name prev (v4_id i) (i + 1)) _ e in
    let (tail, whole, rest) =
      v4_loop-read names (i + 1) name (body ++ o) out (omega (arith, p.0.fits)) p.1 e1 in
    (
      o ++ tail,
      whole ∙ append_assoc body o tail,
      λ s. rw (
        append_assoc o tail s,
        read_entry-v4_entry name prev (v4_id i) (tail ++ s) (i + 1) short p.0 (length-v4_id i)
            first,
        rest s,
      ),
    )

validate_header-four :
    (v s : Bytes) → be32 4 ≡ ok v → validate_header (codes "DIRC" ++ (v ++ s)) ≡ ok (4, s)
unfolding validate_header
validate_header-four v s e = rw (read_hashed_uint32-be32 4 v s e)

decode-four :
    (k : ℕ) (v n t s : Bytes) (es : List Entry)
    → be32 4 ≡ ok v
    → be32 k ≡ ok n
    → read_entries 4 k [] t ≡ ok (es, s)
    → decode (codes "DIRC" ++ (v ++ (n ++ t))) ≡ ok ((4, es), s)
unfolding decode
decode-four k v n t s es ev en h =
    rw (validate_header-four v (n ++ t) ev, read_hashed_uint32-be32 k n t en, h)

-- If `build_v4` packs a list of names that are free of NUL and no longer than the decoder
-- allows, the decoder reads version 4 and one entry for each name, in order, and stops before
-- what follows the body.
pub decode-v4_body :
    (names : List Bytes) (s : Bytes) {body : Bytes}
    → All IsPath names
    → v4_body names ≡ ok body
    → decode (body ++ s) ≡ ok ((4, v4_entries names 0), s)
unfolding v4_body
decode-v4_body names s p e =
    let (v, ev, e1) = >>=-eq-ok (be32 4) _ e in
    let (n, en, e2) = >>=-eq-ok (be32 (length names)) _ e1 in
    let (tail, whole, rest) =
      v4_loop-read names 0 [] (codes "DIRC" ++ (v ++ n)) _ (omega arith) p e2 in
    rw whole (simp append_assoc (decode-four (length names) v n (tail ++ s) s _ ev en (rest s)))
