-- ===== src/Files/Disk.antt =====
-- The file system that the self tests of the tools write to, in a temporary directory.
pub mod Memory
use gitz.Common.{◌≡◌, ◌∷◌, ◌++◌, Bool, true, false, Option, Text, Bytes, same, some, all, ltb}
use gitz.Common.Str.{has_char}
use gitz.Files.{Files}

-- What the operating system does for `os.makedirs(p, exist_ok=True)`, for a text written to a path
-- in UTF-8, `os.remove` and `shutil.rmtree`, none of which fails in a temporary directory. `encode` is
-- `t.encode()`, where `none` is the `UnicodeEncodeError`; the self tests write ASCII.
pub record Disk (S : Type 0) : Type 0 where
  pub view : S → Files
  pub make_dirs : Text → S → S
  pub write_text : Text → Text → S → S
  pub remove : Text → S → S
  pub remove_tree : Text → S → S
  pub encode : Text → Option Bytes

-- What a file of a directory holds after it was written, and that the other files of the directory
-- keep what they hold. The laws are those of a plain directory, one that can be written to and whose
-- entries are files and no links, and of accepted names, those that such a directory takes and keeps
-- apart. Text mode reads a text without a carriage return as it was written.
pub record IsDisk {S : Type 0} (d : Disk S) (accepts : Text → Bool) (IsPlain : Text → S → Type 0)
    : Type 0 where
  pub encode_ascii : (t : Text) → all (λ c. ltb c 128) t ≡ true → d.encode t ≡ some t
  pub write_text-IsPlain :
      (dir x t : Text) (s : S) {bs : Bytes}
      → IsPlain dir s
      → accepts x ≡ true
      → d.encode t ≡ some bs
      → IsPlain dir (d.write_text (dir ++ (b'/' ∷ x)) t s)
  pub open_text_written :
      (dir x t : Text) (s : S) {bs : Bytes}
      → IsPlain dir s
      → accepts x ≡ true
      → d.encode t ≡ some bs
      → has_char b'\r' t ≡ false
      → (d.view (d.write_text (dir ++ (b'/' ∷ x)) t s)).open_text (dir ++ (b'/' ∷ x)) ≡ some t
  pub open_binary_written :
      (dir x t : Text) (s : S) {bs : Bytes}
      → IsPlain dir s
      → accepts x ≡ true
      → d.encode t ≡ some bs
      → (d.view (d.write_text (dir ++ (b'/' ∷ x)) t s)).open_binary (dir ++ (b'/' ∷ x)) ≡ some bs
  pub is_file_written :
      (dir x t : Text) (s : S) {bs : Bytes}
      → IsPlain dir s
      → accepts x ≡ true
      → d.encode t ≡ some bs
      → (d.view (d.write_text (dir ++ (b'/' ∷ x)) t s)).is_file (dir ++ (b'/' ∷ x)) ≡ true
  pub open_text_other :
      (dir x y t : Text) (s : S) {bs : Bytes}
      → IsPlain dir s
      → accepts x ≡ true
      → accepts y ≡ true
      → d.encode t ≡ some bs
      → same y x ≡ false
      → (d.view (d.write_text (dir ++ (b'/' ∷ x)) t s)).open_text (dir ++ (b'/' ∷ y))
        ≡ (d.view s).open_text (dir ++ (b'/' ∷ y))
  pub open_binary_other :
      (dir x y t : Text) (s : S) {bs : Bytes}
      → IsPlain dir s
      → accepts x ≡ true
      → accepts y ≡ true
      → d.encode t ≡ some bs
      → same y x ≡ false
      → (d.view (d.write_text (dir ++ (b'/' ∷ x)) t s)).open_binary (dir ++ (b'/' ∷ y))
        ≡ (d.view s).open_binary (dir ++ (b'/' ∷ y))
  pub is_file_other :
      (dir x y t : Text) (s : S) {bs : Bytes}
      → IsPlain dir s
      → accepts x ≡ true
      → accepts y ≡ true
      → d.encode t ≡ some bs
      → same y x ≡ false
      → (d.view (d.write_text (dir ++ (b'/' ∷ x)) t s)).is_file (dir ++ (b'/' ∷ y))
        ≡ (d.view s).is_file (dir ++ (b'/' ∷ y))
