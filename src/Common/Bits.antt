-- ===== src/Common/Bits.antt =====
-- Masks on small numbers, checked by evaluation over every value.
use Prim.Native.Nat.{ℕ, zero, suc, ◌+◌, ◌*◌, ◌/◌, ◌<◌, bit_and, bit_or}
use mathlib.Core.Path.{◌≡◌, refl}
use mathlib.Core.Bool.{Bool, true, false}
use native.Mathlib.Omega.{arith}
use gitz.Common.Tests.{◌==◌}

module _ (f g : ℕ → ℕ) where
  agree_below : ℕ → Bool
  agree_below zero = true
  agree_below (suc n) = elim (f n == g n) [ true ↦ agree_below n | false ↦ false ]

  agree_below→eq : (n : ℕ) → agree_below n ≡ true → (i : ℕ) → i < n → f i ≡ g i
  unfolding agree_below
  agree_below→eq zero h i lt = absurd (omega arith)
  agree_below→eq (suc n) h i lt = ground (arith, agree_below→eq n (ground arith) i)

-- 0x80 | v for a group of seven bits.
pub continue_bit : (v : ℕ) → v < 128 → bit_or 0x80 v ≡ v + 128
unfolding agree_below
continue_bit = agree_below→eq (λ v. bit_or 0x80 v) (λ v. v + 128) 128 refl

-- c & 128 of a byte.
pub top_bit : (c : ℕ) → c < 256 → bit_and c 128 ≡ c / 128 * 128
unfolding agree_below
top_bit = agree_below→eq (λ c. bit_and c 128) (λ c. c / 128 * 128) 256 refl

-- A name length below 0x1000 as a flags word, plain and with the bit 0x4000 for extended flags.
pub name_bits : (m : ℕ) → m < 4096 → bit_and m 0xfff ≡ m
unfolding agree_below
name_bits = agree_below→eq (λ m. bit_and m 0xfff) (λ m. m) 4096 refl

pub no_extended_bit : (m : ℕ) → m < 4096 → bit_and m 0x4000 ≡ 0
unfolding agree_below
no_extended_bit = agree_below→eq (λ m. bit_and m 0x4000) (λ m. 0) 4096 refl

pub set_extended_bit : (m : ℕ) → m < 4096 → bit_or 0x4000 m ≡ m + 0x4000
unfolding agree_below
set_extended_bit = agree_below→eq (λ m. bit_or 0x4000 m) (λ m. m + 0x4000) 4096 refl

pub extended_bit : (m : ℕ) → m < 4096 → bit_and (m + 0x4000) 0x4000 ≡ 0x4000
unfolding agree_below
extended_bit = agree_below→eq (λ m. bit_and (m + 0x4000) 0x4000) (λ m. 0x4000) 4096 refl

pub extended_name_bits : (m : ℕ) → m < 4096 → bit_and (m + 0x4000) 0xfff ≡ m
unfolding agree_below
extended_name_bits = agree_below→eq (λ m. bit_and (m + 0x4000) 0xfff) (λ m. m) 4096 refl
