-- ===== src/Index/Hex.antt =====
-- `bytes.hex` and `bytes.fromhex`, which the `.hex` twins of the fixtures are written and read by.
use gitz.Common.{
  ℕ, ◌+◌, ◌-◌, ◌*◌, ◌/◌, ◌%◌, ◌<◌, ◌≡◌, refl, ◌==◌, leb, ltb, ◌||◌, ◌&&◌, Bool, [], ◌∷◌, Bytes,
  Text, All, if◌then◌else◌, Option, none, some, arith,
}

unfoldable pub hex_digit : ℕ → ℕ
hex_digit d = if ltb d 10 then 48 + d else 87 + d

-- `data.hex()`
unfoldable pub hex : Bytes → Text
unfolding hex_digit
hex [] = []
hex (b ∷ bs) = hex_digit (b / 16) ∷ hex_digit (b % 16) ∷ hex bs

unfoldable pub hex_value : ℕ → Option ℕ
hex_value c =
    if leb 48 c && leb c 57
    then some (c - 48)
    else if leb 97 c && leb c 102
    then some (c - 87)
    else if leb 65 c && leb c 70
    then some (c - 55)
    else none

-- The white space that `fromhex` skips between two bytes.
unfoldable pub hex_space : ℕ → Bool
hex_space c = c == 32 || leb 9 c && leb c 13

unfoldable pub put_byte : Option ℕ → Option ℕ → Option Bytes → Option Bytes
put_byte (some hi) (some lo) (some bs) = some ((hi * 16 + lo) ∷ bs)
put_byte _ _ _ = none

-- `bytes.fromhex(hx)`; `none` is the `ValueError`.
unfoldable pub fromhex : Text → Option Bytes
unfolding hex_space hex_value put_byte
fromhex [] = some []
fromhex (c ∷ []) = if hex_space c then some [] else none
fromhex (c ∷ d ∷ s) =
    let pair = put_byte (hex_value c) (hex_value d) (fromhex s) in
    let later = fromhex (d ∷ s) in if hex_space c then later else pair

pub digit_value :
    (d : ℕ) → d < 16 → (hex_value (hex_digit d) ≡ some d) × (hex_space (hex_digit d) ≡ Bool.false)
unfolding hex_digit hex_value hex_space
digit_value d h = ground arith

-- Every byte string is read back from its hexadecimal form.
pub fromhex-hex : (bs : Bytes) → All (λ b. b < 256) bs → fromhex (hex bs) ≡ some bs
unfolding fromhex hex
fromhex-hex [] h = refl
fromhex-hex (b ∷ bs) h = ground (
  arith,
  digit_value (b / 16) (omega arith),
  digit_value (b % 16) (omega arith),
  fromhex-hex bs h.1,
)
