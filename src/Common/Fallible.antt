-- ===== src/Common/Fallible.antt =====
-- The value of an operation that may raise: a Python exception or a Zig error is an `err`.
use mathlib.Core.Path.{◌≡◌, refl}
use mathlib.Core.Logic.{◌⊎◌, inl, inr}
use mathlib.Core.Bool.{Bool, true, false}

pub data Result {ℓ κ} (Raised : Type ℓ) (Value : Type κ) : Type (ℓ ⊔ κ) where
  err : Raised → Result Raised Value
  ok : Value → Result Raised Value

-- `if not test: raise e`
abbrev pub require {ℓ} : {R : Type ℓ} → Bool → R → Result R (Unit {0})
require false raised = err raised
require true raised = ok tt

infixl 10 ◌>>=◌ ◌>>◌
abbrev pub ◌>>=◌ {μ ℓ κ} :
    {R : Type μ} {V : Type ℓ} {W : Type κ} → Result R V → (V → Result R W) → Result R W
err raised >>= next = err raised
ok value >>= next = next value

abbrev pub ◌>>◌ {μ ℓ κ} :
    {R : Type μ} {V : Type ℓ} {W : Type κ} → Result R V → Result R W → Result R W
first >> next = first >>= λ ignored. next

pub ok-injective {μ ℓ} :
    {R : Type μ} {V : Type ℓ} {v w : V} → ◌≡◌ {A = Result R V} (ok v) (ok w) → v ≡ w
ok-injective same_ok = cc

-- The two parts of a block that returned.
pub >>=-eq-ok {μ ℓ κ} :
    {R : Type μ} {V : Type ℓ} {W : Type κ} (first : Result R V) (next : V → Result R W) {w : W}
    → (first >>= next) ≡ ok w
    → (v : V) × (first ≡ ok v) × (next v ≡ ok w)
>>=-eq-ok (err raised) next returned = cc
>>=-eq-ok (ok v) next returned = (v, refl, returned)

-- The two ways in which a block raises.
pub >>=-eq-err {μ ℓ κ} :
    {R : Type μ} {V : Type ℓ} {W : Type κ} (first : Result R V) (next : V → Result R W) {e : R}
    → (first >>= next) ≡ err e
    → (first ≡ err e) ⊎ ((v : V) × (first ≡ ok v) × (next v ≡ err e))
>>=-eq-err (err raised) next h = inl cc
>>=-eq-err (ok v) next h = inr (v, refl, h)

pub err-injective {μ ℓ} :
    {R : Type μ} {V : Type ℓ} {a b : R} → ◌≡◌ {A = Result R V} (err a) (err b) → a ≡ b
err-injective same_err = cc
