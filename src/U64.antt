-- ===== src/U64.antt =====
-- `u64` of Rust: a number below 2^64, with the wrap-around of a release build written out.
use Prim.Native.Nat.{min}
use rust_proof.Base.{
  ℕ, ◌+◌, ◌-◌, ◌*◌, ◌/◌, ◌%◌, ◌^◌, ◌≤◌, ◌<◌, ◌≡◌, refl, [], ◌∷◌, Bytes, arith, length,
}

abbrev pub u64_limit : ℕ
u64_limit = 2 ^ 64

-- `a + b`, `a += b`
unfoldable pub wrapping_add : ℕ → ℕ → ℕ
wrapping_add a b = (a + b) % u64_limit

-- `a - b`, `a -= b`
unfoldable pub wrapping_sub : ℕ → ℕ → ℕ
wrapping_sub a b = (a + u64_limit - b) % u64_limit

unfoldable pub saturating_add : ℕ → ℕ → ℕ
saturating_add a b = min (a + b) (u64_limit - 1)

unfoldable pub saturating_sub : ℕ → ℕ → ℕ
saturating_sub a b = a - b

-- `a.to_be_bytes()`
unfoldable pub to_be_bytes : ℕ → Bytes
to_be_bytes n =
    n / 2 ^ 56 % 256
    ∷ n / 2 ^ 48 % 256
    ∷ n / 2 ^ 40 % 256
    ∷ n / 2 ^ 32 % 256
    ∷ n / 2 ^ 24 % 256
    ∷ n / 2 ^ 16 % 256
    ∷ n / 2 ^ 8 % 256
    ∷ n % 256
    ∷ []

be_value : ℕ → Bytes → ℕ
be_value acc [] = acc
be_value acc (b ∷ bs) = be_value (acc * 256 + b) bs

-- `u64::from_be_bytes(bytes)`
unfoldable pub from_be_bytes : Bytes → ℕ
unfolding be_value
from_be_bytes bs = be_value 0 bs

pub from_be_bytes-to_be_bytes : (n : ℕ) → n < u64_limit → from_be_bytes (to_be_bytes n) ≡ n
unfolding from_be_bytes to_be_bytes
from_be_bytes-to_be_bytes n h = omega arith

pub length-to_be_bytes : (n : ℕ) → length (to_be_bytes n) ≡ 8
unfolding to_be_bytes
length-to_be_bytes n = refl

pub wrapping_add-exact : (a b : ℕ) → a + b < u64_limit → wrapping_add a b ≡ a + b
unfolding wrapping_add
wrapping_add-exact a b h = omega arith

pub wrapping_sub-exact : (a b : ℕ) → a < u64_limit → b ≤ a → wrapping_sub a b ≡ a - b
unfolding wrapping_sub
wrapping_sub-exact a b h k = omega arith

pub wrapping_add-lt : (a b : ℕ) → wrapping_add a b < u64_limit
unfolding wrapping_add
wrapping_add-lt a b = omega arith

pub wrapping_sub-lt : (a b : ℕ) → wrapping_sub a b < u64_limit
unfolding wrapping_sub
wrapping_sub-lt a b = omega arith

pub to_be_bytes-injective :
    (a b : ℕ) → a < u64_limit → b < u64_limit → to_be_bytes a ≡ to_be_bytes b → a ≡ b
unfolding to_be_bytes
to_be_bytes-injective a b h k e = ground arith
