-- ===== src/Runtime/Utf8.antt =====
-- `String::from_utf8` of Rust's `std`: which bytes are UTF-8.
use rust_proof.Base.{
  ℕ, zero, suc, Bool, true, false, ◌&&◌, Option, none, some, [], ◌∷◌, Bytes, leb, ◌==◌,
  if◌then◌else◌,
}

abbrev within : ℕ → ℕ → ℕ → Bool
within low high b = leb low b && leb b high

-- For a first byte: how many bytes follow, and the range of the first of these.
lead : ℕ → Option (ℕ × ℕ × ℕ)
lead b =
    if leb b 127
    then some (0, 128, 191)
    else if within 194 223 b
    then some (1, 128, 191)
    else if b == 224
    then some (2, 160, 191)
    else if b == 237
    then some (2, 128, 159)
    else if within 225 239 b
    then some (2, 128, 191)
    else if b == 240
    then some (3, 144, 191)
    else if within 241 243 b
    then some (3, 128, 191)
    else if b == 244
    then some (3, 128, 143)
    else none

-- With this many bytes still to follow, the next one in this range.
follows : ℕ → ℕ → ℕ → Bytes → Bool
unfolding lead
follows zero low high [] = true
follows (suc k) low high [] = false
follows zero low high (b ∷ bs) = elim (lead b) [
  | none ↦ false
  | some (k, next_low, next_high) ↦ follows k next_low next_high bs
]
follows (suc k) low high (b ∷ bs) =
    let rest = follows k 128 191 bs in if within low high b then rest else false

unfoldable pub is_utf8 : Bytes → Bool
unfolding follows
is_utf8 bytes = follows 0 128 191 bytes
