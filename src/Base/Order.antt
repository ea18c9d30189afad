-- ===== src/Base/Order.antt =====
-- The order of byte arrays and vectors in Rust: lexicographic.
use Prim.Native.Nat.{ℕ, compare, Ordering}
use mathlib.Core.Path.{◌≡◌, refl}
use mathlib.Core.Logic.{◌↔◌, ◌⊎◌, inl, inr}
use mathlib.Core.Bool.{Bool, true, false}
use mathlib.Core.List.{List, [], ◌∷◌}
use native.Mathlib.Omega.{arith}

-- `[u8; N]` and `Vec<u8>`: each number is a byte.
abbrev pub Bytes : Type 0
Bytes = List ℕ

abbrev pub swap : Ordering → Ordering
swap Ordering.lt = Ordering.gt
swap Ordering.eq = Ordering.eq
swap Ordering.gt = Ordering.lt

unfoldable pub cmp_bytes : Bytes → Bytes → Ordering
cmp_bytes [] [] = Ordering.eq
cmp_bytes [] (y ∷ ys) = Ordering.lt
cmp_bytes (x ∷ xs) [] = Ordering.gt
cmp_bytes (x ∷ xs) (y ∷ ys) = elim (compare x y) [ Ordering.eq ↦ cmp_bytes xs ys | o ↦ o ]

pub cmp_bytes_refl : (a : Bytes) → cmp_bytes a a ≡ Ordering.eq
unfolding cmp_bytes
cmp_bytes_refl [] = refl
cmp_bytes_refl (x ∷ xs) = ground (arith, cmp_bytes_refl xs)

pub cmp_bytes-eq : (a b : Bytes) → cmp_bytes a b ≡ Ordering.eq → a ≡ b
unfolding cmp_bytes
cmp_bytes-eq [] [] h = refl
cmp_bytes-eq [] (y ∷ ys) h = cc
cmp_bytes-eq (x ∷ xs) [] h = cc
cmp_bytes-eq (x ∷ xs) (y ∷ ys) h = ground (arith, cmp_bytes-eq xs ys)

pub cmp_bytes-swap : (a b : Bytes) → cmp_bytes b a ≡ swap (cmp_bytes a b)
unfolding cmp_bytes
cmp_bytes-swap [] [] = refl
cmp_bytes-swap [] (y ∷ ys) = refl
cmp_bytes-swap (x ∷ xs) [] = refl
cmp_bytes-swap (x ∷ xs) (y ∷ ys) = ground (arith, cmp_bytes-swap xs ys)

pub cmp_bytes_trans :
    (a b c : Bytes)
    → cmp_bytes a b ≡ Ordering.lt
    → cmp_bytes b c ≡ Ordering.lt
    → cmp_bytes a c ≡ Ordering.lt
unfolding cmp_bytes
cmp_bytes_trans [] [] c h k = cc
cmp_bytes_trans [] (y ∷ ys) [] h k = cc
cmp_bytes_trans [] (y ∷ ys) (z ∷ zs) h k = refl
cmp_bytes_trans (x ∷ xs) [] c h k = cc
cmp_bytes_trans (x ∷ xs) (y ∷ ys) [] h k = cc
cmp_bytes_trans (x ∷ xs) (y ∷ ys) (z ∷ zs) h k = ground (arith, cmp_bytes_trans xs ys zs)

-- `a == b`.
abbrev pub eq_bytes : Bytes → Bytes → Bool
eq_bytes a b = elim (cmp_bytes a b) [ Ordering.eq ↦ true | _ ↦ false ]

pub eq_bytes_iff : (a b : Bytes) → (eq_bytes a b ≡ true) ↔ (a ≡ b)
eq_bytes_iff a b = ground (arith, cmp_bytes-eq a b, cmp_bytes_refl a)

pub Ordering-cases : (o : Ordering) → (o ≡ Ordering.lt) ⊎ ((o ≡ Ordering.eq) ⊎ (o ≡ Ordering.gt))
Ordering-cases Ordering.lt = inl refl
Ordering-cases Ordering.eq = inr (inl refl)
Ordering-cases Ordering.gt = inr (inr refl)
