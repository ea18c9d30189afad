-- ===== src/Base/Fallible.antt =====
-- The outcome of a Rust function: `Ok`, `Err`, or that it does not return. That is a panic (an
-- `expect` on `None`, a capacity overflow), which no caller in this program catches, or a loop that
-- uses up its fuel.
use mathlib.Core.Path.{◌≡◌, refl}
use mathlib.Core.Logic.{◌⊎◌, inl, inr, ◌≢◌}

pub data Outcome {ℓ} (E A : Type ℓ) : Type ℓ where
  ok : A → Outcome E A
  err : E → Outcome E A
  panic : Outcome E A

-- The operator `?`.
module _ {ℓ} {E : Type ℓ} where
  infixl 5 ◌>>=◌
  abbrev pub ◌>>=◌ : {A B : Type ℓ} → Outcome E A → (A → Outcome E B) → Outcome E B
  panic >>= rest = panic
  err why >>= rest = err why
  ok value >>= rest = rest value

  -- `.map_err(…)`
  abbrev pub map_err : {F A : Type ℓ} → (E → F) → Outcome E A → Outcome F A
  map_err relabel panic = panic
  map_err relabel (err why) = err (relabel why)
  map_err relabel (ok value) = ok value

  -- A chain that ends in `Ok` has had `Ok` from its first call.
  pub >>=-eq-ok :
      {A B : Type ℓ} {answer : B} (call : Outcome E A) (rest : A → Outcome E B)
      → (call >>= rest) ≡ ok answer
      → (value : A) × (call ≡ ok value) × (rest value ≡ ok answer)
  >>=-eq-ok panic rest ended = cc
  >>=-eq-ok (err why) rest ended = cc
  >>=-eq-ok (ok value) rest ended = (value, refl, ended)

  -- A chain returns whose calls return.
  pub >>=-returns :
      {A B : Type ℓ} (call : Outcome E A) (rest : A → Outcome E B)
      → call ≢ panic
      → ((value : A) → rest value ≢ panic)
      → (call >>= rest) ≢ panic
  >>=-returns panic rest first then_rest ended = first refl
  >>=-returns (err why) rest first then_rest ended = cc
  >>=-returns (ok value) rest first then_rest ended = then_rest value ended

  pub ok-injective : {A : Type ℓ} {x y : A} → ◌≡◌ {A = Outcome E A} (ok x) (ok y) → x ≡ y
  ok-injective same = cc

  pub Outcome-cases :
      {A : Type ℓ} (call : Outcome E A)
      → ((value : A) × (call ≡ ok value)) ⊎ ((why : E) × (call ≡ err why)) ⊎ (call ≡ panic)
  Outcome-cases panic = inr (inr refl)
  Outcome-cases (err why) = inr (inl (why, refl))
  Outcome-cases (ok value) = inl (value, refl)

-- For the lines of a do block that give no value.
infixl 5 ◌>>◌
abbrev pub ◌>>◌ : {E B : Type 0} → Outcome E (Unit {0}) → Outcome E B → Outcome E B
check >> rest = check >>= λ _. rest
