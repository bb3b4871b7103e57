-- ===== src/Prelude/Outcome.antt =====
-- The outcome of a Go call that returns a value or an error, or that panics.
use mathlib.Core.Path.{◌≡◌, refl}
use mathlib.Core.Logic.{◌⊎◌, inl, inr}

pub data Outcome {ℓ} (E A : Type ℓ) : Type ℓ where
  ok : A → Outcome E A
  err : E → Outcome E A
  panic : Outcome E A

module _ {ℓ} {E A : Type ℓ} where
  -- Success, or one of the two failures.
  pub Outcome-cases :
      (o : Outcome E A) → ((a : A) × (o ≡ ok a)) ⊎ (((e : E) × (o ≡ err e)) ⊎ (o ≡ panic))
  Outcome-cases (ok a) = inl (a, refl)
  Outcome-cases (err e) = inr (inl (e, refl))
  Outcome-cases panic = inr (inr refl)

  pub ok-injective : {a b : A} → ◌≡◌ {A = Outcome E A} (ok a) (ok b) → a ≡ b
  ok-injective h = cc

module _ {ℓ} {E A B : Type ℓ} where
  -- A call, and what is done with its value
  abbrev pub and_then : Outcome E A → (A → Outcome E B) → Outcome E B
  and_then (ok a) f = f a
  and_then (err e) f = err e
  and_then panic f = panic

  -- What a successful chain of two calls says of the first.
  pub and_then-ok :
      (o : Outcome E A) (f : A → Outcome E B) (b : B)
      → and_then o f ≡ ok b
      → (a : A) × (o ≡ ok a) × (f a ≡ ok b)
  and_then-ok (ok a) f b h = (a, refl, h)
  and_then-ok (err e) f b h = cc
  and_then-ok panic f b h = cc
