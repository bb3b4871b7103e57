-- ===== src/Prelude/Exec.antt =====
-- Calls that act on a world outside the program (a service, a connection) and may fail. What a call
-- did to the world before it failed stays done, so the world comes back beside the error too.
use mathlib.Core.Path.{◌≡◌, refl}
use go_rkvstcommon.Prelude.Outcome.{Outcome, ok, err, panic}

abbrev pub Exec {ℓ} : Type ℓ → Type ℓ → Type ℓ → Type ℓ
Exec W E A = W → Outcome E A × W

module _ {ℓ} {W E A : Type ℓ} where
  abbrev pub pure : A → Exec W E A
  pure a w = (ok a, w)

  abbrev pub fail : E → Exec W E A
  fail e w = (err e, w)

module _ {ℓ} {W E A B : Type ℓ} where
  abbrev pub continue : Outcome E A → (A → Exec W E B) → Exec W E B
  continue (ok a) f w = f a w
  continue (err e) f w = (err e, w)
  continue panic f w = (panic, w)

  infixl 5 ◌>>=◌ ◌>>◌
  abbrev pub ◌>>=◌ : Exec W E A → (A → Exec W E B) → Exec W E B
  ◌>>=◌ m f w = continue (m w).0 f (m w).1

  abbrev pub ◌>>◌ : Exec W E A → Exec W E B → Exec W E B
  ◌>>◌ m k = m >>= λ _. k

  continue-eq-ok :
      (o : Outcome E A) (f : A → Exec W E B) (w : W) {b : B}
      → (continue o f w).0 ≡ ok b
      → (a : A) × (o ≡ ok a) × ((f a w).0 ≡ ok b) × ((continue o f w).1 ≡ (f a w).1)
  continue-eq-ok (ok a) f w h = (a, refl, h, refl)
  continue-eq-ok (err e) f w h = cc
  continue-eq-ok panic f w h = cc

  -- What a successful chain says of its first action.
  pub >>=-eq-ok :
      (m : Exec W E A) (f : A → Exec W E B) (w : W) {b : B}
      → ((m >>= f) w).0 ≡ ok b
      → (a : A) × ((m w).0 ≡ ok a) × ((f a (m w).1).0 ≡ ok b) × (((m >>= f) w).1 ≡ (f a (m w).1).1)
  >>=-eq-ok m f w h = continue-eq-ok (m w).0 f (m w).1 h
