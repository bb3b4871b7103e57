-- ===== src/Azbus/Protocol/Changes.antt =====
-- How the actions of azbus's objects that change the connection record that.
use mathlib.Core.Path.{subst}
use go_rkvstcommon.Prelude.{
  if◌then◌else◌, ◌≡◌, refl, sym, ap, ◌∙◌, Bool, true, false, some, [], ◌∷◌, ◌++◌, arith, Bool-cases,
  inl, inr,
}
use go_rkvstcommon.Prelude.Outcome.{Outcome, ok, err, panic, Outcome-cases}
use go_rkvstcommon.Prelude.Exec.{Exec, continue, ◌>>=◌, ◌>>◌}
use go_rkvstcommon.Azbus.Error.{BusError}
use go_rkvstcommon.Azbus.Bus.{Call, World, perform, wrapping, logging, put, wrap_outcome}
use go_rkvstcommon.Azbus.Protocol.{makes, closes, after, follow}
use go_rkvstcommon.Azbus.Protocol.Keeps.{
  Holder, InStep, At, Keeps, Leaves, At-of-InStep, InStep-of-At, follow-perform, continue-property,
}

module _ {S : Type 0} (l : Holder S) where
  pub Leaves->>= :
      {A B : Type 0} (b : Bool) (m : Exec (World S) BusError A) (f : A → Exec (World S) BusError B)
      → Keeps l b m
      → ((a : A) → Leaves l b (f a))
      → Leaves l b (m >>= f)
  unfolding Keeps Leaves
  Leaves->>= b m f k n w a =
      continue-property l (InStep l) (m w).0 f (m w).1 (InStep-of-At l b (m w).1 (k w a))
        (λ x. n x (m w).1 (k w a))

  makes-continue :
      {A : Type 0} (o : Outcome BusError Unit) (k : Exec (World S) BusError A) (w : World S)
      → l.opened w.0 ≡ false
      → follow l.effect l.bus [] w.1 false ≡ after false makes o
      → ((w : World S) → follow l.effect l.bus [] w.1 false ≡ some true → InStep l (k w).1)
      → InStep l (continue (wrap_outcome o) (λ _. k) w).1
  unfolding InStep after
  makes-continue (ok t) k w e f n = n w f
  makes-continue (err x) k w e f n = f ∙ ap some (sym e)
  makes-continue panic k w e f n = f ∙ ap some (sym e)

  -- The connection is made, and what is done next records that.
  pub Leaves-makes :
      {A : Type 0} (c : Call) (k : Exec (World S) BusError A)
      → l.effect c ≡ makes
      → ((w : World S) → follow l.effect l.bus [] w.1 false ≡ some true → InStep l (k w).1)
      → Leaves l false (wrapping (perform l.bus.done c) >> k)
  unfolding Leaves At wrapping perform
  Leaves-makes c k e n w a =
      makes-continue (l.bus.done w.1 c) k (w.0, w.1 ++ c ∷ []) a.0
        (follow-perform l l.bus.done c false w a ∙ ap (λ x. after false x (l.bus.done w.1 c)) e) n

  -- The connection is closed, and the object records that.
  pub Leaves-closes :
      (c : Call) (s : S)
      → l.effect c ≡ closes
      → l.opened s ≡ false
      → Leaves l true (logging (perform l.bus.done c) >> put s)
  unfolding Leaves InStep At logging perform put after
  Leaves-closes c s e o w a =
      let f =
        follow-perform l l.bus.done c true w a ∙ ap (λ x. after true x (l.bus.done w.1 c)) e in
      elim (Outcome-cases (l.bus.done w.1 c)) [
        | inl (t, d) ↦ ground arith
        | inr (inl (e', d)) ↦ ground arith
        | inr (inr d) ↦ ground arith
      ]

  continue-InStep :
      {A B : Type 0} (o : Outcome BusError A) (f : A → Exec (World S) BusError B) (w : World S)
      → InStep l w
      → ((a : A) → o ≡ ok a → InStep l (f a w).1)
      → InStep l (continue o f w).1
  continue-InStep (ok a) f w i q = q a refl
  continue-InStep (err e) f w i q = i
  continue-InStep panic f w i q = i

  -- An action that keeps up with its connection, then another one where it succeeded.
  pub InStep->>= :
      {A B : Type 0} (m : Exec (World S) BusError A) (f : A → Exec (World S) BusError B)
      (w : World S)
      → InStep l (m w).1
      → ((a : A) → (m w).0 ≡ ok a → InStep l (f a (m w).1).1)
      → InStep l ((m >>= f) w).1
  InStep->>= m f w i q = continue-InStep (m w).0 f (m w).1 i q

  -- An action that looks first whether there is a connection
  pub InStep-if :
      {A : Type 0} (m n : Exec (World S) BusError A) (w : World S)
      → InStep l w
      → (l.opened w.0 ≡ true → At l true w → InStep l (m w).1)
      → (l.opened w.0 ≡ false → At l false w → InStep l (n w).1)
      → InStep l ((if l.opened w.0 then m else n) w).1
  InStep-if m n w i p q = elim (Bool-cases (l.opened w.0)) [
    | inl t ↦
        subst (λ b. InStep l ((if b then m else n) w).1) (sym t) (p t (At-of-InStep l true w i t))
    | inr f ↦
        subst (λ b. InStep l ((if b then m else n) w).1) (sym f) (q f (At-of-InStep l false w i f))
  ]

  pub InStep-either :
      {A : Type 0} (b : Bool) (m n : Exec (World S) BusError A) (w : World S)
      → InStep l (m w).1
      → InStep l (n w).1
      → InStep l ((if b then m else n) w).1
  InStep-either true m n w p q = p
  InStep-either false m n w p q = q
