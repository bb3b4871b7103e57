-- ===== src/Azbus/Protocol/Keeps.antt =====
-- How the actions of azbus's objects keep the state they record of their connection in step with
-- the calls they made.
use mathlib.Core.List.{append_assoc, append-nil}
use go_rkvstcommon.Prelude.{
  String, ◌==◌, if◌then◌else◌, ◌≡◌, refl, sym, ap, ◌∙◌, Bool, true, false, Option, none, some, List,
  [], ◌∷◌, ◌++◌,
}
use go_rkvstcommon.Prelude.Outcome.{Outcome, ok, err, panic}
use go_rkvstcommon.Prelude.Exec.{Exec, continue, pure, fail, ◌>>=◌}
use go_rkvstcommon.Azbus.Error.{BusError}
use go_rkvstcommon.Azbus.Bus.{
  Call, History, Bus, World, perform, wrapping, logging, put, AzClient, az_client, new_client,
  no_connection_string,
}
use go_rkvstcommon.Azbus.Protocol.{Effect, elsewhere, uses, after, follow, then_go}

then_go-some : (o : Option Bool) → then_go o some ≡ o
then_go-some none = refl
then_go-some (some b) = refl

then_go-then_go :
    (o : Option Bool) (f g : Bool → Option Bool) (k : Bool → Option Bool)
    → ((b : Bool) → f b ≡ then_go (g b) k)
    → then_go o f ≡ then_go (then_go o g) k
then_go-then_go none f g k e = refl
then_go-then_go (some b) f g k e = e b

module _ (effect : Call → Effect) (bus : Bus) where
  -- One more call is one more step.
  pub follow-snoc :
      (calls : List Call) (h : History) (c : Call) (b : Bool)
      → follow effect bus h (calls ++ c ∷ []) b
        ≡ then_go
            (follow effect bus h calls b)
            (λ b'. after b' (effect c) (bus.done (h ++ calls) c))
  unfolding follow
  follow-snoc [] h c b =
      then_go-some _ ∙ ap (λ x. after b (effect c) (bus.done x c)) (sym (append-nil h))
  follow-snoc (d ∷ calls) h c b = then_go-then_go (after b (effect d) (bus.done h d)) _ _ _ (λ b'.
      follow-snoc calls (h ++ d ∷ []) c b'
      ∙ ap
          (λ x.
            then_go (follow effect bus (h ++ d ∷ []) calls b')
              (λ z. after z (effect c) (bus.done x c)))
          (append_assoc h (d ∷ []) calls))

after-elsewhere : (b : Bool) (o : Outcome BusError Unit) → after b elsewhere o ≡ some b
unfolding after
after-elsewhere true o = refl
after-elsewhere false o = refl

-- An object with state S, on a bus: what its calls do with its connection, and whether it holds
-- the connection to be open.
pub record Holder (S : Type 0) : Type 0 where
  pub bus : Bus
  pub effect : Call → Effect
  pub opened : S → Bool

module _ {S : Type 0} (l : Holder S) where
  -- The calls made were in order, and leave the connection as the object keeps it.
  unfoldable pub InStep : World S → Type 0
  unfolding follow
  InStep w = follow l.effect l.bus [] w.1 false ≡ some (l.opened w.0)

  -- The same, where the connection is known
  unfoldable pub At : Bool → World S → Type 0
  unfolding follow
  At b w = (l.opened w.0 ≡ b) × (follow l.effect l.bus [] w.1 false ≡ some b)

  -- An action that leaves the connection alone
  unfoldable pub Keeps : {A : Type 0} → Bool → Exec (World S) BusError A → Type 0
  unfolding At
  Keeps b m = (w : World S) → At b w → At b (m w).1

  -- An action that may change the connection, and keeps up with it
  unfoldable pub Leaves : {A : Type 0} → Bool → Exec (World S) BusError A → Type 0
  unfolding At InStep
  Leaves b m = (w : World S) → At b w → InStep (m w).1

  pub At-of-InStep : (b : Bool) (w : World S) → InStep w → l.opened w.0 ≡ b → At b w
  unfolding At InStep
  At-of-InStep b w i o = (o, i ∙ ap some o)

  pub InStep-of-At : (b : Bool) (w : World S) → At b w → InStep w
  unfolding At InStep
  InStep-of-At b w (o, f) = f ∙ ap some (sym o)

  -- A call and the step it is.
  pub follow-perform :
      {A : Type 0} (answer : History → Call → Outcome BusError A) (c : Call) (b : Bool)
      (w : World S)
      → At b w
      → follow l.effect l.bus [] (perform answer c w).1.1 false
        ≡ after b (l.effect c) (l.bus.done w.1 c)
  unfolding At perform
  follow-perform answer c b w (o, f) =
      follow-snoc l.effect l.bus w.1 [] c false
      ∙ ap (λ x. then_go x (λ b'. after b' (l.effect c) (l.bus.done w.1 c))) f

  pub Leaves-of-Keeps :
      {A : Type 0} (b : Bool) (m : Exec (World S) BusError A) → Keeps b m → Leaves b m
  unfolding Keeps Leaves
  Leaves-of-Keeps b m k w a = InStep-of-At b (m w).1 (k w a)

  pub Keeps-elsewhere :
      {A : Type 0} (answer : History → Call → Outcome BusError A) (c : Call) (b : Bool)
      → l.effect c ≡ elsewhere
      → Keeps b (perform answer c)
  unfolding Keeps At perform after
  Keeps-elsewhere answer c b e w a = (
    a.0,
    follow-perform answer c b w a
        ∙ ap (λ x. after b x (l.bus.done w.1 c)) e
        ∙ after-elsewhere b (l.bus.done w.1 c),
  )

  pub Keeps-uses :
      {A : Type 0} (answer : History → Call → Outcome BusError A) (c : Call)
      → l.effect c ≡ uses
      → Keeps true (perform answer c)
  unfolding Keeps At perform after
  Keeps-uses answer c e w a =
      (a.0, follow-perform answer c true w a ∙ ap (λ x. after true x (l.bus.done w.1 c)) e)

  pub Keeps-wrapping :
      {A : Type 0} (b : Bool) (m : Exec (World S) BusError A) → Keeps b m → Keeps b (wrapping m)
  unfolding Keeps wrapping
  Keeps-wrapping b m k = k

  -- An action whose outcome is changed
  pub Keeps-outcome :
      {A B : Type 0} (b : Bool) (g : Outcome BusError A → Outcome BusError B)
      (m : Exec (World S) BusError A)
      → Keeps b m
      → Keeps b (λ w. (g (m w).0, (m w).1))
  unfolding Keeps
  Keeps-outcome b g m k = k

  pub Keeps-logging :
      {A : Type 0} (b : Bool) (m : Exec (World S) BusError A) → Keeps b m → Keeps b (logging m)
  unfolding Keeps logging
  Keeps-logging b m k = k

  pub Keeps-put : (b : Bool) (s : S) → l.opened s ≡ b → Keeps b (put s)
  unfolding Keeps At put
  Keeps-put b s o w a = (o, a.1)

  -- An outcome other than success ends the action where it is.
  pub continue-property :
      {A B : Type 0} (P : World S → Type 0) (o : Outcome BusError A)
      (f : A → Exec (World S) BusError B) (w : World S)
      → P w
      → ((a : A) → P (f a w).1)
      → P (continue o f w).1
  continue-property P (ok a) f w p q = q a
  continue-property P (err e) f w p q = p
  continue-property P panic f w p q = p

  pub Keeps->>= :
      {A B : Type 0} (b : Bool) (m : Exec (World S) BusError A) (f : A → Exec (World S) BusError B)
      → Keeps b m
      → ((a : A) → Keeps b (f a))
      → Keeps b (m >>= f)
  unfolding Keeps
  Keeps->>= b m f k n w a =
      continue-property (At b) (m w).0 f (m w).1 (k w a) (λ x. n x (m w).1 (k w a))

  pub Keeps-pure : {A : Type 0} (b : Bool) (a : A) → Keeps b (pure a)
  unfolding Keeps
  Keeps-pure b a w k = k

  pub Keeps-fail : (A : Type 0) (b : Bool) (e : BusError) → Keeps {A = A} b (fail e)
  unfolding Keeps
  Keeps-fail A b e w k = k

  pub Keeps-if :
      {A : Type 0} (b c : Bool) (m n : Exec (World S) BusError A)
      → Keeps b m
      → Keeps b n
      → Keeps b (if c then m else n)
  Keeps-if b true m n k r = k
  Keeps-if b false m n k r = r

  -- The client is made.
  pub Keeps-az_client :
      (b : Bool) (c : AzClient)
      → ((name : String) → l.effect (new_client name) ≡ elsewhere)
      → Keeps b (az_client l.bus c)
  unfolding az_client
  Keeps-az_client b c e = Keeps-if b c.client _ _ (Keeps-pure b c) (
      Keeps-if b (c.connection_string == "") _ _ (Keeps-fail _ b no_connection_string) (
        Keeps->>= b _ _ (Keeps-wrapping b _ (Keeps-elsewhere l.bus.done _ b (e _)))
          (λ t. Keeps-pure b _)))
