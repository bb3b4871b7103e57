-- ===== src/Azblob/Service/Asks.antt =====
-- Which requests an operation makes of the service: one rule for each way to build an operation.
use mathlib.Core.List.{append_assoc, append-nil}
use mathlib.Core.Path.{subst}
use go_rkvstcommon.Prelude.{◌≡◌, refl, sym, Bool, true, false, List, [], ◌∷◌, ◌++◌, if◌then◌else◌}
use go_rkvstcommon.Prelude.Outcome.{Outcome, ok, err, panic}
use go_rkvstcommon.Prelude.Exec.{Exec, continue, pure, fail, ◌>>=◌}
use go_rkvstcommon.Azblob.Error.{GoError}
use go_rkvstcommon.Azblob.Service.{Call, History, perform, local, with_error}

-- Some requests were made, in the order of `calls` and from its start.
abbrev pub Began : History → List Call → History → Type 0
Began h calls h' =
    (made : List Call) × (rest : List Call) × (h' ≡ h ++ made) × (calls ≡ made ++ rest)

-- With success all of `calls` were made; with a failure the first few of them.
abbrev pub Asked : {A : Type 0} → History → List Call → Outcome GoError A → History → Type 0
Asked h calls (ok a) h' = h' ≡ h ++ calls
Asked h calls (err e) h' = Began h calls h'
Asked h calls panic h' = Began h calls h'

pub record Asks {A : Type 0} (m : Exec History GoError A) (calls : List Call) : Type 0 where
  pub at : (h : History) → Asked h calls (m h).0 (m h).1

-- After a success all the requests were made.
pub Asks-eq :
    {A : Type 0} (m : Exec History GoError A) (calls : List Call) (h : History) {a : A}
    → Asks m calls
    → (m h).0 ≡ ok a
    → (m h).1 ≡ h ++ calls
Asks-eq m calls h k e = subst (λ o. Asked h calls o (m h).1) e (k.at h)

none_made : (h : History) (calls : List Call) → Began h calls h
none_made h calls = ([], calls, sym (append-nil h), refl)

module _ {A : Type 0} where
  pub Asks-pure : (a : A) → Asks (pure a) []
  Asks-pure a = record { at = λ h. sym (append-nil h) }

  pub Asks-fail : (e : GoError) (calls : List Call) → Asks {A = A} (fail e) calls
  Asks-fail e calls = record { at = λ h. none_made h calls }

  Asked-local : (o : Outcome GoError A) (h : History) → Asked h [] o h
  Asked-local (ok a) h = sym (append-nil h)
  Asked-local (err e) h = none_made h []
  Asked-local panic h = none_made h []

  pub Asks-local : (o : Outcome GoError A) → Asks (local o) []
  Asks-local o = record { at = λ h. Asked-local o h }

  Asked-perform :
      (o : Outcome GoError A) (call : Call) (h : History) → Asked h (call ∷ []) o (h ++ call ∷ [])
  Asked-perform (ok a) call h = refl
  Asked-perform (err e) call h = (call ∷ [], [], refl, refl)
  Asked-perform panic call h = (call ∷ [], [], refl, refl)

  pub Asks-perform :
      (answer : History → Call → Outcome GoError A) (call : Call)
      → Asks (perform answer call) (call ∷ [])
  unfolding perform
  Asks-perform answer call = record { at = λ h. Asked-perform (answer h call) call h }

  Asked-with_error :
      (o : Outcome GoError A) (h h' : History) (calls : List Call)
      → Asked h calls o h'
      → Asked h calls (with_error (λ _. (o, h')) h).0 h'
  Asked-with_error (ok a) h h' calls p = p
  Asked-with_error (err e) h h' calls p = p
  Asked-with_error panic h h' calls p = p

  pub Asks-with_error :
      (m : Exec History GoError A) (calls : List Call) → Asks m calls → Asks (with_error m) calls
  Asks-with_error m calls k = record { at = λ h. Asked-with_error (m h).0 h (m h).1 calls (k.at h) }

  Asked-after :
      (o : Outcome GoError A) (h h' h'' : History) (xs ys : List Call)
      → h' ≡ h ++ xs
      → Asked h' ys o h''
      → Asked h (xs ++ ys) o h''
  Asked-after (ok a) h h' h'' xs ys p q = rw (q, p) (append_assoc h xs ys)
  Asked-after (err e) h h' h'' xs ys p (made, rest, q, r) =
      (xs ++ made, rest, rw (q, p) (append_assoc h xs made), rw r (sym (append_assoc xs made rest)))
  Asked-after panic h h' h'' xs ys p (made, rest, q, r) =
      (xs ++ made, rest, rw (q, p) (append_assoc h xs made), rw r (sym (append_assoc xs made rest)))

  pub Asks-if :
      (b : Bool) (m n : Exec History GoError A) (calls : List Call)
      → (b ≡ true → Asks m calls)
      → (b ≡ false → Asks n calls)
      → Asks (if b then m else n) calls
  Asks-if true m n calls km kn = km refl
  Asks-if false m n calls km kn = kn refl

module _ {A B : Type 0} where
  Asked-bind :
      (o : Outcome GoError A) (f : A → Exec History GoError B) (h h' : History) (xs ys : List Call)
      → Asked h xs o h'
      → ((a : A) → o ≡ ok a → Asks (f a) ys)
      → Asked h (xs ++ ys) (continue o f h').0 (continue o f h').1
  Asked-bind (ok a) f h h' xs ys p k =
      Asked-after (f a h').0 h h' (f a h').1 xs ys p ((k a refl).at h')
  Asked-bind (err e) f h h' xs ys (made, rest, q, r) k =
      (made, rest ++ ys, q, rw r (append_assoc made rest ys))
  Asked-bind panic f h h' xs ys (made, rest, q, r) k =
      (made, rest ++ ys, q, rw r (append_assoc made rest ys))

  pub Asks-bind :
      (m : Exec History GoError A) (f : A → Exec History GoError B) (xs ys : List Call)
      → Asks m xs
      → ((a : A) → Asks (f a) ys)
      → Asks (m >>= f) (xs ++ ys)
  Asks-bind m f xs ys km kf = record {
    at = λ h. Asked-bind (m h).0 f h (m h).1 xs ys (km.at h) (λ a _. kf a);
  }

  -- A local call that succeeds hands its result to the rest.
  pub Asks-bind-local :
      (o : Outcome GoError A) (f : A → Exec History GoError B) (ys : List Call)
      → ((a : A) → o ≡ ok a → Asks (f a) ys)
      → Asks (local o >>= f) ys
  Asks-bind-local o f ys kf = record { at = λ h. Asked-bind o f h h [] ys (Asked-local o h) kf }

  -- A last step that asks for nothing.
  pub Asks-bind_last :
      (m : Exec History GoError A) (f : A → Exec History GoError B) (xs : List Call)
      → Asks m xs
      → ((a : A) → Asks (f a) [])
      → Asks (m >>= f) xs
  Asks-bind_last m f xs km kf = rw (← append-nil xs) (Asks-bind m f xs [] km kf)
