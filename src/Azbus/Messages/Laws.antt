-- ===== src/Azbus/Messages/Laws.antt =====
-- That the trace of azbus/tracing.go reaches the receiver of a message.
use mathlib.Core.Path.{subst}
use go_rkvstcommon.Prelude.{
  ℕ, ◌≡◌, refl, sym, ap, ◌∙◌, String, ◌==◌, eq_iff, true, false, Option, none, some, List, [], ◌∷◌,
  arith, inl, inr, Bool-cases,
}
use go_rkvstcommon.Prelude.Outcome.{Outcome, ok}
use go_rkvstcommon.Prelude.Dict.{
  string_key, Dict, lookup, insert, remove, lookup-insert, lookup-remove,
}
use go_rkvstcommon.Azbus.Messages.{
  Property, text, other, Properties, set_property, set_all, update_sending_message_for_span,
  received_carrier, received_span, properties, child_of, batch_carrier, batch_span,
}

-- The string that a property is
abbrev pub string_of : Option Property → Option String
string_of none = none
string_of (some (text v)) = some v
string_of (some (other n)) = none

-- Each key is there once.
unfoldable pub Unique : {V : Type 0} → Dict String V → Type 0
unfolding lookup
Unique [] = Unit
Unique ((k, v) ∷ m) = (lookup k m ≡ none) × Unique m

received_carrier-lookup :
    (m : Properties) (k : String)
    → Unique m
    → lookup k (received_carrier m) ≡ string_of (lookup k m)
unfolding received_carrier lookup Unique
received_carrier-lookup [] k u = refl
received_carrier-lookup ((j, text v) ∷ m) k (n, u) =
    ground (arith, received_carrier-lookup m k u, lookup-insert j k v (received_carrier m))
received_carrier-lookup ((j, other i) ∷ m) k (n, u) = elim (Bool-cases (j == k)) [
  | inl t ↦
      (let e = ap (λ x. lookup x m) (sym ((eq_iff j k).0 t)) in
        ground (arith, received_carrier-lookup m k u))
  | inr f ↦ ground (arith, received_carrier-lookup m k u)
]

lookup-remove-none :
    {V : Type 0} (k j : String) (m : Dict String V)
    → lookup j m ≡ none
    → lookup j (remove k m) ≡ none
lookup-remove-none k j m h = ground (arith, lookup-remove k j m)

remove-same :
    {V : Type 0} (k j : String) (v : V) (m : Dict String V)
    → j == k ≡ true
    → remove k ((j, v) ∷ m) ≡ remove k m
unfolding remove
remove-same k j v m t = rw t refl

remove-other :
    {V : Type 0} (k j : String) (v : V) (m : Dict String V)
    → j == k ≡ false
    → remove k ((j, v) ∷ m) ≡ (j, v) ∷ remove k m
unfolding remove
remove-other k j v m f = rw f refl

remove-Unique : {V : Type 0} (k : String) (m : Dict String V) → Unique m → Unique (remove k m)
unfolding Unique remove
remove-Unique k [] u = tt
remove-Unique k ((j, v) ∷ m) (n, u) = elim (Bool-cases (j == k)) [
  | inl t ↦ subst Unique (sym (remove-same k j v m t)) (remove-Unique k m u)
  | inr f ↦
      subst Unique (sym (remove-other k j v m f)) (lookup-remove-none k j m n, remove-Unique k m u)
]

insert-Unique :
    {V : Type 0} (k : String) (v : V) (m : Dict String V) → Unique m → Unique (insert k v m)
unfolding Unique insert
insert-Unique k v m u = (ground (arith, lookup-remove k k m, eq_iff k k), remove-Unique k m u)

-- The first of the two that there is
abbrev pub or_else : Option String → Option String → Option String
or_else none o = o
or_else (some v) o = some v

or_else-insert :
    (j v : String) (c : Dict String String) (m : Properties) (k : String)
    → lookup j c ≡ none
    → or_else (lookup k c) (string_of (lookup k (insert j (text v) m)))
      ≡ or_else (lookup k ((j, v) ∷ c)) (string_of (lookup k m))
unfolding lookup
or_else-insert j v c m k n = elim (Bool-cases (j == k)) [
  | inl t ↦
      (let e = ap (λ x. lookup x c) (sym ((eq_iff j k).0 t)) in
        ground (arith, lookup-insert j k (text v) m))
  | inr f ↦ ground (arith, lookup-insert j k (text v) m)
]

-- The properties with those of the carrier
set_all-properties :
    (c : Dict String String) (body : List ℕ) (m : Properties)
    → Unique c
    → Unique m
    → (m' : Properties) × (set_all c (record { body = body; application_properties = some m })
        ≡ ok (record { body = body; application_properties = some m' }))
      × Unique m'
      × ((k : String) → string_of (lookup k m') ≡ or_else (lookup k c) (string_of (lookup k m)))
unfolding set_all set_property lookup Unique
set_all-properties [] body m u w = (m, refl, w, λ k. refl)
set_all-properties ((j, v) ∷ c) body m (n, u) w =
    let (m', e, w', f) =
      set_all-properties c body (insert j (text v) m) u (insert-Unique j (text v) m w) in
    (m', e, w', λ k. f k ∙ or_else-insert j v c m k n)

-- Where a message has a map of properties, what the tracer injects into it when it is sent is all
-- found again in the carrier that the receiver of those properties extracts from; another key has
-- there the property of the message that is a string, if it is one.
pub update_sending_message_for_span-received :
    (c : Dict String String) (body : List ℕ) (m : Properties)
    → Unique c
    → Unique m
    → (m' : Properties) × (update_sending_message_for_span
          (ok c)
          (record { body = body; application_properties = some m })
        ≡ ok (record { body = body; application_properties = some m' }))
      × ((k : String)
          → lookup k (received_carrier m') ≡ or_else (lookup k c) (string_of (lookup k m)))
unfolding update_sending_message_for_span
update_sending_message_for_span-received c body m u w =
    let (m', e, w', f) = set_all-properties c body m u w in
    (m', e, λ k. received_carrier-lookup m' k w' ∙ f k)

texts : Dict String String → Properties
texts [] = []
texts ((k, v) ∷ m) = (k, text v) ∷ texts m

received_carrier-texts : (m : Dict String String) → received_carrier (texts m) ≡ batch_carrier m
unfolding received_carrier batch_carrier texts
received_carrier-texts [] = refl
received_carrier-texts ((k, v) ∷ m) = ap (insert k v) (received_carrier-texts m)

-- The span of a batch with these properties is that of a message that has them as its properties.
batch_span-received_span :
    {P S : Type 0} (extract : Dict String String → Outcome String P) (start_span : Option P → S)
    (m : Dict String String) (body : List ℕ)
    → batch_span extract start_span m
      ≡ received_span extract start_span
          (record { body = body; application_properties = some (texts m) })
unfolding batch_span received_span properties
batch_span-received_span extract start_span m body =
    ap (λ c. child_of (extract c) start_span) (sym (received_carrier-texts m))
