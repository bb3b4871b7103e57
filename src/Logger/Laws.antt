-- ===== src/Logger/Laws.antt =====
-- The arguments of ErrorR, InfoR and DebugR of logger/logger.go, and the trace that a logger carries.
use go_rkvstcommon.Prelude.{
  ℕ, zero, suc, ◌+◌, ◌<◌, ◌≤◌, ◌^◌, ◌≡◌, refl, sym, ap, ◌∙◌, String, ◌==◌, eq_iff, Option, none,
  some, List, [], ◌∷◌, length, get_elem?, arith, if◌then◌else◌, Bool-cases, inl, inr, Bool, true,
  false,
}
use go_rkvstcommon.Prelude.Int.{pos}
use go_rkvstcommon.Prelude.Decimal.{format_int, parse_int}
use go_rkvstcommon.Prelude.Decimal.Laws.{parse_int-format_int}
use go_rkvstcommon.Prelude.Dict.{string_key, Dict}
use go_rkvstcommon.Prelude.Outcome.{Outcome, and_then, ok, err, panic, Outcome-cases}
use go_rkvstcommon.Tracing.Pod.{Text}
use go_rkvstcommon.Tracing.Context.{trace_id_from_context, found_or_empty}
use go_rkvstcommon.Logger.{
  AnyValue, string, arg_key, key_vals_from, key_vals, Zap, with_trace_id, found_value, logged,
  from_context,
}

-- The value of a key among keys and values, as the logger's sinks read them
unfoldable pub value_at : String → List AnyValue → Option AnyValue
value_at k (string j ∷ v ∷ rest) = if j == k then some v else value_at k rest
value_at k _ = none

format_int-injective :
    (i j : ℕ) → i < 2 ^ 63 → j < 2 ^ 63 → format_int (pos i) ≡ format_int (pos j) → i ≡ j
format_int-injective i j hi hj e =
    let p = sym (parse_int-format_int i hi) ∙ (ap parse_int e ∙ parse_int-format_int j hj) in cc

arg_key-injective : (i j : ℕ) → i < 2 ^ 63 → j < 2 ^ 63 → arg_key i ≡ arg_key j → i ≡ j
arg_key-injective i j hi hj e = format_int-injective i j hi hj (cc)

key_vals_from-value_at :
    (args : List AnyValue) (k j : ℕ)
    → k + length args ≤ 2 ^ 63
    → k + j < 2 ^ 63
    → value_at (arg_key (k + j)) (key_vals_from k args) ≡ get_elem? args j
unfolding value_at key_vals_from
key_vals_from-value_at [] k j h b = refl
key_vals_from-value_at (v ∷ args) k zero h b =
    let e : k ≡ k + 0 = omega arith in
    rw ((eq_iff (arg_key k) (arg_key (k + 0))).1 (ap arg_key e)) refl
key_vals_from-value_at (v ∷ args) k (suc j) h b =
    elim (Bool-cases (arg_key k == arg_key (k + suc j))) [
      | inl t ↦
          (let e =
              arg_key-injective k (k + suc j) (omega arith) b
                ((eq_iff (arg_key k) (arg_key (k + suc j))).0 t) in
            absurd (omega arith))
      | inr f ↦
          (let e : k + suc j ≡ k + 1 + j = omega arith in
            rw f (
              ap (λ n. value_at (arg_key n) (key_vals_from (k + 1) args)) e
              ∙ key_vals_from-value_at args (k + 1) j (omega arith) (omega arith)))
    ]

-- Of up to 2 ^ 63 arguments, which is as many as a slice can have, each is found under its own key:
-- argument j under the key arg followed by j, and nothing under the key of an argument there is not.
pub key_vals-value_at :
    (args : List AnyValue) (j : ℕ)
    → length args ≤ 2 ^ 63
    → j < 2 ^ 63
    → value_at (arg_key j) (key_vals args) ≡ get_elem? args j
unfolding key_vals
key_vals-value_at args j h b =
    let e : j ≡ 0 + j = omega arith in
    ap (λ n. value_at (arg_key n) (key_vals_from 0 args)) e
    ∙ key_vals_from-value_at args 0 j (omega arith) (omega arith)

module _ {L : Type 0} (zap : Zap L) where
  -- The logger with this trace ID, if there is one
  abbrev pub traced : L → Text → L
  traced l [] = l
  traced l (c ∷ id) = zap.with_string "x-b3-traceid" (c ∷ id) l

  -- What comes of a trace ID: with an empty one a line is written by the global Sugar, which panics
  -- where it is nil.
  abbrev pub traced_by : Bool → L → Outcome String Text → Outcome String L
  traced_by sugar l (ok (c ∷ id)) = ok (traced l (c ∷ id))
  traced_by true l (ok []) = ok l
  traced_by false l (ok []) = panic
  traced_by sugar l (err e) = err e
  traced_by sugar l panic = panic

  found-traced :
      (sugar : Bool) (l : L) (o : Option Text)
      → and_then (found_value sugar o) (λ id. ok (with_trace_id zap id l))
        ≡ traced_by sugar l (ok (found_or_empty o))
  unfolding found_value with_trace_id
  found-traced true l none = refl
  found-traced false l none = refl
  found-traced true l (some []) = refl
  found-traced false l (some []) = refl
  found-traced sugar l (some (c ∷ id)) = refl

  -- FromContext adds to the logger the field x-b3-traceid with just the trace ID that
  -- TraceIDFromContext of the package tracing returns for the same context. Where that is empty it
  -- returns the logger itself if the global Sugar is set, and panics if it is nil; and where
  -- TraceIDFromContext panics it does too.
  pub from_context-trace_id :
      {S : Type 0} (sugar : Bool) (inject : S → Outcome String (Dict String Text)) (span : Option S)
      (l : L)
      → from_context zap sugar inject span l ≡ traced_by sugar l (trace_id_from_context inject span)
  unfolding from_context trace_id_from_context go_rkvstcommon.Logger.value_from_carrier
      go_rkvstcommon.Tracing.Context.value_from_carrier
  from_context-trace_id true inject none l = refl
  from_context-trace_id false inject none l = refl
  from_context-trace_id sugar inject (some span) l = elim (Outcome-cases (inject span)) [
    | inl (c, e) ↦ rw e (found-traced sugar l _)
    | inr (inl (x, e)) ↦ rw e (elim sugar as (λ b. logged b (ok l) ≡ traced_by b l (ok [])) [
      | true ↦ refl
      | false ↦ refl
    ])
    | inr (inr e) ↦ rw e refl
  ]
