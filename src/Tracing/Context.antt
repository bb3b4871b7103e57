-- ===== src/Tracing/Context.antt =====
-- The spans of tracing/tracing.go: what its functions ask of the tracer's libraries, which are not
-- part of this repository and are parameters.
use go_rkvstcommon.Prelude.{String, Option, none, some, [], ◌∷◌, ◌++◌}
use go_rkvstcommon.Prelude.Dict.{string_key, Dict, lookup}
use go_rkvstcommon.Prelude.Outcome.{Outcome, ok, err, panic}
use go_rkvstcommon.Tracing.Pod.{Text}

-- TraceID
abbrev pub trace_id_name : String
trace_id_name = "x-b3-traceid"

abbrev pub found_or_empty : Option Text → Text
found_or_empty none = []
found_or_empty (some value) = value

-- valueFromCarrier
unfoldable pub value_from_carrier : Dict String Text → String → Text
unfolding lookup
value_from_carrier carrier key = found_or_empty (lookup key carrier)

injected_id : Outcome String (Dict String Text) → Outcome String Text
unfolding value_from_carrier
injected_id (ok carrier) = ok (value_from_carrier carrier trace_id_name)
injected_id (err e) = ok []
injected_id panic = panic

module _ {S : Type 0} where
  -- TraceIDFromContext, by the span of the context and the tracer's Inject
  unfoldable pub trace_id_from_context :
      (S → Outcome String (Dict String Text)) → Option S → Outcome String Text
  unfolding injected_id
  trace_id_from_context inject none = ok []
  trace_id_from_context inject (some span) = injected_id (inject span)

  -- NewSpanContext, by the span that StartSpan returns: a context is its span, if it has one
  unfoldable pub new_span_context : Option S → Option S → Option S × Option S
  new_span_context none ctx = (none, ctx)
  new_span_context (some span) ctx = (some span, some span)

-- The name of a request's operation in HTTPMiddleware: HTTP method:path >
unfoldable pub operation_name : Text → Text → Text
operation_name method path = 72 ∷ 84 ∷ 84 ∷ 80 ∷ 32 ∷ (method ++ 58 ∷ (path ++ 32 ∷ 62 ∷ []))

-- The parts of Zipkin that New asks for: the endpoint E, the reporter R, the sampler P, the tracer N
-- and its wrapping T.
pub record Zipkin (E R P N T : Type 0) : Type 0 where
  pub new_endpoint : Text → Text → Outcome String E
  pub new_reporter : Text → R
  -- NewBoundarySampler(0.2, ...)
  pub new_sampler : Outcome String P
  -- NewTracer(reporter, WithLocalEndpoint, WithSharedSpans(false), WithSampler)
  pub new_native_tracer : R → E → P → Outcome String N
  pub wrap : N → T

abbrev or_panicf : {A B : Type 0} → Outcome String A → (A → Outcome Text B) → Outcome Text B
or_panicf (ok a) f = f a
or_panicf (err e) f = panic
or_panicf panic f = panic

module _ {E R P N T : Type 0} (zipkin : Zipkin E R P N T) where
  -- New: the reporter, and what the global tracer is then
  unfoldable pub new_zipkin_tracer : Text → Text → Text → Outcome Text (R × T)
  new_zipkin_tracer service host zipkin_endpoint =
      or_panicf (zipkin.new_endpoint service host) λ endpoint.
        or_panicf zipkin.new_sampler λ sampler.
          or_panicf
            (zipkin.new_native_tracer (zipkin.new_reporter zipkin_endpoint) endpoint sampler)
            λ tracer. ok (zipkin.new_reporter zipkin_endpoint, zipkin.wrap tracer)
