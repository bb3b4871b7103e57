-- ===== src/Logger.antt =====
-- logger/logger.go: what a logger adds to its lines. Zap's sugared logger and the tracer are not part
-- of this repository: parameters. A value of a field is the list of its bytes, ASCII ones.
pub mod Laws
pub mod Setup
mod Scenarios
use Prim.Native.String
use go_rkvstcommon.Prelude.{
  ℕ, ◌+◌, String, ◌==◌, Bool, Option, none, some, List, [], ◌∷◌, if◌then◌else◌,
}
use go_rkvstcommon.Prelude.Int.{pos}
use go_rkvstcommon.Prelude.Dict.{string_key, Dict, lookup}
use go_rkvstcommon.Prelude.Decimal.{format_int}
use go_rkvstcommon.Prelude.Outcome.{Outcome, ok, err, panic, and_then}
use go_rkvstcommon.Tracing.Pod.{Text}
use go_rkvstcommon.Tracing.Headers.{to_lower}

-- zapcore.Level, as far as the package uses it
pub data Level : Type 0 where
  debug_level info_level error_level : Level

-- A value of type any: a string, or another one by a number
pub data AnyValue : Type 0 where
  string : String → AnyValue
  other : ℕ → AnyValue

-- fmt.Sprintf("arg%d", i)
abbrev pub arg_key : ℕ → String
arg_key i = String.◌∷◌ "a" (String.◌∷◌ "r" (String.◌∷◌ "g" (format_int (pos i))))

-- The loop over the arguments in ErrorR, InfoR and DebugR, from index i on
unfoldable pub key_vals_from : ℕ → List AnyValue → List AnyValue
key_vals_from i [] = []
key_vals_from i (v ∷ args) = string (arg_key i) ∷ v ∷ key_vals_from (i + 1) args

unfoldable pub key_vals : List AnyValue → List AnyValue
unfolding key_vals_from
key_vals args = key_vals_from 0 args

-- What this package calls of *zap.SugaredLogger
pub record Zap (L : Type 0) : Type 0 where
  -- With(zap.String(key, value))
  pub with_string : String → Text → L → L
  -- Desugar().Check(level, "") != nil
  pub enabled : Level → L → Bool
  -- WithOptions(zap.AddCallerSkip(n))
  pub with_caller_skip : ℕ → L → L

-- A line that is log_args: by which logger, on which level, its message, keys and values
pub record Line (L : Type 0) : Type 0 where
  pub logger : L
  pub level : Level
  pub message : String
  pub key_values : List AnyValue

abbrev pub info_name : String
info_name = "INFO"

-- TraceIDKey
abbrev pub trace_id_key : String
trace_id_key = "x-b3-traceid"

abbrev pub service_name_key : String
service_name_key = "servicename"

-- A line that the global logger Sugar writes on the way to a result: it panics where Sugar is nil,
-- and `sugar` says whether it is set.
abbrev pub logged : {A : Type 0} → Bool → Outcome String A → Outcome String A
logged Bool.true o = o
logged Bool.false o = panic

found_value : Bool → Option Text → Outcome String Text
found_value sugar none = logged sugar (ok [])
found_value sugar (some []) = logged sugar (ok [])
found_value sugar (some (c ∷ value)) = ok (c ∷ value)

-- valueFromCarrier
unfoldable pub value_from_carrier : Bool → Dict String Text → String → Outcome String Text
unfolding lookup found_value
value_from_carrier sugar carrier key = found_value sugar (lookup key carrier)

module _ {L : Type 0} (zap : Zap L) where
  -- ErrorR, InfoR and DebugR
  log_args : Level → L → String → List AnyValue → Line L
  unfolding key_vals
  log_args level l msg args = record {
    logger = zap.with_caller_skip 1 l;
    level = level;
    message = msg;
    key_values = key_vals args;
  }

  unfoldable pub error_r : L → String → List AnyValue → Line L
  unfolding log_args
  error_r = log_args error_level

  unfoldable pub info_r : L → String → List AnyValue → Line L
  unfolding log_args
  info_r = log_args info_level

  unfoldable pub debug_r : L → String → List AnyValue → Line L
  unfolding log_args
  debug_r = log_args debug_level

  -- (*WrappedLogger).Check, whose other names fall through to the debug level
  unfoldable pub check : String → L → Bool
  check lvl l = if lvl == info_name then zap.enabled info_level l else zap.enabled debug_level l

  -- WithIndex
  unfoldable pub with_index : String → Text → L → L
  unfolding to_lower
  with_index key value l = zap.with_string key (to_lower value) l

  -- WithServiceName
  unfoldable pub with_service_name : Text → L → L
  unfolding with_index
  with_service_name name l = with_index service_name_key name l

  -- The end of FromContext, where no field is added for an empty trace ID
  with_trace_id : Text → L → L
  with_trace_id [] l = l
  with_trace_id (c ∷ id) l = zap.with_string trace_id_key (c ∷ id) l

  -- What is made of the carrier that Inject fills
  of_carrier : Bool → Outcome String (Dict String Text) → L → Outcome String L
  unfolding value_from_carrier with_trace_id
  of_carrier sugar (ok carrier) l =
      and_then (value_from_carrier sugar carrier trace_id_key) λ id. ok (with_trace_id id l)
  of_carrier sugar (err e) l = logged sugar (ok l)
  of_carrier sugar panic l = panic

  -- (*WrappedLogger).FromContext, by whether the global Sugar is set, the span of the context and
  -- the tracer's Inject
  unfoldable pub from_context :
      {S : Type 0}
      → Bool
      → (S → Outcome String (Dict String Text))
      → Option S
      → L
      → Outcome String L
  unfolding of_carrier
  from_context sugar inject none l = logged sugar (ok l)
  from_context sugar inject (some span) l = of_carrier sugar (inject span) l

-- What Sync returns: an error, which may be syscall.EINVAL
pub data SyncError : Type 0 where
  einval : SyncError
  other_error : String → SyncError

-- (*WrappedLogger).Close: whether it logs that the flush failed
unfoldable pub close_logs : Option SyncError → Bool
close_logs none = Bool.false
close_logs (some einval) = Bool.false
close_logs (some (other_error e)) = Bool.true
