-- ===== src/Tracing/Setup.antt =====
-- NewTracer and NewFromEnv of tracing/tracing.go, and tracing/environment.go. A value of the
-- environment is the list of its bytes, ASCII ones. What New starts is Zipkin's, which is not part of
-- this repository: a parameter.
pub mod Laws
use go_rkvstcommon.Prelude.{
  ℕ, String, Bool, true, false, not, ◌&&◌, ◌||◌, Option, none, some, List, [], ◌∷◌, ◌++◌, nat_eq,
  leb, if◌then◌else◌,
}
use go_rkvstcommon.Prelude.Outcome.{Outcome, ok, err, panic, and_then}
use go_rkvstcommon.Tracing.Pod.{Text, trim_pod_name}
use go_rkvstcommon.Tracing.Headers.{between, key_eq}

-- os.LookupEnv
abbrev pub Environment : Type 0
Environment = String → Option Text

or_panic : {A : Type 0} → Option A → Outcome Text A
or_panic none = panic
or_panic (some a) = ok a

-- getOrFatal
unfoldable pub get_or_fatal : Environment → String → Outcome Text Text
unfolding or_panic
get_or_fatal env key = or_panic (env key)

unfoldable pub is_word : List Text → Text → Bool
unfolding key_eq
is_word [] s = false
is_word (w ∷ ws) s = let later = is_word ws s in key_eq s w || later

-- 1, t, T, TRUE, true, True
abbrev pub true_words : List Text
true_words =
    (49 ∷ [])
    ∷ (116 ∷ [])
    ∷ (84 ∷ [])
    ∷ (84 ∷ 82 ∷ 85 ∷ 69 ∷ [])
    ∷ (116 ∷ 114 ∷ 117 ∷ 101 ∷ [])
    ∷ (84 ∷ 114 ∷ 117 ∷ 101 ∷ [])
    ∷ []

-- 0, f, F, FALSE, false, False
abbrev pub false_words : List Text
false_words =
    (48 ∷ [])
    ∷ (102 ∷ [])
    ∷ (70 ∷ [])
    ∷ (70 ∷ 65 ∷ 76 ∷ 83 ∷ 69 ∷ [])
    ∷ (102 ∷ 97 ∷ 108 ∷ 115 ∷ 101 ∷ [])
    ∷ (70 ∷ 97 ∷ 108 ∷ 115 ∷ 101 ∷ [])
    ∷ []

-- strconv.ParseBool, where none is its error
unfoldable pub parse_bool : Text → Option Bool
unfolding is_word
parse_bool s =
    if is_word true_words s then some true else if is_word false_words s then some false else none

-- getTruthyOrFatal
unfoldable pub get_truthy_or_fatal : Environment → String → Outcome Text Bool
unfolding get_or_fatal or_panic parse_bool
get_truthy_or_fatal env key = and_then (get_or_fatal env key) λ value. or_panic (parse_bool value)

-- The part of strings.Cut(s, " ") before the separator
unfoldable pub before_space : Text → Text
before_space [] = []
before_space (c ∷ s) = let rest = before_space s in if nat_eq c 32 then [] else c ∷ rest

-- A space, or one of \t \n \v \f \r
abbrev is_space : ℕ → Bool
is_space c = nat_eq c 32 || between 9 13 c

trim_left : Text → Text
trim_left [] = []
trim_left (c ∷ s) = let rest = trim_left s in if is_space c then rest else c ∷ s

trim_right : Text → Text
trim_right [] = []
trim_right (c ∷ s) = elim (trim_right s) [
  | [] ↦ if is_space c then [] else c ∷ []
  | d ∷ t ↦ c ∷ d ∷ t
]

-- strings.TrimSpace
unfoldable pub trim_space : Text → Text
unfolding trim_left trim_right
trim_space s = trim_right (trim_left s)

-- localhost:
abbrev pub localhost : Text
localhost = 108 ∷ 111 ∷ 99 ∷ 97 ∷ 108 ∷ 104 ∷ 111 ∷ 115 ∷ 116 ∷ 58 ∷ []

-- strings.Join of the three, with "."
abbrev pub dotted : Text → Text → Text → Text
dotted a b c = a ++ 46 ∷ (b ++ 46 ∷ c)

-- New, of the service, the host and the endpoint: what closes the tracer, or a panic.
module _ {C : Type 0} (new : Text → Text → Text → Outcome Text C) (env : Environment) where
  -- NewFromEnv after os.LookupEnv(endpointVar), where `ok none` is a nil closer
  unfoldable pub with_endpoint : Text → Text → String → Option Text → Outcome Text (Option C)
  unfolding get_truthy_or_fatal
  with_endpoint service host disable_var none =
      and_then (get_truthy_or_fatal env disable_var)
        λ disabled. if not disabled then panic else ok none
  with_endpoint service host disable_var (some ze) =
      and_then (get_truthy_or_fatal env disable_var)
        λ disabled. if disabled then ok none else and_then (new service host ze) λ c. ok (some c)

  -- NewFromEnv
  unfoldable pub new_from_env : Text → Text → String → String → Outcome Text (Option C)
  unfolding with_endpoint
  new_from_env service host endpoint_var disable_var =
      with_endpoint service host disable_var (env endpoint_var)

  -- NewTracer
  unfoldable pub new_tracer : String → Outcome Text (Option C)
  unfolding get_or_fatal before_space trim_pod_name trim_space new_from_env
  new_tracer port_name = and_then (get_or_fatal env "POD_NAME") λ pod.
      and_then (get_or_fatal env "POD_NAMESPACE") λ name_space.
        and_then (get_or_fatal env "CONTAINER_NAME") λ container.
          and_then (trim_pod_name (before_space pod)) λ name.
            and_then (get_or_fatal env port_name) λ port.
              new_from_env (trim_space (dotted name name_space container)) (localhost ++ port)
                "ZIPKIN_ENDPOINT" "DISABLE_ZIPKIN"
