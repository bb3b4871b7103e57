-- ===== src/Tracing/Scenarios.antt =====
-- The theorems of tracing on the environment of a small pod: the properties' hypotheses hold there.
use go_rkvstcommon.Prelude.{
  ◌≡◌, refl, String, ◌==◌, Option, none, some, [], ◌∷◌, ◌++◌, if◌then◌else◌,
}
use go_rkvstcommon.Prelude.Split.{is_part}
use go_rkvstcommon.Prelude.Outcome.{Outcome, ok, panic}
use go_rkvstcommon.Tracing.Pod.{Text, dash, trim_pod_name}
use go_rkvstcommon.Tracing.Pod.Laws.{
  trim_pod_name-two, trim_pod_name-five, trim_pod_name-one, trim_pod_name-part,
}
use go_rkvstcommon.Tracing.Headers.{
  Key, to_lower, canonical_mime_header_key, ot_headers, header_matcher, request_id, tracer_state,
  trace_id,
}
use go_rkvstcommon.Tracing.Headers.Laws.{header_matcher-among}
use go_rkvstcommon.Tracing.Setup.{
  Environment, before_space, trim_space, dotted, localhost, new_from_env, new_tracer,
}
use go_rkvstcommon.Tracing.Setup.Laws.{new_from_env-decision, new_tracer-name}

-- app, 0123456789 and abcde
abbrev app : Text
app = 97 ∷ 112 ∷ 112 ∷ []

abbrev ten : Text
ten = 48 ∷ 49 ∷ 50 ∷ 51 ∷ 52 ∷ 53 ∷ 54 ∷ 55 ∷ 56 ∷ 57 ∷ []

abbrev five : Text
five = 97 ∷ 98 ∷ 99 ∷ 100 ∷ 101 ∷ []

trim_pod_name-two_test : trim_pod_name ((app ++ dash ∷ ten) ++ dash ∷ five) ≡ ok app
unfolding is_part
trim_pod_name-two_test = trim_pod_name-two app ten five refl refl refl refl

trim_pod_name-part_test : trim_pod_name five ≡ panic
unfolding is_part
trim_pod_name-part_test = trim_pod_name-part five refl

trim_pod_name-one_test : trim_pod_name (app ++ dash ∷ ten) ≡ ok app
unfolding is_part
trim_pod_name-one_test = trim_pod_name-one app ten refl refl

trim_pod_name-five_test :
    trim_pod_name ((app ++ dash ∷ app) ++ dash ∷ five) ≡ ok (app ++ dash ∷ app)
unfolding is_part
trim_pod_name-five_test = trim_pod_name-five app app five refl refl refl refl

-- X-B3-TRACEID
abbrev upper_case : Key
upper_case = 88 ∷ 45 ∷ 66 ∷ 51 ∷ 45 ∷ 84 ∷ 82 ∷ 65 ∷ 67 ∷ 69 ∷ 73 ∷ 68 ∷ []

-- X-B3-Traceid
abbrev canonical : Key
canonical = 88 ∷ 45 ∷ 66 ∷ 51 ∷ 45 ∷ 84 ∷ 114 ∷ 97 ∷ 99 ∷ 101 ∷ 105 ∷ 100 ∷ []

header_matcher-among_example :
    (header_matcher upper_case ≡ some (canonical_mime_header_key upper_case))
    × (to_lower (canonical_mime_header_key upper_case) ≡ to_lower upper_case)
unfolding go_rkvstcommon.Tracing.Headers.Laws.is_among to_lower
header_matcher-among_example = header_matcher-among upper_case

header_matcher_test : header_matcher upper_case ≡ some canonical
unfolding header_matcher
header_matcher_test = refl

-- x-b3-x has the prefix of the tracing headers, and is not passed on.
header_matcher_test2 : header_matcher (tracer_state (120 ∷ [])) ≡ none
unfolding header_matcher
header_matcher_test2 = refl

-- The environment of the pod, with tracing not disabled
abbrev pod_of : String → Option Text
pod_of key =
    if key == "POD_NAME"
    then some ((app ++ dash ∷ ten) ++ dash ∷ five)
    else if key == "POD_NAMESPACE"
    then some (110 ∷ [])
    else if key == "CONTAINER_NAME"
    then some (99 ∷ [])
    else if key == "PORT"
    then some (56 ∷ 48 ∷ [])
    else if key == "DISABLE_ZIPKIN"
    then some (48 ∷ [])
    else if key == "ZIPKIN_ENDPOINT"
    then some (122 ∷ [])
    else none

-- A tracer that is closed by its name
abbrev tracer : Text → Text → Text → Outcome Text Text
tracer service host endpoint = ok service

new_from_env-decision_example :
    new_from_env tracer pod_of app localhost "ZIPKIN_ENDPOINT" "DISABLE_ZIPKIN" ≡ ok (some app)
unfolding go_rkvstcommon.Tracing.Setup.parse_bool
new_from_env-decision_example =
    new_from_env-decision tracer pod_of app localhost "ZIPKIN_ENDPOINT" "DISABLE_ZIPKIN"

new_tracer-name_example :
    new_tracer tracer pod_of "PORT" ≡ ok (some (app ++ 46 ∷ 110 ∷ 46 ∷ 99 ∷ []))
unfolding before_space is_part go_rkvstcommon.Tracing.Setup.parse_bool trim_space
new_tracer-name_example =
    new_tracer-name tracer pod_of "PORT" ((app ++ dash ∷ ten) ++ dash ∷ five) app ten five
      (110 ∷ []) (99 ∷ []) (56 ∷ 48 ∷ []) refl refl refl refl refl refl refl refl refl
