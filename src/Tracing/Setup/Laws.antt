-- ===== src/Tracing/Setup/Laws.antt =====
-- When tracing is started by tracing/tracing.go, and under which name.
use go_rkvstcommon.Prelude.{
  ◌≡◌, refl, String, Bool, true, false, ◌||◌, Option, none, some, ◌∷◌, ◌++◌, nat_eq, length,
}
use go_rkvstcommon.Prelude.Split.{is_part}
use go_rkvstcommon.Prelude.Outcome.{Outcome, ok, panic, and_then}
use go_rkvstcommon.Tracing.Pod.{Text, dash}
use go_rkvstcommon.Tracing.Pod.Laws.{trim_pod_name-two}
use go_rkvstcommon.Tracing.Setup.{
  Environment, or_panic, get_or_fatal, get_truthy_or_fatal, parse_bool, before_space, trim_space,
  dotted, localhost, with_endpoint, new_from_env, new_tracer,
}

-- What a variable of the environment says of disabling: nothing where it is not there or no truth
-- value.
abbrev pub disabled_by : Option Text → Option Bool
disabled_by none = none
disabled_by (some value) = parse_bool value

or_panic-disabled_by :
    (value : Option Text)
    → and_then (or_panic value) (λ v. or_panic (parse_bool v)) ≡ or_panic (disabled_by value)
unfolding or_panic
or_panic-disabled_by none = refl
or_panic-disabled_by (some v) = refl

module _ {C : Type 0} (new : Text → Text → Text → Outcome Text C) (env : Environment) where
  -- Whether to trace, by what the environment says of disabling and of the endpoint
  abbrev pub decision : Text → Text → Option Bool → Option Text → Outcome Text (Option C)
  decision service host none endpoint = panic
  decision service host (some true) endpoint = ok none
  decision service host (some false) none = panic
  decision service host (some false) (some endpoint) =
      and_then (new service host endpoint) (λ c. ok (some c))

  with_endpoint-decision :
      (service host : Text) (disable_var : String) (disabled : Option Bool) (endpoint : Option Text)
      → get_truthy_or_fatal env disable_var ≡ or_panic disabled
      → with_endpoint new env service host disable_var endpoint
        ≡ decision service host disabled endpoint
  unfolding with_endpoint or_panic
  with_endpoint-decision service host disable_var none none h = rw h refl
  with_endpoint-decision service host disable_var none (some z) h = rw h refl
  with_endpoint-decision service host disable_var (some true) none h = rw h refl
  with_endpoint-decision service host disable_var (some true) (some z) h = rw h refl
  with_endpoint-decision service host disable_var (some false) none h = rw h refl
  with_endpoint-decision service host disable_var (some false) (some z) h = rw h refl

  -- NewFromEnv panics where the variable that disables tracing is missing or no truth value, and
  -- where tracing is not disabled and there is no endpoint; it starts nothing where tracing is
  -- disabled, with an endpoint or without; otherwise it comes to what New comes to for that endpoint.
  pub new_from_env-decision :
      (service host : Text) (endpoint_var disable_var : String)
      → new_from_env new env service host endpoint_var disable_var
        ≡ decision service host (disabled_by (env disable_var)) (env endpoint_var)
  unfolding new_from_env get_truthy_or_fatal get_or_fatal
  new_from_env-decision service host endpoint_var disable_var =
      with_endpoint-decision service host disable_var (disabled_by (env disable_var))
        (env endpoint_var) (or_panic-disabled_by (env disable_var))

  -- The tracer of a pod whose name ends in two instance IDs is named for what is before them, the
  -- namespace and the container, and is started or not as NewFromEnv decides for its host.
  pub new_tracer-name :
      (port_var : String) (pod name first second name_space container port : Text)
      → env "POD_NAME" ≡ some pod
      → before_space pod ≡ (name ++ dash ∷ first) ++ dash ∷ second
      → is_part dash first ≡ true
      → is_part dash second ≡ true
      → nat_eq (length first) 10 || nat_eq (length first) 11 ≡ true
      → length second ≡ 5
      → env "POD_NAMESPACE" ≡ some name_space
      → env "CONTAINER_NAME" ≡ some container
      → env port_var ≡ some port
      → new_tracer new env port_var
        ≡ decision
            (trim_space (dotted name name_space container))
            (localhost ++ port)
            (disabled_by (env "DISABLE_ZIPKIN"))
            (env "ZIPKIN_ENDPOINT")
  unfolding new_tracer get_or_fatal or_panic
  new_tracer-name port_var pod name first second name_space container port a b f g l m c d e =
      rw (a, c, d, b, trim_pod_name-two name first second f g l m, e)
        (new_from_env-decision (trim_space (dotted name name_space container)) (localhost ++ port)
          "ZIPKIN_ENDPOINT" "DISABLE_ZIPKIN")
