-- ===== src/Grpcclient/Scenarios.antt =====
-- The theorem of grpcclient on a library whose first connection fails: it can be applied there.
use go_rkvstcommon.Prelude.{◌≡◌, ℕ, String, none, some, List, [], ◌∷◌}
use go_rkvstcommon.Prelude.Outcome.{Outcome, ok, err}
use go_rkvstcommon.Grpcclient.{Call}
use go_rkvstcommon.Grpcclient.Laws.{Operation, open_it, close_it, run, new_of, replay, run-replay}

abbrev answer : List Call → Call → Outcome String ℕ
answer [] c = err "refused"
answer (d ∷ h) c = ok 7

abbrev operations : List Operation
operations = open_it ∷ close_it ∷ open_it ∷ open_it ∷ close_it ∷ close_it ∷ open_it ∷ []

run-replay_example :
    replay answer [] (run answer operations (new_of "n" "a" ((1 ∷ []) ∷ []), [])).1 none
    ≡ some (run answer operations (new_of "n" "a" ((1 ∷ []) ∷ []), [])).0.conn
run-replay_example = run-replay answer operations "n" "a" ((1 ∷ []) ∷ [])
