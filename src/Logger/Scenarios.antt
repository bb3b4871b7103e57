-- ===== src/Logger/Scenarios.antt =====
-- The theorems of the logger on a logger that is the list of its fields, and on two calls of New.
use go_rkvstcommon.Prelude.{
  ℕ, ◌≡◌, refl, String, Bool, true, false, Option, none, some, List, [], ◌∷◌, ◌++◌, arith,
}
use go_rkvstcommon.Prelude.Dict.{string_key, Dict}
use go_rkvstcommon.Prelude.Decimal.{format_int}
use go_rkvstcommon.Prelude.Outcome.{Outcome, ok}
use go_rkvstcommon.Tracing.Pod.{Text}
use go_rkvstcommon.Tracing.Context.{trace_id_from_context}
use go_rkvstcommon.Logger.{
  AnyValue, string, other, arg_key, key_vals, debug_level, info_level, error_level, Zap, check,
  from_context,
}
use go_rkvstcommon.Logger.Laws.{value_at, traced_by, key_vals-value_at, from_context-trace_id}
use go_rkvstcommon.Logger.Setup.{
  Preset, AnyOption, resource_option, zap_option, with_file, with_console, ZapLibrary, Globals,
  resource_of, config_of, new_logger,
}
use go_rkvstcommon.Logger.Setup.Laws.{Exits, new_logger-on_exit}

abbrev args : List AnyValue
args = string "a" ∷ other 2 ∷ string "c" ∷ []

arg_keys :
    key_vals args
    ≡ string "arg0" ∷ string "a" ∷ string "arg1" ∷ other 2 ∷ string "arg2" ∷ string "c" ∷ []
unfolding key_vals format_int
arg_keys = refl

key_vals-value_at_example : value_at (arg_key 1) (key_vals args) ≡ some (other 2)
key_vals-value_at_example = key_vals-value_at args 1 (omega arith) (omega arith)

-- A logger by its fields, on the level INFO
abbrev Fields : Type 0
Fields = List (String × Text)

abbrev fields : Zap Fields
fields = record {
  with_string = λ key value l. l ++ (key, value) ∷ [];
  enabled = λ level l. elim level [ debug_level ↦ false | info_level ↦ true | error_level ↦ true ];
  with_caller_skip = λ n l. l;
}

check_levels : (check fields "INFO" [] ≡ true) × (check fields "WARN" [] ≡ false)
unfolding check
check_levels = (refl, refl)

abbrev inject : ℕ → Outcome String (Dict String Text)
inject span = ok (("x-b3-traceid", span ∷ []) ∷ [])

from_context-trace_id_example :
    from_context fields true inject (some 7) (("index", 97 ∷ []) ∷ [])
    ≡ traced_by fields true (("index", 97 ∷ []) ∷ []) (trace_id_from_context inject (some 7))
from_context-trace_id_example =
    from_context-trace_id fields true inject (some 7) (("index", 97 ∷ []) ∷ [])

-- A library whose loggers are numbered by their options. The standard library's log is its logger, if
-- it has one, and its flags.
abbrev Log : Type 0
Log = Option ℕ × ℕ

abbrev zap : ZapLibrary ℕ ℕ ℕ Log ℕ
zap = record {
  build = λ cfg opts. ok 5;
  nop = 0;
  observed = λ l. (l, 9);
  redirect_std_log = λ l d. (d.1, (some l, 0));
  undo = λ u d. (none, u);
}

abbrev stderr : Log → Bool
stderr (none, flags) = true
stderr (some l, flags) = false

abbrev options : List (AnyOption ℕ)
options = resource_option (with_file "log") ∷ zap_option 3 ∷ resource_option with_console ∷ []

abbrev fresh : Globals ℕ ℕ Log ℕ
fresh = record { sugar = none; undo_logger = none; recorded = none; std_log = (none, 3) }

abbrev testing : Globals ℕ ℕ Log ℕ
testing = record { sugar = some 5; undo_logger = some 3; recorded = some 9; std_log = (some 5, 0) }

abbrev silent : Globals ℕ ℕ Log ℕ
silent = record { sugar = some 0; undo_logger = some 0; recorded = some 9; std_log = (some 0, 0) }

options_config :
    config_of Preset.development (resource_of options (record { console = false; filename = "" }))
    ≡ record { preset = Preset.development; output_paths = some ("log" ∷ []); message_only = true }
unfolding config_of resource_of with_file with_console
options_config = refl

new_logger-on_exit_example :
    Exits zap (λ (d : Log). d.1) stderr testing 3 × Exits zap (λ (d : Log). d.1) stderr silent 0
unfolding new_logger
new_logger-on_exit_example =
    new_logger-on_exit zap (λ (d : Log). d.1) 0 stderr "TEST" "NOOP" options [] fresh testing silent
      (record { switches_off = λ l d. refl; restores = λ l d d'. refl; resets = λ l d d'. refl })
      refl refl
