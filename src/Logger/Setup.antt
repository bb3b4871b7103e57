-- ===== src/Logger/Setup.antt =====
-- New and OnExit of logger/logger.go, on the package's global variables. Zap, with its observer and
-- its redirection of the standard library's log, is not part of this repository: a parameter.
pub mod Laws
use go_rkvstcommon.Prelude.{
  String, ◌==◌, Bool, true, false, not, Option, none, some, List, [], ◌∷◌, if◌then◌else◌,
}
use go_rkvstcommon.Prelude.Outcome.{Outcome, ok, err, panic}

-- type Resource struct
pub record Resource : Type 0 where
  pub console : Bool
  pub filename : String

abbrev zero_resource : Resource
zero_resource = record { console = false; filename = "" }

-- An option of New: a ResourceOption, a zap.Option (by Z), or a value of another type
pub data AnyOption (Z : Type 0) : Type 0 where
  resource_option : (Resource → Resource) → AnyOption Z
  zap_option : Z → AnyOption Z
  unknown_option : AnyOption Z

unfoldable pub with_file : String → Resource → Resource
with_file filename r = record r { filename = filename }

unfoldable pub with_console : Resource → Resource
with_console r = record r { console = true }

-- NewDevelopmentConfig() and NewProductionConfig()
pub data Preset : Type 0 where
  development production : Preset

-- A zap.Config: its preset, with OutputPaths, and the encoding as bare messages, where they are set
pub record Config : Type 0 where
  pub preset : Preset
  pub output_paths : Option (List String)
  pub message_only : Bool

unfoldable pub config_of : Preset → Resource → Config
config_of preset r = record {
  preset = preset;
  output_paths = if not (r.filename == "") then some (r.filename ∷ []) else none;
  message_only = r.console;
}

module _ {Z : Type 0} where
  -- The first loop over the options
  unfoldable pub resource_of : List (AnyOption Z) → Resource → Resource
  resource_of [] r = r
  resource_of (resource_option opt ∷ opts) r = resource_of opts (opt r)
  resource_of (zap_option z ∷ opts) r = resource_of opts r
  resource_of (unknown_option ∷ opts) r = resource_of opts r

  -- The second loop over the options
  unfoldable pub zap_options_of : List (AnyOption Z) → List Z
  zap_options_of [] = []
  zap_options_of (resource_option opt ∷ opts) = zap_options_of opts
  zap_options_of (zap_option z ∷ opts) = z ∷ zap_options_of opts
  zap_options_of (unknown_option ∷ opts) = zap_options_of opts

-- Zap: its loggers L, its options Z, what is recorded R, the state of the standard library's log D,
-- and what undoes a redirection of that U
pub record ZapLibrary (L Z R D U : Type 0) : Type 0 where
  pub build : Config → List Z → Outcome String L
  pub nop : L
  -- the logger with the core of observer.New(DebugLevel), and what that records
  pub observed : L → L × R
  pub redirect_std_log : L → D → U × D
  pub undo : U → D → D

-- Sugar, undoLogger and Recorded, which may be nil, and the standard library's log
pub record Globals (L R D U : Type 0) : Type 0 where
  pub sugar : Option L
  pub undo_logger : Option U
  pub recorded : Option R
  pub std_log : D

module _ {L Z R D U : Type 0} (zap : ZapLibrary L Z R D U) where
  -- The end of New
  install : L → Globals L R D U → Globals L R D U
  install plain g =
      let (u, d) = zap.redirect_std_log plain g.std_log in
      record g { sugar = some plain; undo_logger = some u; std_log = d }

  -- A logger that was built, or log.Panicf
  installed : Outcome String L → Globals L R D U → Outcome String (Globals L R D U)
  unfolding install
  installed (ok plain) g = ok (install plain g)
  installed (err e) g = panic
  installed panic g = panic

  install_observed : Outcome String L → Globals L R D U → Outcome String (Globals L R D U)
  unfolding install
  install_observed (ok plain) g =
      let (observed, r) = zap.observed plain in
      ok (install observed (record g { recorded = some r }))
  install_observed (err e) g = panic
  install_observed panic g = panic

  -- New: the global variables after it
  unfoldable pub new_logger :
      String → List (AnyOption Z) → Globals L R D U → Outcome String (Globals L R D U)
  unfolding resource_of zap_options_of config_of installed install_observed install
  new_logger level opts g =
      let r = resource_of opts zero_resource in
      let zopts = zap_options_of opts in
      if level == "DEBUG"
      then installed (zap.build (config_of development r) zopts) g
      else if level == "NOOP"
      then ok (install zap.nop g)
      else if level == "TEST"
      then install_observed (zap.build (config_of development r) zopts) g
      else installed (zap.build (config_of production r) zopts) g

  undone : Option U → Globals L R D U → Outcome String (Globals L R D U)
  undone none g = panic
  undone (some u) g = ok (record g { recorded = none; std_log = zap.undo u g.std_log })

  synced : Option L → Globals L R D U → Outcome String (Globals L R D U)
  unfolding undone
  synced none g = panic
  synced (some l) g = undone g.undo_logger g

  -- OnExit, which ignores what Sync of Sugar returns, but calls it on a nil logger too
  unfoldable pub on_exit : Globals L R D U → Outcome String (Globals L R D U)
  unfolding synced
  on_exit g = synced g.sugar g
