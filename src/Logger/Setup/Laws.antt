-- ===== src/Logger/Setup/Laws.antt =====
-- The global variables of logger/logger.go through New and OnExit.
use go_rkvstcommon.Prelude.{
  ◌≡◌, refl, ap, ◌∙◌, String, ◌==◌, Bool, true, Option, none, some, List, Bool-cases, inl, inr,
}
use go_rkvstcommon.Prelude.Outcome.{Outcome, ok, err, panic, ok-injective}
use mathlib.Core.Path.{subst}
use go_rkvstcommon.Logger.Setup.{
  AnyOption, ZapLibrary, Globals, install, installed, install_observed, new_logger, on_exit,
}

module _ {L Z R D U : Type 0} (zap : ZapLibrary L Z R D U) where
  -- What zap documents of RedirectStdLog, where `notes` is the prefix and the flags of the standard
  -- library's log: it switches them off, and its undo restores them and sends the output to os.Stderr.
  pub record Redirects {A : Type 0} (notes : D → A) (off : A) (to_stderr : D → Bool) : Type 0 where
    pub switches_off : (l : L) (d : D) → notes (zap.redirect_std_log l d).1 ≡ off
    pub restores : (l : L) (d d' : D) → notes (zap.undo (zap.redirect_std_log l d).0 d') ≡ notes d
    pub resets : (l : L) (d d' : D) → to_stderr (zap.undo (zap.redirect_std_log l d).0 d') ≡ true

  -- What a New that succeeds leaves: the logger that it installs and its redirection
  record Installed (g g' : Globals L R D U) : Type 0 where
    plain : L
    sugar : g'.sugar ≡ some plain
    undo_logger : g'.undo_logger ≡ some (zap.redirect_std_log plain g.std_log).0
    std_log : g'.std_log ≡ (zap.redirect_std_log plain g.std_log).1

  install-Installed : (plain : L) (g : Globals L R D U) → Installed g (install zap plain g)
  unfolding install
  install-Installed plain g = record {
    plain = plain;
    sugar = refl;
    undo_logger = refl;
    std_log = refl;
  }

  installed-Installed :
      (o : Outcome String L) (g g' : Globals L R D U) → installed zap o g ≡ ok g' → Installed g g'
  unfolding installed
  installed-Installed (ok plain) g g' h =
      subst (Installed g) (ok-injective h) (install-Installed plain g)
  installed-Installed (err e) g g' h = cc
  installed-Installed panic g g' h = cc

  install_observed-Installed :
      (o : Outcome String L) (g g' : Globals L R D U)
      → install_observed zap o g ≡ ok g'
      → Installed g g'
  unfolding install_observed install
  install_observed-Installed (ok plain) g g' h =
      subst (Installed g) (ok-injective h) (record {
        plain = (zap.observed plain).0;
        sugar = refl;
        undo_logger = refl;
        std_log = refl;
      })
  install_observed-Installed (err e) g g' h = cc
  install_observed-Installed panic g g' h = cc

  new_logger-Installed :
      (level : String) (opts : List (AnyOption Z)) (g g' : Globals L R D U)
      → new_logger zap level opts g ≡ ok g'
      → Installed g g'
  unfolding new_logger
  new_logger-Installed level opts g g' h = elim (Bool-cases (level == "DEBUG")) [
    | inl d ↦ installed-Installed _ g g' (rw d at h)
    | inr d ↦ elim (Bool-cases (level == "NOOP")) [
      | inl n ↦ installed-Installed (ok zap.nop) g g' (rw n at (rw d at h))
      | inr n ↦ elim (Bool-cases (level == "TEST")) [
        | inl t ↦ install_observed-Installed _ g g' (rw t at (rw n at (rw d at h)))
        | inr t ↦ installed-Installed _ g g' (rw t at (rw n at (rw d at h)))
      ]
    ]
  ]

  -- What OnExit leaves: nothing recorded, and the standard library's log on os.Stderr
  pub record Exits {A : Type 0} (notes : D → A) (to_stderr : D → Bool) (g : Globals L R D U) (a : A)
      : Type 0 where
    pub after_exit : Globals L R D U
    pub exits : on_exit zap g ≡ ok after_exit
    pub forgotten : after_exit.recorded ≡ none
    pub on_stderr : to_stderr after_exit.std_log ≡ true
    pub noted : notes after_exit.std_log ≡ a

  on_exit-Installed :
      {A : Type 0} (notes : D → A) (off : A) (to_stderr : D → Bool) (g g' : Globals L R D U)
      → Redirects notes off to_stderr
      → Installed g g'
      → Exits notes to_stderr g' (notes g.std_log)
  unfolding on_exit
  on_exit-Installed notes off to_stderr g g' z i = record {
    after_exit = record g' {
      recorded = none;
      std_log = zap.undo (zap.redirect_std_log i.plain g.std_log).0 g'.std_log;
    };
    exits = rw (i.sugar, i.undo_logger) refl;
    forgotten = refl;
    on_stderr = z.resets i.plain g.std_log g'.std_log;
    noted = z.restores i.plain g.std_log g'.std_log;
  }

  -- OnExit after a New that succeeded does not panic, forgets what was recorded, sends the standard
  -- library's log to os.Stderr again and gives it back the prefix and flags that it had before that
  -- New. After a second New these are the ones that the first New had switched off, so that OnExit
  -- leaves them off.
  pub new_logger-on_exit :
      {A : Type 0} (notes : D → A) (off : A) (to_stderr : D → Bool) (level level' : String)
      (opts opts' : List (AnyOption Z)) (g g' g'' : Globals L R D U)
      → Redirects notes off to_stderr
      → new_logger zap level opts g ≡ ok g'
      → new_logger zap level' opts' g' ≡ ok g''
      → Exits notes to_stderr g' (notes g.std_log) × Exits notes to_stderr g'' off
  new_logger-on_exit notes off to_stderr level level' opts opts' g g' g'' z first second =
      let i = new_logger-Installed level opts g g' first in
      let again =
        on_exit-Installed notes off to_stderr g' g'' z
          (new_logger-Installed level' opts' g' g'' second) in
      (
        on_exit-Installed notes off to_stderr g g' z i,
        subst (Exits notes to_stderr g'') (ap notes i.std_log ∙ z.switches_off i.plain g.std_log)
            again,
      )

  -- Before any New, OnExit panics.
  on_exit-panic :
      (recorded : Option R) (d : D)
      → on_exit zap (record { sugar = none; undo_logger = none; recorded = recorded; std_log = d })
        ≡ panic
  unfolding on_exit
  on_exit-panic recorded d = refl
