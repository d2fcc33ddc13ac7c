-- ===== src/Main/Launch.antt =====
-- `main` of src/main.cpp up to the call of `run`: the configuration, the reactor and its handlers.
use Prim.Native.String.{String}
use flowkernel.Base.{ℕ, List, [], ◌∷◌, Option, none, some, Bool, if◌then◌else◌}
use flowkernel.Platform.{Platform}
use flowkernel.Config.{Yaml, Config, new_config}
use flowkernel.Config.Parse.{load}
use flowkernel.Reactor.{new_reactor}
use flowkernel.Reactor.Setup.{Answers, SetupError, construct}
use flowkernel.Main.{not_started, Program, register_configured}

-- Whether the terminal interface runs beside the reactor.
pub data Mode : Type 0 where
  with_tui without_tui : Mode

-- `main` ends before a reactor runs, by an exception that nothing catches or with an exit code, or
-- comes to its mode.
pub data Launched (p : Platform) : Type 0 where
  terminates : Launched p
  exits : ℕ → Launched p
  launches : Mode → Program p → Launched p

-- The arguments after the program's name.
abbrev pub config_path_of : List String → String
config_path_of [] = "config/default.yaml"
config_path_of (path ∷ rest) = path

module _ (p : Platform) where
  -- With the exception of the constructor, if it threw one.
  abbrev pub launch_with : Config → Option SetupError → Launched p
  launch_with config (some error) = exits 1
  launch_with config none =
      launches (if config.tui.enabled then with_tui else without_tui) (record {
        reactor = register_configured config.handlers (new_reactor p);
        phase = not_started;
      })

  -- With what `load` returned.
  abbrev pub launch_loaded : Bool × Config → Option SetupError → Launched p
  launch_loaded (ok, config) error = if ok then launch_with config error else exits 1

  -- `load` stands outside of the `try` block.
  unfoldable pub main : Yaml → List String → Answers → Launched p
  main y args a =
      if y.exists_throws (config_path_of args)
      then terminates
      else launch_loaded (load y (config_path_of args) new_config) (construct a).0
