-- ===== src/Main/Started.antt =====
-- What the start of `main` of src/main.cpp comes to, from the configuration file and the calls of the
-- reactor's constructor.
use Prim.Native.String.{String}
use flowkernel.Base.{
  ℕ, ◌≡◌, ◌≢◌, refl, List, [], ◌∷◌, map, Option, none, some, Bool, true, false, ◌&&◌, if◌then◌else◌,
  Bool-cases, inl, inr, text_eq, utf8,
}
use flowkernel.Base.Assoc.{lookup}
use flowkernel.Hash.{Bytes}
use flowkernel.Platform.{Platform}
use flowkernel.Config.{Yaml, HandlerConfig, Config, new_config, use_defaults}
use flowkernel.Config.Parse.{load}
use flowkernel.Config.Sections.{file_ok, config_of, expected}
use flowkernel.Config.Loaded.{load_lem}
use flowkernel.Reactor.{Counters, new_reactor}
use flowkernel.Reactor.Stats.{HandlerStatus, priority_name, handler_status, get_handler_statuses}
use flowkernel.Reactor.Handlers.{first_with}
use flowkernel.Reactor.Setup.{
  Answers, SetupError, construct, declare_estop_publisher, setup_io_uring, open_eventfd,
}
use flowkernel.Main.{not_started, Program, parse_priority, register_configured}
use flowkernel.Main.Handlers.{configured, configured_handlers}
use flowkernel.Main.Launch.{
  with_tui, without_tui, Launched, terminates, exits, launches, config_path_of, launch_with,
  launch_loaded, main,
}

-- What the file asks for as a priority, by its name: one of the two names, or else the third.
abbrev one_of : String → List String → String → String
one_of other [] text = other
one_of other (name ∷ names) text = if text_eq text name then name else one_of other names text

abbrev pub listed : HandlerConfig → Bytes × String
listed hc = (utf8 hc.path, one_of "BACKGROUND" ("CRITICAL" ∷ "NORMAL" ∷ []) hc.priority)

abbrev pub shown : HandlerStatus → Bytes × String
shown h = (h.path, h.priority)

priority_name-parse_priority :
    (text : String)
    → priority_name (parse_priority text) ≡ one_of "BACKGROUND" ("CRITICAL" ∷ "NORMAL" ∷ []) text
unfolding parse_priority
priority_name-parse_priority text = elim (Bool-cases (text_eq text "CRITICAL")) [
  | inl critical_name ↦ rw critical_name refl
  | inr other ↦ elim (Bool-cases (text_eq text "NORMAL")) [
    | inl normal_name ↦ rw (other, normal_name) refl
    | inr unknown ↦ rw (other, unknown) refl
  ]
]

shown-configured :
    (c : Counters) (hcs : List HandlerConfig)
    → map shown (map (handler_status c) (map configured hcs)) ≡ map listed hcs
unfolding handler_status
shown-configured c [] = refl
shown-configured c (hc ∷ hcs) =
    let here = priority_name-parse_priority hc.priority in let rest = shown-configured c hcs in cc

abbrev pub all_succeed : Answers → Bool
all_succeed a =
    a.config_default
    && (a.open_session
        && (a.keyexpr_from_str && (a.declare_publisher && (a.queue_init && a.eventfd))))

abbrev answers : (c o k d q e : Bool) → Answers
answers c o k d q e = record {
  config_default = c;
  open_session = o;
  keyexpr_from_str = k;
  declare_publisher = d;
  queue_init = q;
  eventfd = e;
}

-- The constructor throws exactly if one of its calls fails.
abbrev Threw : Bool → Option SetupError → Type 0
Threw true error = error ≡ none
Threw false error = error ≢ none

construct-Threw :
    (c o k d q e : Bool)
    → Threw (all_succeed (answers c o k d q e)) (construct (answers c o k d q e)).0
unfolding construct declare_estop_publisher setup_io_uring open_eventfd
construct-Threw false o k d q e = λ threw. cc
construct-Threw true false k d q e = λ threw. cc
construct-Threw true true false d q e = λ threw. cc
construct-Threw true true true false q e = λ threw. cc
construct-Threw true true true true false e = λ threw. cc
construct-Threw true true true true true false = λ threw. cc
construct-Threw true true true true true true = refl

module _ {p : Platform} where
  -- The end of `main`'s start with a configuration, when the constructor's calls succeed or not.
  abbrev pub Runs : ℕ → Config → Bool → Launched p → Type 0
  Runs hash config false l = l ≡ exits 1
  Runs hash config true l =
      (q : Program p) × (l ≡ launches (if config.tui.enabled then with_tui else without_tui) q)
      × (map shown (get_handler_statuses q.reactor) ≡ map listed config.handlers)
      × (lookup hash q.reactor.handler_index ≡ first_with hash 0 (map configured config.handlers))
      × (q.phase ≡ not_started)

module _ (p : Platform) where
  launch_with-Runs :
      (hash : ℕ) (config : Config) (ready : Bool) (error : Option SetupError)
      → Threw ready error
      → Runs hash config ready (launch_with p config error)
  unfolding get_handler_statuses
  launch_with-Runs hash config true error threw =
      let (all, index) = configured_handlers p config.handlers hash in
      let r = register_configured config.handlers (new_reactor p) in
      rw threw (
        record { reactor = r; phase = not_started },
        refl,
        rw all (shown-configured r.counters config.handlers),
        index,
        refl,
      )
  launch_with-Runs hash config false (some error) threw = refl
  launch_with-Runs hash config false none threw = absurd (threw refl)

module _ {p : Platform} (y : Yaml) where
  abbrev pub Opened : ℕ → String → y.Node → Bool → Bool → Launched p → Type 0
  Opened hash path root false ready l = l ≡ exits 1
  Opened hash path root true ready l = Runs hash (config_of y root path new_config) ready l

  -- The end for what the file system and yaml-cpp give.
  abbrev pub Started : ℕ → String → Bool → Bool → Option y.Node → Bool → Launched p → Type 0
  Started hash path true exists opened ready l = l ≡ terminates
  Started hash path false false opened ready l = Runs hash new_config ready l
  Started hash path false true none ready l = l ≡ exits 1
  Started hash path false true (some root) ready l = Opened hash path root (file_ok y root) ready l

module _ (p : Platform) (y : Yaml) where
  launch_loaded-Opened :
      (hash : ℕ) (path : String) (root : y.Node) (ok ready : Bool) (error : Option SetupError)
      (after : Config)
      → Threw ready error
      → Opened y hash path root ok ready (
          launch_loaded p
            (ok, if ok then config_of y root path new_config else use_defaults after)
            error)
  launch_loaded-Opened hash path root false ready error after threw = refl
  launch_loaded-Opened hash path root true ready error after threw =
      launch_with-Runs p hash (config_of y root path new_config) ready error threw

  launch_loaded-Started :
      (hash : ℕ) (path : String) (exists : Bool) (opened : Option y.Node) (ready : Bool)
      (error : Option SetupError) (after : Config)
      → Threw ready error
      → Started y hash path false exists opened ready
          (launch_loaded p (expected y path new_config exists opened after) error)
  unfolding use_defaults
  launch_loaded-Started hash path false opened ready error after threw =
      launch_with-Runs p hash new_config ready error threw
  launch_loaded-Started hash path true none ready error after threw = refl
  launch_loaded-Started hash path true (some root) ready error after threw =
      launch_loaded-Opened hash path root (file_ok y root) ready error after threw

  -- Every end of `main`'s start, with the path of the first argument or else config/default.yaml. If
  -- the file system throws on the path, the program is terminated. If there is no file, the
  -- defaults hold. If the file cannot be opened or is not in order, `main` exits with 1, and so it
  -- does if one of the constructor's calls fails. Else it comes to run a reactor, beside the
  -- terminal interface if the `enabled` key of the file says so or is missing, that shows the
  -- handlers of the file, each with its path and its priority, CRITICAL and NORMAL under their
  -- names and any other text as BACKGROUND, in their order; a look-up of a hash finds the first of
  -- them whose path has it; and the reactor's thread has not entered `run`.
  pub main_starts :
      (args : List String) (a : Answers) (hash : ℕ)
      → let path = config_path_of args in
        Started y hash path
          (y.exists_throws path)
          (y.exists path)
          (y.load_file path)
          (all_succeed a)
          (main p y args a)
  unfolding main
  main_starts args a hash =
      let path = config_path_of args in
      let threw =
        construct-Threw a.config_default a.open_session a.keyexpr_from_str a.declare_publisher
          a.queue_init a.eventfd in
      elim (Bool-cases (y.exists_throws path)) [
        | inl thrown ↦ rw thrown refl
        | inr looked ↦
            rw (looked, load_lem y path new_config)
              (launch_loaded-Started hash path (y.exists path) (y.load_file path) (all_succeed a)
                (construct a).0 (load y path new_config).1 threw)
      ]
