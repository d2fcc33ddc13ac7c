-- ===== src/Config/Parse.antt =====
-- src/config.cpp: how `load` reads the configuration. A parser changes a state and says whether it
-- returned or threw; what it had stored before it threw stays stored.
use Prim.Native.String.{String}
use flowkernel.Base.{List, [], ◌∷◌, ◌++◌, Option, none, some, Bool, true, false, if◌then◌else◌}
use flowkernel.Config.{
  ℤ, Looked, throws, missing, found, Yaml, HandlerConfig, LivelinessConfig, TuiConfig, ServerConfig,
  ZenohConfig, ChannelsConfig, Config, new_handler, use_defaults,
}

-- Statements one after another; what follows a statement that threw is not run.
abbrev pub next : {S : Type 0} → (S → Bool × S) → Bool × S → Bool × S
next q (true, s) = q s
next q (false, s) = (false, s)

abbrev pub steps : {S : Type 0} → List (S → Bool × S) → S → Bool × S
steps [] s = (true, s)
steps (p ∷ ps) s = next (steps ps) (p s)

module _ (y : Yaml) where
  -- `x = node[key].as<V>()`, once the node is there.
  abbrev pub store : {S V : Type 0} → (V → S → S) → Option V → S → Bool × S
  store put none s = (false, s)
  store put (some v) s = (true, put v s)

  -- `if (node[key]) x = node[key].as<V>();`
  abbrev pub read :
      {S V : Type 0} → (y.Node → Option V) → (V → S → S) → Looked y.Node → S → Bool × S
  read as_value put throws s = (false, s)
  read as_value put missing s = (true, s)
  read as_value put (found node) s = store put (as_value node) s

  -- `if (node[key]) { ... }`
  abbrev pub within : {S : Type 0} → (y.Node → S → Bool × S) → Looked y.Node → S → Bool × S
  within parse throws s = (false, s)
  within parse missing s = (true, s)
  within parse (found node) s = parse node s

  abbrev pub text : {S : Type 0} → (String → S → S) → String → y.Node → S → Bool × S
  text put name node s = read y.as_text put (y.look node name) s

  abbrev pub number : {S : Type 0} → (ℤ → S → S) → String → y.Node → S → Bool × S
  number put name node s = read y.as_int put (y.look node name) s

  abbrev pub flag : {S : Type 0} → (Bool → S → S) → String → y.Node → S → Bool × S
  flag put name node s = read y.as_bool put (y.look node name) s

  unfoldable pub parse_server : y.Node → ServerConfig → Bool × ServerConfig
  parse_server node = steps (
      text (λ v s. record s { name = v }) "name" node
      ∷ text (λ v s. record s { version = v }) "version" node
      ∷ text (λ v s. record s { log_level = v }) "log_level" node
      ∷ [])

  unfoldable pub parse_zenoh : y.Node → ZenohConfig → Bool × ZenohConfig
  parse_zenoh node = text (λ v s. record s { config_path = v }) "config_path" node

  unfoldable pub parse_critical : y.Node → ChannelsConfig → Bool × ChannelsConfig
  parse_critical node = steps (
      number (λ v s. record s { critical = record s.critical { queue_size = v } }) "queue_size" node
      ∷ text (λ v s. record s { critical = record s.critical { wakeup_mode = v } }) "wakeup_mode"
          node
      ∷ [])

  unfoldable pub parse_normal : y.Node → ChannelsConfig → Bool × ChannelsConfig
  parse_normal node =
      number (λ v s. record s { normal = record s.normal { queue_size = v } }) "queue_size" node

  unfoldable pub parse_background : y.Node → ChannelsConfig → Bool × ChannelsConfig
  parse_background node = steps (
      text (λ v s. record s { background = record s.background { strategy = v } }) "strategy" node
      ∷ number (λ v s. record s { background = record s.background { max_age_ms = v } })
          "max_age_ms" node
      ∷ [])

  unfoldable pub parse_channels : y.Node → ChannelsConfig → Bool × ChannelsConfig
  parse_channels node = steps (
      within parse_critical (y.look node "critical")
      ∷ within parse_normal (y.look node "normal")
      ∷ within parse_background (y.look node "background")
      ∷ [])

  unfoldable pub parse_liveliness : y.Node → LivelinessConfig → Bool × LivelinessConfig
  parse_liveliness node = steps (
      text (λ v s. record s { key = v }) "key" node
      ∷ text (λ v s. record s { estop_publish_path = v }) "estop_publish_path" node
      ∷ [])

  unfoldable pub parse_tui : y.Node → TuiConfig → Bool × TuiConfig
  parse_tui node = steps (
      flag (λ v s. record s { enabled = v }) "enabled" node
      ∷ number (λ v s. record s { refresh_rate_ms = v }) "refresh_rate_ms" node
      ∷ flag (λ v s. record s { show_banner = v }) "show_banner" node
      ∷ text (λ v s. record s { color_theme = v }) "color_theme" node
      ∷ [])

  unfoldable pub parse_handler : y.Node → HandlerConfig → Bool × HandlerConfig
  parse_handler node = steps (
      text (λ v s. record s { path = v }) "path" node
      ∷ text (λ v s. record s { priority = v }) "priority" node
      ∷ text (λ v s. record s { description = v }) "description" node
      ∷ [])

  -- A handler that was read to its end is pushed; an exception leaves the loop.
  abbrev pub push_back : Bool × HandlerConfig → List HandlerConfig → Bool × List HandlerConfig
  push_back (true, hc) hs = (true, hs ++ hc ∷ [])
  push_back (false, hc) hs = (false, hs)

  unfoldable pub parse_each : List y.Node → List HandlerConfig → Bool × List HandlerConfig
  parse_each [] hs = (true, hs)
  parse_each (node ∷ nodes) hs =
      next (parse_each nodes) (push_back (parse_handler node new_handler) hs)

  unfoldable pub parse_handlers : y.Node → List HandlerConfig → Bool × List HandlerConfig
  parse_handlers node hs = parse_each (y.elements node) []

  -- A section of the configuration, put back whether its parser returned or threw.
  abbrev pub part : {S : Type 0} → (S → Config → Config) → Bool × S → Config → Bool × Config
  part put (ok, s) c = (ok, put s c)

  -- The `try` block from the opened file on.
  abbrev pub root_parts : y.Node → List (Config → Bool × Config)
  root_parts root =
      within (λ n c. part (λ s c. record c { server = s }) (parse_server n c.server) c)
        (y.look root "server")
      ∷ within (λ n c. part (λ s c. record c { zenoh = s }) (parse_zenoh n c.zenoh) c)
          (y.look root "zenoh")
      ∷ within (λ n c. part (λ s c. record c { channels = s }) (parse_channels n c.channels) c)
          (y.look root "channels")
      ∷ within
          (λ n c. part (λ s c. record c { liveliness = s }) (parse_liveliness n c.liveliness) c)
          (y.look root "liveliness")
      ∷ within (λ n c. part (λ s c. record c { tui = s }) (parse_tui n c.tui) c) (y.look root "tui")
      ∷ within (λ n c. part (λ s c. record c { handlers = s }) (parse_handlers n c.handlers) c)
          (y.look root "handlers")
      ∷ []

  unfoldable pub parse_root : y.Node → Config → Bool × Config
  parse_root root = steps (root_parts root)

  -- The `catch` block, for a `try` block that threw.
  abbrev pub caught : Bool × Config → Bool × Config
  caught (true, c) = (true, c)
  caught (false, c) = (false, use_defaults c)

  abbrev pub load_root : String → Option y.Node → Config → Bool × Config
  load_root config_path none c = caught (false, c)
  load_root config_path (some root) c =
      caught (parse_root root (record c { loaded_path = config_path }))

  -- For a path on which `std::filesystem::exists` does not throw: the `catch` of `load` is not for
  -- its exception, which goes on to `main`.
  unfoldable pub load : String → Config → Bool × Config
  load config_path c =
      if y.exists config_path
      then load_root config_path (y.load_file config_path) c
      else (true, use_defaults c)
