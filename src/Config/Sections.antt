-- ===== src/Config/Sections.antt =====
-- What `Config::load` of src/config.cpp should make of a file: for each section whether it is in
-- order, and what it says, the values of before standing for the keys that are missing.
use Prim.Native.String.{String}
use flowkernel.Base.{List, [], ◌∷◌, Bool, true, false, ◌&&◌, map, Option, none, some, if◌then◌else◌}
use flowkernel.Config.{
  Yaml, HandlerConfig, LivelinessConfig, TuiConfig, ServerConfig, ZenohConfig, ChannelConfig,
  BackgroundChannelConfig, ChannelsConfig, Config, new_handler, use_defaults,
}
use flowkernel.Config.Reads.{
  section_ok, section_or, text_ok, text_or, number_ok, number_or, flag_ok, flag_or,
}

abbrev pub all_ok : List Bool → Bool
all_ok [] = true
all_ok (b ∷ bs) = b && all_ok bs

module _ (y : Yaml) where
  abbrev pub server_ok : y.Node → Bool
  server_ok node =
      all_ok (text_ok y node "name" ∷ text_ok y node "version" ∷ text_ok y node "log_level" ∷ [])

  abbrev pub server_of : y.Node → ServerConfig → ServerConfig
  server_of node old = record {
    name = text_or y node "name" old.name;
    version = text_or y node "version" old.version;
    log_level = text_or y node "log_level" old.log_level;
  }

  abbrev pub zenoh_ok : y.Node → Bool
  zenoh_ok node = text_ok y node "config_path"

  abbrev pub zenoh_of : y.Node → ZenohConfig → ZenohConfig
  zenoh_of node old = record { config_path = text_or y node "config_path" old.config_path }

  abbrev pub critical_ok : y.Node → Bool
  critical_ok node = all_ok (number_ok y node "queue_size" ∷ text_ok y node "wakeup_mode" ∷ [])

  abbrev pub critical_of : y.Node → ChannelConfig → ChannelConfig
  critical_of node old = record old {
    queue_size = number_or y node "queue_size" old.queue_size;
    wakeup_mode = text_or y node "wakeup_mode" old.wakeup_mode;
  }

  abbrev pub normal_ok : y.Node → Bool
  normal_ok node = number_ok y node "queue_size"

  abbrev pub normal_of : y.Node → ChannelConfig → ChannelConfig
  normal_of node old = record old { queue_size = number_or y node "queue_size" old.queue_size }

  abbrev pub background_ok : y.Node → Bool
  background_ok node = all_ok (text_ok y node "strategy" ∷ number_ok y node "max_age_ms" ∷ [])

  abbrev pub background_of : y.Node → BackgroundChannelConfig → BackgroundChannelConfig
  background_of node old = record old {
    strategy = text_or y node "strategy" old.strategy;
    max_age_ms = number_or y node "max_age_ms" old.max_age_ms;
  }

  abbrev pub channels_ok : y.Node → Bool
  channels_ok node = all_ok (
      section_ok y critical_ok (y.look node "critical")
      ∷ section_ok y normal_ok (y.look node "normal")
      ∷ section_ok y background_ok (y.look node "background")
      ∷ [])

  abbrev pub channels_of : y.Node → ChannelsConfig → ChannelsConfig
  channels_of node old = record {
    critical = section_or y critical_of (y.look node "critical") old.critical;
    normal = section_or y normal_of (y.look node "normal") old.normal;
    background = section_or y background_of (y.look node "background") old.background;
  }

  abbrev pub liveliness_ok : y.Node → Bool
  liveliness_ok node = all_ok (text_ok y node "key" ∷ text_ok y node "estop_publish_path" ∷ [])

  abbrev pub liveliness_of : y.Node → LivelinessConfig → LivelinessConfig
  liveliness_of node old = record {
    key = text_or y node "key" old.key;
    estop_publish_path = text_or y node "estop_publish_path" old.estop_publish_path;
  }

  abbrev pub tui_ok : y.Node → Bool
  tui_ok node = all_ok (
      flag_ok y node "enabled"
      ∷ number_ok y node "refresh_rate_ms"
      ∷ flag_ok y node "show_banner"
      ∷ text_ok y node "color_theme"
      ∷ [])

  abbrev pub tui_of : y.Node → TuiConfig → TuiConfig
  tui_of node old = record {
    enabled = flag_or y node "enabled" old.enabled;
    refresh_rate_ms = number_or y node "refresh_rate_ms" old.refresh_rate_ms;
    show_banner = flag_or y node "show_banner" old.show_banner;
    color_theme = text_or y node "color_theme" old.color_theme;
  }

  abbrev pub handler_ok : y.Node → Bool
  handler_ok node =
      all_ok (text_ok y node "path" ∷ text_ok y node "priority" ∷ text_ok y node "description" ∷ [])

  abbrev pub handler_of : y.Node → HandlerConfig → HandlerConfig
  handler_of node old = record {
    path = text_or y node "path" old.path;
    priority = text_or y node "priority" old.priority;
    description = text_or y node "description" old.description;
  }

  -- The handlers are those of the list, whatever they were before.
  abbrev pub handlers_ok : List y.Node → Bool
  handlers_ok [] = true
  handlers_ok (node ∷ nodes) = handler_ok node && handlers_ok nodes

  abbrev pub handlers_of : y.Node → List HandlerConfig → List HandlerConfig
  handlers_of node old = map (λ entry. handler_of entry new_handler) (y.elements node)

  -- The whole file.
  abbrev pub file_ok : y.Node → Bool
  file_ok root = all_ok (
      section_ok y server_ok (y.look root "server")
      ∷ section_ok y zenoh_ok (y.look root "zenoh")
      ∷ section_ok y channels_ok (y.look root "channels")
      ∷ section_ok y liveliness_ok (y.look root "liveliness")
      ∷ section_ok y tui_ok (y.look root "tui")
      ∷ section_ok y (λ node. handlers_ok (y.elements node)) (y.look root "handlers")
      ∷ [])

  abbrev pub config_of : y.Node → String → Config → Config
  config_of root config_path old = record {
    loaded_path = config_path;
    server = section_or y server_of (y.look root "server") old.server;
    zenoh = section_or y zenoh_of (y.look root "zenoh") old.zenoh;
    channels = section_or y channels_of (y.look root "channels") old.channels;
    liveliness = section_or y liveliness_of (y.look root "liveliness") old.liveliness;
    tui = section_or y tui_of (y.look root "tui") old.tui;
    handlers = section_or y handlers_of (y.look root "handlers") old.handlers;
  }

  -- What `load` returns, with what it leaves when it throws half-way given: of that, only that no
  -- file is named any more.
  abbrev pub expected : String → Config → Bool → Option y.Node → Config → Bool × Config
  expected config_path old false opened after = (true, use_defaults old)
  expected config_path old true none after = (false, use_defaults old)
  expected config_path old true (some root) after =
      (file_ok root, if file_ok root then config_of root config_path old else use_defaults after)
