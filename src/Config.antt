-- ===== src/Config.antt =====
-- include/config/config.hpp: the configuration with its defaults. YAML and the file system are given
-- from outside.
pub mod Parse
pub mod Load
pub mod Reads
pub mod Sections
pub mod Fields
pub mod Loaded
use Prim.Native.String.{String}
use flowkernel.Base.{ℕ, List, [], ◌∷◌, ◌++◌, Option, none, some, Bool, true, false, if◌then◌else◌}

-- `int`
pub data ℤ : Type 0 where
  pos : ℕ → ℤ
  negsuc : ℕ → ℤ

-- `node[key]`: an exception, a node that is false in a condition, or a node.
pub data Looked (N : Type 0) : Type 0 where
  throws : Looked N
  missing : Looked N
  found : N → Looked N

-- What yaml-cpp and the file system offer; `none` is an exception of yaml-cpp. `elements` is what a
-- loop over a node visits. `exists_throws` says whether `std::filesystem::exists` throws its
-- `filesystem_error`, and `exists` is what it returns if not.
pub record Yaml : Type 1 where
  pub Node : Type 0
  pub look : Node → String → Looked Node
  pub as_text : Node → Option String
  pub as_int : Node → Option ℤ
  pub as_bool : Node → Option Bool
  pub elements : Node → List Node
  pub exists_throws : String → Bool
  pub exists : String → Bool
  pub load_file : String → Option Node

pub record HandlerConfig : Type 0 where
  pub path : String
  pub priority : String
  pub description : String

pub record ChannelConfig : Type 0 where
  pub queue_size : ℤ
  pub wakeup_mode : String

pub record BackgroundChannelConfig : Type 0 where
  pub strategy : String
  pub max_age_ms : ℤ

pub record LivelinessConfig : Type 0 where
  pub key : String
  pub estop_publish_path : String

pub record TuiConfig : Type 0 where
  pub enabled : Bool
  pub refresh_rate_ms : ℤ
  pub show_banner : Bool
  pub color_theme : String

pub record ServerConfig : Type 0 where
  pub name : String
  pub version : String
  pub log_level : String

pub record ZenohConfig : Type 0 where
  pub config_path : String

pub record ChannelsConfig : Type 0 where
  pub critical : ChannelConfig
  pub normal : ChannelConfig
  pub background : BackgroundChannelConfig

pub record Config : Type 0 where
  pub loaded_path : String  -- `config_path_`
  pub server : ServerConfig
  pub zenoh : ZenohConfig
  pub channels : ChannelsConfig
  pub liveliness : LivelinessConfig
  pub tui : TuiConfig
  pub handlers : List HandlerConfig

abbrev pub default_channel : ChannelConfig
default_channel = record { queue_size = pos 512; wakeup_mode = "eventfd" }

abbrev pub new_handler : HandlerConfig
new_handler = record { path = ""; priority = ""; description = "" }

abbrev pub new_config : Config
new_config = record {
  loaded_path = "";
  server = record { name = "FlowKernel"; version = "2.3"; log_level = "info" };
  zenoh = record { config_path = "" };
  channels = record {
    critical = default_channel;
    normal = default_channel;
    background = record { strategy = "latest_only"; max_age_ms = pos 200 };
  };
  liveliness = record { key = "robot/**"; estop_publish_path = "robot/*/cmd/estop" };
  tui = record {
    enabled = true;
    refresh_rate_ms = pos 100;
    show_banner = false;
    color_theme = "dark";
  };
  handlers = [];
}

unfoldable pub use_defaults : Config → Config
use_defaults c = record c { loaded_path = "" }
