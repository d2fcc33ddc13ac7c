-- ===== src/Tests/Yaml.antt =====
-- A configuration file with two handlers.
use Prim.Native.Nat.{Ordering}
use Prim.Native.String.{String, compare}
use flowkernel.Base.{◌≡◌, refl, List, [], ◌∷◌, Option, none, some, Bool, true, false, if◌then◌else◌}
use flowkernel.Config.{Yaml, Looked, throws, missing, found, new_config}
use flowkernel.Config.Parse.{parse_handlers, parse_handler, parse_each, load}
use flowkernel.Config.Loaded.{load_lem}

-- A node is a text, the list of handlers, or one of its entries, a path with a priority.
pub data FileNode : Type 0 where
  scalar : String → FileNode
  entry : String → String → FileNode
  handler_list : FileNode
  root : FileNode

abbrev is_key : String → String → Bool
is_key a b = elim (compare a b) [ Ordering.eq ↦ true | _ ↦ false ]

abbrev look_in : FileNode → String → Looked FileNode
look_in (scalar v) name = throws
look_in (entry path priority) name =
    if is_key name "path"
    then found (scalar path)
    else if is_key name "priority"
    then found (scalar priority)
    else missing
look_in handler_list name = missing
look_in root name = if is_key name "handlers" then found handler_list else missing

abbrev scalar_text : FileNode → Option String
scalar_text (scalar v) = some v
scalar_text _ = none

abbrev listed : FileNode → List FileNode
listed handler_list = entry "robot/1/estop" "CRITICAL" ∷ entry "robot/1/map" "BACKGROUND" ∷ []
listed _ = []

abbrev pub file : Yaml
file = record {
  Node = FileNode;
  look = look_in;
  as_text = scalar_text;
  as_int = λ node. none;
  as_bool = λ node. none;
  elements = listed;
  exists_throws = λ path. false;
  exists = λ path. is_key path "flow.yaml";
  load_file = λ path. some root;
}

two_handlers : (parse_handlers file handler_list []).0 ≡ true
unfolding parse_handlers parse_each parse_handler
two_handlers = refl

load_lem_example : load file "flow.yaml" new_config ≡ (
  true,
  record new_config {
    loaded_path = "flow.yaml";
    handlers =
        (record { path = "robot/1/estop"; priority = "CRITICAL"; description = "" })
        ∷ (record { path = "robot/1/map"; priority = "BACKGROUND"; description = "" })
        ∷ [];
  },
)
load_lem_example = load_lem file "flow.yaml" new_config
