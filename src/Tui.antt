-- ===== src/Tui.antt =====
-- `TUIApp` of src/tui/tui_app.cpp and include/tui/tui_app.hpp: what it keeps of the reactor's
-- statistics, and its keys. A mutex guards each refresh and each rendering, so each is one step.
pub mod Panels
pub mod Duration
pub mod Screen
pub mod Sessions
use Prim.Native.String.{String}
use flowkernel.Base.{
  ℕ, ◌/◌, ◌%◌, List, [], ◌∷◌, ◌++◌, map, Option, none, some, Bool, true, false, ◌||◌, ltb, leb,
  ◌==◌, if◌then◌else◌, text_eq, utf8, decimal,
}
use flowkernel.Hash.{Bytes}
use flowkernel.Platform.{Platform}
use flowkernel.Config.{Config}
use flowkernel.Reactor.{Reactor}
use flowkernel.Reactor.Stats.{
  Floats, ChannelStats, SessionInfo, HandlerStatus, get_critical_stats, get_normal_stats,
  get_background_stats, get_sessions, get_handler_statuses, reset_stats,
}

pub record Tui (p : Platform) : Type 0 where
  pub running : Bool
  pub screen_open : Bool  -- `screen_` has not been told to exit
  pub refreshing : Bool  -- `refresh_thread_` is joinable
  pub critical_stats : ChannelStats p.Micros
  pub normal_stats : ChannelStats p.Micros
  pub background_stats : ChannelStats p.Micros
  pub sessions : List SessionInfo
  pub handlers : List HandlerStatus
  pub uptime_seconds : p.Micros

module _ {p : Platform} where
  -- `run` up to the screen's loop.
  unfoldable pub run : Tui p → Tui p
  run t = record t { running = true; refreshing = true }

  unfoldable pub stop : Tui p → Tui p
  stop t = record t { running = false; screen_open = false; refreshing = false }

  unfoldable pub refresh_data : Floats p.Micros → ℕ → p.Micros → Reactor p → Tui p → Tui p
  refresh_data fl now uptime r t = record t {
    critical_stats = get_critical_stats fl r;
    normal_stats = get_normal_stats fl r;
    background_stats = get_background_stats fl r;
    sessions = get_sessions now r;
    handlers = get_handler_statuses r;
    uptime_seconds = uptime;
  }

  -- `keyboard_handler`: whether the key was taken, the interface and the reactor.
  unfoldable pub keyboard_handler : ℕ → Tui p → Reactor p → Bool × Tui p × Reactor p
  keyboard_handler key t r =
      if (key == b'q') || (key == b'Q')
      then (true, stop t, r)
      else if (key == b'r') || (key == b'R')
      then (true, t, reset_stats r)
      else (false, t, r)
