-- ===== src/Tui/Panels.antt =====
-- The panels of src/tui/tui_app.cpp and the texts in them. FTXUI and the arithmetic on `double` are
-- given from outside.
use Prim.Native.String.{String}
use flowkernel.Base.{
  ℕ, ◌/◌, ◌%◌, List, [], ◌∷◌, ◌++◌, map, Option, none, some, Bool, ◌||◌, ltb, leb, if◌then◌else◌,
  text_eq, utf8, decimal,
}
use flowkernel.Hash.{Bytes}
use flowkernel.Platform.{Platform}
use flowkernel.Config.{Config}
use flowkernel.Reactor.Stats.{ChannelStats, SessionInfo, HandlerStatus}
use flowkernel.Tui.{Tui}

pub data Color : Type 0 where
  cyan gray_light gray_dark white red yellow green : Color

-- The elements that the panels are put together from.
pub record Ui : Type 1 where
  pub Element : Type 0
  pub text : Bytes → Element
  pub bold : Element → Element
  pub color : Color → Element → Element
  pub hbox : List Element → Element
  pub vbox : List Element → Element
  pub border : Element → Element
  pub separator : Element

-- `double`: `us >= n`, `us / n`, a count as a `double`, a `double` cut to an `int`, and `<<` with
-- `std::fixed` and a precision.
pub record Doubles (p : Platform) : Type 0 where
  pub at_least : p.Micros → ℕ → Bool
  pub over : p.Micros → ℕ → p.Micros
  pub of_count : ℕ → p.Micros
  pub whole : p.Micros → ℕ
  pub fixed : ℕ → p.Micros → Bytes

-- `int` parts of a number of seconds that has been cut to an `int`.
unfoldable pub format_seconds : ℕ → Bytes
format_seconds seconds =
    let hours = seconds / 3600 in
    let minutes = seconds % 3600 / 60 in
    let secs = seconds % 60 in
    (if ltb 0 hours then decimal hours ++ b'h' ∷ [] else [])
    ++ ((if ltb 0 minutes || ltb 0 hours then decimal minutes ++ b'm' ∷ [] else [])
        ++ (decimal secs ++ b's' ∷ []))

module _ {p : Platform} (db : Doubles p) where
  unfoldable pub format_duration : p.Micros → Bytes
  format_duration seconds = format_seconds (db.whole seconds)

  unfoldable pub format_latency : p.Micros → Bytes
  format_latency us =
      if db.at_least us 1000000
      then db.fixed 2 (db.over us 1000000) ++ utf8 "s"
      else if db.at_least us 1000
      then db.fixed 2 (db.over us 1000) ++ utf8 "ms"
      else db.fixed 0 us ++ utf8 "µs"

  unfoldable pub format_number : ℕ → Bytes
  format_number num =
      if leb 1000000 num
      then db.fixed 2 (db.over (db.of_count num) 1000000) ++ utf8 "M"
      else if leb 1000 num
      then db.fixed 1 (db.over (db.of_count num) 1000) ++ utf8 "K"
      else decimal num

  -- A percentile that was read out of range has no text.
  abbrev pub format_percentile : Option p.Micros → Bytes
  format_percentile none = []
  format_percentile (some us) = format_latency us

  unfoldable pub last_seen_text : ℕ → Bytes
  last_seen_text ms =
      if ltb ms 1000
      then decimal ms ++ utf8 "ms ago"
      else format_duration (db.over (db.of_count ms) 1000) ++ utf8 " ago"

  module _ (ui : Ui) where
    -- `text(...) | color(...)`, and with `bold` between.
    abbrev pub plain : Color → Bytes → ui.Element
    plain c t = ui.color c (ui.text t)

    abbrev pub strong : Color → Bytes → ui.Element
    strong c t = ui.color c (ui.bold (ui.text t))

    abbrev pub bar : ui.Element
    bar = plain gray_dark (utf8 "  │  ")

    unfoldable pub render_header : Config → Tui p → ui.Element
    render_header config t = ui.border (
        ui.hbox (
          strong cyan
            (utf8 " " ++ utf8 config.server.name ++ utf8 " v" ++ utf8 config.server.version)
          ∷ plain gray_light (utf8 "  │  Uptime: " ++ format_duration t.uptime_seconds)
          ∷ plain gray_light (utf8 "  │  Q:Quit  R:Reset")
          ∷ []))

    unfoldable pub channel_row : Bytes → ChannelStats p.Micros → Color → ui.Element
    channel_row name stats channel_color = ui.hbox (
        plain channel_color (utf8 " ● ")
        ∷ strong channel_color name
        ∷ bar
        ∷ plain white (utf8 "Processed: " ++ format_number stats.processed)
        ∷ bar
        ∷ plain white (utf8 "Dropped: " ++ format_number stats.dropped)
        ∷ bar
        ∷ plain white (utf8 "Avg: " ++ format_latency stats.avg_latency_us)
        ∷ bar
        ∷ plain white (utf8 "P95: " ++ format_percentile stats.p95_latency_us)
        ∷ [])

    unfoldable pub render_channels : Tui p → ui.Element
    render_channels t = ui.border (
        ui.vbox (
          strong white (utf8 " ▸ CHANNELS")
          ∷ ui.separator
          ∷ channel_row (utf8 "CRITICAL  ") t.critical_stats red
          ∷ channel_row (utf8 "NORMAL    ") t.normal_stats yellow
          ∷ channel_row (utf8 "BACKGROUND") t.background_stats green
          ∷ []))

    unfoldable pub session_row : SessionInfo → ui.Element
    session_row s = ui.hbox (
        plain white (utf8 " ")
        ∷ strong (if s.online then green else red)
            (if s.online then utf8 "● ONLINE " else utf8 "○ OFFLINE")
        ∷ bar
        ∷ plain white s.robot_id
        ∷ bar
        ∷ plain gray_light (last_seen_text s.last_seen_ms)
        ∷ [])

    abbrev pub session_rows : List SessionInfo → List ui.Element
    session_rows [] = plain gray_light (utf8 "  No active sessions") ∷ []
    session_rows (s ∷ ss) = map session_row (s ∷ ss)

    unfoldable pub render_sessions : Tui p → ui.Element
    render_sessions t = ui.border (
        ui.vbox (
          strong white (utf8 " ▸ SESSIONS")
          ∷ ui.separator
          ∷ ui.vbox (session_rows t.sessions)
          ∷ []))

    abbrev pub priority_color : String → Color
    priority_color priority =
        if text_eq priority "CRITICAL"
        then red
        else if text_eq priority "NORMAL"
        then yellow
        else green

    unfoldable pub handler_row : HandlerStatus → ui.Element
    handler_row h = ui.hbox (
        plain green (utf8 " ● ")
        ∷ plain white h.path
        ∷ bar
        ∷ strong (priority_color h.priority) (utf8 h.priority)
        ∷ bar
        ∷ plain (if h.active then green else gray_light)
            (if h.active then utf8 "● Active" else utf8 "○ Inactive")
        ∷ [])

    unfoldable pub render_handlers : Tui p → ui.Element
    render_handlers t = ui.border (
        ui.vbox (
          strong white (utf8 " ▸ HANDLERS")
          ∷ ui.separator
          ∷ ui.vbox (map handler_row t.handlers)
          ∷ []))

    abbrev pub render_footer : ui.Element
    render_footer = ui.border (
        ui.hbox (
          plain cyan (utf8 " [Q]uit")
          ∷ plain cyan (utf8 "  [R]eset stats")
          ∷ plain cyan (utf8 "  [L]ogs")
          ∷ plain cyan (utf8 "  [H]elp")
          ∷ []))

    -- `main_container_`
    unfoldable pub main_container : Config → Tui p → List ui.Element
    main_container config t =
        render_header config t
        ∷ render_channels t
        ∷ render_sessions t
        ∷ render_handlers t
        ∷ render_footer
        ∷ []
