-- ===== src/Tui/Screen.antt =====
-- The texts that the panels show.
use flowkernel.Base.{
  ℕ, ◌≡◌, ◌⊎◌, inl, inr, refl, ap₂, List, [], ◌∷◌, ◌++◌, map, true, sub64, ltb, if◌then◌else◌, utf8,
  decimal, digits, append-nil,
}
use flowkernel.Hash.{Bytes}
use flowkernel.Platform.{Platform}
use flowkernel.Reactor.{Reactor}
use flowkernel.Reactor.Stats.{
  Floats, session_info, channel_stats, get_critical_stats, get_normal_stats, get_background_stats,
  get_sessions, reset_stats,
}
use flowkernel.Tui.{Tui, refresh_data, keyboard_handler}
use flowkernel.Tui.Panels.{
  Ui, Doubles, Color, format_latency, format_number, last_seen_text, channel_row, render_channels,
  session_row, session_rows, render_sessions,
}

module _ (ui : Ui) where
  abbrev pub all_shown : (ui.Element → List Bytes) → List ui.Element → List Bytes
  all_shown shown [] = []
  all_shown shown (e ∷ es) = shown e ++ all_shown shown es

  -- The texts that FTXUI puts on the screen for an element, from left to right and top to bottom.
  pub record Shows : Type 0 where
    pub shown : ui.Element → List Bytes
    pub shown-text : (t : Bytes) → shown (ui.text t) ≡ t ∷ []
    pub shown-bold : (e : ui.Element) → shown (ui.bold e) ≡ shown e
    pub shown-color : (c : Color) (e : ui.Element) → shown (ui.color c e) ≡ shown e
    pub shown-hbox : (es : List ui.Element) → shown (ui.hbox es) ≡ all_shown shown es
    pub shown-vbox : (es : List ui.Element) → shown (ui.vbox es) ≡ all_shown shown es
    pub shown-border : (e : ui.Element) → shown (ui.border e) ≡ shown e
    pub shown-separator : shown ui.separator ≡ []

-- The texts of a robot's row, seen `ago` milliseconds ago.
abbrev pub bar_text : Bytes
bar_text = utf8 "  │  "

module _ {p : Platform} (db : Doubles p) where
  abbrev pub row_texts : Bytes → ℕ → List Bytes
  row_texts id ago =
      utf8 " "
      ∷ (if ltb ago 5000 then utf8 "● ONLINE " else utf8 "○ OFFLINE")
      ∷ bar_text
      ∷ id
      ∷ bar_text
      ∷ last_seen_text db ago
      ∷ []

  abbrev pub robots_texts : ℕ → List (Bytes × ℕ) → List Bytes
  robots_texts now [] = []
  robots_texts now ((id, last_seen) ∷ m) = row_texts id (sub64 now last_seen) ++ robots_texts now m

  abbrev pub sessions_texts : ℕ → List (Bytes × ℕ) → List Bytes
  sessions_texts now [] = utf8 "  No active sessions" ∷ []
  sessions_texts now (s ∷ m) = robots_texts now (s ∷ m)

  -- A channel's row without a frame.
  abbrev pub zero_row : p.Micros → Bytes → List Bytes
  zero_row zero_us name =
      utf8 " ● "
      ∷ name
      ∷ bar_text
      ∷ utf8 "Processed: 0"
      ∷ bar_text
      ∷ utf8 "Dropped: 0"
      ∷ bar_text
      ∷ (utf8 "Avg: " ++ format_latency db zero_us)
      ∷ bar_text
      ∷ (utf8 "P95: " ++ format_latency db zero_us)
      ∷ []

  -- The panel of channels with all three of them so.
  abbrev pub reset_texts : p.Micros → List Bytes
  reset_texts zero_us =
      utf8 " ▸ CHANNELS"
      ∷ (zero_row zero_us (utf8 "CRITICAL  ")
          ++ (zero_row zero_us (utf8 "NORMAL    ") ++ zero_row zero_us (utf8 "BACKGROUND")))

module _ {p : Platform} (db : Doubles p) (ui : Ui) (sh : Shows ui) where
  session_row_shown :
      (now : ℕ) (id : Bytes) (last_seen : ℕ)
      → sh.shown (session_row db ui (session_info now (id, last_seen)))
        ≡ row_texts db id (sub64 now last_seen)
  unfolding session_row session_info
  session_row_shown now id last_seen =
      simp (sh.shown-hbox, sh.shown-color, sh.shown-bold, sh.shown-text)

  session_rows_shown :
      (now : ℕ) (m : List (Bytes × ℕ))
      → all_shown ui sh.shown (map (session_row db ui) (map (session_info now) m))
        ≡ robots_texts db now m
  session_rows_shown now [] = refl
  session_rows_shown now ((id, last_seen) ∷ m) =
      ap₂ (λ (xs ys : List Bytes). xs ++ ys) (session_row_shown now id last_seen)
        (session_rows_shown now m)

  sessions_rows_shown :
      (now : ℕ) (m : List (Bytes × ℕ))
      → all_shown ui sh.shown (session_rows db ui (map (session_info now) m))
        ≡ sessions_texts db now m
  sessions_rows_shown now [] = simp (sh.shown-color, sh.shown-text)
  sessions_rows_shown now (s ∷ m) = session_rows_shown now (s ∷ m)

  pub shown-render_sessions :
      (fl : Floats p.Micros) (now : ℕ) (uptime : p.Micros) (r : Reactor p) (t : Tui p)
      → sh.shown (render_sessions db ui (refresh_data fl now uptime r t))
        ≡ utf8 " ▸ SESSIONS" ∷ sessions_texts db now r.session_last_seen
  unfolding render_sessions refresh_data get_sessions
  shown-render_sessions fl now uptime r t = simp (
    sh.shown-border,
    sh.shown-vbox,
    sh.shown-color,
    sh.shown-bold,
    sh.shown-text,
    sh.shown-separator,
    sessions_rows_shown now r.session_last_seen,
    append-nil,
  )

  channel_row_shown :
      (fl : Floats p.Micros) (name : Bytes) (c : Color)
      → sh.shown (channel_row db ui name (channel_stats fl 0 0 []) c) ≡ zero_row db fl.zero_us name
  unfolding channel_row channel_stats format_number decimal digits
  channel_row_shown fl name c = simp (sh.shown-hbox, sh.shown-color, sh.shown-bold, sh.shown-text)

  reset_channels_shown :
      (fl : Floats p.Micros) (now : ℕ) (uptime : p.Micros) (r : Reactor p) (t : Tui p)
      → sh.shown (render_channels db ui (refresh_data fl now uptime (reset_stats r) t))
        ≡ reset_texts db fl.zero_us
  unfolding render_channels refresh_data reset_stats get_critical_stats get_normal_stats
      get_background_stats
  reset_channels_shown fl now uptime r t = simp (
    sh.shown-border, sh.shown-vbox, sh.shown-color, sh.shown-bold, sh.shown-text,
    sh.shown-separator, channel_row_shown, append-nil,
  )

  -- The key `r` or `R` is taken, and a refresh right after it shows for all three channels that
  -- nothing was processed or dropped, and latencies of zero.
  pub reset_shown :
      (key : ℕ) (fl : Floats p.Micros) (now : ℕ) (uptime : p.Micros) (r : Reactor p) (t : Tui p)
      → (key ≡ b'r') ⊎ (key ≡ b'R')
      → let (taken, t', r') = keyboard_handler key t r in
        (taken ≡ true)
        × (sh.shown (render_channels db ui (refresh_data fl now uptime r' t'))
            ≡ reset_texts db fl.zero_us)
  unfolding keyboard_handler
  reset_shown key fl now uptime r t (inl e) = rw e (refl, reset_channels_shown fl now uptime r t)
  reset_shown key fl now uptime r t (inr e) = rw e (refl, reset_channels_shown fl now uptime r t)
