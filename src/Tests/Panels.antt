-- ===== src/Tests/Panels.antt =====
-- The panels on a screen that is the list of its texts, with numbers of microseconds.
use flowkernel.Base.{
  ◌/◌, ◌≡◌, refl, ap, inr, List, [], ◌∷◌, ◌++◌, true, arith, leb, decimal, digits, utf8,
}
use flowkernel.Hash.{Bytes}
use flowkernel.Reactor.{Reactor}
use flowkernel.Reactor.Stats.{channel_stats}
use flowkernel.Tui.{Tui, refresh_data, keyboard_handler}
use flowkernel.Tui.Panels.{Ui, Doubles, format_seconds, render_sessions, render_channels}
use flowkernel.Tui.Duration.{read_duration, read_duration-format_seconds}
use flowkernel.Tui.Screen.{all_shown, Shows, reset_texts, reset_shown}
use flowkernel.Tui.Sessions.{IsPanel, sessions_shown}
use flowkernel.Tests.Data.{linux, robot}
use flowkernel.Tests.Sorting.{whole_micros}

abbrev all_texts : List (List Bytes) → List Bytes
all_texts [] = []
all_texts (ts ∷ rest) = ts ++ all_texts rest

abbrev texts_only : Ui
texts_only = record {
  Element = List Bytes;
  text = λ t. t ∷ [];
  bold = λ e. e;
  color = λ c e. e;
  hbox = all_texts;
  vbox = all_texts;
  border = λ e. e;
  separator = [];
}

pub all_texts-all_shown : (es : List (List Bytes)) → all_texts es ≡ all_shown texts_only (λ e. e) es
all_texts-all_shown [] = refl
all_texts-all_shown (ts ∷ rest) = ap (λ x. ts ++ x) (all_texts-all_shown rest)

abbrev screen : Shows texts_only
screen = record {
  shown = λ e. e;
  shown-text = λ t. refl;
  shown-bold = λ e. refl;
  shown-color = λ c e. refl;
  shown-hbox = all_texts-all_shown;
  shown-vbox = all_texts-all_shown;
  shown-border = λ e. refl;
  shown-separator = refl;
}

abbrev whole_numbers : Doubles linux
whole_numbers = record {
  at_least = λ us n. leb n us;
  over = λ us n. us / n;
  of_count = λ n. n;
  whole = λ us. us;
  fixed = λ precision us. decimal us;
}

-- Two robots, one of them seen long ago.
abbrev visited : Reactor linux
visited = record robot { session_last_seen = (utf8 "robot/7", 9000) ∷ (utf8 "robot/8", 1000) ∷ [] }

abbrev tui : Tui linux
tui = record {
  running = true;
  screen_open = true;
  refreshing = true;
  critical_stats = channel_stats whole_micros 3 1 (5 ∷ []);
  normal_stats = channel_stats whole_micros 0 0 [];
  background_stats = channel_stats whole_micros 0 0 [];
  sessions = [];
  handlers = [];
  uptime_seconds = 0;
}

read_duration-format_seconds_example : read_duration (format_seconds 7325) ≡ 7325
read_duration-format_seconds_example = read_duration-format_seconds 7325 (omega arith)

-- 7325 seconds are "2h2m5s".
seconds_text : format_seconds 7325 ≡ utf8 "2h2m5s"
unfolding format_seconds decimal digits
seconds_text = refl

sessions_shown_example :
    IsPanel 9900
      ((utf8 "robot/7", 9000) ∷ (utf8 "robot/8", 1000) ∷ [])
      (render_sessions whole_numbers texts_only (refresh_data whole_micros 9900 5 visited tui))
sessions_shown_example =
    sessions_shown whole_numbers (λ n h. refl) texts_only screen whole_micros 9900 5 visited tui
      (omega arith, (omega arith, tt))

both_texts :
    render_sessions whole_numbers texts_only (refresh_data whole_micros 9900 5 visited tui)
    ≡ utf8 " ▸ SESSIONS"
      ∷ utf8 " "
      ∷ utf8 "● ONLINE "
      ∷ utf8 "  │  "
      ∷ utf8 "robot/7"
      ∷ utf8 "  │  "
      ∷ utf8 "900ms ago"
      ∷ utf8 " "
      ∷ utf8 "○ OFFLINE"
      ∷ utf8 "  │  "
      ∷ utf8 "robot/8"
      ∷ utf8 "  │  "
      ∷ utf8 "8s ago"
      ∷ []
unfolding render_sessions refresh_data flowkernel.Reactor.Stats.get_sessions
    flowkernel.Reactor.Stats.session_info flowkernel.Tui.Panels.session_row
    flowkernel.Tui.Panels.last_seen_text flowkernel.Tui.Panels.format_duration format_seconds
    decimal digits
both_texts = refl

reset_shown_example :
    let (taken, t', r') = keyboard_handler b'R' tui visited in
    (taken ≡ true)
    × (render_channels whole_numbers texts_only (refresh_data whole_micros 9900 5 r' t')
        ≡ reset_texts whole_numbers 0)
reset_shown_example =
    reset_shown whole_numbers texts_only screen b'R' whole_micros 9900 5 visited tui (inr refl)
