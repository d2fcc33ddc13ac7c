-- ===== src/Tui/Sessions.antt =====
-- The panel of sessions of src/tui/tui_app.cpp: what it says of each robot.
use flowkernel.Base.{
  ℕ, ◌*◌, ◌/◌, ◌^◌, ◌<◌, ◌≤◌, ◌≡◌, ◌⊎◌, inl, inr, refl, subst, sym, List, [], ◌∷◌, ◌++◌, arith,
  sub64, ltb, Bool-cases, if◌then◌else◌, utf8, decimal,
}
use flowkernel.Hash.{Bytes}
use flowkernel.Platform.{Platform}
use flowkernel.Reactor.{Reactor}
use flowkernel.Reactor.Stats.{Floats}
use flowkernel.Tui.{Tui, refresh_data}
use flowkernel.Tui.Panels.{Ui, Doubles, format_duration, last_seen_text, render_sessions}
use flowkernel.Tui.Duration.{read_from, read_duration, read-decimal, read_duration-format_seconds}
use flowkernel.Tui.Screen.{
  Shows, bar_text, row_texts, robots_texts, sessions_texts, shown-render_sessions,
}

-- The value of a number in decimal digits.
abbrev pub read_number : Bytes → ℕ
read_number str = read_duration (str ++ b's' ∷ [])

-- A text says how long ago something was: in milliseconds below a second, or else in hours, minutes
-- and whole seconds.
abbrev pub SaysAgo : ℕ → Bytes → Type 0
SaysAgo ms str =
    ((ms < 1000) × (number : Bytes) × (str ≡ number ++ utf8 "ms ago") × (read_number number ≡ ms))
    ⊎ ((1000 ≤ ms)
        × (duration : Bytes) × (str ≡ duration ++ utf8 " ago")
        × (read_duration duration ≡ ms / 1000))

abbrev pub IsRow : Bytes → ℕ → List Bytes → Type 0
IsRow id ms texts =
    (ago : Bytes) × (texts
      ≡ utf8 " "
        ∷ (if ltb ms 5000 then utf8 "● ONLINE " else utf8 "○ OFFLINE")
        ∷ bar_text
        ∷ id
        ∷ bar_text
        ∷ ago
        ∷ [])
    × SaysAgo ms ago

-- One row after another, for the robots of a table at the time `now`.
abbrev pub AreRows : ℕ → List (Bytes × ℕ) → List Bytes → Type 0
AreRows now [] texts = texts ≡ []
AreRows now ((id, last_seen) ∷ m) texts =
    (row : List Bytes) × (rest : List Bytes) × (texts ≡ row ++ rest)
    × IsRow id (sub64 now last_seen) row
    × AreRows now m rest

abbrev pub IsPanel : ℕ → List (Bytes × ℕ) → List Bytes → Type 0
IsPanel now [] texts = texts ≡ utf8 " ▸ SESSIONS" ∷ utf8 "  No active sessions" ∷ []
IsPanel now (s ∷ m) texts =
    (rows : List Bytes) × (texts ≡ utf8 " ▸ SESSIONS" ∷ rows) × AreRows now (s ∷ m) rows

-- Each robot was seen so short ago that the seconds since are an `int`.
abbrev pub AllInt : ℕ → List (Bytes × ℕ) → Type 0
AllInt now [] = Unit {0}
AllInt now ((id, last_seen) ∷ m) = (sub64 now last_seen < 2 ^ 31 * 1000) × AllInt now m

-- The quotient of such a number of milliseconds by 1000, as a `double` cut to an `int`, is that of
-- whole numbers.
abbrev pub CutsSeconds : {p : Platform} → Doubles p → Type 0
CutsSeconds db = (n : ℕ) → n < 2 ^ 31 * 1000 → db.whole (db.over (db.of_count n) 1000) ≡ n / 1000

module _ {p : Platform} (db : Doubles p) (cuts : CutsSeconds db) where
  last_seen_text-SaysAgo : (ms : ℕ) → ms < 2 ^ 31 * 1000 → SaysAgo ms (last_seen_text db ms)
  unfolding last_seen_text format_duration read_duration read_from
  last_seen_text-SaysAgo ms h = elim (Bool-cases (ltb ms 1000)) [
    | inl short ↦ rw short (
        inl (
          ground arith,
          decimal ms,
          refl,
          omega (arith, read-decimal ms 0 (b's' ∷ []) (omega (arith, h))),
        ))
    | inr long ↦ rw long (
        inr (
          ground arith,
          format_duration db (db.over (db.of_count ms) 1000),
          refl,
          rw (cuts ms h) (read_duration-format_seconds (ms / 1000) (omega (arith, h))),
        ))
  ]

  robots_texts-AreRows :
      (now : ℕ) (m : List (Bytes × ℕ)) → AllInt now m → AreRows now m (robots_texts db now m)
  robots_texts-AreRows now [] h = refl
  robots_texts-AreRows now ((id, last_seen) ∷ m) (here, rest) =
      let ms = sub64 now last_seen in
      (
        row_texts db id ms,
        robots_texts db now m,
        refl,
        (last_seen_text db ms, refl, last_seen_text-SaysAgo ms here),
        robots_texts-AreRows now m rest,
      )

  sessions_texts-IsPanel :
      (now : ℕ) (m : List (Bytes × ℕ))
      → AllInt now m
      → IsPanel now m (utf8 " ▸ SESSIONS" ∷ sessions_texts db now m)
  sessions_texts-IsPanel now [] h = refl
  sessions_texts-IsPanel now (s ∷ m) h =
      (robots_texts db now (s ∷ m), refl, robots_texts-AreRows now (s ∷ m) h)

  -- After a refresh at the time `now` the panel of sessions shows each robot that was ever seen, in
  -- the order of the table, if each was seen less than 2 ^ 31 seconds ago: as online exactly if that
  -- is less than 5000 milliseconds ago, with its id and a text that says how long ago it was, which
  -- reads back as the milliseconds if they are less than 1000, and else as the whole seconds. If no
  -- robot was seen, one line says that there is none.
  pub sessions_shown :
      (ui : Ui) (sh : Shows ui) (fl : Floats p.Micros) (now : ℕ) (uptime : p.Micros) (r : Reactor p)
      (t : Tui p)
      → AllInt now r.session_last_seen
      → IsPanel now r.session_last_seen
          (sh.shown (render_sessions db ui (refresh_data fl now uptime r t)))
  sessions_shown ui sh fl now uptime r t h =
      subst (IsPanel now r.session_last_seen)
        (sym (shown-render_sessions db ui sh fl now uptime r t))
        (sessions_texts-IsPanel now r.session_last_seen h)
