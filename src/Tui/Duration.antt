-- ===== src/Tui/Duration.antt =====
-- Reading back what `format_duration` prints.
use native.Mathlib.Nat.{pow-suc}
use flowkernel.Base.{
  ℕ, zero, suc, ◌+◌, ◌*◌, ◌/◌, ◌%◌, ◌-◌, ◌^◌, ◌<◌, ◌≡◌, refl, ap, ◌∙◌, [], ◌∷◌, ◌++◌, append_assoc,
  Bool, true, false, ◌||◌, arith, ltb, ◌==◌, if◌then◌else◌, digits, decimal, Bool-cases, inl, inr,
}
use flowkernel.Hash.{Bytes}
use flowkernel.Tui.Panels.{format_seconds}

-- A reader of durations: `n` is the number that is being read, `total` the seconds before it.
unfoldable pub read_from : ℕ → ℕ → Bytes → ℕ
read_from n total [] = total
read_from n total (c ∷ str) =
    if c == b'h'
    then read_from 0 (total + n * 3600) str
    else if c == b'm'
    then read_from 0 (total + n * 60) str
    else if c == b's'
    then read_from 0 (total + n) str
    else read_from (n * 10 + (c - b'0')) total str

unfoldable pub read_duration : Bytes → ℕ
read_duration str = read_from 0 0 str

read_digit :
    (n d total : ℕ) (rest : Bytes)
    → d < 10
    → read_from n total ((b'0' + d) ∷ rest) ≡ read_from (n * 10 + d) total rest
unfolding read_from
read_digit n d total rest h = ground arith

read-digits :
    (fuel n total : ℕ) (rest : Bytes)
    → n < 10 ^ fuel
    → read_from 0 total (digits fuel n ++ rest) ≡ read_from n total rest
unfolding digits
read-digits zero n total rest h =
    let e : 0 ≡ n = omega arith in ap (λ (t : ℕ). read_from t total rest) e
read-digits (suc fuel) n total rest h = elim (Bool-cases (ltb n 10)) [
  | inl small ↦
      let lt : n < 10 = ground arith in
      rw small (
        read_digit 0 n total rest lt ∙ ap (λ (t : ℕ). read_from t total rest) {y = n} (omega arith))
  | inr large ↦
      let more : 10 ^ suc fuel ≡ 10 ^ fuel * 10 = pow-suc 10 fuel in
      let fits : n / 10 < 10 ^ fuel = omega (arith, more) in
      rw large (
        ap (read_from 0 total) (append_assoc (digits fuel (n / 10)) ((b'0' + n % 10) ∷ []) rest)
        ∙ read-digits fuel (n / 10) total ((b'0' + n % 10) ∷ rest) fits
        ∙ read_digit (n / 10) (n % 10) total rest (omega arith)
        ∙ ap (λ (t : ℕ). read_from t total rest) (omega arith))
]

pub read-decimal :
    (n total : ℕ) (rest : Bytes)
    → n < 2 ^ 64
    → read_from 0 total (decimal n ++ rest) ≡ read_from n total rest
unfolding decimal
read-decimal n total rest h = read-digits 20 n total rest (omega arith)

-- A part of the text: a number and its unit of `k` seconds, left out only where the number is 0.
read_part :
    (c k : ℕ) (shown : Bool) (n total : ℕ) (rest : Bytes)
    → ((m t : ℕ) (str : Bytes) → read_from m t (c ∷ str) ≡ read_from 0 (t + m * k) str)
    → n < 2 ^ 64
    → (shown ≡ false → n ≡ 0)
    → read_from 0 total ((if shown then decimal n ++ c ∷ [] else []) ++ rest)
      ≡ read_from 0 (total + n * k) rest
read_part c k true n total rest unit fits shown =
    ap (read_from 0 total) (append_assoc (decimal n) (c ∷ []) rest)
    ∙ read-decimal n total (c ∷ rest) fits
    ∙ unit n total rest
read_part c k false n total rest unit fits shown =
    ap (λ (t : ℕ). read_from 0 t rest) (rw (shown refl) (omega arith))

-- Every number of seconds below 2 ^ 31, where an `int` ends, is read back from the text that
-- `format_duration` makes of it.
pub read_duration-format_seconds :
    (seconds : ℕ) → seconds < 2 ^ 31 → read_duration (format_seconds seconds) ≡ seconds
unfolding read_duration format_seconds read_from
read_duration-format_seconds seconds h =
    let hours = seconds / 3600 in
    let minutes = seconds % 3600 / 60 in
    let secs = seconds % 60 in
    let last = decimal secs ++ b's' ∷ [] in
    let middle =
      (if ltb 0 minutes || ltb 0 hours then decimal minutes ++ b'm' ∷ [] else []) ++ last in
    read_part b'h' 3600 (ltb 0 hours) hours 0 middle (λ m t str. refl) (omega arith)
      (λ (e : ltb 0 hours ≡ false). ground arith)
    ∙ read_part b'm' 60 (ltb 0 minutes || ltb 0 hours) minutes (0 + hours * 3600) last
        (λ m t str. refl) (omega arith)
        (λ (e : (ltb 0 minutes || ltb 0 hours) ≡ false). ground arith)
    ∙ read-decimal secs (0 + hours * 3600 + minutes * 60) (b's' ∷ []) (omega arith)
    ∙ omega arith
