-- ===== src/Reactor/Window.antt =====
-- The latency windows: after any recordings each holds the newest 1000 samples of its own priority.
use native.Mathlib.Decide.{dec_lt}
use flowkernel.Base.{
  ℕ, zero, suc, ◌+◌, ◌-◌, ◌≤◌, ◌≡◌, refl, sym, ap, ◌∙◌, List, [], ◌∷◌, ◌++◌, append-nil,
  append_assoc, Bool, true, false, arith, length, drop, length-append, ltb, Bool-cases, inl, inr,
  if◌then◌else◌,
}
use flowkernel.Reactor.{
  TopicPriority, critical, normal, background, Latencies, no_latencies, latency_window_size,
  push_window, record_latency,
}

module _ {ℓ} {A : Type ℓ} where
  drop-append_of_le : (n : ℕ) (xs ys : List A) → n ≤ length xs → drop n (xs ++ ys) ≡ drop n xs ++ ys
  drop-append_of_le zero xs ys h = refl
  drop-append_of_le (suc n) [] ys h = absurd (omega arith)
  drop-append_of_le (suc n) (x ∷ xs) ys h = drop-append_of_le n xs ys (omega arith)

  drop-nil : (n : ℕ) → drop {A = A} n [] ≡ []
  drop-nil zero = refl
  drop-nil (suc n) = refl

  drop-drop : (m n : ℕ) (xs : List A) → drop m (drop n xs) ≡ drop (n + m) xs
  drop-drop m zero xs = ap (λ t. drop t xs) (omega arith)
  drop-drop m (suc n) [] = drop-nil m ∙ sym (drop-nil (suc n + m))
  drop-drop m (suc n) (x ∷ xs) =
      drop-drop m n xs ∙ ap (λ t. drop t (x ∷ xs)) {x = suc (n + m)} (omega arith)

  length-drop : (n : ℕ) (xs : List A) → length (drop n xs) ≡ length xs - n
  length-drop zero xs = omega arith
  length-drop (suc n) [] = omega arith
  length-drop (suc n) (x ∷ xs) = omega (arith, length-drop n xs)

  -- The newest 1000 of a list of samples, oldest first.
  abbrev pub newest : List A → List A
  newest xs = drop (length xs - latency_window_size) xs

  push_window-newest : (xs : List A) (x : A) → push_window (newest xs) x ≡ newest (xs ++ x ∷ [])
  unfolding push_window
  push_window-newest xs x =
      let k = length xs - latency_window_size in
      let joined = drop-append_of_le k xs (x ∷ []) (omega arith) in
      let size = length-drop k (xs ++ x ∷ []) in
      let total = length-append xs (x ∷ []) in
      rw (← joined) (elim (dec_lt (length xs) latency_window_size) [
        | yes few ↦
            let none_out : ltb latency_window_size (length (drop k (xs ++ x ∷ []))) ≡ false =
              ground (arith, size, total) in
            rw none_out (ap (λ t. drop t (xs ++ x ∷ [])) (omega (arith, total)))
        | no many ↦
            let one_out : ltb latency_window_size (length (drop k (xs ++ x ∷ []))) ≡ true =
              ground (arith, size, total) in
            rw one_out (
              drop-drop 1 k (xs ++ x ∷ []) ∙ ap (λ t. drop t (xs ++ x ∷ [])) (omega (arith, total)))
      ])

abbrev pub same : TopicPriority → TopicPriority → Bool
same critical critical = true
same normal normal = true
same background background = true
same _ _ = false

module _ {L : Type 0} where
  abbrev pub window_of : TopicPriority → Latencies L → List L
  window_of critical l = l.critical_latencies
  window_of normal l = l.normal_latencies
  window_of background l = l.background_latencies

  -- A caller's recordings, in order, and those of one priority.
  abbrev pub record_all : List (TopicPriority × L) → Latencies L → Latencies L
  record_all [] l = l
  record_all ((q, x) ∷ hs) l = record_all hs (record_latency q x l)

  abbrev pub samples_of : TopicPriority → List (TopicPriority × L) → List L
  samples_of q [] = []
  samples_of q ((q', x) ∷ hs) = if same q q' then x ∷ samples_of q hs else samples_of q hs

  window_of-record_latency :
      (q q' : TopicPriority) (x : L) (l : Latencies L)
      → window_of q (record_latency q' x l)
        ≡ (if same q q' then push_window (window_of q l) x else window_of q l)
  unfolding record_latency
  window_of-record_latency critical critical x l = refl
  window_of-record_latency critical normal x l = refl
  window_of-record_latency critical background x l = refl
  window_of-record_latency normal critical x l = refl
  window_of-record_latency normal normal x l = refl
  window_of-record_latency normal background x l = refl
  window_of-record_latency background critical x l = refl
  window_of-record_latency background normal x l = refl
  window_of-record_latency background background x l = refl

  window_from :
      (hs : List (TopicPriority × L)) (q : TopicPriority) (past : List L) (l : Latencies L)
      → window_of q l ≡ newest past
      → window_of q (record_all hs l) ≡ newest (past ++ samples_of q hs)
  window_from [] q past l e = e ∙ sym (ap newest (append-nil past))
  window_from ((q', x) ∷ hs) q past l e = elim (Bool-cases (same q q')) [
    | inl hit ↦
        let now : window_of q (record_latency q' x l) ≡ newest (past ++ x ∷ []) =
          window_of-record_latency q q' x l
          ∙ rw hit (ap (λ w. push_window w x) e ∙ push_window-newest past x) in
        rw hit (
          window_from hs q (past ++ x ∷ []) (record_latency q' x l) now
          ∙ ap newest (append_assoc past (x ∷ []) (samples_of q hs)))
    | inr other ↦
        let now : window_of q (record_latency q' x l) ≡ newest past =
          window_of-record_latency q q' x l ∙ rw other e in
        rw other (window_from hs q past (record_latency q' x l) now)
  ]

  -- After any sequence of `record_latency` from empty windows, the window of each priority holds
  -- exactly the newest 1000 samples recorded for that priority, oldest first.
  pub window_lem :
      (hs : List (TopicPriority × L)) (q : TopicPriority)
      → window_of q (record_all hs no_latencies) ≡ newest (samples_of q hs)
  window_lem hs q = window_from hs q [] no_latencies (start q)
    where
      start : (q : TopicPriority) → window_of q no_latencies ≡ newest {A = L} []
      start critical = refl
      start normal = refl
      start background = refl

  -- No window is ever longer than 1000.
  pub length-window :
      (hs : List (TopicPriority × L)) (q : TopicPriority)
      → length (window_of q (record_all hs no_latencies)) ≤ latency_window_size
  length-window hs q = rw (window_lem hs q) (
      omega (arith, length-drop (length (samples_of q hs) - latency_window_size) (samples_of q hs)))
