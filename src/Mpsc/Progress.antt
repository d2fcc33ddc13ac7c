-- ===== src/Mpsc/Progress.antt =====
-- `push` and `pop` end whatever the other threads do: the spin lock is always released.
use native.Mathlib.Decide.{dec_lt}
use flowkernel.Base.{
  ◌<◌, Bool-cases, ◌⊎◌, inl, inr, ℕ, suc, ◌≤◌, ◌≡◌, refl, ap, List, [], ◌∷◌, ◌++◌, ◌==◌, arith,
}
use flowkernel.Mpsc.{next_index}
use flowkernel.Mpsc.Threads.{
  Producer, outside, entered, at_tail, roomy, written, refusing, leaving, Consumer, idle, at_head,
  ready, moved, Machine, Turn, enters, produces, consumes, enter, produce, take_turn, turn,
  after_turns,
}

module _ {A : Type 0} where
  -- At most so many turns of the lock's holder remain until it clears the lock.
  abbrev pub to_leave : Producer A → ℕ
  to_leave outside = 0
  to_leave (entered a) = 5
  to_leave (at_tail a t) = 4
  to_leave (roomy a t) = 3
  to_leave (written a t) = 2
  to_leave refusing = 2
  to_leave (leaving b) = 1

  -- And of the consumer until `pop` returns.
  abbrev pub to_return : Consumer A → ℕ
  to_return idle = 0
  to_return (at_head h) = 3
  to_return (ready h) = 2
  to_return (moved h x) = 1

  abbrev pub producer_turns : List (Turn A) → ℕ
  producer_turns [] = 0
  producer_turns (enters a ∷ turns) = producer_turns turns
  producer_turns (produces ∷ turns) = suc (producer_turns turns)
  producer_turns (consumes ∷ turns) = producer_turns turns

  abbrev pub consumer_turns : List (Turn A) → ℕ
  consumer_turns [] = 0
  consumer_turns (enters a ∷ turns) = consumer_turns turns
  consumer_turns (produces ∷ turns) = consumer_turns turns
  consumer_turns (consumes ∷ turns) = suc (consumer_turns turns)

  -- Somewhere in the turns the machine is as described.
  abbrev pub Reaches : ℕ → List (Turn A) → Machine A → (Machine A → Type 0) → Type 0
  Reaches c turns m P =
      (before : List (Turn A)) × (later : List (Turn A)) × (turns ≡ before ++ later)
      × P (after_turns c before m)

  Reaches-later :
      (c : ℕ) (P : Machine A → Type 0) (t : Turn A) {turns : List (Turn A)} (m : Machine A)
      → Reaches c turns (turn c t m).0 P
      → Reaches c (t ∷ turns) m P
  unfolding after_turns
  Reaches-later c P t m (before, later, e, there) = (t ∷ before, later, ap (◌∷◌ t) e, there)

  now-Reaches :
      (c : ℕ) (P : Machine A → Type 0) (turns : List (Turn A)) (m : Machine A)
      → P m
      → Reaches c turns m P
  unfolding after_turns
  now-Reaches c P turns m there = ([], turns, refl, there)

  producer-take_turn :
      (c : ℕ) (s : Consumer A) (m : Machine A) → (take_turn c s m).0.producer ≡ m.producer
  unfolding take_turn
  producer-take_turn c idle m = refl
  producer-take_turn c (at_head h) m = elim (Bool-cases (h == m.queue.tail)) [
    | inl found ↦ rw found
    | inr found ↦ rw found
  ]
  producer-take_turn c (ready h) m = refl
  producer-take_turn c (moved h x) m = refl

  consumer-produce :
      (c : ℕ) (p : Producer A) (m : Machine A) → (produce c p m).0.consumer ≡ m.consumer
  unfolding produce
  consumer-produce c outside m = refl
  consumer-produce c (entered a) m = refl
  consumer-produce c (at_tail a t) m = elim (Bool-cases (next_index c t == m.queue.head)) [
    | inl found ↦ rw found
    | inr found ↦ rw found
  ]
  consumer-produce c (roomy a t) m = refl
  consumer-produce c (written a t) m = refl
  consumer-produce c refusing m = refl
  consumer-produce c (leaving b) m = refl

  -- One turn of the holder brings it nearer to the end, and so for the consumer.
  produce_nearer :
      (c n : ℕ) (p : Producer A) (m : Machine A)
      → m.producer ≡ p
      → to_leave p ≤ suc n
      → to_leave (produce c p m).0.producer ≤ n
  unfolding produce
  produce_nearer c n outside m e h = rw e (omega arith)
  produce_nearer c n (entered a) m e h = omega arith
  produce_nearer c n (at_tail a t) m e h = elim (Bool-cases (next_index c t == m.queue.head)) [
    | inl found ↦ rw found (omega arith)
    | inr found ↦ rw found (omega arith)
  ]
  produce_nearer c n (roomy a t) m e h = omega arith
  produce_nearer c n (written a t) m e h = omega arith
  produce_nearer c n refusing m e h = omega arith
  produce_nearer c n (leaving b) m e h = omega arith

  take_nearer :
      (c n : ℕ) (s : Consumer A) (m : Machine A)
      → 0 < to_return s
      → to_return s ≤ suc n
      → to_return (take_turn c s m).0.consumer ≤ n
  unfolding take_turn
  take_nearer c n idle m busy h = absurd (omega (arith, busy))
  take_nearer c n (at_head i) m busy h = elim (Bool-cases (i == m.queue.tail)) [
    | inl found ↦ rw found (omega arith)
    | inr found ↦ rw found (omega arith)
  ]
  take_nearer c n (ready i) m busy h = omega arith
  take_nearer c n (moved i x) m busy h = omega arith

  back_if_done : (s : Consumer A) → to_return s ≤ 0 → s ≡ idle
  back_if_done idle h = refl
  back_if_done (at_head i) h = absurd (omega arith)
  back_if_done (ready i) h = absurd (omega arith)
  back_if_done (moved i x) h = absurd (omega arith)

  free_if_done : (p : Producer A) → to_leave p ≤ 0 → p ≡ outside
  free_if_done outside h = refl
  free_if_done (entered a) h = absurd (omega arith)
  free_if_done (at_tail a t) h = absurd (omega arith)
  free_if_done (roomy a t) h = absurd (omega arith)
  free_if_done (written a t) h = absurd (omega arith)
  free_if_done refusing h = absurd (omega arith)
  free_if_done (leaving b) h = absurd (omega arith)

  enter_nearer :
      (n : ℕ) (a : A) (p : Producer A) → to_leave p ≤ n → (p ≡ outside) ⊎ (to_leave (enter a p) ≤ n)
  unfolding enter
  enter_nearer n a outside h = inl refl
  enter_nearer n a (entered b) h = inr h
  enter_nearer n a (at_tail b t) h = inr h
  enter_nearer n a (roomy b t) h = inr h
  enter_nearer n a (written b t) h = inr h
  enter_nearer n a refusing h = inr h
  enter_nearer n a (leaving b) h = inr h

  abbrev IsFree : Machine A → Type 0
  IsFree m = m.producer ≡ outside

  abbrev IsBack : Machine A → Type 0
  IsBack m = m.consumer ≡ idle

  lock_released :
      (c : ℕ) (turns : List (Turn A)) (m : Machine A)
      → to_leave m.producer ≤ producer_turns turns
      → Reaches c turns m IsFree
  unfolding turn
  lock_released c [] m h = now-Reaches c IsFree [] m (free_if_done m.producer h)
  lock_released c (enters a ∷ turns) m h =
      elim (enter_nearer (producer_turns turns) a m.producer h) [
        | inl free ↦ now-Reaches c IsFree (enters a ∷ turns) m free
        | inr nearer ↦
            Reaches-later c IsFree (enters a) m
              (lock_released c turns (record m { producer = enter a m.producer }) nearer)
      ]
  lock_released c (produces ∷ turns) m h = Reaches-later c IsFree produces m (
      lock_released c turns (produce c m.producer m).0
        (produce_nearer c (producer_turns turns) m.producer m refl h))
  lock_released c (consumes ∷ turns) m h = Reaches-later c IsFree consumes m (
      lock_released c turns (take_turn c m.consumer m).0 (rw (producer-take_turn c m.consumer m) h))

  pop_returns :
      (c : ℕ) (turns : List (Turn A)) (m : Machine A)
      → to_return m.consumer ≤ consumer_turns turns
      → Reaches c turns m IsBack
  unfolding turn
  pop_returns c [] m h = now-Reaches c IsBack [] m (back_if_done m.consumer h)
  pop_returns c (enters a ∷ turns) m h =
      Reaches-later c IsBack (enters a) m
        (pop_returns c turns (record m { producer = enter a m.producer }) h)
  pop_returns c (produces ∷ turns) m h =
      Reaches-later c IsBack produces m
        (pop_returns c turns (produce c m.producer m).0 (rw (consumer-produce c m.producer m) h))
  pop_returns c (consumes ∷ turns) m h = elim (dec_lt 0 (to_return m.consumer)) [
    | yes busy ↦ Reaches-later c IsBack consumes m (
        pop_returns c turns (take_turn c m.consumer m).0
          (take_nearer c (consumer_turns turns) m.consumer m busy h))
    | no back ↦ now-Reaches c IsBack (consumes ∷ turns) m (back_if_done m.consumer (omega arith))
  ]

  -- Whatever turns come, in whatever order and from whatever state of the ring: with five turns of
  -- the lock's holder among them there is a time at which the lock is free, and with three turns of
  -- the consumer one at which it is outside `pop`. Fewer turns do for a thread that has come further.
  pub calls_end :
      (c : ℕ) (turns : List (Turn A)) (m : Machine A)
      → to_leave m.producer ≤ producer_turns turns
      → to_return m.consumer ≤ consumer_turns turns
      → Reaches c turns m (λ m'. m'.producer ≡ outside)
        × Reaches c turns m (λ m'. m'.consumer ≡ idle)
  calls_end c turns m hp hc = (lock_released c turns m hp, pop_returns c turns m hc)
