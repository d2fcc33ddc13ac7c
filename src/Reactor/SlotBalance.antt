-- ===== src/Reactor/SlotBalance.antt =====
-- Every sample for a slot is handled, waits or is counted as dropped.
use flowkernel.Base.{
  ℕ, ◌+◌, ◌%◌, ◌^◌, ◌≡◌, ◌≢◌, refl, sym, ap, subst, ◌∙◌, List, [], ◌∷◌, none, true, false, arith,
  length, if◌then◌else◌, get_elem?, Option-cases, inl, inr,
}
use flowkernel.Base.Assoc.{lookup}
use flowkernel.Hash.{Bytes}
use flowkernel.Mpsc.{Popped, empty, item, fault, Queue}
use flowkernel.Cache.{take, LatestSampleCache, get_total_dropped}
use flowkernel.Cache.Dropped.{drop_count-take}
use flowkernel.Cache.Waiting.{
  waiting_frames, waiting-set, get_total_dropped-set, SlotKnown, AllKnown, AllKnown-at,
  AllKnown-set,
}
use flowkernel.Platform.{Platform}
use flowkernel.Reactor.{CriticalSample, CallbackContext, stop}
use flowkernel.Reactor.Events.{Cycle, Drained, Wait}
use flowkernel.Reactor.Stats.{reset_stats}
use flowkernel.Reactor.Cycle.{await_keeps}
use flowkernel.Reactor.Arrivals.{keeps_index}
use flowkernel.Reactor.Slotted.{
  slot_frames_at, slot_frames, data_callback_cache, balance-cached, AllKnown-cached, take-SlotKnown,
  logged-take,
}
use flowkernel.Reactor.Live.{
  LivePhase, resting, emptying, visiting, waiting, Live, LiveTurn, arrives, proceeds, wakes, halts,
  resets_all, begin_cycle, queue_round, slot_round, proceed, wake_up, live_turn, live,
}

module _ {p : Platform} where
  -- The calls made for slots, the frames that wait in them and the drops that they count.
  abbrev pub in_slots : Live p → ℕ
  in_slots m =
      let c = m.reactor.background_cache in
      length m.slot_log + waiting_frames c.slots + get_total_dropped c

-- A topic of a handler.
abbrev pub Known : List (ℕ × ℕ) → ℕ → Type 0
Known index hash = lookup hash index ≢ none

module _ {p : Platform} (index : List (ℕ × ℕ)) where
  -- The index has every topic that has a slot.
  record Indexed (m : Live p) : Type 0 where
    same_index : m.reactor.handler_index ≡ index
    known : AllKnown (Known index) m.reactor.background_cache.slots

  -- What a turn does, if `n` frames come for slots.
  record Balanced (n : ℕ) (m m' : Live p) : Type 0 where
    indexed : Indexed m'
    sum : in_slots m' % 2 ^ 64 ≡ (in_slots m + n) % 2 ^ 64

  -- A turn that leaves the slots and their log alone.
  aside :
      (m m' : Live p)
      → Indexed m
      → m'.reactor.handler_index ≡ m.reactor.handler_index
      → m'.reactor.background_cache ≡ m.reactor.background_cache
      → m'.slot_log ≡ m.slot_log
      → Balanced 0 m m'
  aside m m' s i c l = record {
    indexed = record {
      same_index = i ∙ s.same_index;
      known = subst (λ (t : LatestSampleCache). AllKnown (Known index) t.slots) (sym c) s.known;
    };
    sum =
        let log = ap length l in
        let waits = ap (λ (t : LatestSampleCache). waiting_frames t.slots) c in
        let drops = ap get_total_dropped c in omega (arith, log, waits, drops);
  }

  arrives-Balanced :
      (ctx : CallbackContext) (key raw : Bytes) (now_ms now : ℕ) (m : Live p)
      → Indexed m
      → Balanced
          (slot_frames_at (arrives ctx key raw now_ms now) m)
          m
          (live_turn (arrives ctx key raw now_ms now) m)
  unfolding live_turn
  arrives-Balanced ctx key raw now_ms now m s =
      let c = m.reactor.background_cache in
      let same = data_callback_cache ctx key raw now_ms now m.reactor in
      let i = keeps_index ctx key raw now_ms now m.reactor in
      let waits = ap (λ (t : LatestSampleCache). waiting_frames t.slots) same in
      let drops = ap get_total_dropped same in
      record {
        indexed = record {
          same_index = i ∙ s.same_index;
          known =
              subst (λ (t : LatestSampleCache). AllKnown (Known index) t.slots) (sym same)
                (AllKnown-cached (Known index) p ctx raw now c s.known);
        };
        sum = omega (arith, waits, drops, balance-cached p ctx raw now c);
      }

  slot_round-Balanced :
      (clock : ℕ → ℕ) (n : ℕ) (d : Drained p.Micros) (m : Live p)
      → Indexed m
      → Balanced 0 m (proceed clock (visiting n d) m)
  unfolding proceed slot_round
  slot_round-Balanced clock n d m s =
      elim (Option-cases (get_elem? m.reactor.background_cache.slots n)) [
        | inl e ↦ rw (e, slot_round) (aside m _ s refl refl refl)
        | inr ((j, t), e) ↦
            let r = m.reactor in
            let c = r.background_cache in
            let here = AllKnown-at (Known index) c.slots n e s.known in
            let (here', empty_now) = take-SlotKnown (Known index) j t here in
            let log =
              logged-take p.micros_between clock r.handlers r.handler_index j t
                (record d { latencies = r.latencies; trace = m.slot_log })
                (subst (λ i. SlotKnown (Known i) (j, t)) (sym s.same_index) here) in
            let waits = waiting-set c.slots n j t (take t).1 e in
            let drops = get_total_dropped-set c n j t (take t).1 e (drop_count-take t) in
            rw (e, slot_round)
              (record {
                indexed = record {
                  same_index = s.same_index;
                  known = AllKnown-set (Known index) c.slots n (j, (take t).1) here' s.known;
                };
                sum = omega (arith, log, waits, drops, empty_now);
              })
      ]

  queue_round-Balanced :
      (clock : ℕ → ℕ) (x : Popped CriticalSample) (q : Queue CriticalSample) (cy : Cycle p.Micros)
      (m : Live p)
      → Indexed m
      → Balanced 0 m (queue_round clock x q cy m)
  unfolding queue_round
  queue_round-Balanced clock empty q cy m s = aside m _ s refl refl refl
  queue_round-Balanced clock fault q cy m s = aside m _ s refl refl refl
  queue_round-Balanced clock (item cs) q cy m s = aside m _ s refl refl refl

  proceed-Balanced :
      (clock : ℕ → ℕ) (phase : LivePhase p.Micros) (m : Live p)
      → Indexed m
      → Balanced 0 m (proceed clock phase m)
  unfolding proceed begin_cycle
  proceed-Balanced clock resting m s =
      elim m.reactor.running as (λ b. Balanced 0 m (if b then begin_cycle m else m)) [
        | true ↦ aside m _ s refl refl refl
        | false ↦ aside m _ s refl refl refl
      ]
  proceed-Balanced clock (emptying cy) m s = queue_round-Balanced clock _ _ cy m s
  proceed-Balanced clock (visiting n d) m s = slot_round-Balanced clock n d m s
  proceed-Balanced clock waiting m s = aside m _ s refl refl refl

  wake_up-Balanced :
      (w : Wait) (phase : LivePhase p.Micros) (m : Live p)
      → Indexed m
      → Balanced 0 m (wake_up w phase m)
  unfolding wake_up
  wake_up-Balanced w waiting m s =
      let (_, c, _, _, i, _) = await_keeps w m.reactor in aside m _ s i c refl
  wake_up-Balanced w resting m s = aside m _ s refl refl refl
  wake_up-Balanced w (emptying cy) m s = aside m _ s refl refl refl
  wake_up-Balanced w (visiting n d) m s = aside m _ s refl refl refl

  turn-Balanced :
      (t : LiveTurn) (m : Live p) → Indexed m → Balanced (slot_frames_at t m) m (live_turn t m)
  unfolding live_turn stop reset_stats
  turn-Balanced (arrives ctx key raw now_ms now) m s = arrives-Balanced ctx key raw now_ms now m s
  turn-Balanced (proceeds clock) m s = proceed-Balanced clock m.phase m s
  turn-Balanced (wakes w) m s = wake_up-Balanced w m.phase m s
  turn-Balanced halts m s = aside m _ s refl refl refl
  turn-Balanced resets_all m s = aside m _ s refl refl refl

  live-Balanced :
      (turns : List LiveTurn) (m : Live p)
      → Indexed m
      → Balanced (slot_frames turns m) m (live turns m)
  unfolding live
  live-Balanced [] m s = aside m m s refl refl refl
  live-Balanced (t ∷ turns) m s =
      let first = turn-Balanced t m s in
      let rest = live-Balanced turns (live_turn t m) first.indexed in
      record { indexed = rest.indexed; sum = omega (arith, first.sum, rest.sum) }

module _ {p : Platform} where
  -- Whatever the thread of the event loop and other threads do, and in whatever order, while all
  -- topics that have a slot have a handler: the calls made for slots, the frames that wait in slots
  -- and the drops that the cache counts have together grown, modulo 2 ^ 64, by the number of valid
  -- samples that came for a BACKGROUND topic with a slot. No such sample is lost without being
  -- counted, and none is handled twice.
  pub slots_conserve :
      (turns : List LiveTurn) (m : Live p)
      → AllKnown (Known m.reactor.handler_index) m.reactor.background_cache.slots
      → in_slots (live turns m) % 2 ^ 64 ≡ (in_slots m + slot_frames turns m) % 2 ^ 64
  slots_conserve turns m known =
      (live-Balanced m.reactor.handler_index turns m
        (record { same_index = refl; known = known })).sum
