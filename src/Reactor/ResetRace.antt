-- ===== src/Reactor/ResetRace.antt =====
-- The synchronisation of the queue's drops in `handle_events` of src/reactor.cpp one access at a
-- time, with samples that arrive and other threads that reset the statistics in between:
-- `last_queue_dropped_` and the counts of the last cycle are neither atomic nor under a lock.
-- Accesses of plain fields are taken to read and write whole values.
use flowkernel.Base.{
  ℕ, ◌≡◌, refl, List, [], ◌∷◌, arith, ◌-◌, add64, sub64, ltb, Bool-cases, inl, inr, ◌^◌, ◌<◌,
  if◌then◌else◌,
}
use flowkernel.Hash.{Bytes}
use flowkernel.Mpsc.{dropped_count}
use flowkernel.Platform.{Platform}
use flowkernel.Reactor.{CallbackContext, Reactor}
use flowkernel.Reactor.Callback.{data_callback}
use flowkernel.Reactor.Events.{share_dropped, sync_dropped}
use flowkernel.Reactor.Stats.{reset_stats}

-- What the thread of the event loop has in its registers: nothing yet, `current_dropped`, both this
-- and `new_dropped`, `new_dropped` after the store, nothing any more.
pub data SyncPhase : Type 0 where
  begun : SyncPhase
  looked : ℕ → SyncPhase
  compared : ℕ → ℕ → SyncPhase
  marked : ℕ → SyncPhase
  shared : SyncPhase

pub record Syncing (p : Platform) : Type 0 where
  pub reactor : Reactor p
  pub phase : SyncPhase

pub data SyncTurn : Type 0 where
  advances : SyncTurn
  comes : CallbackContext → Bytes → Bytes → ℕ → ℕ → SyncTurn
  clears : SyncTurn

module _ {p : Platform} where
  -- One statement of the block.
  unfoldable pub advance : SyncPhase → Reactor p → Syncing p
  advance begun r = record { reactor = r; phase = looked (dropped_count r.critical_queue) }
  advance (looked current) r = record {
    reactor = r;
    phase = compared current (sub64 current r.counters.last_queue_dropped);
  }
  advance (compared current new_dropped) r = record {
    reactor = record r { counters = record r.counters { last_queue_dropped = current } };
    phase = marked new_dropped;
  }
  advance (marked new_dropped) r = record {
    reactor = record r {
      counters = if ltb 0 new_dropped then share_dropped new_dropped r.counters else r.counters;
    };
    phase = shared;
  }
  advance shared r = record { reactor = r; phase = shared }

  unfoldable pub sync_turn : SyncTurn → Syncing p → Syncing p
  sync_turn advances s = advance s.phase s.reactor
  sync_turn (comes ctx key raw now_ms now) s = record s {
    reactor = data_callback ctx key raw now_ms now s.reactor;
  }
  sync_turn clears s = record s { reactor = reset_stats s.reactor }

  unfoldable pub syncing : List SyncTurn → Syncing p → Syncing p
  syncing [] s = s
  syncing (t ∷ turns) s = syncing turns (sync_turn t s)

  -- Alone, the thread does what `sync_dropped` does in one step.
  syncing-alone :
      (r : Reactor p)
      → syncing
          (advances ∷ advances ∷ advances ∷ advances ∷ [])
          (record { reactor = r; phase = begun })
        ≡ record {
          reactor = record r {
            counters = sync_dropped (dropped_count r.critical_queue) r.counters;
          };
          phase = shared;
        }
  unfolding syncing sync_turn advance sync_dropped
  syncing-alone r = refl

-- Samples arrive, and nothing else.
abbrev pub OnlyArrivals : List SyncTurn → Type 0
OnlyArrivals [] = Unit {0}
OnlyArrivals (comes ctx key raw now_ms now ∷ turns) = OnlyArrivals turns
OnlyArrivals (_ ∷ turns) = ⊥

module _ {p : Platform} where
  phase-arrivals :
      (turns : List SyncTurn) (s : Syncing p)
      → OnlyArrivals turns
      → (syncing turns s).phase ≡ s.phase
  unfolding syncing sync_turn
  phase-arrivals [] s h = refl
  phase-arrivals (comes ctx key raw now_ms now ∷ turns) s h =
      phase-arrivals turns (sync_turn (comes ctx key raw now_ms now) s) h
  phase-arrivals (advances ∷ turns) s h = elim h [ ]
  phase-arrivals (clears ∷ turns) s h = elim h [ ]

  -- The thread has read the queue's counter, then samples have arrived.
  abbrev pub after_look : List SyncTurn → Reactor p → Syncing p
  after_look turns r = syncing (advances ∷ turns) (record { reactor = r; phase = begun })

  -- A reset, and the rest of the block.
  abbrev pub after_reset : Syncing p → Syncing p
  after_reset s = syncing (clears ∷ advances ∷ advances ∷ advances ∷ []) s

  after_clear :
      (seen : ℕ) (s : Syncing p)
      → s.phase ≡ looked seen
      → let r' = (after_reset s).reactor in
        let c = r'.counters in
        (c.critical_dropped ≡ sub64 seen (dropped_count s.reactor.critical_queue))
        × (c.normal_dropped ≡ 0)
        × (dropped_count r'.critical_queue ≡ dropped_count s.reactor.critical_queue)
  unfolding syncing sync_turn advance reset_stats share_dropped
  after_clear seen s at =
      rw (at, advance)
        (elim (Bool-cases (ltb 0 (sub64 seen (dropped_count s.reactor.critical_queue)))) [
          | inl some_dropped ↦ rw some_dropped (omega arith, refl, refl)
          | inr none_dropped ↦ rw none_dropped (ground (arith, none_dropped), refl, refl)
        ])

  -- Between the two reads of a cycle, that of the queue's counter, which is below 2 ^ 64, and that
  -- of the mark, samples arrive and `k` frames are dropped, from 1 to 2 ^ 64 - 1, and then the
  -- statistics are reset. When the thread has finished the block, 2 ^ 64 - k drops are reported for
  -- CRITICAL, and none for NORMAL, although no frame was dropped since the reset.
  pub reset_between :
      (r : Reactor p) (turns : List SyncTurn) (k : ℕ)
      → OnlyArrivals turns
      → dropped_count r.critical_queue < 2 ^ 64
      → 0 < k
      → k < 2 ^ 64
      → dropped_count (after_look turns r).reactor.critical_queue
        ≡ add64 (dropped_count r.critical_queue) k
      → let r' = (after_reset (after_look turns r)).reactor in
        (r'.counters.critical_dropped ≡ 2 ^ 64 - k)
        × (r'.counters.normal_dropped ≡ 0)
        × (dropped_count r'.critical_queue
            ≡ dropped_count (after_look turns r).reactor.critical_queue)
  unfolding syncing sync_turn advance
  reset_between r turns k h fits some_dropped few more =
      let begun_at : Syncing p = record {
        reactor = r;
        phase = looked (dropped_count r.critical_queue);
      } in
      let seen = dropped_count r.critical_queue in
      let (criticals, normals, same) =
        after_clear seen (syncing turns begun_at) (phase-arrivals turns begun_at h) in
      (omega (arith, criticals, more), normals, same)
