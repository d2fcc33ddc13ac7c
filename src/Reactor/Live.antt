-- ===== src/Reactor/Live.antt =====
-- `handle_events` of src/reactor.cpp one round of its loops at a time, so that samples arrive and
-- other threads stop the reactor or reset its statistics while a cycle runs. Between two rounds
-- nothing of the shared state is held: the queue, the windows and the slots are read anew.
use flowkernel.Base.{ℕ, suc, List, [], ◌∷◌, ◌++◌, Option, none, some, if◌then◌else◌, get_elem?, set}
use flowkernel.Hash.{Bytes}
use flowkernel.Mpsc.{Popped, empty, item, fault, Queue, pop, dropped_count}
use flowkernel.Cache.{LatestSampleSlot, take, consume, get_total_dropped}
use flowkernel.Platform.{Platform}
use flowkernel.Reactor.{CriticalSample, CallbackContext, Reactor, queue_capacity, stop}
use flowkernel.Reactor.Callback.{data_callback}
use flowkernel.Reactor.Events.{
  Event, bad_slot, Cycle, Drained, Wait, dispatch, consume_background, sync_dropped, count_cycle,
  count_background, await,
}
use flowkernel.Reactor.Stats.{reset_stats}

-- Where the thread is: before a cycle, in the loop over the queue, in the loop of `drain` before
-- the slot at a place, or before `io_uring_wait_cqe_timeout`.
pub data LivePhase (L : Type 0) : Type 0 where
  resting : LivePhase L
  emptying : Cycle L → LivePhase L
  visiting : ℕ → Drained L → LivePhase L
  waiting : LivePhase L

-- The logs hold the calls made so far for frames of the queue, and for those of the slots.
pub record Live (p : Platform) : Type 0 where
  pub reactor : Reactor p
  pub phase : LivePhase p.Micros
  pub queue_log : List Event
  pub slot_log : List Event

pub data LiveTurn : Type 0 where
  arrives : CallbackContext → Bytes → Bytes → ℕ → ℕ → LiveTurn
  proceeds : (ℕ → ℕ) → LiveTurn
  wakes : Wait → LiveTurn
  halts : LiveTurn
  resets_all : LiveTurn

module _ {p : Platform} where
  -- The look at the queue's drops, as one step. Reactor/OneLook.antt relates it to the accesses of the
  -- block with samples between them; resets between them are in Reactor/ResetRace.antt.
  unfoldable pub begin_cycle : Live p → Live p
  begin_cycle m =
      let r = m.reactor in
      record m {
        reactor = record r { counters = sync_dropped (dropped_count r.critical_queue) r.counters };
        phase = emptying (record {
          queue = r.critical_queue;
          latencies = r.latencies;
          trace = [];
          critical_count = 0;
          normal_count = 0;
          reads = 0;
        });
      }

  -- One round of `while (critical_queue_.pop(cs))`, with what `pop` gave.
  unfoldable pub queue_round :
      (ℕ → ℕ) → Popped CriticalSample → Queue CriticalSample → Cycle p.Micros → Live p → Live p
  queue_round clock empty q cy m =
      let r = m.reactor in
      record m {
        reactor = record r { counters = count_cycle cy.critical_count cy.normal_count r.counters };
        phase = visiting 0 (record {
          latencies = r.latencies;
          trace = [];
          background_count = 0;
          reads = cy.reads;
        });
      }
  queue_round clock fault q cy m = record m { queue_log = m.queue_log ++ bad_slot ∷ [] }
  queue_round clock (item cs) q cy m =
      let r = m.reactor in
      let cy' =
        dispatch p.micros_between clock r.handlers r.handler_index cs
          (record cy { queue = q; latencies = r.latencies; trace = m.queue_log }) in
      record m {
        reactor = record r { critical_queue = q; latencies = cy'.latencies };
        phase = emptying cy';
        queue_log = cy'.trace;
      }

  -- One round of the loop over the slots, with the entry at the place.
  unfoldable pub slot_round :
      (ℕ → ℕ) → Option (ℕ × LatestSampleSlot) → ℕ → Drained p.Micros → Live p → Live p
  slot_round clock none n d m =
      let r = m.reactor in
      record m {
        reactor = record r {
          counters =
              count_background d.background_count (get_total_dropped r.background_cache) r.counters;
        };
        phase = waiting;
      }
  slot_round clock (some (j, s)) n d m =
      let r = m.reactor in
      let (x, s') = take s in
      let d' =
        consume (consume_background p.micros_between clock r.handlers r.handler_index)
          (record d { latencies = r.latencies; trace = m.slot_log }) x in
      record m {
        reactor = record r {
          background_cache = record { slots = set r.background_cache.slots n (j, s') };
          latencies = d'.latencies;
        };
        phase = visiting (suc n) d';
        slot_log = d'.trace;
      }

  unfoldable pub proceed : (ℕ → ℕ) → LivePhase p.Micros → Live p → Live p
  proceed clock resting m = if m.reactor.running then begin_cycle m else m
  proceed clock (emptying cy) m =
      let (x, q) = pop queue_capacity m.reactor.critical_queue in queue_round clock x q cy m
  proceed clock (visiting n d) m =
      slot_round clock (get_elem? m.reactor.background_cache.slots n) n d m
  proceed clock waiting m = m

  unfoldable pub wake_up : Wait → LivePhase p.Micros → Live p → Live p
  wake_up w waiting m = record m { reactor = await w m.reactor; phase = resting }
  wake_up w phase m = m

  unfoldable pub live_turn : LiveTurn → Live p → Live p
  live_turn (arrives ctx key raw now_ms now) m = record m {
    reactor = data_callback ctx key raw now_ms now m.reactor;
  }
  live_turn (proceeds clock) m = proceed clock m.phase m
  live_turn (wakes w) m = wake_up w m.phase m
  live_turn halts m = record m { reactor = stop m.reactor }
  live_turn resets_all m = record m { reactor = reset_stats m.reactor }

  unfoldable pub live : List LiveTurn → Live p → Live p
  live [] m = m
  live (t ∷ turns) m = live turns (live_turn t m)
