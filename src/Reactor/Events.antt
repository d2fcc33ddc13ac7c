-- ===== src/Reactor/Events.antt =====
-- `handle_events` of src/reactor.cpp: one cycle of the reactor's thread, phase by phase, as one
-- step. Live has the same code round by round, with what other threads do in between. `clock n` is
-- reading `n` of the steady clock in the cycle. The memory pool and the log are not modelled.
use flowkernel.Base.{
  ℕ, zero, suc, ◌/◌, List, [], ◌∷◌, ◌++◌, Option, none, some, Bool, false, add64, sub64, mul64, ltb,
  ◌==◌, if◌then◌else◌, get_elem?,
}
use flowkernel.Base.Assoc.{lookup}
use flowkernel.Hash.{Bytes}
use flowkernel.Mpsc.{Queue, empty, item, fault, pop, dropped_count}
use flowkernel.Cache.{Sample, LatestSampleCache, drain, get_total_dropped}
use flowkernel.Platform.{Platform}
use flowkernel.Reactor.{
  TopicPriority, critical, background, CriticalSample, Handler, Counters, Latencies, Reactor,
  queue_capacity, record_latency, arm_poll_eventfd,
}

-- What a cycle does that is seen outside. `bad_index` and `bad_slot` are reads out of range, of
-- `handlers_` and of the queue.
pub data Event : Type 0 where
  called : ℕ → Bytes → Event
  bad_index : ℕ → Event
  bad_slot : Event

-- The drops of the queue since the last cycle, shared out by the counts of that cycle.
unfoldable pub share_dropped : ℕ → Counters → Counters
share_dropped new_dropped c =
    let total = add64 c.critical_count_last c.normal_count_last in
    let c_drop = mul64 new_dropped c.critical_count_last / total in
    if ltb 0 total
    then (record c {
      critical_dropped = add64 c.critical_dropped c_drop;
      normal_dropped = add64 c.normal_dropped (sub64 new_dropped c_drop);
    })
    else (record c { critical_dropped = add64 c.critical_dropped new_dropped })

unfoldable pub sync_dropped : ℕ → Counters → Counters
sync_dropped current c =
    let new_dropped = sub64 current c.last_queue_dropped in
    let c' = record c { last_queue_dropped = current } in
    if ltb 0 new_dropped then share_dropped new_dropped c' else c'

-- What the loop over the queue carries: the queue, the windows, the calls made, both counts and the
-- number of clock readings.
pub record Cycle (L : Type 0) : Type 0 where
  pub queue : Queue CriticalSample
  pub latencies : Latencies L
  pub trace : List Event
  pub critical_count : ℕ
  pub normal_count : ℕ
  pub reads : ℕ

-- What the consumer given to `drain` carries.
pub record Drained (L : Type 0) : Type 0 where
  pub latencies : Latencies L
  pub trace : List Event
  pub background_count : ℕ
  pub reads : ℕ

module _ {L : Type 0} where
  unfoldable pub count_frame : TopicPriority → Cycle L → Cycle L
  count_frame critical cy = record cy { critical_count = add64 cy.critical_count 1 }
  count_frame _ cy = record cy { normal_count = add64 cy.normal_count 1 }

module _ {L : Type 0} (micros : ℕ → ℕ → L) (clock : ℕ → ℕ) (handlers : List Handler)
    (index : List (ℕ × ℕ)) where
  unfoldable pub call_handler : ℕ → Option Handler → CriticalSample → Cycle L → Cycle L
  call_handler idx none cs cy = record cy { trace = cy.trace ++ bad_index idx ∷ [] }
  call_handler idx (some h) cs cy = count_frame h.priority (record cy {
    latencies = record_latency h.priority (micros (clock cy.reads) cs.enqueue_time) cy.latencies;
    trace = cy.trace ++ called idx cs.payload ∷ [];
    reads = suc cy.reads;
  })

  unfoldable pub dispatch_to : Option ℕ → CriticalSample → Cycle L → Cycle L
  dispatch_to none cs cy = cy
  dispatch_to (some idx) cs cy = call_handler idx (get_elem? handlers idx) cs cy

  unfoldable pub dispatch : CriticalSample → Cycle L → Cycle L
  dispatch cs cy = dispatch_to (lookup cs.handler_hash index) cs cy

  -- `while (critical_queue_.pop(cs))` on fuel.
  unfoldable pub drain_queue : ℕ → Cycle L → Cycle L
  drain_queue zero cy = cy
  drain_queue (suc fuel) cy =
      let (x, q) = pop queue_capacity cy.queue in
      elim x [
        | empty ↦ cy
        | fault ↦ record cy { trace = cy.trace ++ bad_slot ∷ [] }
        | item cs ↦ drain_queue fuel (dispatch cs (record cy { queue = q }))
      ]

  unfoldable pub call_background : ℕ → Option Handler → Sample → Drained L → Drained L
  call_background idx h x d =
      let timed = record d {
        latencies = record_latency background (micros (clock d.reads) x.put_time) d.latencies;
        reads = suc d.reads;
      } in
      elim h [
        | none ↦ record timed { trace = d.trace ++ bad_index idx ∷ [] }
        | some _ ↦ record timed {
          trace = d.trace ++ called idx x.payload ∷ [];
          background_count = add64 d.background_count 1;
        }
      ]

  unfoldable pub consume_background_at : Option ℕ → Drained L → Sample → Drained L
  consume_background_at none d x = d
  consume_background_at (some idx) d x = call_background idx (get_elem? handlers idx) x d

  unfoldable pub consume_background : Drained L → Sample → Drained L
  consume_background d x = consume_background_at (lookup x.handler_hash index) d x

-- The end of the first phase, and of the second.
unfoldable pub count_cycle : ℕ → ℕ → Counters → Counters
count_cycle critical_count normal_count c = record c {
  critical_processed = add64 c.critical_processed critical_count;
  normal_processed = add64 c.normal_processed normal_count;
  critical_count_last = critical_count;
  normal_count_last = normal_count;
}

unfoldable pub count_background : ℕ → ℕ → Counters → Counters
count_background background_count current c = record c {
  background_processed = add64 c.background_processed background_count;
  background_dropped = add64 c.background_dropped (sub64 current c.last_bg_dropped);
  last_bg_dropped = current;
}

-- What `io_uring_wait_cqe_timeout` returns: a completion with its `user_data`, and whether the next
-- request, if the code makes one, comes to the kernel: a submission entry is free and
-- `io_uring_submit` succeeds; or anything but 0.
pub data Wait : Type 0 where
  completed : ℕ → Bool → Wait
  timed_out : Wait

module _ {p : Platform} where
  -- Phases one and two.
  unfoldable pub queue_phase : (ℕ → ℕ) → Reactor p → Cycle p.Micros
  queue_phase clock r =
      drain_queue p.micros_between clock r.handlers r.handler_index queue_capacity (record {
        queue = r.critical_queue;
        latencies = r.latencies;
        trace = [];
        critical_count = 0;
        normal_count = 0;
        reads = 0;
      })

  unfoldable pub background_phase :
      (ℕ → ℕ) → Reactor p → Cycle p.Micros → Drained p.Micros × LatestSampleCache
  background_phase clock r cy =
      drain (consume_background p.micros_between clock r.handlers r.handler_index)
        (record {
          latencies = cy.latencies;
          trace = cy.trace;
          background_count = 0;
          reads = cy.reads;
        })
        r.background_cache

  unfoldable pub await : Wait → Reactor p → Reactor p
  await timed_out r = r
  await (completed user_data submitted) r = arm_poll_eventfd submitted (record r {
    wakeup = if user_data == 1 then p.fd_read r.wakeup else r.wakeup;
    polled = false;
  })

  unfoldable pub handle_events : (ℕ → ℕ) → Wait → Reactor p → Reactor p × List Event
  handle_events clock w r =
      let synced = sync_dropped (dropped_count r.critical_queue) r.counters in
      let cy = queue_phase clock r in
      let (d, cache) = background_phase clock r cy in
      let counted = count_cycle cy.critical_count cy.normal_count synced in
      (
        await w (record r {
          counters = count_background d.background_count (get_total_dropped cache) counted;
          latencies = d.latencies;
          critical_queue = cy.queue;
          background_cache = cache;
        }),
        d.trace,
      )
