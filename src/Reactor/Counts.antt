-- ===== src/Reactor/Counts.antt =====
-- How many frames of which priority a cycle counts as processed.
use flowkernel.Base.{
  ℕ, suc, ◌+◌, ◌%◌, ◌^◌, ◌≡◌, ap, ◌∙◌, List, [], ◌∷◌, ◌++◌, ◌-◌, Option, none, some, arith, add64,
  get_elem?,
}
use mathlib.Core.List.{foldl}
use flowkernel.Base.Assoc.{lookup}
use flowkernel.Mpsc.{dropped_count}
use flowkernel.Mpsc.Fifo.{Fifo}
use flowkernel.Mpsc.Represents.{Represents}
use flowkernel.Cache.{Sample}
use flowkernel.Cache.Map.{samples, drain_lem}
use flowkernel.Platform.{Platform}
use flowkernel.Reactor.{
  TopicPriority, critical, normal, background, CriticalSample, Handler, Counters, Reactor,
  queue_capacity, record_latency,
}
use flowkernel.Reactor.Events.{
  called, Cycle, Drained, Wait, count_frame, call_handler, dispatch_to, dispatch, call_background,
  consume_background_at, consume_background, queue_phase, background_phase, handle_events,
  sync_dropped, share_dropped, count_cycle, count_background,
}
use flowkernel.Reactor.Dispatch.{dispatch_all, drain_queue_lem}
use flowkernel.Reactor.Cycle.{await_keeps}

module _ (handlers : List Handler) (index : List (ℕ × ℕ)) where
  -- The handler that a hash leads to.
  abbrev pub at_place : Option ℕ → Option Handler
  at_place none = none
  at_place (some idx) = get_elem? handlers idx

  abbrev pub handler_for : ℕ → Option Handler
  handler_for hash = at_place (lookup hash index)

-- What one frame adds to each count: one, if there is a handler and it has, or has not, the
-- priority CRITICAL.
abbrev critical_weight : TopicPriority → ℕ
critical_weight critical = 1
critical_weight normal = 0
critical_weight background = 0

abbrev pub one_critical : Option Handler → ℕ
one_critical none = 0
one_critical (some h) = critical_weight h.priority

abbrev pub one_other : Option Handler → ℕ
one_other none = 0
one_other (some h) = 1 - critical_weight h.priority

abbrev pub one_any : Option Handler → ℕ
one_any none = 0
one_any (some h) = 1

-- The frames of a list that one of these weights counts.
abbrev pub weigh : (Option Handler → ℕ) → (ℕ → Option Handler) → List ℕ → ℕ
weigh w for [] = 0
weigh w for (hash ∷ hashes) = w (for hash) + weigh w for hashes

abbrev pub frame_hashes : List CriticalSample → List ℕ
frame_hashes [] = []
frame_hashes (cs ∷ rest) = cs.handler_hash ∷ frame_hashes rest

abbrev pub sample_hashes : List Sample → List ℕ
sample_hashes [] = []
sample_hashes (x ∷ rest) = x.handler_hash ∷ sample_hashes rest

-- Both counts of a cycle against what they were, modulo 2 ^ 64.
pub record Counted {L : Type 0} (c n : ℕ) (cy cy' : Cycle L) : Type 0 where
  pub criticals : cy'.critical_count % 2 ^ 64 ≡ (cy.critical_count + c) % 2 ^ 64
  pub others : cy'.normal_count % 2 ^ 64 ≡ (cy.normal_count + n) % 2 ^ 64

module _ {L : Type 0} where
  pub count_frame-Counted :
      (t : TopicPriority) (cy : Cycle L)
      → Counted (critical_weight t) (1 - critical_weight t) cy (count_frame t cy)
  unfolding count_frame
  count_frame-Counted critical cy = record { criticals = omega arith; others = omega arith }
  count_frame-Counted normal cy = record { criticals = omega arith; others = omega arith }
  count_frame-Counted background cy = record { criticals = omega arith; others = omega arith }

module _ {L : Type 0} (micros : ℕ → ℕ → L) (clock : ℕ → ℕ) (handlers : List Handler)
    (index : List (ℕ × ℕ)) where
  call_handler-Counted :
      (idx : ℕ) (h : Option Handler) (cs : CriticalSample) (cy : Cycle L)
      → Counted
          (one_critical h)
          (one_other h)
          cy
          (call_handler micros clock handlers index idx h cs cy)
  unfolding call_handler
  call_handler-Counted idx none cs cy = record { criticals = omega arith; others = omega arith }
  call_handler-Counted idx (some h) cs cy =
      let counted = count_frame-Counted h.priority (record cy {
        latencies =
            record_latency h.priority (micros (clock cy.reads) cs.enqueue_time) cy.latencies;
        trace = cy.trace ++ called idx cs.payload ∷ [];
        reads = suc cy.reads;
      }) in
      record { criticals = counted.criticals; others = counted.others }

  dispatch_to-Counted :
      (o : Option ℕ) (cs : CriticalSample) (cy : Cycle L)
      → Counted
          (one_critical (at_place handlers index o))
          (one_other (at_place handlers index o))
          cy
          (dispatch_to micros clock handlers index o cs cy)
  unfolding dispatch_to
  dispatch_to-Counted none cs cy = record { criticals = omega arith; others = omega arith }
  dispatch_to-Counted (some idx) cs cy = call_handler-Counted idx (get_elem? handlers idx) cs cy

  dispatch_all-Counted :
      (items : List CriticalSample) (cy : Cycle L)
      → Counted
          (weigh one_critical (handler_for handlers index) (frame_hashes items))
          (weigh one_other (handler_for handlers index) (frame_hashes items))
          cy
          (dispatch_all micros clock handlers index items cy)
  unfolding dispatch_all dispatch
  dispatch_all-Counted [] cy = record { criticals = omega arith; others = omega arith }
  dispatch_all-Counted (cs ∷ rest) cy =
      let first = dispatch_to-Counted (lookup cs.handler_hash index) cs cy in
      let later =
        dispatch_all-Counted rest
          (dispatch_to micros clock handlers index (lookup cs.handler_hash index) cs cy) in
      record {
        criticals = omega (arith, first.criticals, later.criticals);
        others = omega (arith, first.others, later.others);
      }

  background_count-consume_at :
      (o : Option ℕ) (x : Sample) (d : Drained L)
      → (consume_background_at micros clock handlers index o d x).background_count % 2 ^ 64
        ≡ (d.background_count + one_any (at_place handlers index o)) % 2 ^ 64
  unfolding consume_background_at call_background
  background_count-consume_at none x d = omega arith
  background_count-consume_at (some idx) x d = ground arith

  background_count-consume_all :
      (xs : List Sample) (d : Drained L)
      → (foldl (consume_background micros clock handlers index) d xs).background_count % 2 ^ 64
        ≡ (d.background_count + weigh one_any (handler_for handlers index) (sample_hashes xs))
          % 2 ^ 64
  unfolding consume_background
  background_count-consume_all [] d = omega arith
  background_count-consume_all (x ∷ rest) d =
      let o = lookup x.handler_hash index in
      omega (
        arith,
        background_count-consume_at o x d,
        background_count-consume_all rest (consume_background_at micros clock handlers index o d x),
      )

-- Sharing out the drops leaves the counts of processed frames alone.
pub processed-sync_dropped :
    (current : ℕ) (c : Counters)
    → ((sync_dropped current c).critical_processed ≡ c.critical_processed)
      × ((sync_dropped current c).normal_processed ≡ c.normal_processed)
      × ((sync_dropped current c).background_processed ≡ c.background_processed)
unfolding sync_dropped share_dropped
processed-sync_dropped current c = ground arith

module _ {p : Platform} where
  queue_phase-Counted :
      (clock : ℕ → ℕ) (r : Reactor p) {f : Fifo CriticalSample}
      → Represents 9 r.critical_queue f
      → let h = handler_for r.handlers r.handler_index in
        ((queue_phase clock r).critical_count % 2 ^ 64
          ≡ weigh one_critical h (frame_hashes f.items) % 2 ^ 64)
        × ((queue_phase clock r).normal_count % 2 ^ 64
            ≡ weigh one_other h (frame_hashes f.items) % 2 ^ 64)
  unfolding queue_phase
  queue_phase-Counted clock r {f} held =
      let begin : Cycle p.Micros = record {
        queue = r.critical_queue;
        latencies = r.latencies;
        trace = [];
        critical_count = 0;
        normal_count = 0;
        reads = 0;
      } in
      let (q, left, same) =
        drain_queue_lem p.micros_between clock r.handlers r.handler_index f.items queue_capacity
          begin {lost = f.lost} held held.room in
      let counted =
        dispatch_all-Counted p.micros_between clock r.handlers r.handler_index f.items
          (record begin { queue = q }) in
      (
        ap (λ (t : Cycle p.Micros). t.critical_count % 2 ^ 64) same
            ∙ counted.criticals
            ∙ omega arith,
        ap (λ (t : Cycle p.Micros). t.normal_count % 2 ^ 64) same ∙ counted.others ∙ omega arith,
      )

  background_phase-Counted :
      (clock : ℕ → ℕ) (r : Reactor p) (cy : Cycle p.Micros)
      → (background_phase clock r cy).0.background_count % 2 ^ 64
        ≡ weigh one_any
            (handler_for r.handlers r.handler_index)
            (sample_hashes (samples r.background_cache.slots))
          % 2 ^ 64
  unfolding background_phase
  background_phase-Counted clock r cy =
      let begin : Drained p.Micros = record {
        latencies = cy.latencies;
        trace = cy.trace;
        background_count = 0;
        reads = cy.reads;
      } in
      let (seen, _) =
        drain_lem (consume_background p.micros_between clock r.handlers r.handler_index) begin
          r.background_cache in
      ap (λ (t : Drained p.Micros). t.background_count % 2 ^ 64) seen
      ∙ background_count-consume_all p.micros_between clock r.handlers r.handler_index
          (samples r.background_cache.slots) begin
      ∙ omega arith

  -- A cycle of a reactor whose queue holds `f.items` adds to CRITICAL the number of frames in the
  -- queue whose handler has that priority, to NORMAL the number of those whose handler has another
  -- one, and to BACKGROUND the number of frames in the slots that have a handler, modulo 2 ^ 64.
  pub handle_events_processed :
      (clock : ℕ → ℕ) (w : Wait) (r : Reactor p) {f : Fifo CriticalSample}
      → Represents 9 r.critical_queue f
      → let c = r.counters in
        let c' = (handle_events clock w r).0.counters in
        let h = handler_for r.handlers r.handler_index in
        (c'.critical_processed
          ≡ add64 c.critical_processed (weigh one_critical h (frame_hashes f.items)))
        × (c'.normal_processed
            ≡ add64 c.normal_processed (weigh one_other h (frame_hashes f.items)))
        × (c'.background_processed
            ≡ add64 c.background_processed
                (weigh one_any h (sample_hashes (samples r.background_cache.slots))))
  unfolding handle_events count_background count_cycle
  handle_events_processed clock w r held =
      let kept = await_keeps w _ in
      let (criticals, others) = queue_phase-Counted clock r held in
      let any = background_phase-Counted clock r (queue_phase clock r) in
      let (pc, pn, pb) = processed-sync_dropped (dropped_count r.critical_queue) r.counters in
      (
        ap (λ (t : Counters). t.critical_processed) kept.2 ∙ omega (arith, criticals, pc),
        ap (λ (t : Counters). t.normal_processed) kept.2 ∙ omega (arith, others, pn),
        ap (λ (t : Counters). t.background_processed) kept.2 ∙ omega (arith, any, pb),
      )
