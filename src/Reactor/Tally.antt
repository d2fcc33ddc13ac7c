-- ===== src/Reactor/Tally.antt =====
-- What a cycle counts as processed against the calls that it makes, frame by frame.
use flowkernel.Base.{
  ℕ, suc, ◌+◌, ◌%◌, ◌^◌, ◌≡◌, refl, ap, ◌∙◌, List, [], ◌∷◌, ◌++◌, Option, none, some, arith,
  get_elem?,
}
use flowkernel.Base.Assoc.{lookup}
use flowkernel.Hash.{Bytes}
use flowkernel.Cache.{Sample, consume}
use flowkernel.Reactor.{
  TopicPriority, critical, normal, background, CriticalSample, Handler, record_latency,
}
use flowkernel.Reactor.Events.{
  Event, called, bad_index, bad_slot, Cycle, Drained, count_frame, call_handler, dispatch_to,
  call_background, consume_background_at, consume_background,
}
use flowkernel.Reactor.Counts.{one_critical, one_other, one_any, count_frame-Counted}

-- The calls of a log that a weight of handlers counts.
abbrev event_weight : (Option Handler → ℕ) → List Handler → Event → ℕ
event_weight w hs (called idx payload) = w (get_elem? hs idx)
event_weight w hs (bad_index idx) = 0
event_weight w hs bad_slot = 0

abbrev pub calls_weighed : (Option Handler → ℕ) → List Handler → List Event → ℕ
calls_weighed w hs [] = 0
calls_weighed w hs (e ∷ log) = event_weight w hs e + calls_weighed w hs log

pub calls_weighed-snoc :
    (w : Option Handler → ℕ) (hs : List Handler) (log : List Event) (e : Event)
    → calls_weighed w hs (log ++ e ∷ []) ≡ calls_weighed w hs log + event_weight w hs e
calls_weighed-snoc w hs [] e = omega arith
calls_weighed-snoc w hs (x ∷ log) e = omega (arith, calls_weighed-snoc w hs log e)

calls_weighed-called :
    (w : Option Handler → ℕ) (hs : List Handler) (log : List Event) (idx : ℕ) (h : Handler)
    (payload : Bytes)
    → get_elem? hs idx ≡ some h
    → calls_weighed w hs (log ++ called idx payload ∷ []) ≡ calls_weighed w hs log + w (some h)
calls_weighed-called w hs log idx h payload at =
    calls_weighed-snoc w hs log (called idx payload) ∙ ap (λ o. calls_weighed w hs log + w o) at

module _ {L : Type 0} where
  trace-count_frame : (t : TopicPriority) (cy : Cycle L) → (count_frame t cy).trace ≡ cy.trace
  unfolding count_frame
  trace-count_frame critical cy = refl
  trace-count_frame normal cy = refl
  trace-count_frame background cy = refl

module _ {L : Type 0} (micros : ℕ → ℕ → L) (clock : ℕ → ℕ) (handlers : List Handler)
    (index : List (ℕ × ℕ)) where
  -- What is counted in a round of the loop over the queue is what is called.
  pub record Level (cy cy' : Cycle L) : Type 0 where
    pub criticals :
        (cy'.critical_count + calls_weighed one_critical handlers cy.trace) % 2 ^ 64
        ≡ (cy.critical_count + calls_weighed one_critical handlers cy'.trace) % 2 ^ 64
    pub others :
        (cy'.normal_count + calls_weighed one_other handlers cy.trace) % 2 ^ 64
        ≡ (cy.normal_count + calls_weighed one_other handlers cy'.trace) % 2 ^ 64

  call_handler-Level :
      (idx : ℕ) (h : Option Handler) (cs : CriticalSample) (cy : Cycle L)
      → get_elem? handlers idx ≡ h
      → Level cy (call_handler micros clock handlers index idx h cs cy)
  unfolding call_handler
  call_handler-Level idx none cs cy at =
      let c = calls_weighed-snoc one_critical handlers cy.trace (bad_index idx) in
      let n = calls_weighed-snoc one_other handlers cy.trace (bad_index idx) in
      record { criticals = omega (arith, c); others = omega (arith, n) }
  call_handler-Level idx (some h) cs cy at =
      let cy' : Cycle L = record cy {
        latencies =
            record_latency h.priority (micros (clock cy.reads) cs.enqueue_time) cy.latencies;
        trace = cy.trace ++ called idx cs.payload ∷ [];
        reads = suc cy.reads;
      } in
      let counted = count_frame-Counted h.priority cy' in
      let log = trace-count_frame h.priority cy' in
      let c = calls_weighed-called one_critical handlers cy.trace idx h cs.payload at in
      let n = calls_weighed-called one_other handlers cy.trace idx h cs.payload at in
      record {
        criticals = rw log (omega (arith, counted.criticals, c));
        others = rw log (omega (arith, counted.others, n));
      }

  pub dispatch_to-Level :
      (o : Option ℕ) (cs : CriticalSample) (cy : Cycle L)
      → Level cy (dispatch_to micros clock handlers index o cs cy)
  unfolding dispatch_to
  dispatch_to-Level none cs cy = record { criticals = refl; others = refl }
  dispatch_to-Level (some idx) cs cy = call_handler-Level idx (get_elem? handlers idx) cs cy refl

  call_background-Level :
      (idx : ℕ) (h : Option Handler) (x : Sample) (d : Drained L)
      → get_elem? handlers idx ≡ h
      → let d' = call_background micros clock handlers index idx h x d in
        (d'.background_count + calls_weighed one_any handlers d.trace) % 2 ^ 64
        ≡ (d.background_count + calls_weighed one_any handlers d'.trace) % 2 ^ 64
  unfolding call_background
  call_background-Level idx none x d at =
      omega (arith, calls_weighed-snoc one_any handlers d.trace (bad_index idx))
  call_background-Level idx (some h) x d at =
      omega (arith, calls_weighed-called one_any handlers d.trace idx h x.payload at)

  consume_at-Level :
      (o : Option ℕ) (x : Sample) (d : Drained L)
      → let d' = consume_background_at micros clock handlers index o d x in
        (d'.background_count + calls_weighed one_any handlers d.trace) % 2 ^ 64
        ≡ (d.background_count + calls_weighed one_any handlers d'.trace) % 2 ^ 64
  unfolding consume_background_at
  consume_at-Level none x d = refl
  consume_at-Level (some idx) x d = call_background-Level idx (get_elem? handlers idx) x d refl

  pub consume-Level :
      (x : Option Sample) (d : Drained L)
      → let d' = consume (consume_background micros clock handlers index) d x in
        (d'.background_count + calls_weighed one_any handlers d.trace) % 2 ^ 64
        ≡ (d.background_count + calls_weighed one_any handlers d'.trace) % 2 ^ 64
  unfolding consume_background
  consume-Level none d = refl
  consume-Level (some x) d = consume_at-Level (lookup x.handler_hash index) x d
