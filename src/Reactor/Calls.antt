-- ===== src/Reactor/Calls.antt =====
-- Which handlers the frames of the queue and of the slots make the reactor call.
use flowkernel.Base.{
  ℕ, ◌≡◌, refl, sym, ap, ◌∙◌, List, [], ◌∷◌, ◌++◌, append-nil, append_assoc, Option, none, some,
}
use flowkernel.Base.Assoc.{lookup}
use mathlib.Core.List.{foldl}
use flowkernel.Hash.{Bytes}
use flowkernel.Cache.{Sample}
use flowkernel.Reactor.{TopicPriority, critical, normal, background, CriticalSample, Handler}
use flowkernel.Reactor.Events.{
  Event, called, Drained, call_background, consume_background_at, consume_background, Cycle,
  count_frame, call_handler, dispatch_to, dispatch,
}
use flowkernel.Reactor.Handlers.{IsIndexed, indexed_handler}
use flowkernel.Reactor.Dispatch.{dispatch_all}

-- What the frames of the queue should make the reactor call, by the index alone.
abbrev pub call_of : Option ℕ → Bytes → List Event
call_of none payload = []
call_of (some idx) payload = called idx payload ∷ []

module _ (index : List (ℕ × ℕ)) where
  abbrev pub queue_calls : List CriticalSample → List Event
  queue_calls [] = []
  queue_calls (cs ∷ rest) = call_of (lookup cs.handler_hash index) cs.payload ++ queue_calls rest

  pub queue_calls-append :
      (xs ys : List CriticalSample) → queue_calls (xs ++ ys) ≡ queue_calls xs ++ queue_calls ys
  queue_calls-append [] ys = refl
  queue_calls-append (cs ∷ xs) ys =
      ap (λ (t : List Event). call_of (lookup cs.handler_hash index) cs.payload ++ t)
        (queue_calls-append xs ys)
      ∙ sym (append_assoc (call_of (lookup cs.handler_hash index) cs.payload) (queue_calls xs) _)

  abbrev pub slot_calls : List Sample → List Event
  slot_calls [] = []
  slot_calls (x ∷ rest) = call_of (lookup x.handler_hash index) x.payload ++ slot_calls rest

module _ {L : Type 0} (micros : ℕ → ℕ → L) (clock : ℕ → ℕ) (handlers : List Handler)
    (index : List (ℕ × ℕ)) (ok : IsIndexed handlers index) where
  trace-count_frame : (t : TopicPriority) (cy : Cycle L) → (count_frame t cy).trace ≡ cy.trace
  unfolding count_frame
  trace-count_frame critical cy = refl
  trace-count_frame normal cy = refl
  trace-count_frame background cy = refl

  trace-dispatch_to :
      (cs : CriticalSample) (cy : Cycle L) (o : Option ℕ)
      → lookup cs.handler_hash index ≡ o
      → (dispatch_to micros clock handlers index o cs cy).trace ≡ cy.trace ++ call_of o cs.payload
  unfolding dispatch_to call_handler
  trace-dispatch_to cs cy none e = sym (append-nil cy.trace)
  trace-dispatch_to cs cy (some idx) e =
      let (h, at, same) = indexed_handler handlers index ok e in
      rw (at, call_handler) (trace-count_frame h.priority _)

  pub trace-dispatch :
      (cs : CriticalSample) (cy : Cycle L)
      → (dispatch micros clock handlers index cs cy).trace
        ≡ cy.trace ++ call_of (lookup cs.handler_hash index) cs.payload
  unfolding dispatch
  trace-dispatch cs cy = trace-dispatch_to cs cy (lookup cs.handler_hash index) refl

  pub trace-dispatch_all :
      (items : List CriticalSample) (cy : Cycle L)
      → (dispatch_all micros clock handlers index items cy).trace
        ≡ cy.trace ++ queue_calls index items
  unfolding dispatch_all
  trace-dispatch_all [] cy = sym (append-nil cy.trace)
  trace-dispatch_all (cs ∷ rest) cy =
      trace-dispatch_all rest (dispatch micros clock handlers index cs cy)
      ∙ ap (λ t. t ++ queue_calls index rest) (trace-dispatch cs cy)
      ∙ append_assoc cy.trace (call_of (lookup cs.handler_hash index) cs.payload)
          (queue_calls index rest)

  trace-consume_at :
      (x : Sample) (d : Drained L) (o : Option ℕ)
      → lookup x.handler_hash index ≡ o
      → (consume_background_at micros clock handlers index o d x).trace
        ≡ d.trace ++ call_of o x.payload
  unfolding consume_background_at call_background
  trace-consume_at x d none e = sym (append-nil d.trace)
  trace-consume_at x d (some idx) e =
      let (h, at, same) = indexed_handler handlers index ok e in rw (at, call_background)

  pub trace-consume :
      (x : Sample) (d : Drained L)
      → (consume_background micros clock handlers index d x).trace
        ≡ d.trace ++ call_of (lookup x.handler_hash index) x.payload
  unfolding consume_background
  trace-consume x d = trace-consume_at x d (lookup x.handler_hash index) refl

  pub trace-consume_all :
      (xs : List Sample) (d : Drained L)
      → (foldl (consume_background micros clock handlers index) d xs).trace
        ≡ d.trace ++ slot_calls index xs
  trace-consume_all [] d = sym (append-nil d.trace)
  trace-consume_all (x ∷ rest) d =
      trace-consume_all rest (consume_background micros clock handlers index d x)
      ∙ ap (λ t. t ++ slot_calls index rest) (trace-consume x d)
      ∙ append_assoc d.trace (call_of (lookup x.handler_hash index) x.payload)
          (slot_calls index rest)
