-- ===== src/Reactor/SlotReported.antt =====
-- The statistics of the slots against the samples: what is reported as processed and as dropped for
-- BACKGROUND, with what is still to be reported, is all that came for slots.
use flowkernel.Base.{
  ℕ, ◌+◌, ◌%◌, ◌^◌, ◌≡◌, refl, sym, ap, subst, ◌∙◌, List, [], ◌∷◌, ◌++◌, append_assoc, Option, none,
  some, arith, true, false, Bool, sub64, length, length-append,
}
use flowkernel.Base.Assoc.{lookup}
use flowkernel.Hash.{Bytes}
use flowkernel.Cache.{Sample, LatestSampleCache, new_cache, get_total_dropped, total_dropped}
use flowkernel.Cache.Dropped.{get_total_dropped-pre_allocate}
use flowkernel.Cache.Waiting.{waiting_frames, waiting-pre_allocate, AllKnown, AllKnown-pre_allocate}
use flowkernel.Platform.{Platform}
use flowkernel.Reactor.{
  TopicPriority, critical, normal, background, Handler, Reactor, new_reactor, register_handler,
  arm_poll_eventfd,
}
use flowkernel.Reactor.Events.{Event}
use flowkernel.Reactor.Run.{pre_allocate_for, pre_allocate_all, start}
use flowkernel.Reactor.Handlers.{
  IsIndexed, register_all, register_all_from, new_reactor-IsIndexed, indexed_handler,
  first_with-present,
}
use flowkernel.Reactor.Calls.{call_of}
use flowkernel.Reactor.Counts.{one_any}
use flowkernel.Reactor.Visits.{get_elem?_here}
use flowkernel.Reactor.Sound.{IsSound}
use flowkernel.Reactor.Boot.{booted, booted-IsSound}
use flowkernel.Reactor.Alone.{at_rest}
use flowkernel.Reactor.Safe.{live-SlotsSafe}
use flowkernel.Reactor.Slotted.{slot_frames}
use flowkernel.Reactor.SlotBalance.{Known, slots_conserve}
use flowkernel.Reactor.Drops.{live-IsSound}
use flowkernel.Reactor.Tally.{calls_weighed}
use flowkernel.Reactor.Tallied.{IsTallied, background_pending, live-IsTallied}
use flowkernel.Reactor.Totals.{NoResets, calls_weighed-append}
use flowkernel.Reactor.Reported.{
  none_uncounted, uncounted-NoResets, bases-NoResets, at_rest-IsTallied, booted-Fresh,
}
use flowkernel.Reactor.Live.{LiveTurn, live}

-- Every entry of the log is a call of a handler.
abbrev AllCalls : List Handler → List Event → Type 0
AllCalls hs log = calls_weighed one_any hs log ≡ length log

module _ (hs : List Handler) (index : List (ℕ × ℕ)) (ok : IsIndexed hs index) where
  any-call_of :
      (hash : ℕ) (payload : Bytes) (o : Option ℕ)
      → lookup hash index ≡ o
      → calls_weighed one_any hs (call_of o payload) ≡ length (call_of o payload)
  any-call_of hash payload none e = refl
  any-call_of hash payload (some idx) e =
      let (h, at, _) = indexed_handler hs index ok e in rw at refl

  AllCalls-grows :
      (x : Sample) (log : List Event)
      → AllCalls hs log
      → AllCalls hs (log ++ call_of (lookup x.handler_hash index) x.payload)
  AllCalls-grows x log h =
      let call = call_of (lookup x.handler_hash index) x.payload in
      omega (
        arith,
        h,
        calls_weighed-append one_any hs log call,
        length-append log call,
        any-call_of x.handler_hash x.payload (lookup x.handler_hash index) refl,
      )

-- The topics of these handlers are in the index.
abbrev AllHashed : List (ℕ × ℕ) → List Handler → Type 0
AllHashed index [] = Unit {0}
AllHashed index (h ∷ hs) = Known index h.path_hash × AllHashed index hs

AllHashed-rest :
    (index : List (ℕ × ℕ)) (seen rest : List Handler)
    → IsIndexed (seen ++ rest) index
    → AllHashed index rest
AllHashed-rest index seen [] ok = tt
AllHashed-rest index seen (h ∷ rest) ok = (
  λ e.
      first_with-present (seen ++ h ∷ rest) 0 (length seen) h (get_elem?_here seen h rest)
        (sym (ok h.path_hash) ∙ e),
  AllHashed-rest index (seen ++ h ∷ []) rest
      (subst (λ t. IsIndexed t index) (sym (append_assoc seen (h ∷ []) rest)) ok),
)

-- A cache that is made for handlers and that nothing was put into.
record Untouched (index : List (ℕ × ℕ)) (c : LatestSampleCache) : Type 0 where
  none_waits : waiting_frames c.slots ≡ 0
  none_dropped : get_total_dropped c ≡ 0
  known : AllKnown (Known index) c.slots

pre_allocate_for-Untouched :
    (index : List (ℕ × ℕ)) (t : TopicPriority) (path : Bytes) (hash : ℕ) (c : LatestSampleCache)
    → Known index hash
    → Untouched index c
    → Untouched index (pre_allocate_for (record { path = path; path_hash = hash; priority = t }) c)
unfolding pre_allocate_for
pre_allocate_for-Untouched index critical path hash c k u = u
pre_allocate_for-Untouched index normal path hash c k u = u
pre_allocate_for-Untouched index background path hash c k u = record {
  none_waits = waiting-pre_allocate c hash ∙ u.none_waits;
  none_dropped = get_total_dropped-pre_allocate c hash ∙ u.none_dropped;
  known = AllKnown-pre_allocate (Known index) c hash k u.known;
}

pre_allocate_all-Untouched :
    (index : List (ℕ × ℕ)) (hs : List Handler) (c : LatestSampleCache)
    → AllHashed index hs
    → Untouched index c
    → Untouched index (pre_allocate_all hs c)
unfolding pre_allocate_all
pre_allocate_all-Untouched index [] c h u = u
pre_allocate_all-Untouched index (x ∷ hs) c (here, rest) u =
    pre_allocate_all-Untouched index hs (pre_allocate_for x c) rest
      (pre_allocate_for-Untouched index x.priority x.path x.path_hash c here u)

module _ {p : Platform} where
  start-Untouched :
      (keyexpr_ok subscribed : Bytes → Bool) (liveliness_key : Bytes) (submitted : Bool)
      (r : Reactor p)
      → Untouched r.handler_index (pre_allocate_all r.handlers r.background_cache)
      → let r' = (start keyexpr_ok subscribed liveliness_key submitted r).2 in
        Untouched r'.handler_index r'.background_cache
  unfolding start arm_poll_eventfd
  start-Untouched keyexpr_ok subscribed liveliness_key true r u = u
  start-Untouched keyexpr_ok subscribed liveliness_key false r u = u

  register_all-cache :
      (cfg : List (Bytes × TopicPriority)) (r : Reactor p)
      → (register_all cfg r).background_cache ≡ r.background_cache
  unfolding register_handler
  register_all-cache [] r = refl
  register_all-cache ((path, priority) ∷ cfg) r =
      register_all-cache cfg (register_handler r path priority)

module _ (p : Platform) (keyexpr_ok subscribed : Bytes → Bool) (liveliness_key : Bytes) where
  booted-Untouched :
      (cfg : List (Bytes × TopicPriority)) (submitted : Bool)
      → let r = booted p keyexpr_ok subscribed liveliness_key cfg submitted in
        Untouched r.handler_index r.background_cache
  unfolding new_reactor get_total_dropped total_dropped
  booted-Untouched cfg submitted =
      let r = register_all cfg (new_reactor p) in
      let ok = register_all_from cfg (new_reactor p) (new_reactor-IsIndexed p) in
      let nothing : Untouched r.handler_index new_cache = record {
        none_waits = refl;
        none_dropped = refl;
        known = tt;
      } in
      start-Untouched keyexpr_ok subscribed liveliness_key submitted r (
        subst (λ c. Untouched r.handler_index (pre_allocate_all r.handlers c))
          (sym (register_all-cache cfg (new_reactor p)))
          (pre_allocate_all-Untouched r.handler_index r.handlers new_cache
            (AllHashed-rest r.handler_index [] r.handlers ok) nothing))

  -- From the constructor through any registrations and the start of `run`, whatever samples arrive
  -- and however far the thread goes, as long as nobody resets the statistics: at any moment, in the
  -- middle of a cycle too, the frames that are reported as processed and as dropped under
  -- BACKGROUND, those that the cycle in progress has counted, the drops that its end will find and
  -- the frames that wait in slots are together, modulo 2 ^ 64, the number of valid samples that
  -- came for a BACKGROUND topic with a slot.
  pub every_slot_sample_reported :
      (cfg : List (Bytes × TopicPriority)) (submitted : Bool) (turns : List LiveTurn)
      → NoResets turns
      → let r = booted p keyexpr_ok subscribed liveliness_key cfg submitted in
        let m = live turns (at_rest r) in
        let c = m.reactor.counters in
        let cache = m.reactor.background_cache in
        (c.background_processed
            + c.background_dropped
            + background_pending m.phase
            + sub64 (get_total_dropped cache) c.last_bg_dropped
            + waiting_frames cache.slots)
          % 2 ^ 64
        ≡ slot_frames turns (at_rest r) % 2 ^ 64
  every_slot_sample_reported cfg submitted turns no_resets =
      let r = booted p keyexpr_ok subscribed liveliness_key cfg submitted in
      let m = live turns (at_rest r) in
      let start_sound = booted-IsSound p keyexpr_ok subscribed liveliness_key cfg submitted in
      let untouched = booted-Untouched cfg submitted in
      let sound =
        subst (λ b. IsSound b.0 b.1 m.reactor) (bases-NoResets turns (at_rest r) (0, 0) no_resets)
          (live-IsSound turns (at_rest r) (0, 0) start_sound) in
      let tally =
        subst (λ u. IsTallied u m) (uncounted-NoResets turns (at_rest r) none_uncounted no_resets)
          (live-IsTallied turns (at_rest r) none_uncounted (
            at_rest-IsTallied r
              (booted-Fresh p keyexpr_ok subscribed liveliness_key cfg submitted))) in
      let (hs, _, calls) =
        live-SlotsSafe r.handlers r.handler_index start_sound.indexed (AllCalls r.handlers)
          (AllCalls-grows r.handlers r.handler_index start_sound.indexed) turns (at_rest r)
          (refl, refl, refl) in
      let counted = ap (λ t. calls_weighed one_any t m.slot_log) hs in
      omega (
        arith,
        tally.backgrounds,
        sound.accounted.bg_side,
        counted,
        calls,
        untouched.none_waits,
        untouched.none_dropped,
        slots_conserve turns (at_rest r) untouched.known,
      )
