-- ===== src/Reactor/Slotted.antt =====
-- What becomes of every sample for a slot: handled, waiting or counted as dropped.
use flowkernel.Base.{
  ℕ, ◌+◌, ◌%◌, ◌^◌, ◌≡◌, ◌≢◌, refl, ap, ◌∙◌, List, [], ◌∷◌, Option, none, some, Bool, true, false,
  not, arith, length, length-append, ◌==◌, if◌then◌else◌, get_elem?, Option-cases, Bool-cases, inl,
  inr,
}
use flowkernel.Base.Assoc.{lookup}
use flowkernel.Hash.{Bytes}
use flowkernel.Cache.{
  LatestSampleSlot, Sample, take, consume, LatestSampleCache, get_slot_fast, put_latest,
  get_total_dropped,
}
use flowkernel.Cache.Slot.{pending}
use flowkernel.Cache.Dropped.{get_total_dropped-put_latest}
use flowkernel.Cache.Waiting.{
  waiting_frames, present, waiting-put_latest, SlotKnown, AllKnown, AllKnown-put_latest,
}
use flowkernel.Platform.{Platform}
use flowkernel.Reactor.{
  TopicPriority, critical, normal, background, CallbackContext, Handler, Reactor,
}
use flowkernel.Reactor.Callback.{robot_id, track_session, wake, enqueue, route, data_callback}
use flowkernel.Reactor.Events.{Drained, call_background, consume_background_at, consume_background}
use flowkernel.Reactor.Live.{Live, LiveTurn, arrives, live_turn}

-- The cache after a sample of a topic of this priority.
abbrev routed_cache : TopicPriority → ℕ → Bytes → ℕ → LatestSampleCache → LatestSampleCache
routed_cache background hash raw now c = put_latest c hash raw now
routed_cache _ hash raw now c = c

-- 1 if a sample has a frame for a slot that is there: it is not empty, the verifier takes it, and
-- its topic is BACKGROUND and has a slot.
abbrev for_slot : TopicPriority → ℕ → LatestSampleCache → ℕ
for_slot background hash c = present (get_slot_fast c hash)
for_slot _ hash c = 0

abbrev pub cached : Platform → CallbackContext → Bytes → ℕ → LatestSampleCache → LatestSampleCache
cached p ctx raw now c =
    if length raw == 0
    then c
    else if not (p.verify raw)
    then c
    else routed_cache ctx.priority ctx.handler_hash raw now c

abbrev pub slot_frames_in : Platform → CallbackContext → Bytes → LatestSampleCache → ℕ
slot_frames_in p ctx raw c =
    if length raw == 0
    then 0
    else if not (p.verify raw)
    then 0
    else for_slot ctx.priority ctx.handler_hash c

module _ {p : Platform} where
  abbrev pub slot_frames_at : LiveTurn → Live p → ℕ
  slot_frames_at (arrives ctx key raw now_ms now) m =
      slot_frames_in p ctx raw m.reactor.background_cache
  slot_frames_at _ m = 0

  abbrev pub slot_frames : List LiveTurn → Live p → ℕ
  slot_frames [] m = 0
  slot_frames (t ∷ turns) m = slot_frames_at t m + slot_frames turns (live_turn t m)

  wake_keeps_cache :
      (t : TopicPriority) (pushed : Bool) (r : Reactor p)
      → (wake t pushed r).background_cache ≡ r.background_cache
  unfolding wake
  wake_keeps_cache critical true r = refl
  wake_keeps_cache critical false r = refl
  wake_keeps_cache normal pushed r = refl
  wake_keeps_cache background pushed r = refl

  route_cache :
      (ctx : CallbackContext) (raw : Bytes) (now : ℕ) (r : Reactor p) (t : TopicPriority)
      → ctx.priority ≡ t
      → (route ctx raw now r).background_cache
        ≡ routed_cache t ctx.handler_hash raw now r.background_cache
  unfolding route enqueue
  route_cache ctx raw now r critical e = rw (e, route) (wake_keeps_cache ctx.priority _ _)
  route_cache ctx raw now r normal e = rw (e, route) (wake_keeps_cache ctx.priority _ _)
  route_cache ctx raw now r background e = rw (e, route) refl

  track_session_cache :
      (key : Bytes) (now_ms : ℕ) (r : Reactor p)
      → (track_session key now_ms r).background_cache ≡ r.background_cache
  unfolding track_session
  track_session_cache key now_ms r = elim (Option-cases (robot_id key)) [
    | inl e ↦ rw (e, track_session)
    | inr (id, e) ↦ rw (e, track_session)
  ]

  pub data_callback_cache :
      (ctx : CallbackContext) (key raw : Bytes) (now_ms now : ℕ) (r : Reactor p)
      → (data_callback ctx key raw now_ms now r).background_cache
        ≡ cached p ctx raw now r.background_cache
  unfolding data_callback
  data_callback_cache ctx key raw now_ms now r = elim (Bool-cases (length raw == 0)) [
    | inl nothing ↦ rw nothing refl
    | inr bytes ↦ rw bytes (elim (Bool-cases (not (p.verify raw))) [
      | inl bad ↦ rw bad refl
      | inr good ↦ rw good (
          route_cache ctx raw now (track_session key now_ms r) ctx.priority refl
          ∙ ap (routed_cache ctx.priority ctx.handler_hash raw now)
              (track_session_cache key now_ms r))
    ])
  ]

-- A sample for a slot waits there, perhaps in place of one that is counted.
balance-routed :
    (t : TopicPriority) (hash : ℕ) (raw : Bytes) (now : ℕ) (c : LatestSampleCache)
    → let c' = routed_cache t hash raw now c in
      (waiting_frames c'.slots + get_total_dropped c') % 2 ^ 64
      ≡ (waiting_frames c.slots + get_total_dropped c + for_slot t hash c) % 2 ^ 64
balance-routed critical hash raw now c = omega arith
balance-routed normal hash raw now c = omega arith
balance-routed background hash raw now c =
    omega (arith, waiting-put_latest c hash raw now, get_total_dropped-put_latest c hash raw now)

pub balance-cached :
    (p : Platform) (ctx : CallbackContext) (raw : Bytes) (now : ℕ) (c : LatestSampleCache)
    → let c' = cached p ctx raw now c in
      (waiting_frames c'.slots + get_total_dropped c') % 2 ^ 64
      ≡ (waiting_frames c.slots + get_total_dropped c + slot_frames_in p ctx raw c) % 2 ^ 64
balance-cached p ctx raw now c = elim (Bool-cases (length raw == 0)) [
  | inl nothing ↦ rw nothing (omega arith)
  | inr bytes ↦ rw bytes (elim (Bool-cases (not (p.verify raw))) [
    | inl bad ↦ rw bad (omega arith)
    | inr good ↦ rw good (balance-routed ctx.priority ctx.handler_hash raw now c)
  ])
]

module _ (known : ℕ → Type 0) where
  AllKnown-routed :
      (t : TopicPriority) (hash : ℕ) (raw : Bytes) (now : ℕ) (c : LatestSampleCache)
      → AllKnown known c.slots
      → AllKnown known (routed_cache t hash raw now c).slots
  AllKnown-routed critical hash raw now c h = h
  AllKnown-routed normal hash raw now c h = h
  AllKnown-routed background hash raw now c h = AllKnown-put_latest known c hash raw now h

  pub AllKnown-cached :
      (p : Platform) (ctx : CallbackContext) (raw : Bytes) (now : ℕ) (c : LatestSampleCache)
      → AllKnown known c.slots
      → AllKnown known (cached p ctx raw now c).slots
  AllKnown-cached p ctx raw now c h = elim (Bool-cases (length raw == 0)) [
    | inl nothing ↦ rw nothing h
    | inr bytes ↦ rw bytes (elim (Bool-cases (not (p.verify raw))) [
      | inl bad ↦ rw bad h
      | inr good ↦ rw good (AllKnown-routed ctx.priority ctx.handler_hash raw now c h)
    ])
  ]

  pub take-SlotKnown :
      (j : ℕ) (s : LatestSampleSlot)
      → SlotKnown known (j, s)
      → SlotKnown known (j, (take s).1) × (pending (take s).1 ≡ 0)
  unfolding take
  take-SlotKnown j s (key, frame) = elim (Bool-cases s.has_data) [
    | inl full ↦ rw full ((key, λ e. cc), refl)
    | inr free ↦ rw free ((key, λ e. cc), refl)
  ]

module _ {L : Type 0} (micros : ℕ → ℕ → L) (clock : ℕ → ℕ) (handlers : List Handler)
    (index : List (ℕ × ℕ)) where
  logged-call :
      (idx : ℕ) (h : Option Handler) (x : Sample) (d : Drained L)
      → length (call_background micros clock handlers index idx h x d).trace ≡ length d.trace + 1
  unfolding call_background
  logged-call idx none x d = length-append d.trace _
  logged-call idx (some h) x d = length-append d.trace _

  -- A frame of a known topic makes one entry in the log.
  logged-at :
      (o : Option ℕ) (x : Sample) (d : Drained L)
      → o ≢ none
      → length (consume_background_at micros clock handlers index o d x).trace ≡ length d.trace + 1
  unfolding consume_background_at
  logged-at none x d h = absurd (h refl)
  logged-at (some idx) x d h = logged-call idx (get_elem? handlers idx) x d

  pub logged-take :
      (j : ℕ) (s : LatestSampleSlot) (d : Drained L)
      → SlotKnown (λ hash. lookup hash index ≢ none) (j, s)
      → length (consume (consume_background micros clock handlers index) d (take s).0).trace
        ≡ length d.trace + pending s
  unfolding take consume_background
  logged-take j s d (key, frame) = elim (Bool-cases s.has_data) [
    | inl full ↦ rw full (logged-at (lookup s.handler_hash index) _ d (frame full))
    | inr free ↦ rw free (omega arith)
  ]
