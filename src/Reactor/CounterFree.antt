-- ===== src/Reactor/CounterFree.antt =====
-- A sample that arrives does the same whatever the counters of the reactor are
-- (`zenoh_data_callback` of src/reactor.cpp).
use flowkernel.Base.{
  ℕ, ◌≡◌, refl, ap, ◌∙◌, Bool, true, false, not, length, Option-cases, Bool-cases, inl, inr, ◌==◌,
}
use flowkernel.Hash.{Bytes}
use flowkernel.Platform.{Platform}
use flowkernel.Reactor.{
  TopicPriority, critical, normal, background, CallbackContext, Counters, Reactor,
}
use flowkernel.Reactor.Callback.{robot_id, track_session, wake, enqueue, route, data_callback}

module _ {p : Platform} where
  abbrev pub with_counters : Counters → Reactor p → Reactor p
  with_counters c r = record r { counters = c }

  wake-with_counters :
      (c : Counters) (t : TopicPriority) (pushed : Bool) (r : Reactor p)
      → wake t pushed (with_counters c r) ≡ with_counters c (wake t pushed r)
  unfolding wake
  wake-with_counters c critical true r = refl
  wake-with_counters c critical false r = refl
  wake-with_counters c normal pushed r = refl
  wake-with_counters c background pushed r = refl

  route-with_counters :
      (c : Counters) (ctx : CallbackContext) (buf : Bytes) (now : ℕ) (r : Reactor p)
      (t : TopicPriority)
      → ctx.priority ≡ t
      → route ctx buf now (with_counters c r) ≡ with_counters c (route ctx buf now r)
  unfolding route enqueue
  route-with_counters c ctx buf now r critical e =
      rw (e, route) (wake-with_counters c ctx.priority _ _)
  route-with_counters c ctx buf now r normal e =
      rw (e, route) (wake-with_counters c ctx.priority _ _)
  route-with_counters c ctx buf now r background e = rw (e, route) refl

  track_session-with_counters :
      (c : Counters) (key : Bytes) (now_ms : ℕ) (r : Reactor p)
      → track_session key now_ms (with_counters c r) ≡ with_counters c (track_session key now_ms r)
  unfolding track_session
  track_session-with_counters c key now_ms r = elim (Option-cases (robot_id key)) [
    | inl e ↦ rw (e, track_session) refl
    | inr (id, e) ↦ rw (e, track_session) refl
  ]

  -- A sample that arrives does the same whatever the counters are, and leaves them alone.
  pub data_callback-with_counters :
      (c : Counters) (ctx : CallbackContext) (key raw : Bytes) (now_ms now : ℕ) (r : Reactor p)
      → data_callback ctx key raw now_ms now (with_counters c r)
        ≡ with_counters c (data_callback ctx key raw now_ms now r)
  unfolding data_callback
  data_callback-with_counters c ctx key raw now_ms now r = elim (Bool-cases (length raw == 0)) [
    | inl nothing ↦ rw nothing refl
    | inr bytes ↦ rw bytes (elim (Bool-cases (not (p.verify raw))) [
      | inl bad ↦ rw bad refl
      | inr good ↦ rw good (
          ap (route ctx raw now) (track_session-with_counters c key now_ms r)
          ∙ route-with_counters c ctx raw now (track_session key now_ms r) ctx.priority refl)
    ])
  ]
