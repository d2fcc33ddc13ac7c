-- ===== src/Reactor/Unseen.antt =====
-- What a sample that arrives leaves alone: whatever does not depend on the queue, the eventfd, the
-- cache and the sessions.
use flowkernel.Base.{
  ℕ, ◌≡◌, refl, ◌∙◌, List, Bool, true, false, not, length, Option-cases, Bool-cases, inl, inr, ◌==◌,
}
use flowkernel.Hash.{Bytes}
use flowkernel.Mpsc.{Queue}
use flowkernel.Cache.{LatestSampleCache}
use flowkernel.Platform.{Platform}
use flowkernel.Reactor.{
  TopicPriority, critical, normal, background, CriticalSample, CallbackContext, Reactor,
}
use flowkernel.Reactor.Callback.{robot_id, track_session, wake, enqueue, route, data_callback}

module _ {p : Platform} {B : Type 0} (get : Reactor p → B) where
  pub record IsUnseen : Type 0 where
    pub of_queue :
        (r : Reactor p) (q : Queue CriticalSample) → get (record r { critical_queue = q }) ≡ get r
    pub of_wakeup : (r : Reactor p) (e : p.EventFd) → get (record r { wakeup = e }) ≡ get r
    pub of_cache :
        (r : Reactor p) (c : LatestSampleCache) → get (record r { background_cache = c }) ≡ get r
    pub of_sessions :
        (r : Reactor p) (m : List (Bytes × ℕ)) → get (record r { session_last_seen = m }) ≡ get r

  wake_unseen :
      IsUnseen → (t : TopicPriority) (pushed : Bool) (r : Reactor p) → get (wake t pushed r) ≡ get r
  unfolding wake
  wake_unseen u critical true r = u.of_wakeup r _
  wake_unseen u critical false r = refl
  wake_unseen u normal pushed r = refl
  wake_unseen u background pushed r = refl

  route_unseen :
      IsUnseen
      → (ctx : CallbackContext) (buf : Bytes) (now : ℕ) (r : Reactor p) (t : TopicPriority)
      → ctx.priority ≡ t
      → get (route ctx buf now r) ≡ get r
  unfolding route enqueue
  route_unseen u ctx buf now r critical e =
      rw (e, route) (wake_unseen u ctx.priority _ _ ∙ u.of_queue r _)
  route_unseen u ctx buf now r normal e =
      rw (e, route) (wake_unseen u ctx.priority _ _ ∙ u.of_queue r _)
  route_unseen u ctx buf now r background e = rw (e, route) (u.of_cache r _)

  track_session_unseen :
      IsUnseen
      → (key : Bytes) (now_ms : ℕ) (r : Reactor p) → get (track_session key now_ms r) ≡ get r
  unfolding track_session
  track_session_unseen u key now_ms r = elim (Option-cases (robot_id key)) [
    | inl e ↦ rw (e, track_session)
    | inr (id, e) ↦ rw (e, track_session) (u.of_sessions r _)
  ]

  pub data_callback_unseen :
      IsUnseen
      → (ctx : CallbackContext) (key raw : Bytes) (now_ms now : ℕ) (r : Reactor p)
      → get (data_callback ctx key raw now_ms now r) ≡ get r
  unfolding data_callback
  data_callback_unseen u ctx key raw now_ms now r = elim (Bool-cases (length raw == 0)) [
    | inl nothing ↦ rw nothing
    | inr bytes ↦ rw bytes (elim (Bool-cases (not (p.verify raw))) [
      | inl bad ↦ rw bad
      | inr good ↦ rw good (
          route_unseen u ctx raw now (track_session key now_ms r) ctx.priority refl
          ∙ track_session_unseen u key now_ms r)
    ])
  ]
