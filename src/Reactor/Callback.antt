-- ===== src/Reactor/Callback.antt =====
-- `zenoh_data_callback` of src/reactor.cpp: from a received sample to the queue or to a slot.
-- The bytes of the payload and of the key expression are what Zenoh hands over; `now_ms` and `now`
-- are the clock readings for the session and for the frame.
use flowkernel.Base.{
  ℕ, zero, suc, List, [], ◌∷◌, Option, none, some, Bool, true, false, not, ◌&&◌, ◌==◌,
  if◌then◌else◌, length, take,
}
use mathlib.Core.Option
use flowkernel.Hash.{Bytes}
use flowkernel.Mpsc.{push}
use flowkernel.Cache.{put_latest}
use flowkernel.Platform.{Platform}
use flowkernel.Reactor.{
  TopicPriority, critical, background, CriticalSample, CallbackContext, Reactor, queue_capacity,
}

-- `std::string_view::find(c, pos)`; `none` is `npos`.
unfoldable pub find : ℕ → ℕ → Bytes → Option ℕ
find c pos [] = none
find c zero (x ∷ str) = if x == c then some 0 else Option.map suc (find c 0 str)
find c (suc pos) (x ∷ str) = Option.map suc (find c pos str)

-- The part of the key before its first slash from place 6 on.
unfoldable pub robot_id : Bytes → Option Bytes
robot_id key =
    if length key == 0
    then none
    else Option.map (λ second_slash. take second_slash key) (find b'/' 6 key)

unfoldable pub bytes_eq : Bytes → Bytes → Bool
bytes_eq [] [] = true
bytes_eq (x ∷ xs) (y ∷ ys) = (x == y) && bytes_eq xs ys
bytes_eq _ _ = false

-- `session_last_seen[id] = now_ms`
unfoldable pub see : Bytes → ℕ → List (Bytes × ℕ) → List (Bytes × ℕ)
see id now_ms [] = (id, now_ms) ∷ []
see id now_ms ((j, t) ∷ m) = if bytes_eq j id then (j, now_ms) ∷ m else (j, t) ∷ see id now_ms m

module _ {p : Platform} where
  unfoldable pub track_session : Bytes → ℕ → Reactor p → Reactor p
  track_session key now_ms r = elim (robot_id key) [
    | none ↦ r
    | some id ↦ record r { session_last_seen = see id now_ms r.session_last_seen }
  ]

  -- What follows `push`: only a CRITICAL frame that is in the queue wakes the reactor.
  unfoldable pub wake : TopicPriority → Bool → Reactor p → Reactor p
  wake critical true r = record r { wakeup = p.fd_write r.wakeup }
  wake _ _ r = r

  unfoldable pub enqueue : CallbackContext → Bytes → ℕ → Reactor p → Reactor p
  enqueue ctx buf now r =
      let cs : CriticalSample = record {
        handler_hash = ctx.handler_hash;
        payload = buf;
        enqueue_time = now;
      } in
      let (pushed, q) = push queue_capacity r.critical_queue cs in
      wake ctx.priority pushed (record r { critical_queue = q })

  unfoldable pub route : CallbackContext → Bytes → ℕ → Reactor p → Reactor p
  route ctx buf now r = elim ctx.priority [
    | background ↦ record r {
      background_cache = put_latest r.background_cache ctx.handler_hash buf now;
    }
    | _ ↦ enqueue ctx buf now r
  ]

  unfoldable pub data_callback : CallbackContext → Bytes → Bytes → ℕ → ℕ → Reactor p → Reactor p
  data_callback ctx key raw now_ms now r =
      if length raw == 0
      then r
      else if not (p.verify raw)
      then r
      else route ctx raw now (track_session key now_ms r)
