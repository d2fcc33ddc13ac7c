-- ===== src/Reactor/Run.antt =====
-- `run` of src/reactor.cpp: what it sets up, and its loop among the events that come in between.
-- Whether Zenoh takes a key expression and declares a subscriber is given from outside.
use flowkernel.Base.{ℕ, List, [], ◌∷◌, ◌++◌, Bool, true, ◌&&◌, if◌then◌else◌}
use flowkernel.Hash.{Bytes}
use flowkernel.Cache.{LatestSampleCache, pre_allocate}
use flowkernel.Platform.{Platform}
use flowkernel.Reactor.{background, Handler, CallbackContext, Reactor, stop, arm_poll_eventfd}
use flowkernel.Reactor.Callback.{data_callback}
use flowkernel.Reactor.Events.{Event, Wait, handle_events}
use flowkernel.Reactor.Stats.{reset_stats}

unfoldable pub pre_allocate_for : Handler → LatestSampleCache → LatestSampleCache
pre_allocate_for h c = elim h.priority [ background ↦ pre_allocate c h.path_hash | _ ↦ c ]

unfoldable pub pre_allocate_all : List Handler → LatestSampleCache → LatestSampleCache
pre_allocate_all [] c = c
pre_allocate_all (h ∷ hs) c = pre_allocate_all hs (pre_allocate_for h c)

abbrev pub context_of : Handler → CallbackContext
context_of h = record { handler_hash = h.path_hash; priority = h.priority }

module _ (keyexpr_ok subscribed : Bytes → Bool) where
  -- The contexts of the subscribers that were declared.
  unfoldable pub subscribe_all : List Handler → List CallbackContext
  subscribe_all [] = []
  subscribe_all (h ∷ hs) =
      if keyexpr_ok h.path && subscribed h.path
      then context_of h ∷ subscribe_all hs
      else subscribe_all hs

module _ {p : Platform} where
  -- `run` up to its loop. The second result says whether the liveliness subscriber was asked for.
  unfoldable pub start :
      (keyexpr_ok subscribed : Bytes → Bool)
      → (liveliness_key : Bytes) → (submitted : Bool) → Reactor p
      → List CallbackContext × Bool × Reactor p
  start keyexpr_ok subscribed liveliness_key submitted r = (
    subscribe_all keyexpr_ok subscribed r.handlers,
    keyexpr_ok liveliness_key,
    arm_poll_eventfd submitted (record r {
      running = true;
      background_cache = pre_allocate_all r.handlers r.background_cache;
    }),
  )

-- What happens next: a sample arrives, the loop comes round, or another thread stops the reactor or
-- resets its statistics.
pub data Action : Type 0 where
  sample : CallbackContext → Bytes → Bytes → ℕ → ℕ → Action
  cycle : (ℕ → ℕ) → Wait → Action
  stops : Action
  resets : Action

module _ {p : Platform} where
  unfoldable pub act : Action → Reactor p → Reactor p × List Event
  act (sample ctx key raw now_ms now) r = (data_callback ctx key raw now_ms now r, [])
  act (cycle clock w) r = if r.running then handle_events clock w r else (r, [])
  act stops r = (stop r, [])
  act resets r = (reset_stats r, [])

  unfoldable pub history : List Action → Reactor p → Reactor p × List Event
  history [] r = (r, [])
  history (a ∷ actions) r =
      let (r', seen) = act a r in let (r'', later) = history actions r' in (r'', seen ++ later)
