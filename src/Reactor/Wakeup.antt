-- ===== src/Reactor/Wakeup.antt =====
-- Waking the reactor's thread: who writes the eventfd, and whether a poll watches it.
use flowkernel.Base.{ℕ, ◌≡◌, refl, ◌∙◌, List, [], ◌∷◌, true, false, if◌then◌else◌}
use flowkernel.Hash.{Bytes}
use flowkernel.Platform.{Platform}
use flowkernel.Reactor.{CallbackContext, Reactor, stop}
use flowkernel.Reactor.Callback.{data_callback}
use flowkernel.Reactor.Unseen.{data_callback_unseen}
use flowkernel.Reactor.Events.{Wait, completed, timed_out, await, handle_events}
use flowkernel.Reactor.Stats.{reset_stats}
use flowkernel.Reactor.Run.{Action, sample, cycle, stops, resets, act, history}

-- What the kernel may answer in this state: a completion only while a poll is with it.
abbrev pub Answers : {p : Platform} → Reactor p → Wait → Type 0
Answers r (completed user_data submitted) = r.polled ≡ true
Answers r timed_out = Unit {0}

abbrev pub Allowed : {p : Platform} → Reactor p → Action → Type 0
Allowed r (cycle clock w) = Answers r w
Allowed r _ = Unit {0}

abbrev pub IsTimeout : Action → Type 0
IsTimeout (cycle clock w) = w ≡ timed_out
IsTimeout _ = Unit {0}

abbrev pub OnlyTimeouts : List Action → Type 0
OnlyTimeouts [] = Unit {0}
OnlyTimeouts (a ∷ actions) = IsTimeout a × OnlyTimeouts actions

module _ {p : Platform} where
  abbrev pub AllAllowed : List Action → Reactor p → Type 0
  AllAllowed [] r = Unit {0}
  AllAllowed (a ∷ actions) r = Allowed r a × AllAllowed actions (act a r).0

  polled-data_callback :
      (ctx : CallbackContext) (key raw : Bytes) (now_ms now : ℕ) (r : Reactor p)
      → (data_callback ctx key raw now_ms now r).polled ≡ r.polled
  polled-data_callback =
      data_callback_unseen (λ r. r.polled)
        (record {
          of_queue = λ r q. refl;
          of_wakeup = λ r e. refl;
          of_cache = λ r c. refl;
          of_sessions = λ r m. refl;
        })

  -- A time-out leaves the poll as it was: `handle_events` arms only after a completion.
  polled-timed_out :
      (clock : ℕ → ℕ) (r : Reactor p) → (handle_events clock timed_out r).0.polled ≡ r.polled
  unfolding handle_events await
  polled-timed_out clock r = refl

  polled-act :
      (a : Action) (r : Reactor p) → r.polled ≡ false → Allowed r a → (act a r).0.polled ≡ false
  unfolding act stop reset_stats
  polled-act (sample ctx key raw now_ms now) r off h =
      polled-data_callback ctx key raw now_ms now r ∙ off
  polled-act (cycle clock timed_out) r off h =
      elim r.running
        as (λ b. (if b then handle_events clock timed_out r else (r, [])).0.polled ≡ false) [
          | true ↦ polled-timed_out clock r ∙ off
          | false ↦ off
        ]
  polled-act (cycle clock (completed user_data submitted)) r off h = cc
  polled-act stops r off h = off
  polled-act resets r off h = off

  unpolled-IsTimeout : (a : Action) (r : Reactor p) → r.polled ≡ false → Allowed r a → IsTimeout a
  unpolled-IsTimeout (sample ctx key raw now_ms now) r off h = tt
  unpolled-IsTimeout (cycle clock timed_out) r off h = refl
  unpolled-IsTimeout (cycle clock (completed user_data submitted)) r off h = cc
  unpolled-IsTimeout stops r off h = tt
  unpolled-IsTimeout resets r off h = tt

  -- The kernel completes only a poll that is with it. So once no poll is, for want of an entry or
  -- because its submission failed, none ever is again, whatever happens, and every later wait times
  -- out: no write to the eventfd wakes the reactor's thread any more.
  pub unpolled_forever :
      (actions : List Action) (r : Reactor p)
      → r.polled ≡ false
      → AllAllowed actions r
      → ((history actions r).0.polled ≡ false) × OnlyTimeouts actions
  unfolding history
  unpolled_forever [] r off h = (off, tt)
  unpolled_forever (a ∷ actions) r off h =
      let (later, quiet) = unpolled_forever actions (act a r).0 (polled-act a r off h.0) h.1 in
      (later, (unpolled-IsTimeout a r off h.0, quiet))
