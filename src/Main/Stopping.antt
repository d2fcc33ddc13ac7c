-- ===== src/Main/Stopping.antt =====
-- When a `stop` ends the thread that runs the reactor, and when it does not.
use flowkernel.Base.{
  ℕ, ◌≡◌, ◌≢◌, refl, sym, subst, ◌∙◌, List, [], ◌∷◌, Bool, true, false, if◌then◌else◌,
}
use flowkernel.Hash.{Bytes}
use flowkernel.Platform.{Platform}
use flowkernel.Reactor.{Reactor, CallbackContext, stop, arm_poll_eventfd}
use flowkernel.Reactor.Unseen.{data_callback_unseen}
use flowkernel.Reactor.Callback.{data_callback}
use flowkernel.Reactor.Events.{Wait, handle_events}
use flowkernel.Reactor.Stats.{reset_stats}
use flowkernel.Reactor.Run.{Action, sample, cycle, stops, resets, act, start}
use flowkernel.Reactor.Cycle.{await_keeps}
use flowkernel.Main.{
  Phase, not_started, looping, returned, Program, Happens, begins, does, loop_head, happen, program,
}

abbrev pub IsNoStop : Happens → Type 0
IsNoStop (begins submitted) = Unit {0}
IsNoStop (does a) = a ≢ stops

-- No call of `stop` among these.
abbrev pub NoStops : List Happens → Type 0
NoStops [] = Unit {0}
NoStops (h ∷ later) = IsNoStop h × NoStops later

module _ {p : Platform} where
  running-data_callback :
      (ctx : CallbackContext) (key raw : Bytes) (now_ms now : ℕ) (r : Reactor p)
      → (data_callback ctx key raw now_ms now r).running ≡ r.running
  running-data_callback =
      data_callback_unseen (λ r. r.running)
        (record {
          of_queue = λ r q. refl;
          of_wakeup = λ r e. refl;
          of_cache = λ r c. refl;
          of_sessions = λ r m. refl;
        })

  running-handle_events :
      (clock : ℕ → ℕ) (w : Wait) (r : Reactor p) → (handle_events clock w r).0.running ≡ r.running
  unfolding handle_events
  running-handle_events clock w r = (await_keeps w _).5

  -- Only `stop` changes `running_` once the loop runs.
  running-act : (a : Action) (r : Reactor p) → a ≢ stops → (act a r).0.running ≡ r.running
  unfolding act reset_stats
  running-act (sample ctx key raw now_ms now) r h = running-data_callback ctx key raw now_ms now r
  running-act (cycle clock w) r h =
      elim r.running
        as (λ b. (if b then handle_events clock w r else (r, [])).0.running ≡ r.running) [
          | true ↦ running-handle_events clock w r
          | false ↦ refl
        ]
  running-act stops r h = absurd (h refl)
  running-act resets r h = refl

  stopped-act : (a : Action) (r : Reactor p) → r.running ≡ false → (act a r).0.running ≡ false
  unfolding stop act
  stopped-act (sample ctx key raw now_ms now) r h =
      running-act (sample ctx key raw now_ms now) r (λ e. cc) ∙ h
  stopped-act (cycle clock w) r h = running-act (cycle clock w) r (λ e. cc) ∙ h
  stopped-act stops r h = refl
  stopped-act resets r h = running-act resets r (λ e. cc) ∙ h

module _ {p : Platform} (keyexpr_ok subscribed : Bytes → Bool) (liveliness_key : Bytes) where
  -- A thread that has entered `run` and was told to stop stays so.
  abbrev IsStopping : Program p → Type 0
  IsStopping q = (q.reactor.running ≡ false) × (q.phase ≢ not_started)

  happen-IsStopping :
      (h : Happens) (phase : Phase) (r : Reactor p)
      → r.running ≡ false
      → phase ≢ not_started
      → IsStopping
          (happen keyexpr_ok subscribed liveliness_key h (record { reactor = r; phase = phase }))
  unfolding happen
  happen-IsStopping (begins submitted) not_started r off in_run = absurd (in_run refl)
  happen-IsStopping (begins submitted) looping r off in_run = (off, in_run)
  happen-IsStopping (begins submitted) returned r off in_run = (off, in_run)
  happen-IsStopping (does (cycle clock w)) not_started r off in_run = absurd (in_run refl)
  happen-IsStopping (does (cycle clock w)) looping r off in_run =
      (stopped-act (cycle clock w) r off, rw off (λ e. cc))
  happen-IsStopping (does (cycle clock w)) returned r off in_run = (off, in_run)
  happen-IsStopping (does (sample ctx key raw now_ms now)) phase r off in_run =
      (stopped-act (sample ctx key raw now_ms now) r off, in_run)
  happen-IsStopping (does stops) phase r off in_run = (stopped-act stops r off, in_run)
  happen-IsStopping (does resets) phase r off in_run = (stopped-act resets r off, in_run)

  program-IsStopping :
      (later : List Happens) (q : Program p)
      → IsStopping q
      → IsStopping (program keyexpr_ok subscribed liveliness_key later q)
  unfolding program
  program-IsStopping [] q s = s
  program-IsStopping (h ∷ later) q (off, in_run) =
      program-IsStopping later (happen keyexpr_ok subscribed liveliness_key h q)
        (happen-IsStopping h q.phase q.reactor off in_run)

  loop_head-returned :
      (clock : ℕ → ℕ) (w : Wait) (phase : Phase) (r : Reactor p)
      → r.running ≡ false
      → phase ≢ not_started
      → (loop_head keyexpr_ok subscribed liveliness_key (cycle clock w) phase r).phase ≡ returned
  loop_head-returned clock w not_started r off in_run = absurd (in_run refl)
  loop_head-returned clock w looping r off in_run = rw off
  loop_head-returned clock w returned r off in_run = refl

  -- A `stop` after the thread has entered `run` leaves the eventfd readable, and whatever happens
  -- from then on, the next time that the thread comes to the head of its loop `run` returns.
  pub stop_ends :
      (q : Program p) (later : List Happens) (clock : ℕ → ℕ) (w : Wait)
      → q.phase ≢ not_started
      → let step = happen keyexpr_ok subscribed liveliness_key in
        let q' = step (does stops) q in
        (p.readable q'.reactor.wakeup ≡ true)
        × ((step
              (does (cycle clock w))
              (program keyexpr_ok subscribed liveliness_key later q')).phase
            ≡ returned)
  unfolding happen act stop
  stop_ends q later clock w in_run =
      let (off, inside) =
        program-IsStopping later (record q { reactor = stop q.reactor }) (refl, in_run) in
      (p.readable-fd_write q.reactor.wakeup, loop_head-returned clock w _ _ off inside)

  running-start :
      (submitted : Bool) (r : Reactor p)
      → (start keyexpr_ok subscribed liveliness_key submitted r).2.running ≡ true
  unfolding start arm_poll_eventfd
  running-start true r = refl
  running-start false r = refl

  happen_looping :
      (h : Happens) (r : Reactor p)
      → r.running ≡ true
      → IsNoStop h
      → let q =
          happen keyexpr_ok subscribed liveliness_key h (record { reactor = r; phase = looping }) in
        (q.reactor.running ≡ true) × (q.phase ≡ looping)
  unfolding happen
  happen_looping (begins submitted) r on h = (on, refl)
  happen_looping (does (cycle clock w)) r on h =
      (running-act (cycle clock w) r (λ e. cc) ∙ on, rw on)
  happen_looping (does (sample ctx key raw now_ms now)) r on h =
      (running-act (sample ctx key raw now_ms now) r (λ e. cc) ∙ on, refl)
  happen_looping (does stops) r on h = absurd (h refl)
  happen_looping (does resets) r on h = (running-act resets r (λ e. cc) ∙ on, refl)

  program_looping :
      (later : List Happens) (phase : Phase) (r : Reactor p)
      → r.running ≡ true
      → phase ≡ looping
      → NoStops later
      → (program keyexpr_ok subscribed liveliness_key later
          (record { reactor = r; phase = phase })).phase
        ≡ looping
  unfolding program
  program_looping [] phase r on in_loop h = in_loop
  program_looping (x ∷ later) phase r on in_loop (other, h) =
      let step = happen keyexpr_ok subscribed liveliness_key in
      let (on', in_loop') =
        subst
          (λ (f : Phase).
            let q = step x (record { reactor = r; phase = f }) in
            (q.reactor.running ≡ true) × (q.phase ≡ looping))
          (sym in_loop) (happen_looping x r on other) in
      program_looping later (step x (record { reactor = r; phase = phase })).phase _ on' in_loop' h

  -- A `stop` before the thread has entered `run` is lost: `run` sets `running_` again, and unless
  -- another `stop` comes the thread never leaves its loop.
  pub stop_lost :
      (q : Program p) (submitted : Bool) (later : List Happens)
      → q.phase ≡ not_started
      → NoStops later
      → let step = happen keyexpr_ok subscribed liveliness_key in
        (program keyexpr_ok subscribed liveliness_key later
          (step (begins submitted) (step (does stops) q))).phase
        ≡ looping
  unfolding happen act
  stop_lost q submitted later early h =
      rw early (program_looping later looping _ (running-start submitted (stop q.reactor)) refl h)
