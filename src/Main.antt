-- ===== src/Main.antt =====
-- src/main.cpp: the handlers that `main` registers from the configuration, what they do with a
-- message, and the thread that runs the reactor among the calls of `stop`.
pub mod Estop
pub mod Handlers
pub mod Launch
pub mod Started
pub mod Stopping
use Prim.Native.String.{String}
use flowkernel.Base.{
  ℕ, List, [], ◌∷◌, Option, none, some, Bool, true, false, sub64, if◌then◌else◌, text_eq, utf8,
}
use flowkernel.Hash.{Bytes}
use flowkernel.Platform.{Platform}
use flowkernel.Messages.{MessagePayload, no_payload, telemetry, control, estop, FlatBuffers}
use flowkernel.Config.{HandlerConfig}
use flowkernel.Reactor.{TopicPriority, critical, normal, background, Reactor, register_handler}
use flowkernel.Reactor.Events.{Event}
use flowkernel.Reactor.Run.{Action, cycle, act, start}

unfoldable pub parse_priority : String → TopicPriority
parse_priority priority_str =
    if text_eq priority_str "CRITICAL"
    then critical
    else if text_eq priority_str "NORMAL"
    then normal
    else background

-- What a handler logs, with the latency in nanoseconds, before the division by 1000.
pub data Logged : Type 0 where
  estop_arrived : ℕ → Logged
  telemetry_arrived : ℕ → Logged
  costmap_arrived : ℕ → Logged

-- The branches on the payload's type for each priority of the handler.
abbrev pub log_of : {Float : Type 0} → TopicPriority → MessagePayload Float → ℕ → Option Logged
log_of critical (estop e) now = some (estop_arrived (sub64 now e.timestamp))
log_of normal (telemetry t) now = some (telemetry_arrived (sub64 now t.timestamp))
log_of background (telemetry t) now = some (costmap_arrived (sub64 now t.timestamp))
log_of _ _ now = none

-- The callback registered for a handler; `now` is the system clock.
unfoldable pub on_message :
    {p : Platform} → FlatBuffers p → TopicPriority → Bytes → ℕ → Option Logged
on_message fb priority bytes now = log_of priority (fb.get_robot_message bytes).payload now

module _ {p : Platform} where
  -- The loop over `config.handlers()`.
  unfoldable pub register_configured : List HandlerConfig → Reactor p → Reactor p
  register_configured [] r = r
  register_configured (hc ∷ hcs) r =
      register_configured hcs (register_handler r (utf8 hc.path) (parse_priority hc.priority))

-- The thread that calls `run`: the main thread, or with the terminal interface a second one.
pub data Phase : Type 0 where
  not_started looping returned : Phase

pub record Program (p : Platform) : Type 0 where
  pub reactor : Reactor p
  pub phase : Phase

-- The thread enters `run`, or something else happens: a sample, the head of its loop, a `stop` from
-- the signal handler or after the terminal interface has ended, a reset.
pub data Happens : Type 0 where
  begins : Bool → Happens
  does : Action → Happens

module _ {p : Platform} (keyexpr_ok subscribed : Bytes → Bool) (liveliness_key : Bytes) where
  abbrev pub begin : Bool → Phase → Reactor p → Program p
  begin submitted not_started r = record {
    reactor = (start keyexpr_ok subscribed liveliness_key submitted r).2;
    phase = looping;
  }
  begin submitted phase r = record { reactor = r; phase = phase }

  -- The head of the loop: a cycle while `running_` holds, else `run` returns.
  abbrev pub loop_head : Action → Phase → Reactor p → Program p
  loop_head a looping r = record {
    reactor = (act a r).0;
    phase = if r.running then looping else returned;
  }
  loop_head a phase r = record { reactor = r; phase = phase }

  unfoldable pub happen : Happens → Program p → Program p
  happen (begins submitted) q = begin submitted q.phase q.reactor
  happen (does (cycle clock w)) q = loop_head (cycle clock w) q.phase q.reactor
  happen (does a) q = record q { reactor = (act a q.reactor).0 }

  unfoldable pub program : List Happens → Program p → Program p
  program [] q = q
  program (h ∷ later) q = program later (happen h q)
