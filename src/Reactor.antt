-- ===== src/Reactor.antt =====
-- The state of `DataFlowReactor` (include/reactor.hpp), and those of its methods in src/reactor.cpp
-- that are not part of the data path: registration, latency windows, `stop`, `arm_poll_eventfd`.
-- A mutex that guards one method's accesses makes that method one step.
pub mod Callback
pub mod Unseen
pub mod Events
pub mod Stats
pub mod Run
pub mod Window
pub mod Handlers
pub mod Accounting
pub mod Dispatch
pub mod Calls
pub mod Cycle
pub mod Sound
pub mod History
pub mod Drops
pub mod ResetRace
pub mod ResetWithin
pub mod CounterFree
pub mod OneLook
pub mod Tally
pub mod Tallied
pub mod Sessions
pub mod Wakeup
pub mod Enqueue
pub mod Counts
pub mod Boot
pub mod Slots
pub mod Percentiles
pub mod Quiet
pub mod Unreset
pub mod Setup
pub mod Live
pub mod Arrivals
pub mod Delivery
pub mod Prompt
pub mod Offered
pub mod Conserved
pub mod Flood
pub mod Slotted
pub mod SlotBalance
pub mod Totals
pub mod Reported
pub mod SlotReported
pub mod Rounds
pub mod Visits
pub mod Alone
pub mod OnlyCalls
pub mod Safe
use flowkernel.Base.{
  ℕ, ◌+◌, List, [], ◌∷◌, ◌++◌, Bool, true, false, ltb, if◌then◌else◌, length, drop,
}
use flowkernel.Base.Assoc.{emplace}
use flowkernel.Hash.{Bytes, fnv1a_hash}
use flowkernel.Mpsc.{Queue, new_queue}
use flowkernel.Cache.{LatestSampleCache, new_cache}
use flowkernel.Platform.{Platform}

pub data TopicPriority : Type 0 where
  critical normal background : TopicPriority

pub record CriticalSample : Type 0 where
  pub handler_hash : ℕ
  pub payload : Bytes
  pub enqueue_time : ℕ

-- The callback of a handler is known by the handler's place in `handlers`.
pub record Handler : Type 0 where
  pub path : Bytes
  pub path_hash : ℕ
  pub priority : TopicPriority

pub record CallbackContext : Type 0 where
  pub handler_hash : ℕ
  pub priority : TopicPriority

-- The template argument of `critical_queue_`.
abbrev pub queue_capacity : ℕ
queue_capacity = 512

abbrev pub latency_window_size : ℕ
latency_window_size = 1000

-- The atomics and the counts of the last cycle.
pub record Counters : Type 0 where
  pub critical_processed : ℕ
  pub critical_dropped : ℕ
  pub normal_processed : ℕ
  pub normal_dropped : ℕ
  pub background_processed : ℕ
  pub background_dropped : ℕ
  pub critical_count_last : ℕ
  pub normal_count_last : ℕ
  pub last_queue_dropped : ℕ
  pub last_bg_dropped : ℕ

pub record Latencies (L : Type 0) : Type 0 where
  pub critical_latencies : List L
  pub normal_latencies : List L
  pub background_latencies : List L

-- `polled`: a POLL_ADD on the eventfd is with the kernel, and its completion has not been taken.
pub record Reactor (p : Platform) : Type 0 where
  pub running : Bool
  pub wakeup : p.EventFd
  pub polled : Bool
  pub counters : Counters
  pub latencies : Latencies p.Micros
  pub session_last_seen : List (Bytes × ℕ)
  pub handlers : List Handler
  pub handler_index : List (ℕ × ℕ)
  pub handler_paths : List Bytes
  pub critical_queue : Queue CriticalSample
  pub background_cache : LatestSampleCache

abbrev pub zero_counters : Counters
zero_counters = record {
  critical_processed = 0;
  critical_dropped = 0;
  normal_processed = 0;
  normal_dropped = 0;
  background_processed = 0;
  background_dropped = 0;
  critical_count_last = 0;
  normal_count_last = 0;
  last_queue_dropped = 0;
  last_bg_dropped = 0;
}

abbrev pub no_latencies : {L : Type 0} → Latencies L
no_latencies = record { critical_latencies = []; normal_latencies = []; background_latencies = [] }

-- `push_back`, then `pop_front` of a window that has grown past its size.
unfoldable pub push_window {ℓ} : {L : Type ℓ} → List L → L → List L
push_window xs x =
    let longer = xs ++ x ∷ [] in
    if ltb latency_window_size (length longer) then drop 1 longer else longer

unfoldable pub record_latency : {L : Type 0} → TopicPriority → L → Latencies L → Latencies L
record_latency critical x l = record l { critical_latencies = push_window l.critical_latencies x }
record_latency normal x l = record l { normal_latencies = push_window l.normal_latencies x }
record_latency background x l = record l {
  background_latencies = push_window l.background_latencies x;
}

module _ (p : Platform) where
  -- A reactor whose session, publisher, ring and eventfd have been set up.
  unfoldable pub new_reactor : Reactor p
  new_reactor = record {
    running = false;
    wakeup = p.fd_new;
    polled = false;
    counters = zero_counters;
    latencies = no_latencies;
    session_last_seen = [];
    handlers = [];
    handler_index = [];
    handler_paths = [];
    critical_queue = new_queue queue_capacity;
    background_cache = new_cache;
  }

module _ {p : Platform} where
  unfoldable pub register_handler : Reactor p → Bytes → TopicPriority → Reactor p
  register_handler r path priority =
      let hash = fnv1a_hash path in
      let idx = length r.handlers in
      record r {
        handlers =
            r.handlers ++ (record { path = path; path_hash = hash; priority = priority }) ∷ [];
        handler_index = emplace hash idx r.handler_index;
        handler_paths = r.handler_paths ++ path ∷ [];
      }

  unfoldable pub stop : Reactor p → Reactor p
  stop r = record r { running = false; wakeup = p.fd_write r.wakeup }

  -- `submitted` says whether `io_uring_get_sqe` finds an entry in the submission queue, and
  -- `io_uring_submit`, whose result the code does not look at, hands the request to the kernel.
  -- A request that it leaves in the ring is taken to stay there.
  unfoldable pub arm_poll_eventfd : Bool → Reactor p → Reactor p
  arm_poll_eventfd submitted r = if submitted then record r { polled = true } else r
