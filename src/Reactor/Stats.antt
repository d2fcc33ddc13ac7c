-- ===== src/Reactor/Stats.antt =====
-- What src/reactor.cpp reports of itself: channel statistics, sessions, handlers, `print_stats`,
-- and `reset_stats`. Sorting, the mean and the products by 0.95 and 0.99 are taken from outside.
use Prim.Native.String.{String}
use flowkernel.Base.{
  ℕ, ◌≤◌, ◌≡◌, List, [], ◌∷◌, map, Option, none, some, Bool, true, sub64, ltb, if◌then◌else◌,
  length, get_elem?, min,
}
use flowkernel.Hash.{Bytes}
use flowkernel.Mpsc.{dropped_count}
use flowkernel.Cache.{get_total_dropped, print_drop_stats}
use flowkernel.Platform.{Platform}
use flowkernel.Reactor.{
  TopicPriority, critical, normal, background, Handler, Counters, zero_counters, no_latencies,
  Reactor,
}

-- `std::sort` and the arithmetic on `double`. The laws: sorting keeps the number of elements and
-- puts them in order, and a larger share of a window is no smaller an index.
pub record Floats (L : Type 0) : Type 1 where
  pub le : L → L → Type 0
  pub zero_us : L
  pub sort : List L → List L
  pub mean : List L → ℕ → L  -- `std::accumulate(...) / size`
  pub share95 : ℕ → ℕ  -- `static_cast<size_t>(size * 0.95)`
  pub share99 : ℕ → ℕ
  pub length-sort : (xs : List L) → length (sort xs) ≡ length xs
  pub sort_ordered :
      (xs : List L) (i j : ℕ) (x y : L)
      → i ≤ j
      → get_elem? (sort xs) i ≡ some x
      → get_elem? (sort xs) j ≡ some y
      → le x y
  pub share_mono : (n : ℕ) → share95 n ≤ share99 n

-- A percentile is the element read from the sorted window; `none` is a read out of range.
pub record ChannelStats (L : Type 0) : Type 0 where
  pub processed : ℕ
  pub dropped : ℕ
  pub avg_latency_us : L
  pub p95_latency_us : Option L
  pub p99_latency_us : Option L

module _ {L : Type 0} (fl : Floats L) where
  -- `sorted[std::min(idx, sorted.size() - 1)]`
  unfoldable pub percentile : List L → ℕ → Option L
  percentile sorted idx = get_elem? sorted (min idx (sub64 (length sorted) 1))

  -- The common body of the three `get_..._stats`.
  unfoldable pub channel_stats : ℕ → ℕ → List L → ChannelStats L
  channel_stats processed dropped [] = record {
    processed = processed;
    dropped = dropped;
    avg_latency_us = fl.zero_us;
    p95_latency_us = some fl.zero_us;
    p99_latency_us = some fl.zero_us;
  }
  channel_stats processed dropped (x ∷ xs) =
      let sorted = fl.sort (x ∷ xs) in
      let size = length sorted in
      record {
        processed = processed;
        dropped = dropped;
        avg_latency_us = fl.mean sorted size;
        p95_latency_us = percentile sorted (fl.share95 size);
        p99_latency_us = percentile sorted (fl.share99 size);
      }

pub record SessionInfo : Type 0 where
  pub robot_id : Bytes
  pub online : Bool
  pub last_seen_ms : ℕ

pub record HandlerStatus : Type 0 where
  pub path : Bytes
  pub priority : String
  pub description : String
  pub active : Bool
  pub total_processed : ℕ

unfoldable pub session_info : ℕ → Bytes × ℕ → SessionInfo
session_info now (id, last_seen) =
    let ago = sub64 now last_seen in
    record { robot_id = id; online = ltb ago 5000; last_seen_ms = ago }

abbrev pub priority_name : TopicPriority → String
priority_name critical = "CRITICAL"
priority_name normal = "NORMAL"
priority_name background = "BACKGROUND"

abbrev pub processed_of : Counters → TopicPriority → ℕ
processed_of c critical = c.critical_processed
processed_of c normal = c.normal_processed
processed_of c background = c.background_processed

unfoldable pub handler_status : Counters → Handler → HandlerStatus
handler_status c h = record {
  path = h.path;
  priority = priority_name h.priority;
  description = "";
  active = true;
  total_processed = processed_of c h.priority;
}

module _ {p : Platform} where
  unfoldable pub get_critical_stats : Floats p.Micros → Reactor p → ChannelStats p.Micros
  get_critical_stats fl r =
      channel_stats fl r.counters.critical_processed r.counters.critical_dropped
        r.latencies.critical_latencies

  unfoldable pub get_normal_stats : Floats p.Micros → Reactor p → ChannelStats p.Micros
  get_normal_stats fl r =
      channel_stats fl r.counters.normal_processed r.counters.normal_dropped
        r.latencies.normal_latencies

  unfoldable pub get_background_stats : Floats p.Micros → Reactor p → ChannelStats p.Micros
  get_background_stats fl r =
      channel_stats fl r.counters.background_processed r.counters.background_dropped
        r.latencies.background_latencies

  unfoldable pub get_sessions : ℕ → Reactor p → List SessionInfo
  get_sessions now r = map (session_info now) r.session_last_seen

  unfoldable pub get_handler_statuses : Reactor p → List HandlerStatus
  get_handler_statuses r = map (handler_status r.counters) r.handlers

  -- The total that is warned of, if it is not 0, and the lines of the slots.
  unfoldable pub print_stats : Reactor p → Option ℕ × List (ℕ × ℕ)
  print_stats r =
      let d = dropped_count r.critical_queue in
      (if ltb 0 d then some d else none, print_drop_stats r.background_cache)

  unfoldable pub reset_stats : Reactor p → Reactor p
  reset_stats r = record r {
    counters = record zero_counters {
      last_queue_dropped = dropped_count r.critical_queue;
      last_bg_dropped = get_total_dropped r.background_cache;
    };
    latencies = no_latencies;
  }
