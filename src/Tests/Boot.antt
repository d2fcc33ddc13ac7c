-- ===== src/Tests/Boot.antt =====
-- A reactor from its constructor on, and its statistics.
use flowkernel.Base.{ℕ, ◌≡◌, List, [], ◌∷◌, some, true, Bool, arith}
use flowkernel.Hash.{Bytes, fnv1a_hash}
use flowkernel.Cache.{get_slot_fast}
use flowkernel.Reactor.{TopicPriority, critical, background}
use flowkernel.Reactor.Run.{start}
use flowkernel.Reactor.Stats.{channel_stats}
use flowkernel.Reactor.Slots.{with_slot, wants_slot, start_slots}
use flowkernel.Reactor.Percentiles.{percentiles_ordered}
use flowkernel.Tests.Data.{robot, estop_path, video_path}
use flowkernel.Tests.Sorting.{whole_micros}

abbrev pub accepted : Bytes → Bool
accepted path = true

abbrev pub topics : List (Bytes × TopicPriority)
topics = (estop_path, critical) ∷ (video_path, background) ∷ []

start_slots_example :
    get_slot_fast (start accepted accepted [] true robot).2.background_cache (fnv1a_hash video_path)
    ≡ with_slot
        (wants_slot (fnv1a_hash video_path) robot.handlers)
        (get_slot_fast robot.background_cache (fnv1a_hash video_path))
start_slots_example = start_slots accepted accepted [] true robot (fnv1a_hash video_path)

abbrev micros : List ℕ
micros = 9 ∷ 4 ∷ 30 ∷ []

percentiles_ordered_example :
    let stats = channel_stats whole_micros 4 0 (12 ∷ micros) in
    (a : ℕ) × (b : ℕ) × (stats.p95_latency_us ≡ some a)
    × (stats.p99_latency_us ≡ some b)
    × whole_micros.le a b
percentiles_ordered_example = percentiles_ordered whole_micros 4 0 12 micros (omega arith)
