-- ===== src/Tests/Slots.antt =====
-- A slot, the cache and the windows on concrete values.
use flowkernel.Base.{ℕ, ◌≡◌, List, [], ◌∷◌}
use flowkernel.Cache.{new_slot}
use flowkernel.Cache.Slot.{SlotOp, puts, takes, slot_run, register_run, slot_run_register}
use flowkernel.Reactor.{TopicPriority, critical, normal, no_latencies}
use flowkernel.Reactor.Window.{window_of, record_all, window_lem}

-- Two frames before the reader comes, then none.
abbrev slot_ops : List SlotOp
slot_ops = puts 5 (1 ∷ []) 10 ∷ puts 5 (2 ∷ []) 20 ∷ takes ∷ takes ∷ []

slot_run_register_example :
    (slot_run new_slot slot_ops).0
    ≡ (record { handler_hash = 5; payload = 2 ∷ []; put_time = 20 }) ∷ []
unfolding register_run
slot_run_register_example = slot_run_register slot_ops new_slot

abbrev latencies : List (TopicPriority × ℕ)
latencies = (critical, 10) ∷ (normal, 20) ∷ (critical, 30) ∷ []

window_lem_example : window_of critical (record_all latencies no_latencies) ≡ 10 ∷ 30 ∷ []
window_lem_example = window_lem latencies critical
