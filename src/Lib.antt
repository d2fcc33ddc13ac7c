-- ===== src/Lib.antt =====
-- FlowKernel routes samples that arrive over Zenoh to handlers, by the priority of their topic. This
-- library models its C++ program: the core, the loader of its configuration, the main file and the
-- terminal interface.
--
-- Receiving threads call `zenoh_data_callback` (src/reactor.cpp), which drops empty samples and those
-- that the FlatBuffers verifier refuses, notes when the sending robot was last seen, and passes the
-- frame on: a CRITICAL or NORMAL one to one bounded queue (`MPSCQueue`,
-- include/robot_dataflow/mpsc_queue.hpp), a BACKGROUND one to the slot of its topic
-- (`LatestSampleCache`, include/robot_dataflow/latest_cache.hpp), where it overwrites the frame that
-- waits. A CRITICAL frame that was queued also writes an eventfd. The reactor's thread
-- (`DataFlowReactor::run`, src/reactor.cpp) repeats `handle_events`: it accounts for dropped frames,
-- empties the queue and then the slots into the handlers, and waits in io_uring for the eventfd or 50
-- milliseconds. When a robot's liveliness token goes, `zenoh_liveliness_callback` publishes an E-Stop.
-- `main` (src/main.cpp) loads the configuration, constructs the reactor, registers a handler for each
-- entry and calls `run`, on a second thread if the terminal interface (src/tui/tui_app.cpp) has the
-- main one.
--
-- The files, and the code each models:
-- - Hash.antt: `fnv1a_hash` (include/robot_dataflow/common.hpp).
-- - Mpsc.antt: `MPSCQueue` with `push`, `pop`, `dropped_count`, the destructor and the `static_assert`.
--   Mpsc/Fifo.antt is the FIFO it implements, Mpsc/Represents.antt the relation between both.
--   Mpsc/Threads.antt has `push` and `pop` once more, one access at a time, for interleavings.
-- - Cache.antt: `LatestSampleSlot` and `LatestSampleCache` with all their methods.
-- - Platform.antt: what comes from outside, with its documented laws.
-- - Reactor.antt: the state of `DataFlowReactor` (include/reactor.hpp), `register_handler`,
--   `record_latency`, `stop`, `arm_poll_eventfd`. Under it: Reactor/Callback.antt is
--   `zenoh_data_callback`, Reactor/Events.antt `handle_events`, Reactor/Stats.antt the getters,
--   `print_stats` and `reset_stats`, Reactor/Run.antt `run`, Reactor/Setup.antt the constructor and the
--   destructor. Reactor/Live.antt has `handle_events` once more, one round of its loops at a time, and
--   Reactor/Alone.antt relates both. Reactor/ResetRace.antt has the first block of `handle_events`
--   (src/reactor.cpp:458-471) one access at a time, among calls of `reset_stats`.
-- - Messages.antt: the messages (fbs/robot_state.fbs); Liveliness.antt: `zenoh_liveliness_callback`.
-- - Config.antt: `Config` with its defaults (include/config/config.hpp); Config/Parse.antt:
--   `Config::load` and the parse functions (src/config.cpp); Config/Sections.antt: what a file says,
--   section by section.
-- - Main.antt: the handlers' callbacks, their registration, and the reactor's thread among calls of
--   `stop` (src/main.cpp); Main/Launch.antt: `main` up to the call of `run`, an exception that nothing
--   catches included.
-- - Tui.antt: the state of `TUIApp` (include/tui/tui_app.hpp), its refresh and its keys;
--   Tui/Panels.antt: its panels and their texts (src/tui/tui_app.cpp).
-- - Base.antt: shared names, lists with native indices, 64-bit words, association lists.
-- - Tests.antt: runs on concrete values.
--
-- State is passed explicitly: a method that changes the object returns the changed record. A method
-- that holds a lock from its first access to its last is one step. `Reactor.Run.history` runs any
-- sequence of samples, cycles, stops and resets, where a whole cycle is one step;
-- `Reactor.Live.live` lets them come between any two rounds of a cycle's loops as well. There the first
-- block of `handle_events`, the counting after each of its loops and `reset_stats` are one step each,
-- though they hold no lock. Samples within the first block are in Reactor/OneLook.antt, resets within it
-- in Reactor/ResetRace.antt and Reactor/ResetWithin.antt; resets within the counting after the loops,
-- and a reset whose stores are spread over the block, are not modelled. Unsigned
-- 64-bit arithmetic wraps (`add64`, `sub64`, `mul64`). A read out of range and a read of a slot
-- without an object are values (`bad_index`, `bad_slot`, `fault`), so that their absence is proved.
--
-- Fuel: the loop over the queue in `handle_events` has 512 rounds, one more than the 511 frames that
-- the ring of 512 slots holds; the loop of the queue's destructor has as many rounds as the ring has
-- slots. Both are shown to end before the fuel does.
--
-- Not modelled: the inside of Zenoh, io_uring, eventfd, FlatBuffers, yaml-cpp and FTXUI and
-- floating-point arithmetic, which are parameters; the memory pool (it is reset and never allocated
-- from), log lines and the set-up of logging; the Rust port (flowkernel-rs/), the generated Python code
-- (RobotDataFlow/), tests and benchmarks.
pub mod Base
pub mod Hash
pub mod Mpsc
pub mod Cache
pub mod Platform
pub mod Reactor
pub mod Messages
pub mod Liveliness
pub mod Config
pub mod Main
pub mod Tui
mod Tests
