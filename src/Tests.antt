-- ===== src/Tests.antt =====
-- Concrete runs: each theorem on values of the size that the program meets.
mod Data
mod Sorting
mod Queue
mod Threads
mod Slots
mod Frames
mod Loop
mod Wire
mod Boot
mod Program
mod Live
mod Panels
mod Yaml
