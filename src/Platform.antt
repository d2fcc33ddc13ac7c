-- ===== src/Platform.antt =====
-- What the reactor takes from outside the repository: the FlatBuffers verifier, the kernel's
-- eventfd and the floating-point microseconds between two clock readings.
use flowkernel.Base.{ℕ, ◌≡◌, Bool, true, false}
use flowkernel.Hash.{Bytes}

-- The laws are what eventfd(2) documents of a counter opened with EFD_NONBLOCK: after a write it is
-- readable (a write that would overflow fails, on a counter that is not 0), and a read resets it.
pub record Platform : Type 1 where
  pub verify : Bytes → Bool  -- `fbs::VerifyRobotMessageBuffer`
  pub EventFd : Type 0
  pub fd_new : EventFd
  pub fd_write : EventFd → EventFd  -- `::write` of the value 1
  pub fd_read : EventFd → EventFd  -- `::read`
  pub readable : EventFd → Bool  -- POLLIN
  pub readable-fd_write : (e : EventFd) → readable (fd_write e) ≡ true
  pub readable-fd_read : (e : EventFd) → readable (fd_read e) ≡ false
  pub Micros : Type 0  -- `double`, in microseconds
  pub micros_between : ℕ → ℕ → Micros  -- from the second time to the first
