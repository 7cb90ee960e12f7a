-- ===== src/LockFreeQueue.antt =====
-- include/qc/thread/lockfreequeue.h: the Michael-Scott queue, one atomic access a step.
pub mod Machine
pub mod Invariant
pub mod Moves
pub mod Preserve
pub mod Contents
pub mod History
pub mod Deletion
pub mod Rank
pub mod Progress
pub mod Accounting
pub mod Destruction
pub mod Reuse
pub mod Alone
pub mod Calls
mod Tests
mod ReuseTests
