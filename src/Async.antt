-- ===== src/Async.antt =====
-- The asynchronous parts of the core: the locked vector (LockingVector).
pub mod LockingVector
