-- ===== src/Backpressure.antt =====
-- backpressure/: the decaying debt, the CoDel queue and the prioritised semaphore.
pub mod Decay
pub mod Waiter
pub mod Codel
pub mod Semaphore
pub mod Callers
