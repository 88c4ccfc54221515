-- ===== src/Mvcc.antt =====
-- mvcc-in-memory-key-value.c: a key-value store with snapshots, write locks and deadlock detection.
pub mod Deadlock
pub mod Chain
pub mod State
pub mod Locks
pub mod Ops
pub mod Buffer
pub mod Invariant
pub mod Run
pub mod Snapshot
pub mod Overlap
pub mod Reads
pub mod Release
mod Tests
