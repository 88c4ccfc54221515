-- ===== src/PageCache.antt =====
-- page_cache_simulator.c: the three page replacement policies, a request at a time.
pub mod Frames
pub mod Lru
pub mod Clock
pub mod Arc
mod Tests
