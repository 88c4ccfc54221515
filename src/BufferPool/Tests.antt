-- ===== src/BufferPool/Tests.antt =====
-- The buffer pool of filesystem.c at a few calls.
use genspark_training.Base.{refl, some, bytes, arith}
use genspark_training.BufferPool.{
  Pool, pool_size, createbufferpool, take_buffer, acquire_buffer, release_buffer, fill_buffer,
}
use genspark_training.BufferPool.Run.{Reachable}

abbrev pool : Pool
pool = createbufferpool pool_size

used_then_released :
    Reachable (release_buffer (some 0) (fill_buffer 0 (bytes "a1") (take_buffer 0 pool)))
unfolding acquire_buffer createbufferpool fill_buffer
used_then_released =
    Reachable.released 0
      (Reachable.filled 0 (bytes "a1")
        (Reachable.acquired (some 0) (take_buffer 0 pool) (Reachable.created 9) refl))
      (omega arith)
