-- ===== src/BufferPool.antt =====
-- The buffer pool of filesystem.c: buffers linked into a free list. A pointer to a buffer is its number;
-- `malloc` is taken to succeed.
pub mod FreeList
pub mod Run
mod Tests
use genspark_training.Base.{
  ℕ, zero, suc, ◌+◌, ◌-◌, Bool, true, false, Option, none, some, List, [], ◌∷◌, Text, update,
  strncpy, ◌==◌, if◌then◌else◌,
}

-- `POOL_SIZE`, and `BUFFER_SIZE - 1`.
abbrev pub pool_size : ℕ
pool_size = 10

abbrev pub buffer_len : ℕ
buffer_len = 4095

pub record Buffer : Type 0 where
  pub data_text : Text
  pub is_free : Bool
  pub next : Option ℕ

pub record Pool : Type 0 where
  pub buffers : ℕ → Buffer
  pub freelist : Option ℕ
  pub totalbuffers : ℕ
  pub freecount : ℕ

unfoldable pub createbufferpool : ℕ → Pool
createbufferpool poolsize = record {
  buffers = λ i. record {
    data_text = [];
    is_free = true;
    next = if i == poolsize - 1 then none else some (i + 1);
  };
  freelist = some 0;
  totalbuffers = poolsize;
  freecount = poolsize;
}

-- The buffer at the head of the list leaves it.
abbrev pub take_buffer : ℕ → Pool → Pool
take_buffer b pool = record pool {
  buffers = update pool.buffers b (record (pool.buffers b) { is_free = false; next = none });
  freelist = (pool.buffers b).next;
  freecount = pool.freecount - 1;
}

-- What `acquire_buffer` does with the head of the list; `none`: NULL is dereferenced.
unfoldable pub acquire_head : Option ℕ → Pool → Option (Option ℕ × Pool)
acquire_head none pool = none
acquire_head (some b) pool = some (some b, take_buffer b pool)

-- The inner `none` is NULL: the pool is exhausted.
unfoldable pub acquire_buffer : Pool → Option (Option ℕ × Pool)
unfolding acquire_head
acquire_buffer pool =
    if pool.freecount == 0 then some (none, pool) else acquire_head pool.freelist pool

unfoldable pub release_buffer : Option ℕ → Pool → Pool
release_buffer none pool = pool
release_buffer (some b) pool = if (pool.buffers b).is_free then pool else record pool {
  buffers = update pool.buffers b (record { data_text = []; is_free = true; next = pool.freelist });
  freelist = some b;
  freecount = pool.freecount + 1;
}

-- What `files` writes into a buffer.
unfoldable pub fill_buffer : ℕ → Text → Pool → Pool
fill_buffer b text pool = record pool {
  buffers = update pool.buffers b (record (pool.buffers b) { data_text = strncpy buffer_len text });
}
