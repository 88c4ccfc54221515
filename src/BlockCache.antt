-- ===== src/BlockCache.antt =====
-- The block cache of filesystem.c: nodes on a heap, linked into a list by recency and, by the same field
-- `next`, into the chains of a hash table. The heap is given by a family for each field. `malloc` gives
-- a new address each time; a read or write through NULL or at a freed node is `none`.
pub mod Links
pub mod Lookup
pub mod Recency
pub mod Contents
pub mod Replace
pub mod Valid
pub mod Insert
pub mod Hits
pub mod Files
pub mod Lost
mod Tests
use genspark_training.Base.{
  ℕ, zero, suc, ◌+◌, ◌-◌, ◌*◌, ◌%◌, ◌^◌, Bool, true, false, Option, none, some, List, [], ◌∷◌, Text,
  strncpy, text_eq, update, ltb, leb, ◌==◌, if◌then◌else◌, ◌>>=◌,
}
use genspark_training.BufferPool.{Pool, acquire_buffer, release_buffer, fill_buffer}

abbrev pub cache_size : ℕ
cache_size = 5

-- `KEY_SIZE - 1`
abbrev pub key_len : ℕ
key_len = 31

-- The nodes, `lru_cache_t` and the pool. An address is live from `malloc` to `free`.
pub record Cache : Type 0 where
  pub live : ℕ → Bool
  pub key : ℕ → Text
  pub buffers : ℕ → Option ℕ
  pub prev : ℕ → Option ℕ
  pub next : ℕ → Option ℕ
  pub fresh : ℕ
  pub head : Option ℕ
  pub tail : Option ℕ
  pub nodes : ℕ → Option ℕ
  pub count : ℕ
  pub pool : Pool

-- `create_lru_cache`, with a pool.
unfoldable pub create_lru_cache : Pool → Cache
create_lru_cache pool = record {
  live = λ a. false;
  key = λ a. [];
  buffers = λ a. none;
  prev = λ a. none;
  next = λ a. none;
  fresh = 0;
  head = none;
  tail = none;
  nodes = λ i. none;
  count = 0;
  pool = pool;
}

-- A signed `char`, as it is added to an `unsigned int`.
abbrev pub char_value : ℕ → ℕ
char_value b = if ltb b 128 then b else b + (2 ^ 32 - 256)

unfoldable pub hash_from : ℕ → Text → ℕ
hash_from h [] = h
hash_from h (b ∷ key) = hash_from ((h * 31 % 2 ^ 32 + char_value b) % 2 ^ 32) key

unfoldable pub hash : Text → ℕ
unfolding hash_from
hash key = hash_from 0 key % cache_size

-- `p == q` for pointers.
abbrev pub is_at : Option ℕ → ℕ → Bool
is_at none a = false
is_at (some b) a = b == a

abbrev pub is_null : Option ℕ → Bool
is_null none = true
is_null (some a) = false

unfoldable pub set_next : ℕ → Option ℕ → Cache → Option Cache
set_next a q s = if s.live a then some (record s { next = update s.next a q }) else none

unfoldable pub set_prev : ℕ → Option ℕ → Cache → Option Cache
set_prev a q s = if s.live a then some (record s { prev = update s.prev a q }) else none

-- `if (p) …`
unfoldable pub if_ptr : Option ℕ → (ℕ → Cache → Option Cache) → Cache → Option Cache
if_ptr none f s = some s
if_ptr (some a) f s = f a s

-- The first part of `movetofront`: the neighbours of the node are linked to one another.
unfoldable pub detach : ℕ → Cache → Option Cache
unfolding if_ptr set_next set_prev
detach a s =
    if s.live a
    then (do
      s ← if_ptr (s.prev a) (λ p s. set_next p (s.next a) s) s
      s ← if_ptr (s.next a) (λ q s. set_prev q (s.prev a) s) s
      some (if is_at s.tail a then record s { tail = s.prev a } else s))
    else none

-- `addtofront`, and the second part of `movetofront`, which has the same statements.
unfoldable pub addtofront : ℕ → Cache → Option Cache
unfolding if_ptr set_next set_prev
addtofront a s = do
  s ← set_prev a none s
  s ← set_next a s.head s
  s ← if_ptr s.head (λ h s. set_prev h (some a) s) s
  some (record s { head = some a; tail = if is_null s.tail then some a else s.tail })

unfoldable pub movetofront : ℕ → Cache → Option Cache
movetofront a s = if is_at s.head a then some s else (do s ← detach a s; addtofront a s)

-- `removelru` with a tail: the rest of the function.
unfoldable pub remove_tail : ℕ → Cache → Option Cache
unfolding set_next
remove_tail lru s =
    if s.live lru
    then elim (s.prev lru) [
      | some p ↦ (do s ← set_next p none s; some (record s { tail = s.prev lru }))
      | none ↦ some (record s { head = none; tail = s.prev lru })
    ]
    else none

-- The loops of `cache_get` and `cacheput` from `current` on; the inner `none` is the end of the chain. The
-- fuel bounds the nodes that are visited.
unfoldable pub find_from : (fuel : ℕ) → Text → Option ℕ → Cache → Option (Option ℕ)
find_from zero key current s = none
find_from (suc fuel) key none s = some none
find_from (suc fuel) key (some a) s =
    let rest = find_from fuel key (s.next a) s in
    if s.live a then (if text_eq (s.key a) key then some (some a) else rest) else none

-- No more nodes than are in the cache.
unfoldable pub find_node : Text → Cache → Option (Option ℕ)
find_node key s = find_from (suc (suc s.count)) key (s.nodes (hash key)) s

-- The buffer on a hit, NULL on a miss.
unfoldable pub cache_get : Text → Cache → Option (Option ℕ × Cache)
cache_get key s = elim (find_node key s) [
  | none ↦ none
  | some found ↦ elim found [
    | none ↦ some (none, s)
    | some a ↦ (do s ← movetofront a s; some (s.buffers a, s))
  ]
]

-- What `cacheput` does with the node that it evicts.
unfoldable pub drop_node : ℕ → Cache → Cache
drop_node lru s = record s {
  nodes =
      if is_at (s.nodes (hash (s.key lru))) lru
      then update s.nodes (hash (s.key lru)) (s.next lru)
      else s.nodes;
  pool = release_buffer (s.buffers lru) s.pool;
  live = update s.live lru false;
  count = s.count - 1;
}

-- `removelru`, and what `cacheput` does with its result.
unfoldable pub evict_tail : Option ℕ → Cache → Option Cache
evict_tail none s = some s
evict_tail (some lru) s = do s ← remove_tail lru s; some (drop_node lru s)

unfoldable pub evict : Cache → Option Cache
unfolding evict_tail
evict s = evict_tail s.tail s

-- The new node, at the front of the chain of its bucket.
unfoldable pub new_node : Text → ℕ → Cache → Cache
new_node key buffer s = record s {
  live = update s.live s.fresh true;
  key = update s.key s.fresh (strncpy key_len key);
  buffers = update s.buffers s.fresh (some buffer);
  prev = update s.prev s.fresh none;
  next = update s.next s.fresh (s.nodes (hash key));
  fresh = s.fresh + 1;
  nodes = update s.nodes (hash key) (some s.fresh);
}

unfoldable pub insert_node : Text → ℕ → Cache → Option Cache
insert_node key buffer s = do
  s' ← addtofront s.fresh (new_node key buffer s)
  some (record s' { count = s'.count + 1 })

unfoldable pub cacheput : Text → ℕ → Cache → Option Cache
cacheput key buffer s = elim (find_node key s) [
  | none ↦ none
  | some found ↦ elim found [
    | some a ↦ movetofront a s
    | none ↦ (do s ← if leb cache_size s.count then evict s else some s; insert_node key buffer s)
  ]
]

-- What `files` prints: the text of the block, or that the pool is exhausted.
pub data Shown : Type 0 where
  cached loaded : Text → Shown
  exhausted : Shown

-- `files` on a miss.
unfoldable pub load_block : Text → Text → Cache → Option (Shown × Cache)
load_block key text s = elim (acquire_buffer s.pool) [
  | none ↦ none
  | some (o, pool) ↦ elim o [
    | none ↦ some (Shown.exhausted, record s { pool = pool })
    | some b ↦ (do
      s ← cacheput key b (record s { pool = fill_buffer b text pool })
      some (Shown.loaded text, s))
  ]
]

unfoldable pub files : Text → Text → Cache → Option (Shown × Cache)
files key text s = elim (cache_get key s) [
  | none ↦ none
  | some (o, s') ↦ elim o [
    | none ↦ load_block key text s'
    | some b ↦ some (Shown.cached (s'.pool.buffers b).data_text, s')
  ]
]

-- The calls of `main`, where the data of a call is what the disk has for the key.
unfoldable pub files_all : (Text → Text) → List Text → Cache → Option (List Shown × Cache)
files_all disk [] s = some ([], s)
files_all disk (key ∷ keys) s = do
  (shown, s) ← files key (disk key) s
  (rest, s) ← files_all disk keys s
  some (shown ∷ rest, s)
