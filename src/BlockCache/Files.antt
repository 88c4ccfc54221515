-- ===== src/BlockCache/Files.antt =====
-- `files` of filesystem.c: what it prints, and that it keeps the invariant of the block cache.
use mathlib.Core.Path.{subst}
use genspark_training.Base.{
  ℕ, zero, suc, ◌≤◌, ◌≡◌, refl, ap, ◌∙◌, ◌⊎◌, inl, inr, false, Option, none, some, List, [], ◌∷◌,
  ◌++◌, Text, strncpy, All, length, Has-right, split_at, ◌==◌, arith,
}
use genspark_training.BufferPool.{
  Pool, pool_size, buffer_len, take_buffer, acquire_head, acquire_buffer, fill_buffer,
  createbufferpool,
}
use genspark_training.BufferPool.FreeList.{
  IsFreeList, range, length-range, createbufferpool-IsFreeList,
}
use genspark_training.BlockCache.{
  Cache, key_len, hash, find_from, find_node, cache_get, Shown, load_block, files, files_all,
  create_lru_cache,
}
use genspark_training.BlockCache.Contents.{filled-IsContent}
use genspark_training.BlockCache.Valid.{IsValid}
use genspark_training.BlockCache.Insert.{cacheput-IsValid}
use genspark_training.BlockCache.Hits.{lookup_cases, movetofront-IsValid}

-- What is printed is the text of the block: as much of it as a buffer holds on a hit.
abbrev pub Shows : Text → Shown → Type 0
Shows text shown = (shown ≡ Shown.cached (strncpy buffer_len text)) ⊎ (shown ≡ Shown.loaded text)

abbrev pub Served : (Text → Text) → Text → Cache → Type 0
Served disk key s =
    (shown : Shown) × (s' : Cache) × (l : List ℕ) × (free : List ℕ) × (files key (disk key) s
      ≡ some (shown, s'))
    × Shows (disk key) shown
    × IsValid disk s' l free 0

find_from-pool :
    (fuel : ℕ) (key : Text) (o : Option ℕ) (s : Cache) (pool : Pool)
    → find_from fuel key o (record s { pool = pool }) ≡ find_from fuel key o s
unfolding find_from
find_from-pool zero key o s pool = refl
find_from-pool (suc fuel) key none s pool = refl
find_from-pool (suc fuel) key (some a) s pool = rw (find_from-pool fuel key (s.next a) s pool) refl

find_node-pool :
    (key : Text) (s : Cache) (pool : Pool)
    → find_node key (record s { pool = pool }) ≡ find_node key s
unfolding find_node
find_node-pool key s pool = find_from-pool (suc (suc s.count)) key (s.nodes (hash key)) s pool

module _ (disk : Text → Text) (key : Text) (s : Cache) where
  hit :
      (a : ℕ) (xs ys free : List ℕ)
      → IsValid disk s (xs ++ a ∷ ys) free 0
      → find_node key s ≡ some (some a)
      → s.key a ≡ key
      → Served disk key s
  unfolding files cache_get
  hit a xs ys free v e k =
      let w = v.content.holds a (Has-right a xs (a ∷ ys) (inl refl)) in
      let (s', m, v', same) = movetofront-IsValid disk a s xs ys free v in
      (
        Shown.cached (s.pool.buffers w.at).data_text,
        s',
        a ∷ (xs ++ ys),
        free,
        rw (files, cache_get, e, m, same.buffers, w.pointer, same.pool) refl,
        inl (ap Shown.cached (w.loaded.2 ∙ ap (λ t. strncpy buffer_len (disk t)) k)),
        v',
      )

  acquired :
      (b : ℕ) (free : List ℕ)
      → IsFreeList s.pool (b ∷ free)
      → acquire_buffer s.pool ≡ some (some b, take_buffer b s.pool)
  unfolding acquire_buffer acquire_head
  acquired b free v =
      let some_free : (s.pool.freecount == 0) ≡ false = ground (arith, v.counted) in
      rw (some_free, v.linked.0) refl

  miss :
      (l free : List ℕ)
      → length key ≤ key_len
      → IsValid disk s l free 0
      → find_node key s ≡ some none
      → Served disk key s
  unfolding files cache_get load_block
  miss l [] short v e = absurd (omega (arith, v.room, v.total))
  miss l (b ∷ free) short v e =
      let (content, loaded, unused) =
        filled-IsContent disk s.key s.buffers s.nodes s.fresh s.pool l b free (disk key)
          v.content in
      let p = fill_buffer b (disk key) (take_buffer b s.pool) in
      let w : IsValid disk (record s { pool = p }) l free 1 = record {
        list = record {
          nexts = v.list.nexts;
          backs = v.list.backs;
          distinct = v.list.distinct;
          alive = v.list.alive;
          at_head = v.list.at_head;
          at_tail = v.list.at_tail;
        };
        content = content;
        counted = v.counted;
        room = v.room;
        total = omega (arith, v.total);
      } in
      let (s', l', free', f, v') =
        cacheput-IsValid disk key b (record s { pool = p }) free short (find_node-pool key s p ∙ e)
          l w (record { loaded = loaded; unused = unused }) in
      (
        Shown.loaded (disk key),
        s',
        l',
        free',
        rw (files, cache_get, e, load_block, acquired b free v.content.freelist, f) refl,
        inr refl,
        v',
      )

  -- In a valid cache `files` with a key of at most 31 bytes shows the text of the block: it follows no NULL or
  -- freed node, it finds a free buffer on a miss, and the cache stays valid.
  pub files-IsValid :
      (l free : List ℕ) → length key ≤ key_len → IsValid disk s l free 0 → Served disk key s
  files-IsValid l free short v = elim (lookup_cases disk key s l free v) [
    | inl e ↦ miss l free short v e
    | inr (a, e, h, k) ↦
        (let (xs, ys, at) = split_at a l h in
          hit a xs ys free (subst (λ m. IsValid disk s m free 0) at v) e k)
  ]

-- The cache at the start.
pub create_lru_cache-IsValid :
    (disk : Text → Text)
    → IsValid disk (create_lru_cache (createbufferpool pool_size)) [] (range 0 pool_size) 0
unfolding create_lru_cache
create_lru_cache-IsValid disk = record {
  list = record {
    nexts = tt;
    backs = tt;
    distinct = tt;
    alive = tt;
    at_head = refl;
    at_tail = refl;
  };
  content = record {
    below = λ a h. absurd h;
    buckets = λ i. tt;
    holds = λ a h. absurd h;
    apart = λ a c b h k. absurd h;
    freelist = createbufferpool-IsFreeList 9;
  };
  counted = refl;
  room = omega arith;
  total = length-range 0 pool_size;
}

abbrev pub AllShow : (Text → Text) → List Text → List Shown → Type 0
AllShow disk [] [] = Unit
AllShow disk [] (shown ∷ out) = ⊥
AllShow disk (key ∷ keys) [] = ⊥
AllShow disk (key ∷ keys) (shown ∷ out) = Shows (disk key) shown × AllShow disk keys out

files_all_lem :
    (disk : Text → Text) (keys : List Text) (s : Cache) (l free : List ℕ)
    → All (λ key. length key ≤ key_len) keys
    → IsValid disk s l free 0
    → (out : List Shown) × (s' : Cache) × (l' : List ℕ) × (free' : List ℕ) × (files_all disk keys s
        ≡ some (out, s'))
      × AllShow disk keys out
      × IsValid disk s' l' free' 0
unfolding files_all
files_all_lem disk [] s l free h v = ([], s, l, free, refl, tt, v)
files_all_lem disk (key ∷ keys) s l free h v =
    let (shown, s1, l1, free1, e, shows, v1) = files-IsValid disk key s l free h.0 v in
    let (out, s2, l2, free2, f, all, v2) = files_all_lem disk keys s1 l1 free1 h.1 v1 in
    (shown ∷ out, s2, l2, free2, rw (e, f) refl, (shows, all), v2)

-- From the new cache and the new pool on, where calls with the same key pass the same data (as a disk has it; in
-- `main` the fourth call differs), every call of `files` with a key of at most 31 bytes shows the text of the
-- block that it asks for: no call follows NULL or a freed node, none finds the pool exhausted, and
-- afterwards the links, the buckets, the buffers of the nodes and the free list are in order.
pub files_all-IsValid :
    (disk : Text → Text) (keys : List Text)
    → All (λ key. length key ≤ key_len) keys
    → (out : List Shown) × (s' : Cache) × (l : List ℕ) × (free : List ℕ) × (files_all disk keys
          (create_lru_cache (createbufferpool pool_size))
        ≡ some (out, s'))
      × AllShow disk keys out
      × IsValid disk s' l free 0
files_all-IsValid disk keys h =
    files_all_lem disk keys (create_lru_cache (createbufferpool pool_size)) [] (range 0 pool_size) h
      (create_lru_cache-IsValid disk)
