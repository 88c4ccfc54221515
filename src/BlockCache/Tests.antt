-- ===== src/BlockCache/Tests.antt =====
-- The block cache of filesystem.c at a few keys.
use genspark_training.Base.{
  ℕ, ◌≤◌, ◌≡◌, refl, none, some, Option, List, [], ◌∷◌, Text, bytes, text_eq, arith, All, length,
}
use genspark_training.BufferPool.{
  pool_size, createbufferpool, acquire_buffer, acquire_head, release_buffer, fill_buffer,
}
use genspark_training.BlockCache.{
  Cache, key_len, create_lru_cache, hash, hash_from, set_next, set_prev, if_ptr, detach, addtofront,
  movetofront, remove_tail, find_from, find_node, cache_get, drop_node, evict_tail, evict, new_node,
  insert_node, cacheput, Shown, load_block, files, files_all,
}
use genspark_training.BlockCache.Lookup.{IsList}
use genspark_training.BlockCache.Lost.{Shadowed, cache_get_twice}
use genspark_training.BlockCache.Valid.{IsValid}
use genspark_training.BlockCache.Files.{AllShow, files_all-IsValid}

abbrev disk : Text → Text
disk key = key

abbrev empty : Cache
empty = create_lru_cache (createbufferpool pool_size)

abbrev shown_of : Option (List Shown × Cache) → Option (List Shown)
shown_of none = none
shown_of (some (out, s)) = some out

abbrev cache_of : Option (List Shown × Cache) → Cache
cache_of none = empty
cache_of (some (out, s)) = s

abbrev program : List Text → Option (List Shown × Cache)
unfolding create_lru_cache createbufferpool hash hash_from set_next set_prev if_ptr detach
    addtofront movetofront remove_tail find_from find_node cache_get drop_node evict_tail evict
    new_node insert_node cacheput load_block files files_all acquire_buffer acquire_head
    release_buffer fill_buffer text_eq
program keys = files_all disk keys empty

abbrev keys : List Text
keys =
    bytes "a"
    ∷ bytes "b"
    ∷ bytes "a"
    ∷ bytes "c"
    ∷ bytes "d"
    ∷ bytes "e"
    ∷ bytes "g"
    ∷ bytes "b"
    ∷ bytes "e"
    ∷ []

-- The sixth key evicts `b`.
program-keys :
    shown_of (program keys)
    ≡ some (
        Shown.loaded (bytes "a")
        ∷ Shown.loaded (bytes "b")
        ∷ Shown.cached (bytes "a")
        ∷ Shown.loaded (bytes "c")
        ∷ Shown.loaded (bytes "d")
        ∷ Shown.loaded (bytes "e")
        ∷ Shown.loaded (bytes "g")
        ∷ Shown.loaded (bytes "b")
        ∷ Shown.cached (bytes "e")
        ∷ [])
unfolding program
program-keys = refl

abbrev Short : List Text → Type 0
Short keys = All (λ key. length key ≤ key_len) keys

keys-Short : Short keys
keys-Short = (
  omega arith,
  (
    omega arith,
    (
      omega arith,
      (omega arith, (omega arith, (omega arith, (omega arith, (omega arith, (omega arith, tt)))))),
    ),
  ),
)

files_all-IsValid_example :
    (out : List Shown) × (s' : Cache) × (l : List ℕ) × (free : List ℕ) × (files_all disk keys
        (create_lru_cache (createbufferpool pool_size))
      ≡ some (out, s'))
    × AllShow disk keys out
    × IsValid disk s' l free 0
files_all-IsValid_example = files_all-IsValid disk keys keys-Short

-- `a` and `f` are in the same bucket.
abbrev collided : Cache
unfolding program
collided = cache_of (program (bytes "a" ∷ bytes "f" ∷ []))

collided-Shadowed : Shadowed collided (bytes "a") 1 0 [] [] []
unfolding collided
collided-Shadowed = record {
  list = record {
    nexts = (refl, (refl, tt));
    backs = (refl, (refl, tt));
    distinct = (((λ e. omega (arith, e)), tt), (tt, tt));
    alive = (refl, (refl, tt));
    at_head = refl;
    at_tail = refl;
  };
  counted = refl;
  bucket = refl;
  has_key = refl;
  before = (refl, tt);
  behind = tt;
}

cache_get_twice_example :
    (s' : Cache) × (cache_get (bytes "a") collided ≡ some (collided.buffers 0, s'))
    × IsList s' (0 ∷ 1 ∷ [])
    × (cache_get (bytes "a") s' ≡ some (none, s'))
cache_get_twice_example = cache_get_twice collided (bytes "a") 1 0 [] [] [] collided-Shadowed
