-- ===== src/BlockCache/Contents.antt =====
-- What the nodes of the block cache of filesystem.c hold: buffers of the pool, each node another one, with
-- the text of its block.
use mathlib.Core.Path.{subst}
use genspark_training.Base.{
  ℕ, ◌<◌, ◌≡◌, refl, ◌≢◌, true, false, Option, none, some, List, ◌∷◌, Text, strncpy, Has, ◌==◌,
  arith,
}
use genspark_training.BufferPool.{Pool, buffer_len, take_buffer, fill_buffer}
use genspark_training.BufferPool.FreeList.{IsFreeList, take_buffer-IsFreeList}
use genspark_training.BufferPool.Run.{fill_buffer-IsFreeList}
use genspark_training.BlockCache.{hash}

-- A bucket of the hash table is empty or leads to a node of the list with a key of that bucket.
abbrev pub InBucket : (ℕ → Text) → List ℕ → ℕ → Option ℕ → Type 0
InBucket key l i none = Unit
InBucket key l i (some b) = Has b l × (hash (key b) ≡ i)

-- The buffer is in use and holds the text.
abbrev pub Loaded : Pool → ℕ → Text → Type 0
Loaded pool b text =
    (b < pool.totalbuffers)
    × ((pool.buffers b).is_free ≡ false)
    × ((pool.buffers b).data_text ≡ strncpy buffer_len text)

pub record Holds (disk : Text → Text) (key : ℕ → Text) (buffers : ℕ → Option ℕ) (pool : Pool)
    (a : ℕ) : Type 0 where
  pub at : ℕ
  pub pointer : buffers a ≡ some at
  pub loaded : Loaded pool at (disk (key a))

-- The nodes, and the list of free buffers.
pub record IsContent (disk : Text → Text) (key : ℕ → Text) (buffers nodes : ℕ → Option ℕ)
    (fresh : ℕ) (pool : Pool) (l free : List ℕ) : Type 0 where
  pub below : (a : ℕ) → Has a l → a < fresh
  pub buckets : (i : ℕ) → InBucket key l i (nodes i)
  pub holds : (a : ℕ) → Has a l → Holds disk key buffers pool a
  pub apart : (a c b : ℕ) → Has a l → Has c l → buffers a ≡ some b → buffers c ≡ some b → a ≡ c
  pub freelist : IsFreeList pool free

module _ (disk : Text → Text) (key : ℕ → Text) (buffers nodes : ℕ → Option ℕ) (fresh : ℕ)
    (pool : Pool) (l free : List ℕ) (v : IsContent disk key buffers nodes fresh pool l free) where
  bucket_reordered :
      (l' : List ℕ) (i : ℕ) (o : Option ℕ)
      → ((a : ℕ) → Has a l → Has a l')
      → InBucket key l i o
      → InBucket key l' i o
  bucket_reordered l' i none h k = tt
  bucket_reordered l' i (some b) h k = (h b k.0, k.1)

  pub reordered-IsContent :
      (l' : List ℕ)
      → ((a : ℕ) → Has a l → Has a l')
      → ((a : ℕ) → Has a l' → Has a l)
      → IsContent disk key buffers nodes fresh pool l' free
  reordered-IsContent l' h k = record {
    below = λ a m. v.below a (k a m);
    buckets = λ i. bucket_reordered l' i (nodes i) h (v.buckets i);
    holds = λ a m. v.holds a (k a m);
    apart = λ a c b m n. v.apart a c b (k a m) (k c n);
    freelist = v.freelist;
  }

-- `files` on a miss takes a buffer and fills it.
Loaded-take :
    (pool : Pool) (b c : ℕ) (text new : Text)
    → (pool.buffers b).is_free ≡ true
    → Loaded pool c text
    → Loaded (fill_buffer b new (take_buffer b pool)) c text
unfolding fill_buffer
Loaded-take pool b c text new e h =
    let other : (b == c) ≡ false = ground (arith, h.1, e) in (h.0, rw other h.1, rw other h.2)

Loaded-self :
    (pool : Pool) (b : ℕ) (text : Text)
    → b < pool.totalbuffers
    → Loaded (fill_buffer b text (take_buffer b pool)) b text
unfolding fill_buffer
Loaded-self pool b text h =
    let self : (b == b) ≡ true = ground arith in (h, rw self refl, rw self refl)

pub filled-IsContent :
    (disk : Text → Text) (key : ℕ → Text) (buffers nodes : ℕ → Option ℕ) (fresh : ℕ) (pool : Pool)
    (l : List ℕ) (b : ℕ) (free : List ℕ) (text : Text)
    → IsContent disk key buffers nodes fresh pool l (b ∷ free)
    → IsContent disk key buffers nodes fresh (fill_buffer b text (take_buffer b pool)) l free
      × Loaded (fill_buffer b text (take_buffer b pool)) b text
      × ((a : ℕ) → Has a l → buffers a ≢ some b)
filled-IsContent disk key buffers nodes fresh pool l b free text v = (
  record {
    below = v.below;
    buckets = v.buckets;
    holds = (λ a m.
        let w = v.holds a m in
        record {
          at = w.at;
          pointer = w.pointer;
          loaded = Loaded-take pool b w.at (disk (key a)) text v.freelist.sound.0.1 w.loaded;
        });
    apart = v.apart;
    freelist =
        fill_buffer-IsFreeList (take_buffer b pool) b text free
          (take_buffer-IsFreeList pool b free v.freelist);
  },
  Loaded-self pool b text v.freelist.sound.0.0,
  (λ a m e.
      let w = v.holds a m in
      let same : w.at ≡ b = ground (arith, w.pointer, e) in
      let used : (pool.buffers b).is_free ≡ false =
        subst (λ c. (pool.buffers c).is_free ≡ false) same w.loaded.1 in
      ground (arith, used, v.freelist.sound.0.1)),
)
