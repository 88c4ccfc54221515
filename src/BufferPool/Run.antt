-- ===== src/BufferPool/Run.antt =====
-- Every sequence of calls on the buffer pool of filesystem.c.
use genspark_training.Base.{
  ℕ, suc, ◌<◌, ◌≡◌, sym, ◌∙◌, inl, inr, true, Option, some, List, [], ◌∷◌, Text, All, update,
  strncpy, arith, Bool-cases,
}
use mathlib.Core.Path.{subst}
use genspark_training.BufferPool.{
  Buffer, Pool, buffer_len, createbufferpool, acquire_buffer, release_buffer, fill_buffer,
}
use genspark_training.BufferPool.FreeList.{
  IsLinked, IsFreeList, createbufferpool-IsFreeList, acquire_buffer-IsFreeList,
  release_buffer-IsFreeList,
}

-- The pools that calls lead to, from a new one of at least one buffer.
pub data Reachable : Pool → Type 0 where
  created : (n : ℕ) → Reachable (createbufferpool (suc n))
  acquired :
      {pool : Pool} (o : Option ℕ) (pool' : Pool)
      → Reachable pool
      → acquire_buffer pool ≡ some (o, pool')
      → Reachable pool'
  released :
      {pool : Pool} (b : ℕ)
      → Reachable pool
      → b < pool.totalbuffers
      → Reachable (release_buffer (some b) pool)
  filled :
      {pool : Pool} (b : ℕ) (text : Text) → Reachable pool → Reachable (fill_buffer b text pool)

IsLinked-next :
    (f g : ℕ → Buffer) (start : Option ℕ) (free : List ℕ)
    → ((c : ℕ) → (f c).next ≡ (g c).next)
    → IsLinked f start free
    → IsLinked g start free
IsLinked-next f g start [] h l = l
IsLinked-next f g start (c ∷ free) h l =
    (l.0, subst (λ s. IsLinked g s free) (h c) (IsLinked-next f g (f c).next free h l.1))

update-next :
    (buffers : ℕ → Buffer) (b c : ℕ) (text : Text)
    → (buffers c).next ≡ (update buffers b (record (buffers b) { data_text = text }) c).next
update-next buffers b c text = ground arith

update-is_free :
    (buffers : ℕ → Buffer) (b c : ℕ) (text : Text)
    → (update buffers b (record (buffers b) { data_text = text }) c).is_free ≡ (buffers c).is_free
update-is_free buffers b c text = ground arith

fill_buffer_sound :
    (buffers : ℕ → Buffer) (n b : ℕ) (text : Text) (free : List ℕ)
    → All (λ c. (c < n) × ((buffers c).is_free ≡ true)) free
    → All
        (λ c.
          (c < n) × ((update buffers b (record (buffers b) { data_text = text }) c).is_free ≡ true))
        free
fill_buffer_sound buffers n b text [] h = tt
fill_buffer_sound buffers n b text (c ∷ free) h =
    ((h.0.0, update-is_free buffers b c text ∙ h.0.1), fill_buffer_sound buffers n b text free h.1)

pub fill_buffer-IsFreeList :
    (pool : Pool) (b : ℕ) (text : Text) (free : List ℕ)
    → IsFreeList pool free
    → IsFreeList (fill_buffer b text pool) free
unfolding fill_buffer
fill_buffer-IsFreeList pool b text free v = record {
  linked =
      IsLinked-next pool.buffers (fill_buffer b text pool).buffers pool.freelist free
        (λ c. update-next pool.buffers b c (strncpy buffer_len text)) v.linked;
  distinct = v.distinct;
  sound = fill_buffer_sound pool.buffers pool.totalbuffers b (strncpy buffer_len text) free v.sound;
  complete =
      λ c h f. v.complete c h (sym (update-is_free pool.buffers b c (strncpy buffer_len text)) ∙ f);
  counted = v.counted;
}

acquired-IsFreeList :
    (pool pool' : Pool) (o : Option ℕ) (free : List ℕ)
    → IsFreeList pool free
    → acquire_buffer pool ≡ some (o, pool')
    → (free' : List ℕ) × IsFreeList pool' free'
acquired-IsFreeList pool pool' o free v e = elim (acquire_buffer-IsFreeList pool free v) [
  | inl (empty, r) ↦ let same : pool ≡ pool' = ground arith in (free, rw (sym same) v)
  | inr (b, rest, q, shape, r, used, v') ↦
      let same : q ≡ pool' = ground arith in (rest, rw (sym same) v')
]

released-IsFreeList :
    (pool : Pool) (b : ℕ) (free : List ℕ)
    → IsFreeList pool free
    → b < pool.totalbuffers
    → (free' : List ℕ) × IsFreeList (release_buffer (some b) pool) free'
unfolding release_buffer
released-IsFreeList pool b free v h = elim (Bool-cases (pool.buffers b).is_free) [
  | inl e ↦ rw (e, release_buffer) (free, v)
  | inr e ↦ (b ∷ free, release_buffer-IsFreeList pool free b v h e)
]

-- Whatever calls are made from a new pool on, the links from freelist go through the free buffers, each
-- once, and freecount is their number.
pub Reachable-IsFreeList : {pool : Pool} → Reachable pool → (free : List ℕ) × IsFreeList pool free
Reachable-IsFreeList (Reachable.created n) = (_, createbufferpool-IsFreeList n)
Reachable-IsFreeList (Reachable.acquired {pool} o pool' r e) =
    let (free, v) = Reachable-IsFreeList r in acquired-IsFreeList pool pool' o free v e
Reachable-IsFreeList (Reachable.released {pool} b r h) =
    let (free, v) = Reachable-IsFreeList r in released-IsFreeList pool b free v h
Reachable-IsFreeList (Reachable.filled {pool} b text r) =
    let (free, v) = Reachable-IsFreeList r in (free, fill_buffer-IsFreeList pool b text free v)
