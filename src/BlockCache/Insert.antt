-- ===== src/BlockCache/Insert.antt =====
-- Inserting a node into the block cache of filesystem.c keeps the invariant.
use mathlib.Core.Path.{subst}
use genspark_training.Base.{
  ℕ, suc, ◌+◌, ◌≤◌, ◌≡◌, refl, ap, ◌∙◌, inl, inr, true, false, none, some, List, [], ◌∷◌, ◌++◌,
  Text, take_of_length-le, All, length, length-append, update, Without, leb, ◌==◌, arith,
  Bool-cases,
}
use genspark_training.BufferPool.{pool_size}
use genspark_training.BlockCache.{
  Cache, cache_size, key_len, hash, new_node, insert_node, find_node, cacheput,
}
use genspark_training.BlockCache.Links.{update-Nexts, update-Backs, update_self}
use genspark_training.BlockCache.Lookup.{IsList}
use genspark_training.BlockCache.Recency.{SameNodes, addtofront-IsList}
use genspark_training.BlockCache.Contents.{IsContent}
use genspark_training.BlockCache.Replace.{inserted-IsContent, fresh-Without}
use genspark_training.BlockCache.Valid.{IsValid, IsSpare, split_last, evict-Evicted}

module _ (key : Text) (b : ℕ) (s : Cache) where
  new_alive :
      (l : List ℕ)
      → Without s.fresh l
      → All (λ c. s.live c ≡ true) l
      → All (λ c. (new_node key b s).live c ≡ true) l
  unfolding new_node
  new_alive [] d h = tt
  new_alive (c ∷ l) d h =
      let other : (s.fresh == c) ≡ false = ground (arith, d.0) in
      (rw other h.0, new_alive l d.1 h.1)

  new_node-IsList : (l : List ℕ) → Without s.fresh l → IsList s l → IsList (new_node key b s) l
  unfolding new_node
  new_node-IsList l d v = record {
    nexts = update-Nexts s.next s.fresh (s.nodes (hash key)) l d v.nexts;
    backs = update-Backs s.prev s.fresh none none l d v.backs;
    distinct = v.distinct;
    alive = new_alive l d v.alive;
    at_head = v.at_head;
    at_tail = v.at_tail;
  }

  new_node-live : (new_node key b s).live s.fresh ≡ true
  unfolding new_node
  new_node-live = update_self s.live s.fresh true

module _ (disk : Text → Text) (key : Text) (b : ℕ) (s : Cache) (l free : List ℕ)
    (short : length key ≤ key_len) (list : IsList s l)
    (content : IsContent disk s.key s.buffers s.nodes s.fresh s.pool l free)
    (counted : s.count ≡ length l) (spare : IsSpare s l b (disk key)) where
  new_node-IsContent :
      (s' : Cache)
      → SameNodes (new_node key b s) s'
      → IsContent disk s'.key s'.buffers s'.nodes s'.fresh s'.pool (s.fresh ∷ l) free
  unfolding new_node
  new_node-IsContent s' same =
      let stored = ap (update s.key s.fresh) (take_of_length-le key_len key short) in
      rw (same.key ∙ stored, same.buffers, same.nodes, same.fresh, same.pool)
        (inserted-IsContent disk s.key s.buffers s.nodes s.fresh s.pool l free content key b
          spare.loaded spare.unused)

  new_node-count : (s' : Cache) → SameNodes (new_node key b s) s' → s'.count ≡ length l
  unfolding new_node
  new_node-count s' same = same.count ∙ counted

  -- The new node is in front.
  pub insert_node-IsValid :
      suc (length l) ≤ cache_size
      → suc (length l) + length free ≡ pool_size
      → (s' : Cache) × (insert_node key b s ≡ some s') × IsValid disk s' (s.fresh ∷ l) free 0
  unfolding insert_node
  insert_node-IsValid room total =
      let d = fresh-Without s.fresh l content.below in
      let (s', e, v, same) =
        addtofront-IsList s.fresh l (new_node key b s) (new_node-live key b s) d
          (new_node-IsList key b s l d list) in
      (
        record s' { count = s'.count + 1 },
        rw e refl,
        record {
          list = record {
            nexts = v.nexts;
            backs = v.backs;
            distinct = v.distinct;
            alive = v.alive;
            at_head = v.at_head;
            at_tail = v.at_tail;
          };
          content = new_node-IsContent s' same;
          counted = (let c = new_node-count s' same in omega (arith, c));
          room = room;
          total = omega (arith, total);
        },
      )

module _ (disk : Text → Text) (key : Text) (b : ℕ) (s : Cache) (free : List ℕ)
    (short : length key ≤ key_len) (miss : find_node key s ≡ some none) where
  with_room :
      (l : List ℕ)
      → leb cache_size s.count ≡ false
      → IsValid disk s l free 1
      → IsSpare s l b (disk key)
      → (s' : Cache) × (l' : List ℕ) × (free' : List ℕ) × (cacheput key b s ≡ some s')
        × IsValid disk s' l' free' 0
  unfolding cacheput
  with_room l off v spare =
      let (s', f, w) =
        insert_node-IsValid disk key b s l free short v.list v.content v.counted spare
          (ground (arith, off, v.counted)) (omega (arith, v.total)) in
      (s', s.fresh ∷ l, free, rw (cacheput, miss, off, f) refl, w)

  with_evict :
      (x a : ℕ) (xs : List ℕ)
      → leb cache_size s.count ≡ true
      → IsValid disk s (x ∷ xs ++ a ∷ []) free 1
      → IsSpare s (x ∷ xs ++ a ∷ []) b (disk key)
      → (s' : Cache) × (l' : List ℕ) × (free' : List ℕ) × (cacheput key b s ≡ some s')
        × IsValid disk s' l' free' 0
  unfolding cacheput
  with_evict x a xs full v spare =
      let (s1, c, e, w) =
        evict-Evicted disk x a xs s free b (disk key) v.list v.content v.counted spare in
      let long = length-append (x ∷ xs) (a ∷ []) in
      let (s', f, u) =
        insert_node-IsValid disk key b s1 (x ∷ xs) (c ∷ free) short w.list w.content w.counted
          w.spare (omega (arith, v.room, long)) (omega (arith, v.total, long)) in
      (s', s1.fresh ∷ x ∷ xs, c ∷ free, rw (cacheput, miss, full, e, f) refl, u)

  with_full :
      (l : List ℕ)
      → leb cache_size s.count ≡ true
      → IsValid disk s l free 1
      → IsSpare s l b (disk key)
      → (s' : Cache) × (l' : List ℕ) × (free' : List ℕ) × (cacheput key b s ≡ some s')
        × IsValid disk s' l' free' 0
  with_full [] full v spare = absurd (ground (arith, full, v.counted))
  with_full (x ∷ []) full v spare = absurd (ground (arith, full, v.counted))
  with_full (x ∷ y ∷ l) full v spare =
      let (xs, a, e) = split_last x y l in
      with_evict x a xs full (subst (λ m. IsValid disk s m free 1) e v)
        (subst (λ m. IsSpare s m b (disk key)) e spare)

  -- `cacheput` of a key that is not found: a full cache loses its last node, whose buffer becomes free,
  -- and the new node is in front.
  pub cacheput-IsValid :
      (l : List ℕ)
      → IsValid disk s l free 1
      → IsSpare s l b (disk key)
      → (s' : Cache) × (l' : List ℕ) × (free' : List ℕ) × (cacheput key b s ≡ some s')
        × IsValid disk s' l' free' 0
  cacheput-IsValid l v spare = elim (Bool-cases (leb cache_size s.count)) [
    | inl full ↦ with_full l full v spare
    | inr off ↦ with_room l off v spare
  ]
