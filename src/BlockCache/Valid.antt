-- ===== src/BlockCache/Valid.antt =====
-- The invariant of the block cache of filesystem.c, and that evicting and inserting a node keep it.
use mathlib.Core.Path.{subst}
use mathlib.Core.List.{append-nil}
use genspark_training.Base.{
  ℕ, ◌+◌, ◌≤◌, ◌≡◌, refl, sym, ap, ◌∙◌, ◌≢◌, inl, true, false, some, List, [], ◌∷◌, ◌++◌, Text, All,
  length, length-append, update, Has, Has-append, Has-right, Without, remove-IsDistinct, ◌==◌,
  arith,
}
use genspark_training.BufferPool.{pool_size}
use genspark_training.BlockCache.{Cache, cache_size, drop_node, evict_tail, evict}
use genspark_training.BlockCache.Lookup.{IsList}
use genspark_training.BlockCache.Recency.{
  unlinked, unlinked-IsList, remove_tail_lem, tail_lem, next_of_last,
}
use genspark_training.BlockCache.Contents.{Loaded, IsContent}
use genspark_training.BlockCache.Replace.{Loaded-release, evicted-IsContent}

-- The list by recency, the contents of its nodes, and where the buffers of the pool are: with a node, in
-- the free list, or one of `spare`.
pub record IsValid (disk : Text → Text) (s : Cache) (l free : List ℕ) (spare : ℕ) : Type 0 where
  pub list : IsList s l
  pub content : IsContent disk s.key s.buffers s.nodes s.fresh s.pool l free
  pub counted : s.count ≡ length l
  pub room : length l ≤ cache_size
  pub total : length l + length free + spare ≡ pool_size

-- A buffer that is loaded and not yet with a node.
pub record IsSpare (s : Cache) (l : List ℕ) (b : ℕ) (text : Text) : Type 0 where
  pub loaded : Loaded s.pool b text
  pub unused : (a : ℕ) → Has a l → s.buffers a ≢ some b

-- A list of two and more, without its last element.
pub split_last : (x y : ℕ) (l : List ℕ) → (xs : List ℕ) × (a : ℕ) × (x ∷ y ∷ l ≡ x ∷ xs ++ a ∷ [])
split_last x y [] = ([], y, refl)
split_last x y (z ∷ l) = let (xs, a, e) = split_last y z l in (y ∷ xs, a, ap (λ m. x ∷ m) e)

dropped-IsList :
    (a : ℕ) (l : List ℕ) (s : Cache) → Without a l → IsList s l → IsList (drop_node a s) l
unfolding drop_node
dropped-IsList a l s d v = record {
  nexts = v.nexts;
  backs = v.backs;
  distinct = v.distinct;
  alive = still_alive l d v.alive;
  at_head = v.at_head;
  at_tail = v.at_tail;
}
  where
    still_alive :
        (l : List ℕ)
        → Without a l
        → All (λ c. s.live c ≡ true) l
        → All (λ c. update s.live a false c ≡ true) l
    still_alive [] d h = tt
    still_alive (c ∷ l) d h =
        let other : (a == c) ≡ false = ground (arith, d.0) in (rw other h.0, still_alive l d.1 h.1)

-- A cache after `evict`: the last node is gone, and its buffer is free.
pub record Evicted (disk : Text → Text) (s' : Cache) (l free : List ℕ) (b : ℕ) (text : Text)
    : Type 0 where
  pub list : IsList s' l
  pub content : IsContent disk s'.key s'.buffers s'.nodes s'.fresh s'.pool l free
  pub counted : s'.count ≡ length l
  pub spare : IsSpare s' l b text

module _ (disk : Text → Text) (x a : ℕ) (xs : List ℕ) (s : Cache) (free : List ℕ) (b : ℕ)
    (text : Text) (list : IsList s (x ∷ xs ++ a ∷ [])) where
  without_last : Without a (x ∷ xs)
  without_last =
      subst (Without a) (append-nil (x ∷ xs)) (remove-IsDistinct (x ∷ xs) a [] list.distinct).1

  evict_lem : evict s ≡ some (drop_node a (unlinked x xs [] s))
  unfolding evict evict_tail
  evict_lem =
      ap (λ o. evict_tail o s) (tail_lem x a xs s list) ∙ rw (remove_tail_lem x a xs s list) refl

  unlinked-last-IsList : IsList (unlinked x xs [] s) (x ∷ xs)
  unlinked-last-IsList =
      subst (IsList (unlinked x xs [] s)) (append-nil (x ∷ xs)) (unlinked-IsList x a xs s [] list)

  pub evict-Evicted :
      IsContent disk s.key s.buffers s.nodes s.fresh s.pool (x ∷ xs ++ a ∷ []) free
      → s.count ≡ length (x ∷ xs ++ a ∷ [])
      → IsSpare s (x ∷ xs ++ a ∷ []) b text
      → (s' : Cache) × (c : ℕ) × (evict s ≡ some s') × Evicted disk s' (x ∷ xs) (c ∷ free) b text
  unfolding drop_node
  evict-Evicted content counted spare =
      let (c, p, used, w) =
        evicted-IsContent disk s.key s.buffers s.nodes s.fresh s.pool (x ∷ xs) a free without_last
          content in
      let away : b ≢ c =
        (λ e. spare.unused a (Has-right a (x ∷ xs) (a ∷ []) (inl refl)) (p ∙ ap some (sym e))) in
      (
        drop_node a (unlinked x xs [] s),
        c,
        evict_lem,
        record {
          list = dropped-IsList a (x ∷ xs) (unlinked x xs [] s) without_last unlinked-last-IsList;
          content = rw (next_of_last x a xs s list, p) w;
          counted = (let e = length-append (x ∷ xs) (a ∷ []) in omega (arith, counted, e));
          spare = record {
            loaded = rw p (Loaded-release s.pool c b text away used spare.loaded);
            unused = λ d m. spare.unused d (Has-append d (x ∷ xs) (a ∷ []) m);
          };
        },
      )
