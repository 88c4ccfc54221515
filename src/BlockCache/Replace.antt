-- ===== src/BlockCache/Replace.antt =====
-- What evicting a node and inserting one do to the contents of the block cache of filesystem.c.
use mathlib.Core.Path.{subst}
use genspark_training.Base.{
  ℕ, ◌+◌, ◌<◌, ◌≡◌, refl, sym, ap, ◌∙◌, ◌≢◌, inl, inr, true, false, Option, none, some, List, [],
  ◌∷◌, ◌++◌, Text, update, Has, Has-append, Has-right, Has-either, Without, All-Has, ◌==◌,
  if◌then◌else◌, arith, Bool-cases,
}
use genspark_training.BufferPool.{Pool, release_buffer}
use genspark_training.BufferPool.FreeList.{release_buffer-IsFreeList}
use genspark_training.BlockCache.{hash, is_at}
use genspark_training.BlockCache.Contents.{InBucket, Loaded, Holds, IsContent}

pub Loaded-release :
    (pool : Pool) (b c : ℕ) (text : Text)
    → c ≢ b
    → (pool.buffers b).is_free ≡ false
    → Loaded pool c text
    → Loaded (release_buffer (some b) pool) c text
unfolding release_buffer
Loaded-release pool b c text ne used h =
    let other : (b == c) ≡ false = ground (arith, ne) in rw used (h.0, rw other h.1, rw other h.2)

-- The buckets after `drop_node`, where the node was the last of the list.
abbrev pub nodes_without : (ℕ → Text) → (ℕ → Option ℕ) → ℕ → ℕ → Option ℕ
nodes_without key nodes a =
    if is_at (nodes (hash (key a))) a then update nodes (hash (key a)) none else nodes

bucket_left :
    (key : ℕ → Text) (l : List ℕ) (a i : ℕ) (o : Option ℕ)
    → InBucket key (l ++ a ∷ []) i o
    → is_at o a ≡ false
    → InBucket key l i o
bucket_left key l a i none h e = tt
bucket_left key l a i (some b) h e = elim (Has-either b l (a ∷ []) h.0) [
  | inl k ↦ (k, h.1)
  | inr k ↦ elim k [ inl same ↦ absurd (ground (arith, same, e)) | inr never ↦ absurd never ]
]

bucket_other :
    (key : ℕ → Text) (l : List ℕ) (a i : ℕ) (o : Option ℕ)
    → InBucket key (l ++ a ∷ []) i o
    → hash (key a) ≢ i
    → InBucket key l i o
bucket_other key l a i none h ne = tt
bucket_other key l a i (some b) h ne = elim (Has-either b l (a ∷ []) h.0) [
  | inl k ↦ (k, h.1)
  | inr k ↦ elim k [
    | inl same ↦ absurd (ne (subst (λ c. hash (key c) ≡ i) same h.1))
    | inr never ↦ absurd never
  ]
]

buckets_left :
    (key : ℕ → Text) (nodes : ℕ → Option ℕ) (l : List ℕ) (a i : ℕ)
    → ((j : ℕ) → InBucket key (l ++ a ∷ []) j (nodes j))
    → InBucket key l i (nodes_without key nodes a i)
buckets_left key nodes l a i h = elim (Bool-cases (hash (key a) == i)) [
  | inl same ↦
      (let e : hash (key a) ≡ i = ground (arith, same) in
        elim (Bool-cases (is_at (nodes (hash (key a))) a)) [
          | inl there ↦ rw (there, same) tt
          | inr away ↦ rw away (
              bucket_left key l a i (nodes i) (h i) (subst (λ j. is_at (nodes j) a ≡ false) e away))
        ])
  | inr other ↦
      (let k = bucket_other key l a i (nodes i) (h i) (λ e. ground (arith, e, other)) in
        elim (Bool-cases (is_at (nodes (hash (key a))) a)) [
          | inl there ↦ rw (there, other) k
          | inr away ↦ rw away k
        ])
]

pub evicted-IsContent :
    (disk : Text → Text) (key : ℕ → Text) (buffers nodes : ℕ → Option ℕ) (fresh : ℕ) (pool : Pool)
    (l : List ℕ) (a : ℕ) (free : List ℕ)
    → Without a l
    → (v : IsContent disk key buffers nodes fresh pool (l ++ a ∷ []) free)
    → (b : ℕ) × (buffers a ≡ some b)
      × ((pool.buffers b).is_free ≡ false)
      × IsContent disk key buffers
          (nodes_without key nodes a)
          fresh
          (release_buffer (some b) pool)
          l
          (b ∷ free)
evicted-IsContent disk key buffers nodes fresh pool l a free d v =
    let here = Has-right a l (a ∷ []) (inl refl) in
    let w = v.holds a here in
    let m : (c : ℕ) → Has c l → Has c (l ++ a ∷ []) = λ c. Has-append c l (a ∷ []) in
    (
      w.at,
      w.pointer,
      w.loaded.1,
      record {
        below = λ c k. v.below c (m c k);
        buckets = λ i. buckets_left key nodes l a i v.buckets;
        holds = (λ c k.
            let x = v.holds c (m c k) in
            let ne : x.at ≢ w.at = (λ e.
              All-Has (λ y. y ≢ a) c l d k
                (v.apart c a w.at (m c k) here (x.pointer ∙ ap some e) w.pointer)) in
            record {
              at = x.at;
              pointer = x.pointer;
              loaded = Loaded-release pool w.at x.at (disk (key c)) ne w.loaded.1 x.loaded;
            });
        apart = λ c e b k k'. v.apart c e b (m c k) (m e k');
        freelist = release_buffer-IsFreeList pool free w.at v.freelist w.loaded.0 w.loaded.1;
      },
    )

-- `insert_node`: a new node in front, with a buffer that no other node has.
bucket_inserted :
    (key : ℕ → Text) (k : Text) (l : List ℕ) (a i : ℕ) (o : Option ℕ)
    → Without a l
    → InBucket key l i o
    → InBucket (update key a k) (a ∷ l) i o
bucket_inserted key k l a i none d h = tt
bucket_inserted key k l a i (some b) d h =
    let ne = All-Has (λ y. y ≢ a) b l d h.0 in
    let other : (a == b) ≡ false = ground (arith, ne) in (inr h.0, rw other h.1)

buckets_inserted :
    (key : ℕ → Text) (nodes : ℕ → Option ℕ) (k : Text) (l : List ℕ) (a i : ℕ)
    → Without a l
    → ((j : ℕ) → InBucket key l j (nodes j))
    → InBucket (update key a k) (a ∷ l) i (update nodes (hash k) (some a) i)
buckets_inserted key nodes k l a i d h = elim (Bool-cases (hash k == i)) [
  | inl same ↦
      (let self : (a == a) ≡ true = ground arith in
        let e : hash k ≡ i = ground (arith, same) in rw same (inl refl, rw self e))
  | inr other ↦ rw other (bucket_inserted key k l a i (nodes i) d (h i))
]

pub fresh-Without : (fresh : ℕ) (l : List ℕ) → ((a : ℕ) → Has a l → a < fresh) → Without fresh l
fresh-Without fresh [] h = tt
fresh-Without fresh (a ∷ l) h =
    let k = h a (inl refl) in
    ((λ e. omega (arith, e, k)), fresh-Without fresh l (λ c m. h c (inr m)))

module _ (disk : Text → Text) (key : ℕ → Text) (buffers nodes : ℕ → Option ℕ) (fresh : ℕ)
    (pool : Pool) (l free : List ℕ) (v : IsContent disk key buffers nodes fresh pool l free)
    (k : Text) (b : ℕ) (h : Loaded pool b (disk k))
    (unused : (a : ℕ) → Has a l → buffers a ≢ some b) where
  other_lem : (a : ℕ) → Has a l → (fresh == a) ≡ false
  other_lem a m = let below = v.below a m in ground (arith, below)

  Holds-inserted :
      (a : ℕ)
      → Has a (fresh ∷ l)
      → Holds disk (update key fresh k) (update buffers fresh (some b)) pool a
  Holds-inserted a (inl e) =
      let self : (fresh == a) ≡ true = ground (arith, e) in
      record { at = b; pointer = rw self refl; loaded = rw self h }
  Holds-inserted a (inr m) =
      let w = v.holds a m in
      let other = other_lem a m in
      record { at = w.at; pointer = rw other w.pointer; loaded = rw other w.loaded }

  pointer_inserted :
      (a c : ℕ) → Has a l → update buffers fresh (some b) a ≡ some c → buffers a ≡ some c
  pointer_inserted a c m e = let other = other_lem a m in ground (arith, e, other)

  pointer_new : (a c : ℕ) → a ≡ fresh → update buffers fresh (some b) a ≡ some c → b ≡ c
  pointer_new a c same e = ground (arith, e, same)

  apart_inserted :
      (a c e : ℕ)
      → Has a (fresh ∷ l)
      → Has c (fresh ∷ l)
      → update buffers fresh (some b) a ≡ some e
      → update buffers fresh (some b) c ≡ some e
      → a ≡ c
  apart_inserted a c e (inl m) (inl n) p q = m ∙ sym n
  apart_inserted a c e (inl m) (inr n) p q =
      absurd (unused c n (pointer_inserted c e n q ∙ ap some (sym (pointer_new a e m p))))
  apart_inserted a c e (inr m) (inl n) p q =
      absurd (unused a m (pointer_inserted a e m p ∙ ap some (sym (pointer_new c e n q))))
  apart_inserted a c e (inr m) (inr n) p q =
      v.apart a c e m n (pointer_inserted a e m p) (pointer_inserted c e n q)

  below_inserted : (a : ℕ) → Has a (fresh ∷ l) → a < fresh + 1
  below_inserted a (inl e) = omega (arith, e)
  below_inserted a (inr m) = let below = v.below a m in omega (arith, below)

  pub inserted-IsContent :
      IsContent disk
        (update key fresh k)
        (update buffers fresh (some b))
        (update nodes (hash k) (some fresh))
        (fresh + 1)
        pool
        (fresh ∷ l)
        free
  inserted-IsContent = record {
    below = below_inserted;
    buckets = λ i. buckets_inserted key nodes k l fresh i (fresh-Without fresh l v.below) v.buckets;
    holds = Holds-inserted;
    apart = apart_inserted;
    freelist = v.freelist;
  }
