-- ===== src/PageCache/Arc/Capacity.antt =====
-- How many pages the ARC simulation keeps in its cache, the lists T1 and T2.
use genspark_training.Base.{
  ℕ, ◌+◌, ◌-◌, ◌≤◌, ◌<◌, ◌≡◌, refl, ◌⊎◌, inl, inr, true, false, List, [], ◌∷◌, ℤ, pos, negsuc,
  length, arith, dec_lt,
}
use genspark_training.PageCache.Frames.{max_frames}
use genspark_training.PageCache.Arc.{
  Arc, contains, remove_node, remove_lru, replaces_t1, replace_arc, hit, miss_b1, miss_b2, miss_new,
  request, grow, shrink,
}

-- The pages in the cache.
abbrev pub resident : Arc → ℕ
resident s = length s.t1 + length s.t2

length-remove_node :
    (page : ℤ) (list : List ℤ)
    → contains list page ≡ true
    → length (remove_node list page) + 1 ≡ length list
unfolding contains remove_node
length-remove_node page [] h = absurd (ground arith)
length-remove_node page (q ∷ list) h = ground (arith, length-remove_node page list)

length-remove_lru : (list : List ℤ) → length (remove_lru list).1 ≡ length list - 1
unfolding remove_lru
length-remove_lru [] = refl
length-remove_lru (q ∷ []) = refl
length-remove_lru (q ∷ r ∷ list) = omega (arith, length-remove_lru (r ∷ list))

-- `replaceARC` evicts a page, unless it turns to T2 and T2 is empty.
resident-replace_arc :
    (s : Arc)
    → (replaces_t1 s ≡ true) ⊎ (0 < length s.t2)
    → resident (replace_arc s) + 1 ≡ resident s
unfolding replace_arc
resident-replace_arc s h = ground (arith, length-remove_lru s.t1, length-remove_lru s.t2)

resident-replace_arc-le : (s : Arc) → resident (replace_arc s) ≤ resident s
unfolding replace_arc
resident-replace_arc-le s = ground (arith, length-remove_lru s.t1, length-remove_lru s.t2)

replaces_t1_lem : (s : Arc) → s.p < length s.t1 → replaces_t1 s ≡ true
unfolding replaces_t1
replaces_t1_lem s h = ground arith

-- Where the cache is full, `replaceARC` finds a page: T2 has one, or T1 is longer than its target size.
replace_arc-room :
    (s : Arc)
    → resident s ≤ max_frames
    → (0 < length s.t2) ⊎ (s.p < max_frames)
    → resident (replace_arc s) < max_frames
replace_arc-room s h e = elim (dec_lt (resident s) max_frames) [
  | yes free ↦ omega (arith, resident-replace_arc-le s)
  | no full ↦ elim (dec_lt 0 (length s.t2)) [
    | yes some_t2 ↦ omega (arith, resident-replace_arc s (inr some_t2))
    | no none_t2 ↦ omega (arith, resident-replace_arc s (inl (replaces_t1_lem s (omega arith))))
  ]
]

-- The cache can evict: T2 is not empty, or the target size of T1 stays below the number of frames.
abbrev pub CanEvict : Arc → Type 0
CanEvict s = (0 < length s.t2) ⊎ (s.p + 1 < max_frames)

-- A request keeps at most `MAX_FRAMES` pages in the cache where the cache can evict.
pub resident-request :
    (page : ℤ) (s : Arc)
    → resident s ≤ max_frames
    → CanEvict s
    → resident (request page s) ≤ max_frames
unfolding request hit miss_b1 miss_b2 miss_new
resident-request page s h e = ground (
  arith,
  length-remove_node page s.t1,
  length-remove_node page s.t2,
  replace_arc-room (record s { p = grow s; misses = s.misses + 1 }) h,
  replace_arc-room (record s { p = shrink s; misses = s.misses + 1 }) h,
  replace_arc-room (record s { misses = s.misses + 1 }) h,
)

-- Where T1 holds `MAX_FRAMES` pages, its target size is `MAX_FRAMES` and T2 is empty, a request for a
-- page that is not in T1 or B2 puts one page too many into the cache, and -1 into B2 (page 0 not in B2).
pub request-overflow :
    (page : ℤ) (s : Arc)
    → length s.t1 ≡ max_frames
    → s.t2 ≡ []
    → s.p ≡ max_frames
    → contains s.t1 page ≡ false
    → contains s.b2 page ≡ false
    → contains s.b2 (pos 0) ≡ false
    → (resident (request page s) ≡ max_frames + 1) × ((request page s).b2 ≡ negsuc 0 ∷ s.b2)
unfolding request hit miss_b1 miss_b2 miss_new replace_arc remove_lru replaces_t1
request-overflow page s a b c d e f = ground (arith, length-remove_node page s.b1)
