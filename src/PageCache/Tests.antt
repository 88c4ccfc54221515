-- ===== src/PageCache/Tests.antt =====
-- The page replacement simulations at concrete requests.
use genspark_training.Base.{
  update, ℕ, ◌+◌, ◌<◌, ◌≡◌, refl, ◌⊎◌, true, none, some, List, [], ◌∷◌, ℤ, pos, negsuc, arith,
}
use mathlib.Core.Option
use genspark_training.PageCache.Frames.{max_frames, IsAbsent}
use genspark_training.PageCache.Lru
use genspark_training.PageCache.Lru.{Lru}
use genspark_training.PageCache.Lru.Recency.{
  Tracks, history, IsOldest, victim_lem, simulate-init-Tracks,
}
use genspark_training.PageCache.Clock
use genspark_training.PageCache.Clock.{Clock}
use genspark_training.PageCache.Clock.Sweep.{IsValid, Miss, request_total}
use genspark_training.PageCache.Arc
use genspark_training.PageCache.Arc.{Arc}
use genspark_training.PageCache.Arc.Capacity.{resident, request-overflow}

-- `pages` of the source.
abbrev pages : List ℕ
pages = 1 ∷ 2 ∷ 3 ∷ 1 ∷ 2 ∷ 3 ∷ 1 ∷ 4 ∷ 2 ∷ 5 ∷ 1 ∷ 2 ∷ []

lru_hits : (Lru.simulate pages Lru.init).hits ≡ 5
unfolding Lru.simulate Lru.init
lru_hits = refl

clock_hits : Option.map (λ (s : Clock). s.hits) (Clock.simulate pages Clock.init) ≡ some 5
unfolding Clock.simulate Clock.init
clock_hits = refl

abbrev ints : List ℕ → List ℤ
ints [] = []
ints (n ∷ ns) = pos n ∷ ints ns

arc_hits : (Arc.simulate (ints pages) Arc.init).hits ≡ 6
unfolding Arc.simulate
arc_hits = refl

-- From the empty cache nine requests reach a cache of four pages.
abbrev overflowing : List ℤ
overflowing = ints (1 ∷ 2 ∷ 3 ∷ 4 ∷ 1 ∷ 2 ∷ 5 ∷ 6 ∷ 3 ∷ [])

overflow_reached : resident (Arc.simulate overflowing Arc.init) ≡ 4
unfolding Arc.simulate
overflow_reached = refl

simulate-init-Tracks_example : Tracks (history pages []) (Lru.simulate pages Lru.init)
simulate-init-Tracks_example = simulate-init-Tracks pages

victim_lem_example :
    (Lru.victim (Lru.simulate pages Lru.init) < max_frames)
    × (((Lru.simulate pages Lru.init).buffer (Lru.victim (Lru.simulate pages Lru.init)) ≡ none)
        ⊎ IsOldest
            (history pages [])
            (Lru.simulate pages Lru.init)
            (Lru.victim (Lru.simulate pages Lru.init)))
victim_lem_example =
    victim_lem (history pages []) (Lru.simulate pages Lru.init) (simulate-init-Tracks pages)

-- Every frame is full and has its bit set.
abbrev busy : Clock
busy = record { buffer = λ i. some (i + 1); ref_bit = λ i. true; pointer = 0; hits = 0; misses = 3 }

busy-IsValid : IsValid 3 busy
busy-IsValid = record {
  in_range = omega arith;
  counted = refl;
  distinct = λ i j p l m e f. ground arith;
}

request_total_example :
    (s : Clock) × (Clock.request 9 busy ≡ some s)
    × IsValid 4 s
    × ((k : ℕ) × (k < max_frames) × (s.buffer k ≡ some 9))
    × (((k : ℕ) × (k < max_frames)
          × (busy.buffer k ≡ some 9)
          × (s ≡ record busy { ref_bit = update busy.ref_bit k true; hits = 1 }))
        ⊎ (IsAbsent busy.buffer 9 × Miss 9 (record busy { misses = 4 }) s))
request_total_example = request_total 3 9 busy busy-IsValid

-- A full cache whose target size leaves room for T2.
abbrev full : Arc
full = record Arc.init { t1 = pos 3 ∷ pos 2 ∷ pos 1 ∷ [] }

abbrev stuck : Arc
stuck = record {
  t1 = pos 6 ∷ pos 5 ∷ pos 4 ∷ [];
  t2 = [];
  b1 = pos 3 ∷ [];
  b2 = pos 2 ∷ pos 1 ∷ [];
  p = 3;
  hits = 0;
  misses = 8;
}

request-overflow_example :
    (resident (Arc.request (pos 3) stuck) ≡ max_frames + 1)
    × ((Arc.request (pos 3) stuck).b2 ≡ negsuc 0 ∷ stuck.b2)
unfolding Arc.contains
request-overflow_example = request-overflow (pos 3) stuck refl refl refl refl refl refl
