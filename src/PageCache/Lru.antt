-- ===== src/PageCache/Lru.antt =====
-- `simulateLRU` of page_cache_simulator.c. The counter stays below the number of requests plus one, far
-- from the end of an `int`; the printing is left out.
pub mod Recency
use genspark_training.Base.{
  ℕ, zero, suc, ◌+◌, ◌-◌, ◌<◌, ◌≡◌, Bool, true, false, Option, none, some, List, [], ◌∷◌, ℤ, pos,
  negsuc, ltb, update, ◌==◌, if◌then◌else◌, find_first,
}
use genspark_training.PageCache.Frames.{max_frames, is_empty, find_page}

pub record Lru : Type 0 where
  pub buffer : ℕ → Option ℕ
  pub time : ℕ → ℤ
  pub hits : ℕ
  pub misses : ℕ
  pub counter : ℕ

unfoldable pub init : Lru
init = record { buffer = λ i. none; time = λ i. negsuc 0; hits = 0; misses = 0; counter = 0 }

-- `a < b`
abbrev pub int_ltb : ℤ → ℤ → Bool
int_ltb (pos a) (pos b) = ltb a b
int_ltb (pos a) (negsuc b) = false
int_ltb (negsuc a) (pos b) = true
int_ltb (negsuc a) (negsuc b) = ltb b a

-- The loop that looks for the smallest time, from `j` on.
unfoldable pub least : (ℕ → ℤ) → (j rounds lru : ℕ) → ℕ
least time j zero lru = lru
least time j (suc n) lru = least time (suc j) n (if int_ltb (time j) (time lru) then j else lru)

-- `buffer[i] = page; time[i] = ++counter;`
unfoldable pub place : ℕ → ℕ → Lru → Lru
place i page s = record s {
  buffer = update s.buffer i (some page);
  time = update s.time i (pos (s.counter + 1));
  counter = s.counter + 1;
}

-- The frame that a miss fills: an empty one, or the victim.
unfoldable pub victim : Lru → ℕ
unfolding least
victim s = elim (find_first (λ j. is_empty (s.buffer j)) 0 max_frames) [
  | some empty ↦ empty
  | none ↦ least s.time 1 (max_frames - 1) 0
]

unfoldable pub request : ℕ → Lru → Lru
unfolding place victim find_page
request page s = elim (find_page s.buffer page max_frames) [
  | some i ↦ record s {
    hits = s.hits + 1;
    time = update s.time i (pos (s.counter + 1));
    counter = s.counter + 1;
  }
  | none ↦ let s' = record s { misses = s.misses + 1 } in place (victim s) page s'
]

unfoldable pub simulate : List ℕ → Lru → Lru
unfolding request
simulate [] s = s
simulate (page ∷ pages) s = simulate pages (request page s)
