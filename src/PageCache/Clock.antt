-- ===== src/PageCache/Clock.antt =====
-- `simulateClock` of page_cache_simulator.c. The `while (1)` of a miss takes fuel; the sweep ends once it
-- is back at the frame where it began, so one more round than there are frames is enough. The printing
-- is left out.
pub mod Sweep
use genspark_training.Base.{
  ℕ, zero, suc, ◌+◌, ◌%◌, Bool, true, false, Option, none, some, List, [], ◌∷◌, update, ◌==◌,
  if◌then◌else◌, find_first,
}
use mathlib.Core.Option
use genspark_training.PageCache.Frames.{max_frames, is_page, find_page}

pub record Clock : Type 0 where
  pub buffer : ℕ → Option ℕ
  pub ref_bit : ℕ → Bool
  pub pointer : ℕ
  pub hits : ℕ
  pub misses : ℕ

unfoldable pub init : Clock
init = record { buffer = λ i. none; ref_bit = λ i. false; pointer = 0; hits = 0; misses = 0 }

-- `buffer[pointer] = page; refBit[pointer] = 1;` and the advance.
unfoldable pub replace : ℕ → Clock → Clock
replace page s = record s {
  buffer = update s.buffer s.pointer (some page);
  ref_bit = update s.ref_bit s.pointer true;
  pointer = (s.pointer + 1) % max_frames;
}

-- `refBit[pointer] = 0;` and the advance: a second chance.
unfoldable pub spare : Clock → Clock
spare s = record s {
  ref_bit = update s.ref_bit s.pointer false;
  pointer = (s.pointer + 1) % max_frames;
}

-- The `while (1)`; `none` if the fuel runs out.
unfoldable pub sweep : (fuel : ℕ) → ℕ → Clock → Option Clock
unfolding replace spare
sweep zero page s = none
sweep (suc fuel) page s =
    let rest = sweep fuel page (spare s) in
    if s.ref_bit s.pointer then rest else some (replace page s)

unfoldable pub request : ℕ → Clock → Option Clock
unfolding sweep find_page
request page s = elim (find_page s.buffer page max_frames) [
  | some j ↦ some (record s { ref_bit = update s.ref_bit j true; hits = s.hits + 1 })
  | none ↦ sweep (suc max_frames) page (record s { misses = s.misses + 1 })
]

unfoldable pub simulate : List ℕ → Clock → Option Clock
unfolding request
simulate [] s = some s
simulate (page ∷ pages) s = elim (request page s) [ none ↦ none | some s' ↦ simulate pages s' ]
