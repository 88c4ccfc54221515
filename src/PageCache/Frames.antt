-- ===== src/PageCache/Frames.antt =====
-- What the LRU and the clock simulation of page_cache_simulator.c share: the frames. An `int` that is a
-- page or -1 is an `Option ℕ`.
use genspark_training.Base.{
  ℕ, ◌<◌, ◌≡◌, ◌≢◌, Bool, true, false, Option, none, some, ◌==◌, find_first, find_first-some,
  find_first-none, arith,
}

abbrev pub max_frames : ℕ
max_frames = 3

-- `buffer[i] == page`
abbrev pub is_page : ℕ → Option ℕ → Bool
is_page page none = false
is_page page (some q) = q == page

abbrev pub is_empty : Option ℕ → Bool
is_empty none = true
is_empty (some q) = false

unfoldable pub find_page : (ℕ → Option ℕ) → ℕ → ℕ → Option ℕ
unfolding find_first
find_page buffer page n = find_first (λ i. is_page page (buffer i)) 0 n

-- `page` is in no frame.
abbrev pub IsAbsent : (ℕ → Option ℕ) → ℕ → Type 0
IsAbsent buffer page = (i : ℕ) → i < max_frames → buffer i ≢ some page

pub find_page-some :
    (buffer : ℕ → Option ℕ) (page k : ℕ)
    → find_page buffer page max_frames ≡ some k
    → (k < max_frames) × (buffer k ≡ some page)
unfolding find_page
find_page-some buffer page k h =
    let (t, low, high) = find_first-some (λ i. is_page page (buffer i)) 0 max_frames k h in
    (omega arith, ground arith)

pub find_page-none :
    (buffer : ℕ → Option ℕ) (page : ℕ)
    → find_page buffer page max_frames ≡ none
    → IsAbsent buffer page
unfolding find_page
find_page-none buffer page h i l e =
    ground (arith, find_first-none (λ i. is_page page (buffer i)) 0 max_frames i h)
