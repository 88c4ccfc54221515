-- ===== src/KeywordSearch.antt =====
-- The search of Mmap-file-search.c for a keyword in a mapped file.
pub mod Offsets
mod Tests
use genspark_training.Base.{
  ℕ, zero, suc, ◌+◌, Bool, true, false, ◌&&◌, Option, none, some, List, [], ◌∷◌, Text, length, leb,
  ◌==◌, if◌then◌else◌, ◌>>=◌,
}

-- `base + i`
abbrev pub offset : ℕ → Text → Text
offset zero text = text
offset (suc i) [] = []
offset (suc i) (b ∷ text) = offset i text

-- `memcmp` of the keyword and as many bytes of the text is 0.
unfoldable pub starts : Text → Text → Bool
starts [] text = true
starts (k ∷ keyword) [] = false
starts (k ∷ keyword) (b ∷ text) = k == b && starts keyword text

-- The loop from `i` on: the offsets that are printed. The fuel is more than the rounds.
unfoldable pub search_from : (fuel : ℕ) → Text → Text → ℕ → Option (List ℕ)
search_from zero keyword file i = none
search_from (suc fuel) keyword file i =
    let rest = search_from fuel keyword file (i + 1) in
    if leb (i + length keyword) (length file)
    then (do offsets ← rest; some (if starts keyword (offset i file) then i ∷ offsets else offsets))
    else some []

-- The offsets; their number is the count that is printed.
unfoldable pub search : Text → Text → Option (List ℕ)
search keyword file = search_from (suc (suc (length file))) keyword file 0
