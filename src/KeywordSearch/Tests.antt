-- ===== src/KeywordSearch/Tests.antt =====
-- The search of Mmap-file-search.c on a short file.
use genspark_training.Base.{ℕ, ◌≡◌, ◌↔◌, refl, some, List, [], ◌∷◌, Has, bytes}
use genspark_training.KeywordSearch.{starts, search_from, search}
use genspark_training.KeywordSearch.Offsets.{OccursAt, IsIncreasing, search_lem}

-- Occurrences may overlap.
overlapping : search (bytes "aba") (bytes "ababa") ≡ some (0 ∷ 2 ∷ [])
unfolding search search_from starts
overlapping = refl

too_long : search (bytes "aba") (bytes "ab") ≡ some []
unfolding search search_from starts
too_long = refl

search_lem_example :
    (offsets : List ℕ) × (search (bytes "aba") (bytes "ababa") ≡ some offsets)
    × ((i : ℕ) → Has i offsets ↔ OccursAt (bytes "aba") (bytes "ababa") i)
    × IsIncreasing offsets
search_lem_example = search_lem (bytes "aba") (bytes "ababa")
