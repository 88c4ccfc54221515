-- ===== src/Filtering/Tests.antt =====
-- The searches of filtering.c on a small table.
use genspark_training.Base.{ℕ, ◌+◌, ◌*◌, ◌≡◌, refl, some, [], arith}
use genspark_training.Filtering.{Row, binarysearch}
use genspark_training.Filtering.Search.{IsSorted, IsSplit, found_at, binarysearch-IsSplit}

abbrev records : ℕ → Row
records i = record { id = i + 1; name = []; age = 10 * i }

records-IsSorted : IsSorted records 8
records-IsSorted i j p q = omega (arith, p)

first_old : binarysearch records 8 50 ≡ some (some 5)
unfolding binarysearch
first_old = refl

binarysearch-IsSplit_example :
    (k : ℕ) × (binarysearch records 8 50 ≡ some (found_at 8 k)) × IsSplit records 8 50 k
binarysearch-IsSplit_example = binarysearch-IsSplit records 8 50 records-IsSorted
