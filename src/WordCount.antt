-- ===== src/WordCount.antt =====
-- task-word-count-pthread.c: four workers count the words in their parts of a file; their sums are added
-- under a mutex, so in any order.
pub mod Chunks
mod Tests
use genspark_training.Base.{
  ℕ, zero, suc, ◌+◌, ◌-◌, ◌*◌, ◌/◌, Bool, true, false, ◌||◌, ◌&&◌, List, [], ◌∷◌, Text, take, leb,
  ◌==◌, if◌then◌else◌,
}

abbrev pub worker_count : ℕ
worker_count = 4

-- `isspace`
abbrev pub is_space : ℕ → Bool
is_space b = (b == 32) || (leb 9 b && leb b 13)

abbrev pub one_if : Bool → ℕ
one_if true = 1
one_if false = 0

-- The loop of `worker_thread` and the test behind it: what is added to `local_count` from here on.
unfoldable pub count_from : (in_word : Bool) → Text → ℕ
count_from in_word [] = one_if in_word
count_from in_word (b ∷ s) =
    let behind = count_from (if is_space b then false else true) s in
    if is_space b then one_if in_word + behind else behind

abbrev pub drop : ℕ → Text → Text
drop zero s = s
drop (suc n) [] = []
drop (suc n) (b ∷ s) = drop n s

-- `worker_thread` on the bytes from `start` up to `end`.
unfoldable pub worker : Text → (start end : ℕ) → ℕ
unfolding count_from
worker file start end = count_from false (take (end - start) (drop start file))

abbrev pub end_of : (filesize chunk_size i : ℕ) → ℕ
end_of filesize chunk_size i = if i == worker_count - 1 then filesize else (i + 1) * chunk_size

-- The sum over the workers from `i` on, `rounds` of them.
unfoldable pub sum_from : Text → (filesize chunk_size i rounds : ℕ) → ℕ
unfolding worker
sum_from file filesize chunk_size i zero = 0
sum_from file filesize chunk_size i (suc rounds) =
    worker file (i * chunk_size) (end_of filesize chunk_size i)
    + sum_from file filesize chunk_size (i + 1) rounds

-- The number that `main` prints.
unfoldable pub total_words : Text → ℕ → ℕ
unfolding sum_from
total_words file filesize = sum_from file filesize (filesize / worker_count) 0 worker_count
