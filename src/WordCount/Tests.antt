-- ===== src/WordCount/Tests.antt =====
-- The word count of task-word-count-pthread.c on a short file.
use genspark_training.Base.{◌+◌, ◌≡◌, refl, Text, bytes, arith, false}
use genspark_training.WordCount.{total_words, count_from}
use genspark_training.WordCount.Chunks.{cut, total_words-cut}

-- "hello world" has two words; the program counts four.
abbrev file : Text
file = bytes "hello world"

file-total : total_words file 11 ≡ 4
unfolding total_words
file-total = refl

total_words-cut_example :
    total_words file 11
    ≡ count_from false file
      + (cut (bytes "he") (bytes "llo world")
          + cut (bytes "ll") (bytes "o world")
          + cut (bytes "o ") (bytes "world"))
total_words-cut_example =
    total_words-cut (bytes "he") (bytes "ll") (bytes "o ") (bytes "world") 2 refl refl refl
      (omega arith) (omega arith)
