-- ===== src/FileCopy/Tests.antt =====
-- A copy in file-copy.c with reads and writes in parts.
use genspark_training.Base.{◌≡◌, ◌↔◌, true, refl, List, [], ◌∷◌, ◌++◌, bytes, arith}
use genspark_training.FileCopy.{Answer, read_all, write_all, Outcome, copy}
use genspark_training.FileCopy.Verify.{Verdict, compare_from, verify, verify_blind}
use genspark_training.FileCopy.Complete.{copy_complete}

-- Two bytes are read, an interrupt, the other one and the end of the file; they are written one at a time.
abbrev answers : List Answer
answers =
    Answer.part 1
    ∷ Answer.interrupted
    ∷ Answer.part 7
    ∷ Answer.part 0
    ∷ Answer.part 0
    ∷ Answer.part 0
    ∷ Answer.interrupted
    ∷ Answer.part 0
    ∷ Answer.part 0
    ∷ Answer.part 0
    ∷ Answer.part 0
    ∷ Answer.part 0
    ∷ []

copied : copy 4 answers (bytes "abc") [] ≡ Outcome.copied (bytes "abc")
unfolding copy read_all write_all
copied = refl

fails : copy 4 (Answer.part 9 ∷ Answer.part 9 ∷ Answer.failed ∷ []) (bytes "abc") [] ≡ Outcome.error
unfolding copy read_all write_all
fails = refl

copy_complete_example : copy 4 answers (bytes "abc") [] ≡ Outcome.copied ([] ++ bytes "abc")
copy_complete_example = copy_complete 4 answers (bytes "abc") [] tt (omega arith) (omega arith)

verify_blind_example :
    (verify (bytes "abc") (bytes "abd") ≡ Verdict.identical)
    × ((compare_from true 0 (bytes "abc") (bytes "abd") ≡ Verdict.identical)
        ↔ (bytes "abc" ≡ bytes "abd"))
verify_blind_example = verify_blind (bytes "abc") (bytes "abd") refl
