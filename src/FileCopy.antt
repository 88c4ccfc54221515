-- ===== src/FileCopy.antt =====
-- The copy of file-copy.c: read_all, write_all and the loop of main. What read and write return is given by a
-- list of answers; the copy is still running where the list ends.
pub mod Complete
pub mod Verify
mod Tests
use genspark_training.Base.{ℕ, zero, suc, ◌+◌, ◌-◌, List, [], ◌∷◌, ◌++◌, Text, length, take}

-- The size of the buffer.
abbrev pub buf_size : ℕ
buf_size = 4096

-- An answer of read or write: `part m` moves m + 1 bytes, or as many as there are; EINTR; another error.
pub data Answer : Type 0 where
  part : ℕ → Answer
  interrupted failed : Answer

-- The bytes that read_all got, the file behind them, and the answers that are left.
pub data ReadResult : Type 0 where
  got : (bytes_read file : Text) → List Answer → ReadResult
  read_error reading : ReadResult

-- The destination, and the answers that are left.
pub data WriteResult : Type 0 where
  wrote : (dest : Text) → List Answer → WriteResult
  write_error writing : WriteResult

abbrev pub drop : ℕ → Text → Text
drop zero text = text
drop (suc n) [] = []
drop (suc n) (b ∷ text) = drop n text

-- `read_all` with `left` bytes to read and `done` read; an answer at the end of the file is 0.
unfoldable pub read_all : List Answer → (left : ℕ) → (done file : Text) → ReadResult
read_all answers zero done file = ReadResult.got done file answers
read_all [] (suc left) done file = ReadResult.reading
read_all (Answer.interrupted ∷ answers) (suc left) done file = read_all answers (suc left) done file
read_all (Answer.failed ∷ answers) (suc left) done file = ReadResult.read_error
read_all (Answer.part m ∷ answers) (suc left) done [] = ReadResult.got done [] answers
read_all (Answer.part m ∷ answers) (suc left) done (b ∷ file) =
    let chunk = b ∷ take m (take left file) in
    read_all answers (left - length (take m (take left file))) (done ++ chunk)
      (drop (length (take m (take left file))) file)

-- `write_all` of the bytes.
unfoldable pub write_all : List Answer → (bytes_left dest : Text) → WriteResult
write_all answers [] dest = WriteResult.wrote dest answers
write_all [] (b ∷ rest) dest = WriteResult.writing
write_all (Answer.interrupted ∷ answers) (b ∷ rest) dest = write_all answers (b ∷ rest) dest
write_all (Answer.failed ∷ answers) (b ∷ rest) dest = WriteResult.write_error
write_all (Answer.part m ∷ answers) (b ∷ rest) dest =
    write_all answers (drop m rest) (dest ++ (b ∷ take m rest))

-- How the copy ends.
pub data Outcome : Type 0 where
  copied : (dest : Text) → Outcome
  error running : Outcome

-- The loop of `main`. The fuel is more than the rounds.
unfoldable pub copy : (fuel : ℕ) → List Answer → (file dest : Text) → Outcome
copy zero answers file dest = Outcome.running
copy (suc fuel) answers file dest = elim (read_all answers buf_size [] file) [
  | ReadResult.read_error ↦ Outcome.error
  | ReadResult.reading ↦ Outcome.running
  | ReadResult.got bytes_read rest answers ↦ elim bytes_read [
    | [] ↦ Outcome.copied dest
    | b ∷ bs ↦ elim (write_all answers (b ∷ bs) dest) [
      | WriteResult.write_error ↦ Outcome.error
      | WriteResult.writing ↦ Outcome.running
      | WriteResult.wrote dest answers ↦ copy fuel answers rest dest
    ]
  ]
]
