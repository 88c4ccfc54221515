-- ===== src/QueryPipeline.antt =====
-- qee.c: a scan, a filter and a projection over a table of records, each pulling rows from the one
-- below. The printing of the open and close functions is left out.
pub mod Laws
mod Tests
use genspark_training.Base.{
  ℕ, zero, suc, ◌+◌, ◌-◌, Bool, true, false, ◌&&◌, Option, none, some, List, [], ◌∷◌, Text, bytes,
  text_eq, ltb, leb, if◌then◌else◌,
}

abbrev pub maxrows : ℕ
maxrows = 6

pub record Row : Type 0 where
  pub id : ℕ
  pub studentname : Text
  pub subject : Text
  pub score : ℕ

abbrev pub row : ℕ → Text → ℕ → Row
row id name score = record { id = id; studentname = name; subject = bytes "math"; score = score }

-- The table of the program.
abbrev pub records : ℕ → Row
records zero = row 101 (bytes "abc") 90
records (suc zero) = row 102 (bytes "def") 70
records (suc (suc zero)) = row 103 (bytes "ghi") 65
records (suc (suc (suc zero))) = row 104 (bytes "jkl") 84
records (suc (suc (suc (suc zero)))) = row 105 (bytes "mno") 20
records (suc (suc (suc (suc (suc i))))) = row 106 (bytes "xyz") 100

-- The functions take the table and the global `rowindex`, and return the row and the new index.
unfoldable pub scannext : (ℕ → Row) → ℕ → Option Row × ℕ
scannext table rowindex =
    if leb maxrows rowindex then (none, rowindex) else (some (table rowindex), rowindex + 1)

abbrev pub scanopen : ℕ → ℕ
scanopen rowindex = 0

abbrev pub scanclose : ℕ → ℕ
scanclose rowindex = 0

-- The test of the filter.
unfoldable pub keeps : Row → Bool
keeps rec = ltb 70 rec.score && text_eq rec.subject (bytes "math")

-- The body of the loop of `filtnext`, with `rest` for the rounds behind it.
unfoldable pub filter_row :
    (rest : ℕ → Option (Option Row × ℕ)) → Option Row × ℕ → Option (Option Row × ℕ)
unfolding keeps
filter_row rest (none, next) = some (none, next)
filter_row rest (some rec, next) =
    let skip = rest next in if keeps rec then some (some rec, next) else skip

-- The loop of `filtnext`; each round but the last takes a row, so one more than there are rows is enough
-- fuel. `none` outside: the fuel ran out.
unfoldable pub filtnext : (fuel : ℕ) → (ℕ → Row) → ℕ → Option (Option Row × ℕ)
unfolding scannext filter_row
filtnext zero table rowindex = none
filtnext (suc fuel) table rowindex = filter_row (filtnext fuel table) (scannext table rowindex)

-- The loop of `projnext`: the names and scores that it prints, and the index afterwards.
unfoldable pub projnext : (fuel : ℕ) → (ℕ → Row) → ℕ → Option (List (Text × ℕ) × ℕ)
unfolding filtnext
projnext zero table rowindex = none
projnext (suc fuel) table rowindex = elim (filtnext (suc maxrows) table rowindex) [
  | none ↦ none
  | some p ↦ elim (p.0) [
    | none ↦ some ([], p.1)
    | some rec ↦ elim (projnext fuel table p.1) [
      | none ↦ none
      | some q ↦ some ((rec.studentname, rec.score) ∷ q.0, q.1)
    ]
  ]
]

-- `main`: open, print, close.
unfoldable pub query : (ℕ → Row) → ℕ → Option (List (Text × ℕ) × ℕ)
unfolding projnext
query table rowindex = elim (projnext (suc maxrows) table (scanopen rowindex)) [
  | none ↦ none
  | some q ↦ some (q.0, scanclose q.1)
]
