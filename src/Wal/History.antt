-- ===== src/Wal/History.antt =====
-- What commands of WAL-demo.c leave on the disk, and what recovery makes of it.
use genspark_training.Base.{
  ℕ, ◌≤◌, ◌<◌, ◌≡◌, refl, ◌⊎◌, inl, inr, false, Option, none, some, List, [], ◌∷◌, ◌++◌, Text,
  bytes, length, leb, ◌==◌, arith, Bool-cases, Option-cases, ◌-◌, ◌||◌, ◌∙◌, All,
}
use mathlib.Core.List.{append-nil, append_assoc}
use genspark_training.KvStore.Scan.{c_string}
use genspark_training.Wal.Scan.{
  line_len, put_front, fgets_lines, Matched, match_literal, match_int, after_word, convert_int,
  assigned, scan_transaction, is_zero, Arrays, Recovery, other_line, recover_line, recover_lines,
}
use genspark_training.Wal.{
  Disk, append_to, wal_record, db_line, apply_transaction_to_db, write_wal, crash_after_wal,
  recover_from_wal, Command, execute, execute_all,
}

assigned-const : (m m' : Matched) → assigned m ≡ assigned m'
assigned-const (Matched.matched s) (Matched.matched t) = refl
assigned-const (Matched.matched s) Matched.mismatch = refl
assigned-const (Matched.matched s) Matched.input_end = refl
assigned-const Matched.mismatch (Matched.matched t) = refl
assigned-const Matched.mismatch Matched.mismatch = refl
assigned-const Matched.mismatch Matched.input_end = refl
assigned-const Matched.input_end (Matched.matched t) = refl
assigned-const Matched.input_end Matched.mismatch = refl
assigned-const Matched.input_end Matched.input_end = refl

-- The word behind the number has no part in the result.
convert_int-word : (v w : Text) (m : Matched) → convert_int v m ≡ convert_int w m
convert_int-word v w (Matched.matched s) = assigned-const _ _
convert_int-word v w Matched.mismatch = refl
convert_int-word v w Matched.input_end = refl

after_word-word : (v w : Text) (m : Matched) → after_word v m ≡ after_word w m
after_word-word v w (Matched.matched s) = convert_int-word v w (match_int s)
after_word-word v w Matched.mismatch = refl
after_word-word v w Matched.input_end = refl

-- The first and the third test agree on every line.
scan_transaction-word : (v w line : Text) → scan_transaction v line ≡ scan_transaction w line
unfolding scan_transaction
scan_transaction-word v w line =
    after_word-word v w (match_literal (bytes "TRANSACTION") (c_string line))

other_line-db :
    (line : Text) (r : Recovery)
    → is_zero (scan_transaction (bytes "COMMIT") line) ≡ false
    → (other_line line r).db ≡ r.db
unfolding other_line
other_line-db line r h = ground arith

recover_line-db : (line : Text) (r : Recovery) → (recover_line line r).db ≡ r.db
unfolding recover_line
recover_line-db line r = elim (Bool-cases (is_zero (scan_transaction (bytes "BEGIN") line))) [
  | inl e ↦ rw e refl
  | inr e ↦
      rw e
        (other_line-db line r (rw (scan_transaction-word (bytes "COMMIT") (bytes "BEGIN") line) e))
]

recover_lines-db : (lines : List Text) (r : Recovery) → (recover_lines lines r).db ≡ r.db
unfolding recover_lines
recover_lines-db [] r = refl
recover_lines-db (line ∷ lines) r =
    recover_lines-db lines (recover_line line r) ∙ recover_line-db line r

recover_from_wal-db :
    (arrays : Arrays) (d : Disk) (log : Text)
    → d.wal ≡ some log
    → (recover_from_wal arrays d).db ≡ some []
unfolding recover_from_wal
recover_from_wal-db arrays d log e = rw (e, recover_lines-db (fgets_lines line_len log) _) refl

-- A command that appends to the log.
abbrev pub Logs : Command → Type 0
Logs (Command.write key value) = Unit
Logs (Command.write_nosync key value) = Unit
Logs (Command.crash key value) = Unit
Logs (Command.recover arrays) = ⊥
Logs Command.display = ⊥

abbrev pub SomeLogs : List Command → Type 0
SomeLogs [] = ⊥
SomeLogs (c ∷ cs) = Logs c ⊎ SomeLogs cs

abbrev pub HasLog : Disk → Type 0
HasLog d = (log : Text) × (d.wal ≡ some log)

append_to-some : (old : Option Text) (t : Text) → (log : Text) × (append_to old t ≡ some log)
append_to-some none t = (t, refl)
append_to-some (some o) t = (o ++ t, refl)

Logs-HasLog : (c : Command) (d : Disk) → Logs c → HasLog (execute c d)
unfolding execute write_wal crash_after_wal apply_transaction_to_db
Logs-HasLog (Command.write key value) d h = append_to-some d.wal _
Logs-HasLog (Command.write_nosync key value) d h = append_to-some d.wal _
Logs-HasLog (Command.crash key value) d h = append_to-some d.wal _
Logs-HasLog (Command.recover arrays) d h = absurd h
Logs-HasLog Command.display d h = absurd h

recover_from_wal-wal : (arrays : Arrays) (d : Disk) → (recover_from_wal arrays d).wal ≡ d.wal
unfolding recover_from_wal
recover_from_wal-wal arrays d = elim (Option-cases d.wal) [
  | inl e ↦ rw (e, recover_from_wal) e
  | inr (log, e) ↦ rw (e, recover_from_wal) e
]

execute-HasLog : (c : Command) (d : Disk) → HasLog d → HasLog (execute c d)
unfolding execute
execute-HasLog (Command.write key value) d h = Logs-HasLog (Command.write key value) d tt
execute-HasLog (Command.write_nosync key value) d h =
    Logs-HasLog (Command.write_nosync key value) d tt
execute-HasLog (Command.crash key value) d h = Logs-HasLog (Command.crash key value) d tt
execute-HasLog (Command.recover arrays) d (log, e) = (log, recover_from_wal-wal arrays d ∙ e)
execute-HasLog Command.display d h = h

execute_all-HasLog :
    (cs : List Command) (d : Disk) → HasLog d ⊎ SomeLogs cs → HasLog (execute_all cs d)
unfolding execute_all
execute_all-HasLog [] d (inl h) = h
execute_all-HasLog [] d (inr h) = absurd h
execute_all-HasLog (c ∷ cs) d (inl h) =
    execute_all-HasLog cs (execute c d) (inl (execute-HasLog c d h))
execute_all-HasLog (c ∷ cs) d (inr (inl h)) =
    execute_all-HasLog cs (execute c d) (inl (Logs-HasLog c d h))
execute_all-HasLog (c ∷ cs) d (inr (inr h)) = execute_all-HasLog cs (execute c d) (inr h)

-- Once some command has appended to the log, a recovery leaves db.txt empty, whatever commands were run.
pub recover-execute_all :
    (cs : List Command) (arrays : Arrays) (d : Disk)
    → HasLog d ⊎ SomeLogs cs
    → (execute (Command.recover arrays) (execute_all cs d)).db ≡ some []
unfolding execute
recover-execute_all cs arrays d h =
    let (log, e) = execute_all-HasLog cs d h in recover_from_wal-db arrays (execute_all cs d) log e

-- What a command is to append to the log, and to db.txt.
abbrev pub logged : Command → Text
logged (Command.write key value) = wal_record 1 key value
logged (Command.write_nosync key value) = wal_record 1 key value
logged (Command.crash key value) = wal_record 1 key value
logged (Command.recover arrays) = []
logged Command.display = []

abbrev pub applied : Command → Text
applied (Command.write key value) = db_line key value
applied (Command.write_nosync key value) = db_line key value
applied (Command.crash key value) = []
applied (Command.recover arrays) = []
applied Command.display = []

abbrev pub all_of : (Command → Text) → List Command → Text
all_of f [] = []
all_of f (c ∷ cs) = f c ++ all_of f cs

abbrev pub NotRecover : Command → Type 0
NotRecover (Command.recover arrays) = ⊥
NotRecover (Command.write key value) = Unit
NotRecover (Command.write_nosync key value) = Unit
NotRecover (Command.crash key value) = Unit
NotRecover Command.display = Unit

abbrev pub files : Text → Text → Disk
files log table = record { wal = some log; db = some table }

execute-files :
    (c : Command) (log table : Text)
    → NotRecover c
    → execute c (files log table) ≡ files (log ++ logged c) (table ++ applied c)
unfolding execute write_wal crash_after_wal apply_transaction_to_db
execute-files (Command.write key value) log table h = refl
execute-files (Command.write_nosync key value) log table h = refl
execute-files (Command.crash key value) log table h = rw (append-nil table)
execute-files (Command.recover arrays) log table h = absurd h
execute-files Command.display log table h = rw (append-nil table, append-nil log)

-- Without a recovery, commands append to the log the record of each write and each crash, and to db.txt
-- the line of each write that did not crash, in their order.
pub execute_all-files :
    (cs : List Command) (log table : Text)
    → All NotRecover cs
    → execute_all cs (files log table)
      ≡ files (log ++ all_of logged cs) (table ++ all_of applied cs)
unfolding execute_all
execute_all-files [] log table h = rw (append-nil table, append-nil log)
execute_all-files (c ∷ cs) log table h = rw (
  execute-files c log table h.0,
  execute_all-files cs (log ++ logged c) (table ++ applied c) h.1,
  append_assoc log (logged c) (all_of logged cs),
  append_assoc table (applied c) (all_of applied cs),
)

abbrev pub concat : List Text → Text
concat [] = []
concat (l ∷ ls) = l ++ concat ls

concat-put_front : (b : ℕ) (ls : List Text) → concat (put_front b ls) ≡ b ∷ concat ls
concat-put_front b [] = refl
concat-put_front b (l ∷ ls) = refl

-- `room` bytes at most in the first line, and `line_len` in the others.
abbrev pub Fit : ℕ → List Text → Type 0
Fit room [] = Unit
Fit room (l ∷ ls) = (length l ≤ room) × All (λ l. length l ≤ line_len) ls

put_front-Fit :
    (b room : ℕ) (ls : List Text) → 1 < room → Fit (room - 1) ls → Fit room (put_front b ls)
put_front-Fit b room [] p h = (omega arith, tt)
put_front-Fit b room (l ∷ ls) p h = (omega (arith, h.0), h.1)

Fit-All : (ls : List Text) → Fit line_len ls → All (λ l. length l ≤ line_len) ls
Fit-All [] h = tt
Fit-All (l ∷ ls) h = h

-- The lines that `fgets` returns make up the file, and fit the buffer.
pub concat-fgets_lines :
    (room : ℕ) (s : Text)
    → 0 < room
    → (concat (fgets_lines room s) ≡ s) × Fit room (fgets_lines room s)
unfolding fgets_lines
concat-fgets_lines room [] p = (refl, tt)
concat-fgets_lines room (b ∷ s) p = elim (Bool-cases ((b == 10) || leb room 1)) [
  | inl e ↦
      let (c, f) = concat-fgets_lines line_len s (omega arith) in
      rw e (rw c, (omega arith, Fit-All (fgets_lines line_len s) f))
  | inr e ↦
      let more : 1 < room = ground arith in
      let (c, f) = concat-fgets_lines (room - 1) s (omega (arith, more)) in
      rw e (
        concat-put_front b (fgets_lines (room - 1) s) ∙ rw c,
        put_front-Fit b room (fgets_lines (room - 1) s) more f,
      )
]
