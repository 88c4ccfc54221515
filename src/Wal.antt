-- ===== src/Wal.antt =====
-- WAL-demo.c: a process runs one command, so it finds `transaction_id` at 1. Files that are opened for
-- writing are taken to open. `fsync` has no part in the model: no crash loses what was written.
pub mod Scan
pub mod History
mod Tests
use genspark_training.Base.{
  false, ℕ, zero, suc, ◌+◌, ◌/◌, ◌%◌, Option, none, some, List, [], ◌∷◌, ◌++◌, Text, bytes, ltb,
  if◌then◌else◌,
}
use genspark_training.Wal.Scan.{Arrays, Recovery, recover_lines, fgets_lines, line_len}

-- The contents of wal.log and db.txt; `none`: there is no such file.
pub record Disk : Type 0 where
  pub wal : Option Text
  pub db : Option Text

-- `fprintf` to a file that is opened with "a".
abbrev pub append_to : Option Text → Text → Option Text
append_to none text = some text
append_to (some old) text = some (old ++ text)

-- `%d` of a positive `int`, by its digits; there are no more than `fuel`.
unfoldable pub decimal_from : (fuel : ℕ) → ℕ → Text
decimal_from zero n = []
decimal_from (suc fuel) n =
    let rest = decimal_from fuel (n / 10) in
    if ltb n 10 then (48 + n) ∷ [] else rest ++ (48 + n % 10) ∷ []

abbrev pub decimal : ℕ → Text
decimal n = decimal_from 10 n

-- The three lines that a write appends to the log.
unfoldable pub wal_record : ℕ → Text → Text → Text
unfolding decimal_from
wal_record transaction_id key value =
    bytes "TRANSACTION "
    ++ (decimal transaction_id
        ++ (bytes " BEGIN"
            ++ (10
                ∷ (bytes "SET "
                    ++ (key
                        ++ (32
                            ∷ (value
                                ++ (10
                                    ∷ (bytes "TRANSACTION "
                                        ++ (decimal transaction_id
                                            ++ (bytes " COMMIT" ++ 10 ∷ [])))))))))))

unfoldable pub db_line : Text → Text → Text
db_line key value = key ++ (32 ∷ (value ++ 10 ∷ []))

unfoldable pub apply_transaction_to_db : Text → Text → Disk → Disk
unfolding db_line
apply_transaction_to_db key value d = record d { db = append_to d.db (db_line key value) }

-- The part that the three writing commands share.
abbrev pub append_record : ℕ → Text → Text → Disk → Disk
append_record transaction_id key value d = record d {
  wal = append_to d.wal (wal_record transaction_id key value);
}

-- `write_wal_with_fsync`, and `write_wal_without_fsync`; the second number is the counter afterwards.
unfoldable pub write_wal : ℕ → Text → Text → Disk → Disk × ℕ
unfolding wal_record apply_transaction_to_db
write_wal transaction_id key value d = (
  apply_transaction_to_db key value (append_record transaction_id key value d),
  transaction_id + 1,
)

-- The process ends in front of the write to db.txt.
unfoldable pub crash_after_wal : ℕ → Text → Text → Disk → Disk
unfolding wal_record
crash_after_wal transaction_id key value d = append_record transaction_id key value d

-- `arrays` is what `current_key` and `current_value` hold at first.
unfoldable pub recover_from_wal : Arrays → Disk → Disk
unfolding recover_lines fgets_lines
recover_from_wal arrays d = elim (d.wal) [
  | none ↦ d
  | some log ↦ record d {
    db =
        some
          (recover_lines (fgets_lines line_len log)
            (record { in_transaction = false; arrays = arrays; db = [] })).db;
  }
]

pub data Command : Type 0 where
  write write_nosync crash : Text → Text → Command
  recover : Arrays → Command
  display : Command

-- The dispatch of `main` in a process of its own.
unfoldable pub execute : Command → Disk → Disk
unfolding write_wal crash_after_wal recover_from_wal
execute (Command.write key value) d = (write_wal 1 key value d).0
execute (Command.write_nosync key value) d = (write_wal 1 key value d).0
execute (Command.crash key value) d = crash_after_wal 1 key value d
execute (Command.recover arrays) d = recover_from_wal arrays d
execute Command.display d = d

unfoldable pub execute_all : List Command → Disk → Disk
unfolding execute
execute_all [] d = d
execute_all (c ∷ cs) d = execute_all cs (execute c d)
