-- ===== src/Wal/Tests.antt =====
-- WAL-demo.c at concrete commands.
use genspark_training.Base.{◌≡◌, refl, inl, inr, none, some, List, [], ◌∷◌, ◌++◌, bytes}
use genspark_training.Wal.Scan.{Arrays}
use genspark_training.Wal.{Command, execute, execute_all}
use genspark_training.Wal.History.{recover-execute_all, files}

abbrev commands : List Command
commands =
    Command.write (bytes "a") (bytes "1")
    ∷ Command.crash (bytes "b") (bytes "2")
    ∷ Command.display
    ∷ []

abbrev arrays : Arrays
arrays = record { current_key = []; current_value = [] }

applied_text : (execute_all commands (files [] [])).db ≡ some (bytes "a 1" ++ 10 ∷ [])
unfolding execute_all
applied_text = refl

recover-execute_all_example :
    (execute (Command.recover arrays) (execute_all commands (record { wal = none; db = none }))).db
    ≡ some []
recover-execute_all_example =
    recover-execute_all commands arrays (record { wal = none; db = none }) (inr (inl tt))
