-- ===== src/Mvcc/Tests.antt =====
-- mvcc-in-memory-key-value.c at concrete states: the calls of `main`, a deadlock, and the theorems at
-- inputs where their hypotheses hold.
use genspark_training.Base.{
  ◌≡◌, refl, ◌↔◌, true, false, none, some, List, [], ◌∷◌, pos, arith, bytes, strncpy, text_eq, ◌==◌,
}
use genspark_training.Mvcc.Chain.{visible, install}
use genspark_training.Mvcc.Deadlock.{max_transactions, detect_deadlock}
use genspark_training.Mvcc.Deadlock.Graph.{Cycle}
use genspark_training.Mvcc.Deadlock.Correct.{detect_deadlock-iff-Cycle}
use genspark_training.Mvcc.State.{Db, TxState, is_active, init_store, find_key_index, value_len}
use genspark_training.Mvcc.Ops.{Status, buffered, begin_tx, tx_read, tx_write, tx_commit, tx_abort}
use genspark_training.Mvcc.Invariant.{IsValid}
use genspark_training.Mvcc.Run.{
  Call, begin, write, commit, step, run, step-IsValid, run-init_store-IsValid,
}
use genspark_training.Mvcc.Snapshot.{tx_read-run}
use genspark_training.Mvcc.Reads.{ClosesCycle, tx_read-tx_commit, tx_write-failed-iff-ClosesCycle}
use genspark_training.Mvcc.Release.{Released, tx_commit-tx_abort-Released}
use genspark_training.Mvcc.Overlap.{
  Busy, begins, stamps, lands, stamp, land, turn, Plays, stop, next, IsBusy,
}
use genspark_training.Mvcc.Overlap.Steps.{Plays-IsBusy, quiet, quiet-IsBusy}
use genspark_training.Mvcc.Overlap.Snapshot.{tx_read-Plays}
use genspark_training.Mvcc.Overlap.Twice.{tx_read_twice}

program : Unit {0}
unfolding init_store find_key_index begin_tx tx_read tx_write tx_commit tx_abort run step text_eq
    detect_deadlock visible install
program = tt

-- The globals before `init_store`.
abbrev zeroed : Db
zeroed = record {
  store = λ i. record { name = []; versions = []; locked_by = some 0 };
  txs = λ i. record { id = 0; state = TxState.unused; start_ts = 0; writes = [] };
  wait_for = λ u v. false;
  global_ts = 1;
}

abbrev both : List Call
both = begin (pos 0) ∷ begin (pos 1) ∷ []

-- The first calls of `main`, up to the commit of transaction 1.
abbrev script : List Call
script = write (some 1) (bytes "key0") (bytes "value_from_t1") ∷ commit (some 1) ∷ []

abbrev begun : Db
begun = run both (init_store zeroed)

begun-IsValid : IsValid begun
begun-IsValid = run-init_store-IsValid both zeroed (omega arith) (omega arith)

main_reads :
    (tx_read (some 0) (bytes "key0") 32 begun ≡ some (bytes "-"))
    × (tx_read (some 0) (bytes "key0") 32 (run script begun) ≡ some (bytes "-"))
    × (tx_read (some 0) (bytes "key9") 32 begun ≡ none)
unfolding program
main_reads = (refl, refl, refl)

-- Two transactions that each want the other's key: the second wait is refused.
abbrev crossed : List Call
crossed =
    write (some 0) (bytes "key1") (bytes "a")
    ∷ write (some 1) (bytes "key2") (bytes "b")
    ∷ write (some 0) (bytes "key2") (bytes "c")
    ∷ []

abbrev waiting : Db
waiting = run crossed begun

crossed_results :
    ((tx_write (some 0) (bytes "key2") (bytes "c") waiting).0 ≡ Status.blocked)
    × ((tx_write (some 1) (bytes "key1") (bytes "d") waiting).0 ≡ Status.failed)
unfolding program
crossed_results = (refl, refl)

detect_deadlock-iff-Cycle_example :
    (detect_deadlock (λ u v. u == v) ≡ true) ↔ Cycle max_transactions (λ u v. u == v)
detect_deadlock-iff-Cycle_example = detect_deadlock-iff-Cycle (λ u v. u == v)

run-init_store-IsValid_example : IsValid (run both (init_store zeroed))
run-init_store-IsValid_example = run-init_store-IsValid both zeroed (omega arith) (omega arith)

step-IsValid_example : IsValid (step (commit (some 1)) begun)
unfolding program
step-IsValid_example = step-IsValid (commit (some 1)) begun begun-IsValid (omega arith)

tx_read-run_example :
    tx_read (some 0) (bytes "key0") 32 (run script begun) ≡ tx_read (some 0) (bytes "key0") 32 begun
unfolding program
tx_read-run_example =
    tx_read-run 0 script begun (bytes "key0") 32 begun-IsValid refl (omega arith)
      ((λ e. omega arith), ((λ e. omega arith), tt)) (omega arith)

-- Transaction 1 has written key 0.
abbrev written : Db
written = step (write (some 1) (bytes "key0") (bytes "v")) begun

written-IsValid : IsValid written
unfolding program
written-IsValid =
    step-IsValid (write (some 1) (bytes "key0") (bytes "v")) begun begun-IsValid (omega arith)

tx_read-tx_commit_example :
    tx_read (some 2) (bytes "key0") 32 (begin_tx (pos 2) (tx_commit (some 1) written).1).1
    ≡ some (strncpy 32 (strncpy value_len (bytes "v")))
unfolding program buffered
tx_read-tx_commit_example =
    tx_read-tx_commit 1 2 0 written (bytes "key0") (bytes "v") 32 written-IsValid refl (omega arith)
      (omega arith) refl refl (omega arith)

waiting-IsValid : IsValid waiting
unfolding run init_store
waiting-IsValid =
    run-init_store-IsValid (begin (pos 0) ∷ begin (pos 1) ∷ crossed) zeroed (omega arith)
      (omega arith)

tx_write-failed-iff-ClosesCycle_example :
    ((tx_write (some 1) (bytes "key1") (bytes "d") waiting).0 ≡ Status.failed)
    ↔ ClosesCycle 1 1 waiting
unfolding program
tx_write-failed-iff-ClosesCycle_example =
    tx_write-failed-iff-ClosesCycle 1 1 waiting (bytes "key1") (bytes "d") waiting-IsValid refl refl

tx_commit-tx_abort-Released_example :
    (is_active (written.txs 1).state ≡ true
      → ((tx_commit (some 1) written).0 ≡ Status.done)
        × Released 1 written (tx_commit (some 1) written).1)
    × Released 1 written (tx_abort (some 1) written)
tx_commit-tx_abort-Released_example = tx_commit-tx_abort-Released 1 written written-IsValid

-- The two steps of a commit of transaction 1.
abbrev committed : Busy
unfolding turn
committed = turn (lands 1) (turn (stamps 1) (quiet written))

commit_steps : Plays (quiet written) committed
unfolding program turn stamp land
commit_steps = next (stamps 1) refl (omega arith) (next (lands 1) tt (omega arith) stop)

Plays-IsBusy_example : IsBusy committed
Plays-IsBusy_example = Plays-IsBusy commit_steps (quiet-IsBusy written written-IsValid)

tx_read-Plays_example :
    tx_read (some 0) (bytes "key0") 32 committed.db ≡ tx_read (some 0) (bytes "key0") 32 written
unfolding program commit_steps
tx_read-Plays_example =
    tx_read-Plays 0 commit_steps (bytes "key0") 32 (quiet-IsBusy written written-IsValid) refl
      (λ u ts e. absurd (ground (arith, e))) ((λ e. omega arith), ((λ e. omega arith), tt))
      (omega arith)

tx_read_twice_example :
    (tx_read (some 2) (bytes "key0") 32 (turn (begins (pos 2)) (turn (stamps 1) (quiet written))).db
      ≡ tx_read (some 2) (bytes "key0") 32 (turn (begins (pos 2)) (quiet written)).db)
    × (tx_read
          (some 2)
          (bytes "key0")
          32
          (turn (lands 1) (turn (begins (pos 2)) (turn (stamps 1) (quiet written)))).db
        ≡ some (strncpy 32 (strncpy value_len (bytes "v"))))
unfolding program buffered
tx_read_twice_example =
    tx_read_twice 1 2 0 (quiet written) (bytes "key0") (bytes "v") 32
      (quiet-IsBusy written written-IsValid) refl (λ e. omega arith) (omega arith) (omega arith)
      refl refl (omega arith)
