-- ===== src/Mvcc/Run.antt =====
-- Sequences of calls of mvcc-in-memory-key-value.c, as `main` makes them, in any order and on any
-- transaction: the invariant holds behind each of them.
use genspark_training.Base.{
  ℕ, ◌+◌, ◌≤◌, ◌<◌, ◌≡◌, refl, arith, Option, none, some, List, [], ◌∷◌, Text, length, ℤ, pos,
  negsuc,
}
use genspark_training.Mvcc.Chain.{ulong_max}
use genspark_training.Mvcc.State.{Db, init_store}
use genspark_training.Mvcc.Ops.{begin_tx, tx_write, tx_commit, tx_abort}
use genspark_training.Mvcc.Invariant.{IsValid}
use genspark_training.Mvcc.Invariant.Steps.{
  init_store-IsValid, begin_tx-IsValid, tx_commit-IsValid, tx_abort-IsValid,
}
use genspark_training.Mvcc.Invariant.Writes.{tx_write-IsValid}

-- The calls that change the store; `tx_read` changes nothing.
pub data Call : Type 0 where
  begin : ℤ → Call
  write : (handle : Option ℕ) (kname value : Text) → Call
  commit abort : (handle : Option ℕ) → Call

unfoldable pub step : Call → Db → Db
step (begin id) d = (begin_tx id d).1
step (write h k v) d = (tx_write h k v d).1
step (commit h) d = (tx_commit h d).1
step (abort h) d = tx_abort h d

unfoldable pub run : List Call → Db → Db
run [] d = d
run (c ∷ cs) d = run cs (step c d)

pub step-IsValid : (c : Call) (d : Db) → IsValid d → d.global_ts < ulong_max → IsValid (step c d)
unfolding step
step-IsValid (begin id) d v h = begin_tx-IsValid id d v h
step-IsValid (write t k x) d v h = tx_write-IsValid t k x d v
step-IsValid (commit t) d v h = tx_commit-IsValid t d v h
step-IsValid (abort t) d v h = tx_abort-IsValid t d v

-- A write hands out no timestamp.
global_ts-tx_write :
    (handle : Option ℕ) (kname value : Text) (d : Db)
    → (tx_write handle kname value d).1.global_ts ≡ d.global_ts
unfolding tx_write
global_ts-tx_write none kname value d = refl
global_ts-tx_write (some t) kname value d = ground arith

-- A call hands out one timestamp at most.
pub step_clock : (c : Call) (d : Db) → (step c d).global_ts ≤ d.global_ts + 1
unfolding step begin_tx tx_commit tx_abort
step_clock (begin (negsuc n)) d = omega arith
step_clock (begin (pos id)) d = ground arith
step_clock (write t k x) d = omega (arith, global_ts-tx_write t k x d)
step_clock (commit none) d = omega arith
step_clock (commit (some t)) d = ground arith
step_clock (abort none) d = omega arith
step_clock (abort (some t)) d = omega arith

run-IsValid :
    (cs : List Call) (d : Db) → IsValid d → d.global_ts + length cs ≤ ulong_max → IsValid (run cs d)
unfolding run
run-IsValid [] d v h = v
run-IsValid (c ∷ cs) d v h =
    run-IsValid cs (step c d) (step-IsValid c d v (omega arith)) (omega (arith, step_clock c d))

-- From `init_store` on every sequence of calls keeps the invariant while timestamps are left.
pub run-init_store-IsValid :
    (cs : List Call) (d : Db)
    → 0 < d.global_ts
    → d.global_ts + length cs ≤ ulong_max
    → IsValid (run cs (init_store d))
unfolding init_store
run-init_store-IsValid cs d p h =
    run-IsValid cs (init_store d) (init_store-IsValid d p (omega arith)) h
