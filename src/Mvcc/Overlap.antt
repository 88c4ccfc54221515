-- ===== src/Mvcc/Overlap.antt =====
-- Calls of mvcc-in-memory-key-value.c by threads, each with a transaction of its own: a commit takes its
-- timestamp in one step and the lock for all the rest in another, and what other threads do may come between.
-- `begin_tx`, `tx_write` and `tx_abort` are one step each, though `tx_write` tests the state outside the lock and
-- takes the lock twice.
pub mod Steps
pub mod Snapshot
pub mod Twice
use genspark_training.Base.{
  ℕ, ◌<◌, ◌≡◌, ◌≢◌, Option, none, some, Text, ℤ, pos, negsuc, update, if◌then◌else◌, true,
}
use genspark_training.Mvcc.Chain.{ulong_max, IsBefore}
use genspark_training.Mvcc.State.{Db, is_active}
use genspark_training.Mvcc.Ops.{buffered, begin_tx, tx_write, tx_abort, take_ts, commit_at}
use genspark_training.Mvcc.Invariant.{IsValid}

-- The store, and the local `commit_ts` of the transactions that are between the two steps.
pub record Busy : Type 0 where
  pub db : Db
  pub stamps : ℕ → Option ℕ

pub data Turn : Type 0 where
  begins : ℤ → Turn
  writes : (t : ℕ) (kname value : Text) → Turn
  aborts stamps lands : ℕ → Turn

-- A commit of a transaction that is not active returns at once.
unfoldable pub stamp : ℕ → Busy → Busy
unfolding take_ts
stamp t b =
    if is_active (b.db.txs t).state
    then (let (ts, d) = take_ts b.db in record { db = d; stamps = update b.stamps t (some ts) })
    else b

unfoldable pub land : ℕ → Busy → Busy
unfolding commit_at
land t b = elim (b.stamps t) [
  | none ↦ b
  | some ts ↦ record { db = commit_at ts t b.db; stamps = update b.stamps t none }
]

unfoldable pub turn : Turn → Busy → Busy
unfolding stamp land begin_tx tx_write tx_abort
turn (begins id) b = record b { db = (begin_tx id b.db).1 }
turn (writes t kname value) b = record b { db = (tx_write (some t) kname value b.db).1 }
turn (aborts t) b = record b { db = tx_abort (some t) b.db }
turn (stamps t) b = stamp t b
turn (lands t) b = land t b

-- The thread of the transaction is not inside `tx_commit`.
abbrev pub IsAllowed : Turn → Busy → Type 0
IsAllowed (begins (negsuc n)) b = Unit
IsAllowed (begins (pos id)) b = b.stamps id ≡ none
IsAllowed (writes t kname value) b = b.stamps t ≡ none
IsAllowed (aborts t) b = b.stamps t ≡ none
IsAllowed (stamps t) b = b.stamps t ≡ none
IsAllowed (lands t) b = Unit

-- Executions, while there are timestamps left.
pub data Plays : Busy → Busy → Type 0 where
  stop : {b : Busy} → Plays b b
  next :
      {b c : Busy}
      → (m : Turn) → IsAllowed m b
      → b.db.global_ts < ulong_max
      → Plays (turn m b) c
      → Plays b c

-- A transaction inside `tx_commit` is active, and its timestamp is one that was handed out, after all versions
-- of the keys that it has written.
pub record IsBusy (b : Busy) : Type 0 where
  pub valid : IsValid b.db
  pub live : (t ts : ℕ) → b.stamps t ≡ some ts → is_active (b.db.txs t).state ≡ true
  pub early : (t ts : ℕ) → b.stamps t ≡ some ts → ts < b.db.global_ts
  pub before :
      (t ts k : ℕ) (x : Text)
      → b.stamps t ≡ some ts
      → buffered k (b.db.txs t).writes ≡ some x
      → IsBefore ts (b.db.store k).versions
