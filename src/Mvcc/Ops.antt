-- ===== src/Mvcc/Ops.antt =====
-- The calls of mvcc-in-memory-key-value.c: `begin_tx`, `tx_read`, `tx_write`, `tx_commit` and `tx_abort`.
-- A call is taken whole, as `main` makes them, one after the other. Where threads overlap, the calls are finer
-- steps: they test the state of the transaction and hand out timestamps outside `global_lock`. The two steps of
-- a commit are `take_ts` and `commit_at`.
use genspark_training.Base.{
  ℕ, ◌+◌, ◌%◌, ◌^◌, Option, none, some, List, [], ◌∷◌, ◌++◌, Text, strncpy, update, length, leb,
  ◌==◌, if◌then◌else◌, ℤ, pos, negsuc,
}
use mathlib.Core.Option
use genspark_training.Mvcc.State.{
  KvPair, Db, Transaction, TxState, is_active, find_key_index, value_len, max_writes_per_tx,
}
use genspark_training.Mvcc.Chain.{install, visible}
use genspark_training.Mvcc.Deadlock.{max_transactions}
use genspark_training.Mvcc.Locks.{LockResult, clear_edges, release_locks, try_acquire_lock}

-- `atomic_fetch_add(&global_ts, 1)` leaves this behind.
abbrev pub next_ts : ℕ → ℕ
next_ts ts = (ts + 1) % 2 ^ 64

unfoldable pub begin_tx : ℤ → Db → Option ℕ × Db
begin_tx (negsuc n) d = (none, d)
begin_tx (pos id) d = if leb max_transactions id then (none, d) else (
  some id,
  record d {
    txs =
        update d.txs id
          (record { id = id; state = TxState.active; start_ts = d.global_ts; writes = [] });
    wait_for = clear_edges id d.wait_for;
    global_ts = next_ts d.global_ts;
  },
)

-- The loop over the buffered writes in `tx_read`.
unfoldable pub buffered : ℕ → List (ℕ × Text) → Option Text
buffered k [] = none
buffered k ((j, v) ∷ ws) = if j == k then some v else buffered k ws

-- The two `strncpy` of `tx_read`. A stored value of 32 bytes has no terminator: with an `out_len` above 32 the
-- source reads on behind such a value, where this stops.
unfoldable pub read_key : Transaction → (ℕ → KvPair) → ℕ → ℕ → Option Text
unfolding buffered
read_key t store out_len k = elim (buffered k t.writes) [
  | some v ↦ some (strncpy out_len v)
  | none ↦ Option.map (strncpy out_len) (visible t.start_ts (store k).versions)
]

-- What `tx_read` does behind `find_key_index`.
unfoldable pub read_found : Transaction → (ℕ → KvPair) → ℕ → Option ℕ → Option Text
unfolding read_key
read_found t store out_len none = none
read_found t store out_len (some k) = read_key t store out_len k

-- `none` is -1; otherwise what is copied to `out_value`.
unfoldable pub tx_read : Option ℕ → Text → ℕ → Db → Option Text
unfolding read_found
tx_read none kname out_len d = none
tx_read (some t) kname out_len d =
    if is_active (d.txs t).state
    then read_found (d.txs t) d.store out_len (find_key_index d.store kname)
    else none

-- The loop over the buffered writes in `tx_write`: `none` if no entry has the key.
unfoldable pub replace : ℕ → Text → List (ℕ × Text) → Option (List (ℕ × Text))
replace k value [] = none
replace k value ((j, v) ∷ ws) =
    if j == k
    then some ((j, strncpy value_len value) ∷ ws)
    else Option.map (◌∷◌ (j, v)) (replace k value ws)

-- `none`: the buffer is full.
unfoldable pub put_write : ℕ → Text → List (ℕ × Text) → Option (List (ℕ × Text))
unfolding replace
put_write k value ws = elim (replace k value ws) [
  | some ws' ↦ some ws'
  | none ↦
      if leb max_writes_per_tx (length ws)
      then none
      else some (ws ++ (k, strncpy value_len value) ∷ [])
]

-- The return values 0, 1 and -1.
pub data Status : Type 0 where
  done blocked failed : Status

abbrev pub set_tx : ℕ → Transaction → Db → Db
set_tx t tx d = record d { txs = update d.txs t tx }

-- What `tx_write` does behind `try_acquire_lock`.
unfoldable pub write_locked : ℕ → ℕ → Text → LockResult × Db → Status × Db
unfolding put_write
write_locked t k value (LockResult.deadlock, d) = (
  Status.failed,
  record d {
    store = release_locks (d.txs t).id d.store;
    txs = update d.txs t (record (d.txs t) { state = TxState.aborted });
    wait_for = clear_edges (d.txs t).id d.wait_for;
  },
)
write_locked t k value (LockResult.blocked, d) = (Status.blocked, d)
write_locked t k value (LockResult.acquired, d) = elim (put_write k value (d.txs t).writes) [
  | none ↦ (Status.failed, d)
  | some ws ↦ (Status.done, set_tx t (record (d.txs t) { writes = ws }) d)
]

unfoldable pub write_key : ℕ → Option ℕ → Text → Db → Status × Db
unfolding write_locked try_acquire_lock
write_key t none value d = (Status.failed, d)
write_key t (some k) value d = write_locked t k value (try_acquire_lock (d.txs t).id k d)

unfoldable pub tx_write : Option ℕ → Text → Text → Db → Status × Db
unfolding write_key
tx_write none kname value d = (Status.failed, d)
tx_write (some t) kname value d =
    if is_active (d.txs t).state
    then write_key t (find_key_index d.store kname) value d
    else (Status.failed, d)

-- The first loop of `tx_commit`.
unfoldable pub install_all : ℕ → List (ℕ × Text) → (ℕ → KvPair) → ℕ → KvPair
install_all ts [] store = store
install_all ts ((k, v) ∷ ws) store = install_all ts ws (
    update store k
      (record (store k) { versions = install ts (strncpy value_len v) (store k).versions }))

-- `atomic_fetch_add(&global_ts, 1)`, which `tx_commit` does before it takes `global_lock`.
unfoldable pub take_ts : Db → ℕ × Db
take_ts d = (d.global_ts, record d { global_ts = next_ts d.global_ts })

-- What `tx_commit` does under `global_lock`, with the timestamp that it took before.
unfoldable pub commit_at : ℕ → ℕ → Db → Db
unfolding install_all
commit_at commit_ts t d = record d {
  store = release_locks (d.txs t).id (install_all commit_ts (d.txs t).writes d.store);
  txs = update d.txs t (record (d.txs t) { state = TxState.committed });
  wait_for = clear_edges (d.txs t).id d.wait_for;
}

-- A commit that no other call overlaps.
unfoldable pub tx_commit : Option ℕ → Db → Status × Db
unfolding take_ts commit_at
tx_commit none d = (Status.failed, d)
tx_commit (some t) d =
    if is_active (d.txs t).state
    then (let (commit_ts, d') = take_ts d in (Status.done, commit_at commit_ts t d'))
    else (Status.failed, d)

unfoldable pub tx_abort : Option ℕ → Db → Db
tx_abort none d = d
tx_abort (some t) d = record d {
  store = release_locks (d.txs t).id d.store;
  txs = update d.txs t (record (d.txs t) { state = TxState.aborted; writes = [] });
  wait_for = clear_edges (d.txs t).id d.wait_for;
}
