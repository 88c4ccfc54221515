-- ===== src/Mvcc/Locks.antt =====
-- Locks and wait-for edges in mvcc-in-memory-key-value.c: `try_acquire_lock`, and the loops that free the
-- locks and the edges of a transaction.
use genspark_training.Base.{
  ℕ, Bool, true, false, ◌&&◌, ◌||◌, Option, none, some, update, ◌==◌, if◌then◌else◌,
}
use genspark_training.Mvcc.State.{KvPair, Db, owned_by}
use genspark_training.Mvcc.Deadlock.{detect_deadlock}

-- `wait_for[id][j] = wait_for[j][id] = 0` for every `j`
abbrev pub clear_edges : ℕ → (ℕ → ℕ → Bool) → ℕ → ℕ → Bool
clear_edges id wait_for u v = if (u == id) || (v == id) then false else wait_for u v

-- The loop that frees what `id` holds.
abbrev pub release_locks : ℕ → (ℕ → KvPair) → ℕ → KvPair
release_locks id store i =
    if owned_by id (store i).locked_by then record (store i) { locked_by = none } else store i

-- The return values 0, 1 and -1.
pub data LockResult : Type 0 where
  acquired blocked deadlock : LockResult

abbrev pub take_lock : ℕ → ℕ → Db → Db
take_lock id k d = record d {
  store = update d.store k (record (d.store k) { locked_by = some id });
  wait_for = λ u v. if u == id then false else d.wait_for u v;
}

abbrev pub add_edge : ℕ → ℕ → (ℕ → ℕ → Bool) → ℕ → ℕ → Bool
add_edge id owner wait_for u v = if (u == id) && (v == owner) then true else wait_for u v

unfoldable pub acquire_from : Option ℕ → ℕ → ℕ → Db → LockResult × Db
acquire_from none id k d = (LockResult.acquired, take_lock id k d)
acquire_from (some owner) id k d =
    if owner == id then (LockResult.acquired, take_lock id k d) else (
      if detect_deadlock (add_edge id owner d.wait_for)
          then LockResult.deadlock
          else LockResult.blocked,
      record d { wait_for = add_edge id owner d.wait_for },
    )

unfoldable pub try_acquire_lock : ℕ → ℕ → Db → LockResult × Db
unfolding acquire_from
try_acquire_lock id k d = acquire_from (d.store k).locked_by id k d
