-- ===== src/Mvcc/Invariant/Writes.antt =====
-- `tx_write` of mvcc-in-memory-key-value.c keeps the invariant: the locks, the edges and the buffer.
use genspark_training.Base.{
  ℕ, zero, suc, ◌+◌, ◌<◌, ◌≡◌, refl, Bool, true, false, update, ◌==◌, arith, Option, none, some,
  Bool-cases, Option-cases, inl, inr, List, Text,
}
use genspark_training.Mvcc.Deadlock.{detect_deadlock}
use genspark_training.Mvcc.Deadlock.Correct.{detect_deadlock-iff-Cycle}
use genspark_training.Mvcc.State.{
  KvPair, Db, TxState, is_active, max_keys, find_key_from, find_key_index,
}
use genspark_training.Mvcc.Ops.{put_write, write_locked, write_key, tx_write}
use genspark_training.Mvcc.Locks.{
  LockResult, clear_edges, release_locks, take_lock, add_edge, acquire_from,
}
use genspark_training.Mvcc.Buffer.{buffered-put_write, put_write-IsDistinct}
use genspark_training.Mvcc.Invariant.{IsValid, acyclic_mono}
use genspark_training.Mvcc.Invariant.Steps.{stop-IsValid}

find_key_from-lt :
    (store : ℕ → KvPair) (name : Text) (i n : ℕ) {k : ℕ}
    → find_key_from store name i n ≡ some k
    → k < i + n
unfolding find_key_from
find_key_from-lt store name i zero {k} h = absurd (ground arith)
find_key_from-lt store name i (suc n) {k} h =
    ground (arith, find_key_from-lt store name (suc i) n {k = k})

pub find_key_index-lt :
    (store : ℕ → KvPair) (name : Text) {k : ℕ} → find_key_index store name ≡ some k → k < max_keys
unfolding find_key_index
find_key_index-lt store name h = find_key_from-lt store name 0 max_keys h

module _ (d : Db) (t k : ℕ) (v : IsValid d) (active : is_active (d.txs t).state ≡ true) where
  -- A free lock, or one's own, is taken.
  take_lock-IsValid : ((u : ℕ) → (d.store k).locked_by ≡ some u → u ≡ t) → IsValid (take_lock t k d)
  take_lock-IsValid free = record {
    clock = v.clock;
    ids = v.ids;
    chains = λ j. ground (arith, v.chains j, v.chains k);
    newest = λ j. ground (arith, v.newest j, v.newest k);
    latest = λ u j e. ground (arith, v.latest u j, v.latest u k);
    started = v.started;
    distinct = v.distinct;
    ranged = v.ranged;
    held = λ u j x e b. ground (arith, v.held u j x, free u);
    owners = λ j u e. ground (arith, v.owners j u);
    acyclic = acyclic_mono _ d.wait_for (λ x y e. ground arith) v.acyclic;
  }

  -- A refused lock leaves an edge; without a cycle it stays.
  add_edge-IsValid :
      (w : ℕ → ℕ → Bool) → detect_deadlock w ≡ false → IsValid (record d { wait_for = w })
  add_edge-IsValid w e = record {
    clock = v.clock;
    ids = v.ids;
    chains = v.chains;
    newest = v.newest;
    latest = v.latest;
    started = v.started;
    distinct = v.distinct;
    ranged = v.ranged;
    held = v.held;
    owners = v.owners;
    acyclic = λ c. absurd (ground (arith, (detect_deadlock-iff-Cycle w).1 c));
  }

  buffer-IsValid :
      (value : Text) (ws : List (ℕ × Text))
      → (d.store k).locked_by ≡ some t
      → k < max_keys
      → put_write k value (d.txs t).writes ≡ some ws
      → IsValid (record d { txs = update d.txs t (record (d.txs t) { writes = ws }) })
  buffer-IsValid value ws own fits e = record {
    clock = v.clock;
    ids = λ u. ground (arith, v.ids u);
    chains = v.chains;
    newest = v.newest;
    latest = λ u j h. v.latest u j (ground arith);
    started = λ u h. ground (arith, v.started u);
    distinct = λ u h. elim (Bool-cases (t == u)) [
      | inl here ↦ rw here (put_write-IsDistinct k value _ ws e (v.distinct t active))
      | inr other ↦ rw other (v.distinct u (ground arith))
    ];
    ranged = λ u j x h b. ground (arith, v.ranged u j x, buffered-put_write k value _ ws j e);
    held = λ u j x h b. ground (arith, v.held u j x, buffered-put_write k value _ ws j e);
    owners = λ j u h. ground (arith, v.owners j u);
    acyclic = v.acyclic;
  }

-- A transaction that would close a cycle is aborted: its new edge goes with the old ones.
abort-IsValid :
    (d : Db) (t owner : ℕ)
    → IsValid d
    → IsValid (record d {
      store = release_locks (d.txs t).id d.store;
      txs = update d.txs t (record (d.txs t) { state = TxState.aborted });
      wait_for = clear_edges (d.txs t).id (add_edge t owner d.wait_for);
    })
abort-IsValid d t owner v = stop-IsValid t _ _ d v (v.ids t) refl (
    acyclic_mono (clear_edges (d.txs t).id (add_edge t owner d.wait_for)) d.wait_for
      (λ x y e. ground (arith, v.ids t)) v.acyclic)

acquired-IsValid :
    (d : Db) (t k : ℕ) (value : Text)
    → IsValid d
    → (d.store k).locked_by ≡ some t
    → k < max_keys
    → is_active (d.txs t).state ≡ true
    → IsValid (write_locked t k value (LockResult.acquired, d)).1
unfolding write_locked
acquired-IsValid d t k value v own fits active =
    elim (Option-cases (put_write k value (d.txs t).writes)) [
      | inl full ↦ rw (full, write_locked) v
      | inr (ws, e) ↦ rw (e, write_locked) (buffer-IsValid d t k v active value ws own fits e)
    ]

write_locked-IsValid :
    (owner : Option ℕ) (d : Db) (t k : ℕ) (value : Text)
    → IsValid d
    → (d.store k).locked_by ≡ owner
    → k < max_keys
    → is_active (d.txs t).state ≡ true
    → IsValid (write_locked t k value (acquire_from owner t k d)).1
unfolding acquire_from write_locked
write_locked-IsValid none d t k value v e fits active =
    acquired-IsValid (take_lock t k d) t k value
      (take_lock-IsValid d t k v active (λ u h. ground arith)) (ground arith) fits active
write_locked-IsValid (some owner) d t k value v e fits active = elim (Bool-cases (owner == t)) [
  | inl own ↦ rw own (
      acquired-IsValid (take_lock t k d) t k value
        (take_lock-IsValid d t k v active (λ u h. ground arith)) (ground arith) fits active)
  | inr other ↦ elim (Bool-cases (detect_deadlock (add_edge t owner d.wait_for))) [
    | inl cycle ↦ rw (other, cycle) (abort-IsValid d t owner v)
    | inr free ↦
        rw (other, free) (add_edge-IsValid d t k v active (add_edge t owner d.wait_for) free)
  ]
]

-- `tx_write` keeps the invariant, whether it buffers the write, is blocked, or aborts the transaction.
pub tx_write-IsValid :
    (handle : Option ℕ) (kname value : Text) (d : Db)
    → IsValid d
    → IsValid (tx_write handle kname value d).1
unfolding tx_write write_key
tx_write-IsValid none kname value d v = v
tx_write-IsValid (some t) kname value d v = elim (Bool-cases (is_active (d.txs t).state)) [
  | inr idle ↦ rw idle v
  | inl active ↦ elim (Option-cases (find_key_index d.store kname)) [
    | inl absent ↦ rw (active, absent) v
    | inr (k, e) ↦
        rw (active, e, v.ids t)
          (write_locked-IsValid (d.store k).locked_by d t k value v refl
            (find_key_index-lt d.store kname e) active)
  ]
]
