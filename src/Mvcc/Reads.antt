-- ===== src/Mvcc/Reads.antt =====
-- Reads and writes of mvcc-in-memory-key-value.c against each other, and when a write fails.
use genspark_training.Base.{
  ℕ, ◌+◌, ◌≤◌, ◌<◌, ◌≡◌, refl, ◌≢◌, true, false, arith, Option, none, some, Bool-cases,
  Option-cases, inl, inr, List, Text, pos, leb, ◌==◌, strncpy, ap, ◌∙◌, ◌↔◌,
}
use genspark_training.Mvcc.Chain.{ulong_max, visible, visible_total, visible-install_after}
use genspark_training.Mvcc.Deadlock.{max_transactions, detect_deadlock}
use genspark_training.Mvcc.Deadlock.Graph.{Cycle}
use genspark_training.Mvcc.Deadlock.Correct.{detect_deadlock-iff-Cycle}
use genspark_training.Mvcc.State.{Db, is_active, find_key_index, max_keys, value_len}
use genspark_training.Mvcc.Ops.{
  Status, buffered, begin_tx, tx_read, tx_write, tx_commit, write_locked, put_write,
}
use genspark_training.Mvcc.Locks.{LockResult, acquire_from, take_lock, add_edge}
use genspark_training.Mvcc.Buffer.{buffered-put_write, length-le_of_IsDistinct, put_write_total}
use genspark_training.Mvcc.Invariant.{IsValid}
use genspark_training.Mvcc.Invariant.Steps.{chain_after}
use genspark_training.Mvcc.Snapshot.{find_key_index-cong, name-install_all}

-- In a valid state an active transaction can read every key that exists.
pub tx_read_total :
    (t k : ℕ) (d : Db) (kname : Text) (len : ℕ)
    → IsValid d
    → is_active (d.txs t).state ≡ true
    → find_key_index d.store kname ≡ some k
    → (x : Text) × (tx_read (some t) kname len d ≡ some x)
unfolding tx_read
tx_read_total t k d kname len v a e = elim (Option-cases (buffered k (d.txs t).writes)) [
  | inr (x, own) ↦ (strncpy len x, ground arith)
  | inl other ↦
      let (x, found) =
        visible_total (d.txs t).start_ts ulong_max (d.store k).versions (v.chains k)
          (v.started t a).0 (omega (arith, v.started t a, v.clock)) in
      (strncpy len x, ground arith)
]

buffered-write_locked :
    (t k : ℕ) (value : Text) (d : Db)
    → (write_locked t k value (LockResult.acquired, d)).0 ≡ Status.done
    → buffered k ((write_locked t k value (LockResult.acquired, d)).1.txs t).writes
      ≡ some (strncpy value_len value)
unfolding write_locked
buffered-write_locked t k value d h = elim (Option-cases (put_write k value (d.txs t).writes)) [
  | inl full ↦ absurd (ground arith)
  | inr (ws, e) ↦ ground (arith, buffered-put_write k value (d.txs t).writes ws k e)
]

buffered-acquire_from :
    (owner : Option ℕ) (t k : ℕ) (value : Text) (d : Db)
    → (write_locked t k value (acquire_from owner (d.txs t).id k d)).0 ≡ Status.done
    → buffered k ((write_locked t k value (acquire_from owner (d.txs t).id k d)).1.txs t).writes
      ≡ some (strncpy value_len value)
unfolding acquire_from
buffered-acquire_from none t k value d h =
    buffered-write_locked t k value (take_lock (d.txs t).id k d) h
buffered-acquire_from (some owner) t k value d h = elim (Bool-cases (owner == (d.txs t).id)) [
  | inl own ↦ rw own (buffered-write_locked t k value (take_lock (d.txs t).id k d) (rw own at h))
  | inr other ↦ absurd (unfold write_locked in ground arith)
]

-- What `tx_write` leaves in the buffer where it reports success.
buffered-tx_write :
    (t k : ℕ) (d : Db) (kname value : Text)
    → find_key_index d.store kname ≡ some k
    → (tx_write (some t) kname value d).0 ≡ Status.done
    → buffered k ((tx_write (some t) kname value d).1.txs t).writes ≡ some (strncpy value_len value)
unfolding tx_write
buffered-tx_write t k d kname value e h = elim (Bool-cases (is_active (d.txs t).state)) [
  | inr idle ↦ absurd (ground arith)
  | inl active ↦
      rw (active, e) (buffered-acquire_from (d.store k).locked_by t k value d (rw (active, e) at h))
]

names-tx_write :
    (t : ℕ) (d : Db) (kname value : Text) (k : ℕ)
    → ((tx_write (some t) kname value d).1.store k).name ≡ (d.store k).name
unfolding tx_write
names-tx_write t d kname value k = ground arith

active-tx_write :
    (t : ℕ) (d : Db) (kname value : Text)
    → (tx_write (some t) kname value d).0 ≡ Status.done
    → is_active ((tx_write (some t) kname value d).1.txs t).state ≡ true
unfolding tx_write
active-tx_write t d kname value h = ground arith

-- A transaction reads what it has written: the value, cut to the 32 bytes of a buffer entry.
pub tx_read-tx_write_self :
    (t k : ℕ) (d : Db) (kname value : Text) (len : ℕ)
    → find_key_index d.store kname ≡ some k
    → (tx_write (some t) kname value d).0 ≡ Status.done
    → tx_read (some t) kname len (tx_write (some t) kname value d).1
      ≡ some (strncpy len (strncpy value_len value))
unfolding tx_read
tx_read-tx_write_self t k d kname value len e h =
    rw
      (
        active-tx_write t d kname value h,
        find_key_index-cong (tx_write (some t) kname value d).1.store d.store kname
            (names-tx_write t d kname value),
        e,
      )
      (ground (arith, buffered-tx_write t k d kname value e h))

pub tx_read-visible :
    (u k : ℕ) (d : Db) (kname x : Text) (len : ℕ)
    → is_active (d.txs u).state ≡ true
    → find_key_index d.store kname ≡ some k
    → buffered k (d.txs u).writes ≡ none
    → visible (d.txs u).start_ts (d.store k).versions ≡ some x
    → tx_read (some u) kname len d ≡ some (strncpy len x)
unfolding tx_read
tx_read-visible u k d kname x len a e b f = ground arith

-- A transaction that begins right after a commit, with no call in between, reads for each key that the commit
-- has written the value, cut to 32 bytes, where at most 32 bytes are asked for, in a valid state with timestamps
-- left.
pub tx_read-tx_commit :
    (t u k : ℕ) (d : Db) (kname value : Text) (len : ℕ)
    → IsValid d
    → is_active (d.txs t).state ≡ true
    → d.global_ts + 1 < ulong_max
    → u < max_transactions
    → find_key_index d.store kname ≡ some k
    → buffered k (d.txs t).writes ≡ some value
    → len ≤ value_len
    → tx_read (some u) kname len (begin_tx (pos u) (tx_commit (some t) d).1).1
      ≡ some (strncpy len (strncpy value_len value))
unfolding tx_commit begin_tx buffered
tx_read-tx_commit t u k d kname value len v a room small e b fits =
    let known : leb max_transactions u ≡ false = ground arith in
    rw (a, known)
      (tx_read-visible u k _ kname (strncpy value_len value) len (ground arith)
        (find_key_index-cong _ d.store kname
            (λ j. ground (arith, name-install_all d.global_ts (d.txs t).writes d.store j))
          ∙ e)
        (ground arith)
        (ap (visible _) (chain_after d t v a d.global_ts k)
          ∙ rw b (
              visible-install_after d.global_ts _ (strncpy value_len value) (d.store k).versions
                (ground arith) (ground arith))))

-- The buffer of an active transaction has room: it never holds more than one entry for each key.
put_write-room :
    (t k : ℕ) (value : Text) (d : Db)
    → IsValid d
    → is_active (d.txs t).state ≡ true
    → (ws : List (ℕ × Text)) × (put_write k value (d.txs t).writes ≡ some ws)
put_write-room t k value d v a = put_write_total k value (d.txs t).writes (
    omega (
      arith,
      length-le_of_IsDistinct max_keys (d.txs t).writes (v.distinct t a) (λ j x. v.ranged t j x a),
    ))

-- The lock of key `k` is held by another transaction than `t`, and waiting for it closes a cycle.
abbrev pub ClosesCycle : ℕ → ℕ → Db → Type 0
ClosesCycle t k d =
    (owner : ℕ) × ((d.store k).locked_by ≡ some owner)
    × (owner ≢ t)
    × Cycle max_transactions (add_edge t owner d.wait_for)

acquire_from-failed :
    (o : Option ℕ) (t k : ℕ) (value : Text) (d : Db)
    → IsValid d
    → is_active (d.txs t).state ≡ true
    → (d.store k).locked_by ≡ o
    → ((write_locked t k value (acquire_from o t k d)).0 ≡ Status.failed) ↔ ClosesCycle t k d
unfolding acquire_from write_locked
acquire_from-failed none t k value d v a e =
    let (ws, room) = put_write-room t k value d v a in
    (λ h. absurd (ground arith), λ c. absurd (ground (arith, c.1)))
acquire_from-failed (some owner) t k value d v a e =
    let (ws, room) = put_write-room t k value d v a in
    elim (Bool-cases (owner == t)) [
      | inl own ↦ (λ h. absurd (ground arith), λ c. absurd (ground (arith, c.1, c.2)))
      | inr other ↦ (
        λ h. (owner, e, (λ q. ground arith), (detect_deadlock-iff-Cycle _).0 (ground arith)),
        λ c.
            let same : c.0 ≡ owner = ground (arith, c.1) in
            let found : detect_deadlock (add_edge t owner d.wait_for) ≡ true =
              (detect_deadlock-iff-Cycle _).1 (rw same at c.3) in
            ground arith,
      )
    ]

-- In a valid state, a write of a known key by an active transaction fails exactly when the lock is
-- another's and waiting for its owner would close a cycle of the wait-for graph. The write buffer is
-- never full.
pub tx_write-failed-iff-ClosesCycle :
    (t k : ℕ) (d : Db) (kname value : Text)
    → IsValid d
    → is_active (d.txs t).state ≡ true
    → find_key_index d.store kname ≡ some k
    → ((tx_write (some t) kname value d).0 ≡ Status.failed) ↔ ClosesCycle t k d
unfolding tx_write
tx_write-failed-iff-ClosesCycle t k d kname value v a e =
    rw (a, e, v.ids t) (acquire_from-failed (d.store k).locked_by t k value d v a refl)
