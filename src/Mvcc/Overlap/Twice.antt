-- ===== src/Mvcc/Overlap/Twice.antt =====
-- Transactions of mvcc-in-memory-key-value.c that begin between the two steps of a commit.
use genspark_training.Base.{
  ℕ, ◌+◌, ◌≤◌, ◌<◌, ◌≡◌, refl, sym, ap, ◌∙◌, ◌≢◌, true, false, arith, Option, none, some, List, [],
  ◌∷◌, Text, strncpy, pos, update, leb, ◌%◌, ◌^◌,
}
use genspark_training.Mvcc.Chain.{
  Version, ulong_max, visible, visible_total, visible-install_after, IsChain, IsBefore,
}
use genspark_training.Mvcc.Deadlock.{max_transactions}
use genspark_training.Mvcc.State.{Db, TxState, is_active, find_key_index, value_len}
use genspark_training.Mvcc.Ops.{buffered, begin_tx, tx_read, take_ts, commit_at}
use genspark_training.Mvcc.Invariant.{IsValid}
use genspark_training.Mvcc.Invariant.Steps.{chain_after, begin_tx-IsValid, take_ts-IsValid}
use genspark_training.Mvcc.Snapshot.{find_key_index-cong, name-install_all}
use genspark_training.Mvcc.Reads.{tx_read-visible}
use genspark_training.Mvcc.Overlap.{Busy, begins, stamps, lands, stamp, land, turn, IsBusy}

newest_value : List Version → Option Text
newest_value [] = none
newest_value (v ∷ vs) = some v.value

-- Behind the newest version every snapshot is the same.
visible_newest :
    (now : ℕ) (vs : List Version)
    → IsChain ulong_max vs
    → IsBefore now vs
    → now < ulong_max
    → visible now vs ≡ newest_value vs
unfolding visible newest_value
visible_newest now [] c h room = absurd (omega (arith, c))
visible_newest now (v ∷ vs) c h room = ground (arith, c)

-- What a transaction that has just begun reads.
tx_read-begin_tx :
    (u k : ℕ) (d : Db) (kname x : Text) (len : ℕ)
    → u < max_transactions
    → find_key_index d.store kname ≡ some k
    → visible d.global_ts (d.store k).versions ≡ some x
    → tx_read (some u) kname len (begin_tx (pos u) d).1 ≡ some (strncpy len x)
unfolding begin_tx buffered
tx_read-begin_tx u k d kname x len small e f =
    let fits : leb max_transactions u ≡ false = ground arith in
    rw fits (tx_read-visible u k _ kname x len (ground arith) e (ground arith) (ground arith))

-- What a transaction reads that began at or after the timestamp of a commit.
tx_read-commit_at :
    (t u k ts : ℕ) (d : Db) (kname value : Text) (len : ℕ)
    → IsValid d
    → is_active (d.txs t).state ≡ true
    → is_active (d.txs u).state ≡ true
    → buffered k (d.txs u).writes ≡ none
    → t ≢ u
    → ts ≤ (d.txs u).start_ts
    → find_key_index d.store kname ≡ some k
    → buffered k (d.txs t).writes ≡ some value
    → tx_read (some u) kname len (commit_at ts t d) ≡ some (strncpy len (strncpy value_len value))
unfolding commit_at
tx_read-commit_at t u k ts d kname value len v active live clean n late e wrote =
    tx_read-visible u k (commit_at ts t d) kname (strncpy value_len value) len (ground arith)
      (find_key_index-cong (commit_at ts t d).store d.store kname
          (λ j. ground (arith, name-install_all ts (d.txs t).writes d.store j))
        ∙ e)
      (ground arith)
      (ap (visible _) (chain_after d t v active ts k)
        ∙ rw wrote (
            visible-install_after ts _ (strncpy value_len value) (d.store k).versions (ground arith)
              (ground (arith, v.started u, v.clock))))

module _ (t u k : ℕ) (d : Db) (kname value : Text) (len : ℕ) (v : IsValid d)
    (active : is_active (d.txs t).state ≡ true) (n : t ≢ u) (small : u < max_transactions)
    (room : d.global_ts + 1 < ulong_max) (e : find_key_index d.store kname ≡ some k)
    (wrote : buffered k (d.txs t).writes ≡ some value) where
  inside : Db
  unfolding take_ts begin_tx
  inside = (begin_tx (pos u) (take_ts d).1).1

  read_inside :
      tx_read (some u) kname len inside ≡ tx_read (some u) kname len (begin_tx (pos u) d).1
  unfolding inside take_ts
  read_inside =
      let (x, old) =
        visible_total d.global_ts ulong_max (d.store k).versions (v.chains k) v.clock.0
          (omega (arith, room)) in
      let same : visible (d.global_ts + 1) (d.store k).versions ≡ some x =
        visible_newest (d.global_ts + 1) _ (v.chains k) (v.newest k) room
        ∙ sym
            (visible_newest d.global_ts _ (v.chains k) (v.latest t k active) (omega (arith, room)))
        ∙ old in
      let wrap : (d.global_ts + 1) % 2 ^ 64 ≡ d.global_ts + 1 = omega (arith, room) in
      tx_read-begin_tx u k (take_ts d).1 kname x len small e (rw wrap same)
      ∙ sym (tx_read-begin_tx u k d kname x len small e old)

  inside_lem :
      (inside.store ≡ d.store)
      × (inside.txs t ≡ d.txs t)
      × (inside.txs u
          ≡ record { id = u; state = TxState.active; start_ts = d.global_ts + 1; writes = [] })
  unfolding inside take_ts begin_tx
  inside_lem = (ground arith, ground arith, ground arith)

  inside-IsValid : IsValid inside
  unfolding inside take_ts
  inside-IsValid =
      begin_tx-IsValid (pos u) _ (take_ts-IsValid d v (omega (arith, room))) (ground (arith, room))

  read_landed :
      tx_read (some u) kname len (commit_at d.global_ts t inside)
      ≡ some (strncpy len (strncpy value_len value))
  unfolding buffered
  read_landed =
      let (st, xt, xu) = inside_lem in
      tx_read-commit_at t u k d.global_ts inside kname value len inside-IsValid (rw xt active)
        (rw xu refl) (rw xu refl) n (rw xu (omega arith)) (rw st e) (rw xt wrote)

stamped : ℕ → Busy → Busy
unfolding take_ts
stamped t b = record { db = (take_ts b.db).1; stamps = update b.stamps t (some (take_ts b.db).0) }

stamp_lem : (t : ℕ) (b : Busy) → is_active (b.db.txs t).state ≡ true → stamp t b ≡ stamped t b
unfolding stamp stamped
stamp_lem t b active = rw active refl

land_lem : (t ts : ℕ) (b : Busy) → b.stamps t ≡ some ts → (land t b).db ≡ commit_at ts t b.db
unfolding land
land_lem t ts b e = rw (e, land) refl

-- A transaction that begins between the two steps of a commit reads two values of each key that the commit
-- writes: first what it would have read before the commit, and after the second step what was committed.
pub tx_read_twice :
    (t u k : ℕ) (b : Busy) (kname value : Text) (len : ℕ)
    → IsBusy b
    → is_active (b.db.txs t).state ≡ true
    → t ≢ u
    → u < max_transactions
    → b.db.global_ts + 1 < ulong_max
    → find_key_index b.db.store kname ≡ some k
    → buffered k (b.db.txs t).writes ≡ some value
    → len ≤ value_len
    → (tx_read (some u) kname len (turn (begins (pos u)) (turn (stamps t) b)).db
        ≡ tx_read (some u) kname len (turn (begins (pos u)) b).db)
      × (tx_read (some u) kname len (turn (lands t) (turn (begins (pos u)) (turn (stamps t) b))).db
          ≡ some (strncpy len (strncpy value_len value)))
unfolding turn inside stamped
tx_read_twice t u k b kname value len v active n small room e wrote fits =
    rw (stamp_lem t b active) (
      read_inside t u k b.db kname value len v.valid active n small room e wrote,
      rw (land_lem t b.db.global_ts (record (stamped t b) { db = _ }) (ground arith))
          (read_landed t u k b.db kname value len v.valid active n small room e wrote),
    )
