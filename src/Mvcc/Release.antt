-- ===== src/Mvcc/Release.antt =====
-- What the end of a transaction of mvcc-in-memory-key-value.c leaves behind: nothing of its locks and
-- edges, and all of the others'.
use genspark_training.Base.{ℕ, ◌≡◌, ◌≢◌, ◌↔◌, true, false, some, arith}
use genspark_training.Mvcc.State.{Db, is_active}
use genspark_training.Mvcc.Ops.{Status, tx_commit, tx_abort}
use genspark_training.Mvcc.Invariant.{IsValid, locked_by-install_all}

-- `d'` has no lock or edge of `t`, and the locks and edges of the others are those of `d`.
pub record Released (t : ℕ) (d d' : Db) : Type 0 where
  pub unlocked : (k : ℕ) → (d'.store k).locked_by ≢ some t
  pub kept_locks :
      (k u : ℕ) → u ≢ t → ((d'.store k).locked_by ≡ some u) ↔ ((d.store k).locked_by ≡ some u)
  pub waits_for_none : (u : ℕ) → d'.wait_for t u ≡ false
  pub awaited_by_none : (u : ℕ) → d'.wait_for u t ≡ false
  pub kept_edges : (u v : ℕ) → u ≢ t → v ≢ t → d'.wait_for u v ≡ d.wait_for u v
  pub stopped : is_active (d'.txs t).state ≡ false

-- A commit of an active transaction, which succeeds, and an abort, whatever the state of the transaction,
-- release all that it holds and nothing else, and it is no longer active.
pub tx_commit-tx_abort-Released :
    (t : ℕ) (d : Db)
    → IsValid d
    → (is_active (d.txs t).state ≡ true
        → ((tx_commit (some t) d).0 ≡ Status.done) × Released t d (tx_commit (some t) d).1)
      × Released t d (tx_abort (some t) d)
unfolding tx_commit tx_abort
tx_commit-tx_abort-Released t d v = (
  λ a. (
    ground arith,
    rw a (record {
      unlocked = λ k e.
          ground (arith, v.ids t, locked_by-install_all d.global_ts (d.txs t).writes d.store k);
      kept_locks = λ k u h. (
        λ e. ground (arith, v.ids t, locked_by-install_all d.global_ts (d.txs t).writes d.store k),
        λ e. ground (arith, v.ids t, locked_by-install_all d.global_ts (d.txs t).writes d.store k),
      );
      waits_for_none = λ u. ground (arith, v.ids t);
      awaited_by_none = λ u. ground (arith, v.ids t);
      kept_edges = λ u w h k. ground (arith, v.ids t);
      stopped = ground arith;
    }),
  ),
  record {
    unlocked = λ k e. ground (arith, v.ids t);
    kept_locks = λ k u h. ((λ e. ground (arith, v.ids t)), (λ e. ground (arith, v.ids t)));
    waits_for_none = λ u. ground (arith, v.ids t);
    awaited_by_none = λ u. ground (arith, v.ids t);
    kept_edges = λ u w h k. ground (arith, v.ids t);
    stopped = ground arith;
  },
)
