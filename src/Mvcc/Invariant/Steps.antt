-- ===== src/Mvcc/Invariant/Steps.antt =====
-- `init_store`, `begin_tx`, `tx_commit` and `tx_abort` of mvcc-in-memory-key-value.c keep the invariant.
use genspark_training.Base.{
  inl, inr, ◌∙◌, ℕ, ◌+◌, ◌≤◌, ◌<◌, ◌≡◌, refl, ◌≢◌, Bool, true, false, update, ◌==◌, arith, Option,
  none, some, Bool-cases, Option-cases, leb, ℤ, pos, negsuc, Text,
}
use genspark_training.Mvcc.Chain.{ulong_max, IsChain, IsBefore, install-IsChain, install-IsBefore}
use genspark_training.Mvcc.Deadlock.{max_transactions}
use genspark_training.Mvcc.Deadlock.Graph.{Waits, one, more, Cycle}
use genspark_training.Mvcc.State.{KvPair, Db, Transaction, is_active, init_store}
use genspark_training.Mvcc.Ops.{
  buffered, install_all, begin_tx, take_ts, commit_at, tx_commit, tx_abort,
}
use genspark_training.Mvcc.Locks.{clear_edges, release_locks}
use genspark_training.Mvcc.Invariant.{
  IsValid, acyclic_mono, IsBefore-mono, committed_chain, versions-install_all,
  locked_by-install_all,
}

no_edges : (n : ℕ) {x y : ℕ} → ¬ Waits n (λ u v. false) x y
no_edges n (one h e) = cc
no_edges n (more p h e) = cc

-- `init_store` establishes the invariant, whatever the arrays held.
pub init_store-IsValid :
    (d : Db) → 0 < d.global_ts → d.global_ts ≤ ulong_max → IsValid (init_store d)
unfolding init_store
init_store-IsValid d p q = record {
  clock = (p, q);
  ids = λ t. refl;
  chains = λ k. (refl, omega arith, refl);
  newest = λ k. omega arith;
  latest = λ t k e. absurd (ground arith);
  started = λ t e. absurd (ground arith);
  distinct = λ t e. tt;
  ranged = λ t k v e b. absurd (ground arith);
  held = λ t k v e b. absurd (ground arith);
  owners = λ k t e. absurd (ground arith);
  acyclic = λ c. no_edges max_transactions c.1;
}

clear_edges-acyclic :
    (id : ℕ) (w : ℕ → ℕ → Bool)
    → ¬ Cycle max_transactions w
    → ¬ Cycle max_transactions (clear_edges id w)
clear_edges-acyclic id w h = acyclic_mono (clear_edges id w) w (λ u v e. ground arith) h

pub begin_tx-IsValid :
    (id : ℤ) (d : Db) → IsValid d → d.global_ts < ulong_max → IsValid (begin_tx id d).1
unfolding begin_tx buffered
begin_tx-IsValid (negsuc n) d v h = v
begin_tx-IsValid (pos id) d v h = elim (Bool-cases (leb max_transactions id)) [
  | inl out ↦ rw out v
  | inr fits ↦ rw fits (record {
    clock = omega (arith, v.clock);
    ids = λ t. ground (arith, v.ids t);
    chains = v.chains;
    newest = λ k.
        IsBefore-mono (d.global_ts + 1) _ (d.store k).versions (omega (arith, v.clock))
          (v.newest k);
    latest = λ t k e.
        IsBefore-mono (d.global_ts + 1) _ (d.store k).versions (omega (arith, v.clock))
          (v.newest k);
    started = λ t e. ground (arith, v.started t, v.clock);
    distinct = λ t e. elim (Bool-cases (id == t)) [
      | inl here ↦ rw here tt
      | inr other ↦ rw other (v.distinct t (ground arith))
    ];
    ranged = λ t k x e b. ground (arith, v.ranged t k x);
    held = λ t k x e b. ground (arith, v.held t k x);
    owners = λ k t e. ground (arith, v.owners k t);
    acyclic = clear_edges-acyclic id d.wait_for v.acyclic;
  })
]

-- Both `tx_commit` and `tx_abort` end a transaction: they free its locks and its edges.
module _ (d : Db) (t : ℕ) (v : IsValid d) where
  released-owner :
      (store : ℕ → KvPair) (k u : ℕ)
      → (store k).locked_by ≡ (d.store k).locked_by
      → (release_locks (d.txs t).id store k).locked_by ≡ some u
      → ((d.store k).locked_by ≡ some u) × (t ≢ u)
  released-owner store k u same e = ground (arith, v.ids t)

  released_other :
      (store : ℕ → KvPair) (k u : ℕ)
      → (store k).locked_by ≡ (d.store k).locked_by
      → (d.store k).locked_by ≡ some u
      → t ≢ u
      → (release_locks (d.txs t).id store k).locked_by ≡ some u
  released_other store k u same e n = ground (arith, v.ids t)

  versions-release :
      (store : ℕ → KvPair) (k : ℕ)
      → (release_locks (d.txs t).id store k).versions ≡ (store k).versions
  versions-release store k = ground arith

  module _ (active : is_active (d.txs t).state ≡ true) where
    abbrev pub after : ℕ → ℕ → KvPair
    after ts = install_all ts (d.txs t).writes d.store

    pub chain_after :
        (ts k : ℕ)
        → (release_locks (d.txs t).id (after ts) k).versions
          ≡ committed_chain ts (buffered k (d.txs t).writes) (d.store k).versions
    chain_after ts k =
        versions-release (after ts) k
        ∙ versions-install_all ts (d.txs t).writes d.store k (v.distinct t active)

    module _ (ts : ℕ) (early : ts < d.global_ts)
        (before : (k : ℕ) (x : Text)
          → buffered k (d.txs t).writes ≡ some x
          → IsBefore ts (d.store k).versions) where
      commit_chains : (k : ℕ) → IsChain ulong_max (release_locks (d.txs t).id (after ts) k).versions
      commit_chains k = elim (Option-cases (buffered k (d.txs t).writes)) [
        | inl e ↦ rw (chain_after ts k, e) (v.chains k)
        | inr (x, e) ↦
            rw (chain_after ts k, e)
              (install-IsChain ts _ (d.store k).versions (v.chains k) (before k x e)
                (omega (arith, early, v.clock)))
      ]

      commit_latest :
          (k : ℕ) → IsBefore d.global_ts (release_locks (d.txs t).id (after ts) k).versions
      commit_latest k = elim (Option-cases (buffered k (d.txs t).writes)) [
        | inl e ↦ rw (chain_after ts k, e) (v.latest t k active)
        | inr (x, e) ↦ rw (chain_after ts k, e) (install-IsBefore ts _ _ (d.store k).versions early)
      ]

      -- The part of a commit under the lock keeps the invariant.
      pub commit_at-IsValid : IsValid (commit_at ts t d)
      unfolding commit_at
      commit_at-IsValid = record {
        clock = v.clock;
        ids = λ u. ground (arith, v.ids u);
        chains = commit_chains;
        newest = λ k. IsBefore-mono d.global_ts _ _ (omega arith) (commit_latest k);
        latest = λ u k e. commit_latest k;
        started = λ u e. ground (arith, v.started u);
        distinct = λ u e. elim (Bool-cases (t == u)) [
          | inl here ↦ absurd (ground arith)
          | inr other ↦ rw other (v.distinct u (ground arith))
        ];
        ranged = λ u k x e b. ground (arith, v.ranged u k x);
        held = λ u k x e b.
            released_other (after ts) k u (locked_by-install_all ts (d.txs t).writes d.store k)
              (ground (arith, v.held u k x)) (ground arith);
        owners = λ k u e.
            let (old, other) =
              released-owner (after ts) k u (locked_by-install_all ts (d.txs t).writes d.store k)
                e in
            ground (arith, v.owners k u old);
        acyclic = clear_edges-acyclic (d.txs t).id d.wait_for v.acyclic;
      }

-- So does handing out a timestamp, while there are some left.
pub take_ts-IsValid : (d : Db) → IsValid d → d.global_ts < ulong_max → IsValid (take_ts d).1
unfolding take_ts
take_ts-IsValid d v room = record {
  clock = omega (arith, v.clock);
  ids = v.ids;
  chains = v.chains;
  newest = λ k. IsBefore-mono (d.global_ts + 1) _ _ (omega (arith, v.clock)) (v.newest k);
  latest = λ u k e. IsBefore-mono d.global_ts _ _ (omega (arith, v.clock)) (v.latest u k e);
  started = λ u e. omega (arith, v.started u e, v.clock);
  distinct = v.distinct;
  ranged = v.ranged;
  held = v.held;
  owners = v.owners;
  acyclic = v.acyclic;
}

-- `tx_commit` keeps the invariant while timestamps are left.
pub tx_commit-IsValid :
    (handle : Option ℕ) (d : Db)
    → IsValid d
    → d.global_ts < ulong_max
    → IsValid (tx_commit handle d).1
unfolding tx_commit
tx_commit-IsValid none d v room = v
tx_commit-IsValid (some t) d v room = elim (Bool-cases (is_active (d.txs t).state)) [
  | inr idle ↦ rw idle v
  | inl active ↦ rw active (
      commit_at-IsValid (take_ts d).1 t (take_ts-IsValid d v room) active d.global_ts
        (omega (arith, v.clock)) (λ k x e. v.latest t k active))
]

-- An aborted transaction: its locks are free, and it is no longer active.
pub stop-IsValid :
    (t : ℕ) (tx : Transaction) (w : ℕ → ℕ → Bool) (d : Db)
    → IsValid d
    → tx.id ≡ t
    → is_active tx.state ≡ false
    → ¬ Cycle max_transactions w
    → IsValid (record d {
      store = release_locks (d.txs t).id d.store;
      txs = update d.txs t tx;
      wait_for = w;
    })
stop-IsValid t tx w d v own stopped free = record {
  clock = v.clock;
  ids = λ u. ground (arith, v.ids u);
  chains = λ k. rw (versions-release d t v d.store k) (v.chains k);
  newest = λ k. rw (versions-release d t v d.store k) (v.newest k);
  latest = λ u k e. rw (versions-release d t v d.store k) (v.latest u k (ground arith));
  started = λ u e. ground (arith, v.started u);
  distinct = λ u e. elim (Bool-cases (t == u)) [
    | inl here ↦ absurd (ground arith)
    | inr other ↦ rw other (v.distinct u (ground arith))
  ];
  ranged = λ u k x e b. ground (arith, v.ranged u k x);
  held = λ u k x e b.
      released_other d t v d.store k u refl (ground (arith, v.held u k x)) (ground arith);
  owners = λ k u e.
      let (old, other) = released-owner d t v d.store k u refl e in
      ground (arith, v.owners k u old);
  acyclic = free;
}

-- `tx_abort` keeps the invariant.
pub tx_abort-IsValid : (handle : Option ℕ) (d : Db) → IsValid d → IsValid (tx_abort handle d)
unfolding tx_abort
tx_abort-IsValid none d v = v
tx_abort-IsValid (some t) d v =
    stop-IsValid t _ _ d v (v.ids t) refl (clear_edges-acyclic (d.txs t).id d.wait_for v.acyclic)
