-- ===== src/Mvcc/Invariant.antt =====
-- The invariant of the store of mvcc-in-memory-key-value.c, and the lemmas that its proofs share.
pub mod Steps
pub mod Writes
use genspark_training.Base.{
  ℕ, zero, suc, ◌+◌, ◌≤◌, ◌<◌, ◌≡◌, refl, ◌≢◌, Bool, true, false, update, ◌==◌, if◌then◌else◌,
  arith, Option, none, some, Bool-cases, List, [], ◌∷◌, ◌++◌, Text, strncpy, All,
}
use genspark_training.Mvcc.Chain.{Version, ulong_max, install, IsChain, IsBefore}
use genspark_training.Mvcc.Deadlock.{max_transactions}
use genspark_training.Mvcc.Deadlock.Graph.{Waits, one, more, Cycle}
use genspark_training.Mvcc.State.{KvPair, Db, Transaction, is_active, value_len, max_keys}
use genspark_training.Mvcc.Ops.{buffered, install_all}
use genspark_training.Mvcc.Buffer.{IsDistinct}

pub record IsValid (d : Db) : Type 0 where
  pub clock : (0 < d.global_ts) × (d.global_ts ≤ ulong_max)
  pub ids : (t : ℕ) → (d.txs t).id ≡ t
  pub chains : (k : ℕ) → IsChain ulong_max (d.store k).versions
  -- The initial versions begin at 1, the first timestamp that is handed out.
  pub newest : (k : ℕ) → IsBefore (d.global_ts + 1) (d.store k).versions
  pub latest :
      (t k : ℕ) → is_active (d.txs t).state ≡ true → IsBefore d.global_ts (d.store k).versions
  pub started :
      (t : ℕ)
      → is_active (d.txs t).state ≡ true
      → (0 < (d.txs t).start_ts) × ((d.txs t).start_ts < d.global_ts)
  pub distinct : (t : ℕ) → is_active (d.txs t).state ≡ true → IsDistinct (d.txs t).writes
  pub ranged :
      (t k : ℕ) (v : Text)
      → is_active (d.txs t).state ≡ true
      → buffered k (d.txs t).writes ≡ some v
      → k < max_keys
  -- An active transaction holds the lock of each key that it has written.
  pub held :
      (t k : ℕ) (v : Text)
      → is_active (d.txs t).state ≡ true
      → buffered k (d.txs t).writes ≡ some v
      → (d.store k).locked_by ≡ some t
  pub owners : (k t : ℕ) → (d.store k).locked_by ≡ some t → is_active (d.txs t).state ≡ true
  pub acyclic : ¬ Cycle max_transactions d.wait_for

Waits-mono :
    {n : ℕ} (a b : ℕ → ℕ → Bool)
    → ((u v : ℕ) → a u v ≡ true → b u v ≡ true)
    → {x y : ℕ} → Waits n a x y
    → Waits n b x y
Waits-mono a b f {x} (one {y = y} h e) = one h (f x y e)
Waits-mono a b f (more {y = y} {z = z} p h e) = more (Waits-mono a b f p) h (f y z e)

-- A graph with fewer edges has no new cycle.
pub acyclic_mono :
    {n : ℕ} (a b : ℕ → ℕ → Bool)
    → ((u v : ℕ) → a u v ≡ true → b u v ≡ true)
    → ¬ Cycle n b
    → ¬ Cycle n a
acyclic_mono a b f h (x, p) = h (x, Waits-mono a b f p)

pub IsBefore-mono : (a b : ℕ) (vs : List Version) → a ≤ b → IsBefore a vs → IsBefore b vs
IsBefore-mono a b [] h q = omega arith
IsBefore-mono a b (v ∷ vs) h q = omega arith

-- The chain of a key behind a commit, where the key has the given buffered value.
abbrev pub committed_chain : ℕ → Option Text → List Version → List Version
committed_chain ts none vs = vs
committed_chain ts (some v) vs = install ts (strncpy value_len v) vs

pub versions-install_all :
    (ts : ℕ) (ws : List (ℕ × Text)) (store : ℕ → KvPair) (k : ℕ)
    → IsDistinct ws
    → (install_all ts ws store k).versions ≡ committed_chain ts (buffered k ws) (store k).versions
unfolding install_all buffered
versions-install_all ts [] store k h = refl
versions-install_all ts ((j, v) ∷ ws) store k h = ground (
  arith,
  versions-install_all ts ws
      (update store j
        (record (store j) { versions = install ts (strncpy value_len v) (store j).versions }))
      k h.1,
)

pub locked_by-install_all :
    (ts : ℕ) (ws : List (ℕ × Text)) (store : ℕ → KvPair) (k : ℕ)
    → (install_all ts ws store k).locked_by ≡ (store k).locked_by
unfolding install_all
locked_by-install_all ts [] store k = refl
locked_by-install_all ts ((j, v) ∷ ws) store k = ground (
  arith,
  locked_by-install_all ts ws
      (update store j
        (record (store j) { versions = install ts (strncpy value_len v) (store j).versions }))
      k,
)
